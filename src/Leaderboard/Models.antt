-- ===== src/Leaderboard/Models.antt =====
-- leaderboard-poc/internal/models/models.go: what the services exchange. `T` is time.Time.
pub mod Period
use classic_cheese.Prelude.{String, Bool}
use classic_cheese.Prelude.Int.{ℤ}

pub record ScoreEvent (T : Type 0) : Type 0 where
  pub user_id : ℤ
  pub region : String
  pub period_type : String
  pub period_key : String
  pub score_delta : ℤ
  pub timestamp : T

pub record Notification (F T : Type 0) : Type 0 where
  pub user_id : ℤ
  pub scope : String
  pub region : String
  pub period_type : String
  pub period_key : String
  pub rank : ℤ
  pub previous_rank : ℤ
  pub score : F
  pub reason : String
  pub timestamp : T

pub record SnapshotRow (T : Type 0) : Type 0 where
  pub rank_position : ℤ
  pub user_id : ℤ
  pub score : ℤ
  pub snapshot_at : T

-- What a consumer tells the broker about a message: `Ack(false)` or `Nack(false, requeue)`.
pub data Verdict : Type 0 where
  ack : Verdict
  nack : Bool → Verdict
