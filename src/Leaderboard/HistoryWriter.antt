-- ===== src/Leaderboard/HistoryWriter.antt =====
-- leaderboard-poc/cmd/historywriter/main.go: the loop over the deliveries. A message is what
-- encoding/json makes of its body, `none` if that fails. Logging is left out.
pub mod Delivery
pub mod Examples
use classic_cheese.Prelude.{ℕ, zero, suc, true, false, List, [], ◌∷◌, Option, none, some}
use classic_cheese.Leaderboard.Models.{ScoreEvent, Verdict, ack, nack}
use classic_cheese.Leaderboard.Redis.{Result, value, error}
use classic_cheese.Leaderboard.Mysql.Events.{EventStatements, insert_score_event}

abbrev pub Message : Type 0 → Type 0
Message T = Option (ScoreEvent T)

module _ {S T : Type 0} (db : EventStatements S T) where
  unfoldable pub verdict_of : Result (Unit {0}) × S → Verdict × S
  verdict_of (value done, s) = (ack, s)
  verdict_of (error e, s) = (nack true, s)

  unfoldable pub handle_delivery : Message T → S → Verdict × S
  unfolding verdict_of insert_score_event
  handle_delivery none s = (nack false, s)
  handle_delivery (some event) s = verdict_of (insert_score_event db event s)

-- The broker: a message is gone after an ack or a nack without requeue, and otherwise stands in the
-- queue again, where `requeue` puts it.
module _ {T : Type 0} (requeue : Message T → List (Message T) → List (Message T)) where
  unfoldable pub settle : Verdict → Message T → List (Message T) → List (Message T)
  settle ack m queue = queue
  settle (nack true) m queue = requeue m queue
  settle (nack false) m queue = queue

  -- The loop for so many deliveries, with what is left in the queue; an empty queue stays empty.
  unfoldable pub run_loop :
      {S : Type 0} → EventStatements S T → ℕ → List (Message T) → S → List (Message T) × S
  unfolding settle handle_delivery
  run_loop db zero queue s = (queue, s)
  run_loop db (suc n) [] s = ([], s)
  run_loop db (suc n) (m ∷ queue) s =
      let (verdict, t) = handle_delivery db m s in run_loop db n (settle verdict m queue) t
