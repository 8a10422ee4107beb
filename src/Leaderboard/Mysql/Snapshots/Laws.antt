-- ===== src/Leaderboard/Mysql/Snapshots/Laws.antt =====
-- What `InsertSnapshot` and `LatestSnapshot` of leaderboard-poc rely on: transactions are atomic, MAX
-- and ORDER BY ... LIMIT do what they say, and nobody else writes to the table meanwhile.
use classic_cheese.Prelude.{ℕ, ◌≡◌, ◌⊎◌, List, [], ◌∷◌, ◌++◌}
use classic_cheese.Leaderboard.Redis.{Error, value, error}
use classic_cheese.Leaderboard.Mysql.Snapshots.{SnapshotRecord, SnapshotStatements}

-- The rows of the table and those that a transaction has added to them so far; the transaction that
-- a statement was prepared in; what the column snapshot_at keeps of a time (whole seconds).
pub record SnapshotView (S T : Type 0) : Type 0 where
  pub table : S → List (SnapshotRecord T)
  pub pending : ℕ → S → List (SnapshotRecord T)
  pub tx_of : ℕ → ℕ
  pub stored : T → T

abbrev pub kept : {S T : Type 0} → SnapshotView S T → SnapshotRecord T → SnapshotRecord T
kept v r = record {
  scope = r.scope;
  region = r.region;
  period_type = r.period_type;
  period_key = r.period_key;
  rank_position = r.rank_position;
  user_id = r.user_id;
  score = r.score;
  snapshot_at = v.stored r.snapshot_at;
}

-- A COMMIT that fails may have been carried out, if only its answer is lost.
pub record IsTransactional {S T : Type 0} (db : SnapshotStatements S T) (v : SnapshotView S T)
    : Type 0 where
  pub begin_value :
      (s t : S) (tx : ℕ)
      → db.begin_tx s ≡ (value tx, t)
      → (v.table t ≡ v.table s) × (v.pending tx t ≡ [])
  pub begin_error : (s t : S) (e : Error) → db.begin_tx s ≡ (error e, t) → v.table t ≡ v.table s
  pub prepare_value :
      (tx stmt : ℕ) (s t : S)
      → db.prepare_insert tx s ≡ (value stmt, t)
      → (v.tx_of stmt ≡ tx) × (v.table t ≡ v.table s) × (v.pending tx t ≡ v.pending tx s)
  pub prepare_error :
      (tx : ℕ) (s t : S) (e : Error) → db.prepare_insert tx s ≡ (error e, t) → v.table t ≡ v.table s
  pub insert_value :
      (stmt : ℕ) (r : SnapshotRecord T) (s t : S)
      → db.insert_row stmt r s ≡ (value tt, t)
      → (v.table t ≡ v.table s)
        × (v.pending (v.tx_of stmt) t ≡ v.pending (v.tx_of stmt) s ++ kept v r ∷ [])
  pub insert_error :
      (stmt : ℕ) (r : SnapshotRecord T) (s t : S) (e : Error)
      → db.insert_row stmt r s ≡ (error e, t)
      → v.table t ≡ v.table s
  pub commit_value :
      (tx : ℕ) (s t : S) → db.commit tx s ≡ (value tt, t) → v.table t ≡ v.table s ++ v.pending tx s
  pub commit_error :
      (tx : ℕ) (s t : S) (e : Error)
      → db.commit tx s ≡ (error e, t)
      → (v.table t ≡ v.table s) ⊎ (v.table t ≡ v.table s ++ v.pending tx s)
  pub rollback_lem : (tx : ℕ) (s : S) → v.table (db.rollback tx s) ≡ v.table s
  pub close_lem : (stmt : ℕ) (s : S) → v.table (db.close stmt s) ≡ v.table s
