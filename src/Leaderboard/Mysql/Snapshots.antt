-- ===== src/Leaderboard/Mysql/Snapshots.antt =====
-- leaderboard-poc/internal/mysqlclient/mysqlclient.go: `InsertSnapshot` and `LatestSnapshot`, over the
-- statements on the table leaderboard_snapshots. Transactions and prepared statements are numbers. A
-- region is `none` for a nil pointer. `T` is time.Time.
pub mod Laws
pub mod Inserted
pub mod Selects
pub mod Latest
pub mod RoundTrip
pub mod Examples
use classic_cheese.Prelude.{ℕ, String, List, [], ◌∷◌, map, Option, none, some, if◌then◌else◌}
use classic_cheese.Prelude.Int.{ℤ, pos, leb_ℤ}
use classic_cheese.Prelude.Text.{concat}
use classic_cheese.Prelude.Decimal.{itoa}
use classic_cheese.Leaderboard.Models.{SnapshotRow}
use classic_cheese.Leaderboard.Redis.{Error, Result, value, error}
use classic_cheese.Leaderboard.Mysql.{Rows, wrap, cons_result}

-- A row of the table, without its id.
pub record SnapshotRecord (T : Type 0) : Type 0 where
  pub scope : String
  pub region : Option String
  pub period_type : String
  pub period_key : String
  pub rank_position : ℤ
  pub user_id : ℤ
  pub score : ℤ
  pub snapshot_at : T

pub record SnapshotStatements (S T : Type 0) : Type 0 where
  pub begin_tx : S → Result ℕ × S
  -- INSERT INTO leaderboard_snapshots (...) VALUES (?, ?, ?, ?, ?, ?, ?, ?), in a transaction
  pub prepare_insert : ℕ → S → Result ℕ × S
  pub insert_row : ℕ → SnapshotRecord T → S → Result (Unit {0}) × S
  pub close : ℕ → S → S
  pub commit : ℕ → S → Result (Unit {0}) × S
  pub rollback : ℕ → S → S
  -- SELECT MAX(snapshot_at) ... WHERE scope = ? AND region IS NULL AND period_type = ? AND
  -- period_key = ?, and the same WHERE ... region = ? ...
  pub select_max : String → String → String → S → Result (Option T) × S
  pub select_max_of : String → String → String → String → S → Result (Option T) × S
  -- SELECT rank_position, user_id, score, snapshot_at ... AND snapshot_at = ? ORDER BY rank_position
  -- ASC LIMIT ?, with the same two conditions
  pub select_rows : String → String → String → T → ℤ → S → Result (Rows (SnapshotRow T)) × S
  pub select_rows_of :
      String → String → String → String → T → ℤ → S → Result (Rows (SnapshotRow T)) × S

module _ {T : Type 0} where
  unfoldable pub record_of :
      String → Option String → String → String → T → SnapshotRow T → SnapshotRecord T
  record_of scope region period_type period_key at row = record {
    scope = scope;
    region = region;
    period_type = period_type;
    period_key = period_key;
    rank_position = row.rank_position;
    user_id = row.user_id;
    score = row.score;
    snapshot_at = at;
  }

  unfoldable pub scan_rows :
      List (Result (SnapshotRow T)) → Option Error → Result (List (SnapshotRow T))
  unfolding wrap cons_result
  scan_rows [] none = value []
  scan_rows [] (some e) = error e
  scan_rows (value row ∷ scans) err = cons_result row (scan_rows scans err)
  scan_rows (error e ∷ scans) err = error (wrap "scanning snapshot row" e)

  unfoldable pub scanned_rows :
      {S : Type 0} → Result (Rows (SnapshotRow T)) × S → Result (List (SnapshotRow T)) × S
  unfolding wrap scan_rows
  scanned_rows (error e, s) = (error (wrap "querying snapshot rows" e), s)
  scanned_rows (value rows, s) = (scan_rows rows.scans rows.err, s)

unfoldable pub row_limit : ℤ → ℤ
row_limit limit = if leb_ℤ limit (pos 0) then pos 10 else limit

module _ {S T : Type 0} (db : SnapshotStatements S T) where
  unfoldable pub insert_rows : ℕ → List (SnapshotRecord T) → S → Result (Unit {0}) × S
  unfolding wrap concat itoa
  insert_rows stmt [] s = (value tt, s)
  insert_rows stmt (r ∷ rs) s =
      let (result, t) = db.insert_row stmt r s in
      elim result [
        | value done ↦ insert_rows stmt rs t
        | error e ↦
            (error (wrap (concat ("inserting snapshot row for user " ∷ itoa r.user_id ∷ [])) e), t)
      ]

  -- What is left to do after the rows; the deferred calls, the last one deferred first.
  unfoldable pub finish : ℕ → Result (Unit {0}) × S → Result (Unit {0}) × S
  finish tx (value done, s) = db.commit tx s
  finish tx (error e, s) = (error e, s)

  unfoldable pub closed : ℕ → Result (Unit {0}) × S → Result (Unit {0}) × S
  closed stmt (result, s) = (result, db.close stmt s)

  unfoldable pub rolled_back : ℕ → Result (Unit {0}) × S → Result (Unit {0}) × S
  rolled_back tx (result, s) = (result, db.rollback tx s)

  unfoldable pub prepared : ℕ → List (SnapshotRecord T) → Result ℕ × S → Result (Unit {0}) × S
  unfolding closed finish insert_rows wrap
  prepared tx rs (error e, s) = (error (wrap "preparing snapshot insert" e), s)
  prepared tx rs (value stmt, s) = closed stmt (finish tx (insert_rows stmt rs s))

  unfoldable pub begun : List (SnapshotRecord T) → Result ℕ × S → Result (Unit {0}) × S
  unfolding rolled_back prepared wrap
  begun rs (error e, s) = (error (wrap "beginning snapshot transaction" e), s)
  begun rs (value tx, s) = rolled_back tx (prepared tx rs (db.prepare_insert tx s))

  unfoldable pub insert_snapshot :
      String
      → Option String
      → String
      → String
      → List (SnapshotRow T)
      → T
      → S
      → Result (Unit {0}) × S
  unfolding begun record_of
  insert_snapshot scope region period_type period_key rows at s =
      begun (map (record_of scope region period_type period_key at) rows) (db.begin_tx s)

  unfoldable pub max_of : String → Option String → String → String → S → Result (Option T) × S
  max_of scope none period_type period_key s = db.select_max scope period_type period_key s
  max_of scope (some region) period_type period_key s =
      db.select_max_of scope region period_type period_key s

  unfoldable pub rows_of :
      String → Option String → String → String → ℤ → T → S → Result (Rows (SnapshotRow T)) × S
  rows_of scope none period_type period_key limit at s =
      db.select_rows scope period_type period_key at limit s
  rows_of scope (some region) period_type period_key limit at s =
      db.select_rows_of scope region period_type period_key at limit s

  -- A nil slice is the empty list here; encoding/json writes it as null.
  unfoldable pub latest_found :
      String
      → Option String
      → String
      → String
      → ℤ
      → Result (Option T) × S
      → Result (List (SnapshotRow T)) × S
  unfolding scanned_rows rows_of wrap
  latest_found scope region period_type period_key limit (error e, s) =
      (error (wrap "finding latest snapshot timestamp" e), s)
  latest_found scope region period_type period_key limit (value none, s) = (value [], s)
  latest_found scope region period_type period_key limit (value (some at), s) =
      scanned_rows (rows_of scope region period_type period_key limit at s)

  unfoldable pub latest_snapshot :
      String → Option String → String → String → ℤ → S → Result (List (SnapshotRow T)) × S
  unfolding latest_found max_of row_limit
  latest_snapshot scope region period_type period_key limit s =
      latest_found scope region period_type period_key (row_limit limit)
        (max_of scope region period_type period_key s)
