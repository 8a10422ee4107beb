-- ===== src/Leaderboard/Mysql.antt =====
-- leaderboard-poc/internal/mysqlclient/mysqlclient.go: `FriendIDs`. The database is a record of its
-- queries; the statements on the other tables are records in the children. A query's rows are what scanning them one after the other gives, and what `rows.Err()`
-- says at the end.
pub mod Snapshots
pub mod Events
use classic_cheese.Prelude.{String, List, [], ◌∷◌, Option, none, some}
use classic_cheese.Prelude.Int.{ℤ}
use classic_cheese.Prelude.Text.{concat}
use classic_cheese.Prelude.Decimal.{itoa}
use classic_cheese.Leaderboard.Redis.{Error, failed, message, Result, value, error}

pub record Rows (A : Type 0) : Type 0 where
  pub scans : List (Result A)
  pub err : Option Error

pub record Database (S : Type 0) : Type 0 where
  -- SELECT friend_id FROM friends WHERE user_id = ?
  pub select_friends : ℤ → S → Result (Rows ℤ) × S

-- `fmt.Errorf(text + ": %w", e)`.
unfoldable pub wrap : String → Error → Error
unfolding concat message
wrap text e = failed (concat (text ∷ ": " ∷ message e ∷ []))

unfoldable pub cons_result : {A : Type 0} → A → Result (List A) → Result (List A)
cons_result x (value xs) = value (x ∷ xs)
cons_result x (error e) = error e

unfoldable pub scan_ids : List (Result ℤ) → Option Error → Result (List ℤ)
unfolding wrap cons_result
scan_ids [] none = value []
scan_ids [] (some e) = error e
scan_ids (value id ∷ scans) err = cons_result id (scan_ids scans err)
scan_ids (error e ∷ scans) err = error (wrap "scanning friend id" e)

unfoldable pub scanned : {S : Type 0} → ℤ → Result (Rows ℤ) × S → Result (List ℤ) × S
unfolding scan_ids concat itoa
scanned user_id (error e, s) =
    (error (wrap (concat ("querying friends for user " ∷ itoa user_id ∷ [])) e), s)
scanned user_id (value rows, s) = (scan_ids rows.scans rows.err, s)

unfoldable pub friend_ids : {S : Type 0} → Database S → ℤ → S → Result (List ℤ) × S
unfolding scanned
friend_ids db user_id s = scanned user_id (db.select_friends user_id s)
