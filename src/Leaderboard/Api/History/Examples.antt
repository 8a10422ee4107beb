-- ===== src/Leaderboard/Api/History/Examples.antt =====
-- A snapshot of a leaderboard of two users by leaderboard-poc/cmd/api, and the history after it.
use classic_cheese.Prelude.{
  ℕ, ◌≡◌, refl, ap, ◌∙◌, String, String_discrete, List, [], ◌∷◌, Option, none, some, arith, ite,
  if_pos, if_neg, ne_by_test, map, if◌then◌else◌,
}
use classic_cheese.Prelude.Lists.{take}
use classic_cheese.Prelude.Int.{ℤ, pos, pos_part}
use classic_cheese.Prelude.Text.{is_empty}
use classic_cheese.Prelude.Decimal.{atoi}
use classic_cheese.Leaderboard.Examples.{integers}
use classic_cheese.Leaderboard.Models.{SnapshotRow}
use classic_cheese.Leaderboard.Redis.{Redis, Error, failed, value, error, Z, top_n, global_key}
use classic_cheese.Leaderboard.Mysql.{cons_result}
use classic_cheese.Leaderboard.Sorting.{insertion_sort}
use classic_cheese.Leaderboard.Mysql.Snapshots.Selects.{keep, row_of, less_rank}
use classic_cheese.Leaderboard.Mysql.Snapshots.{
  SnapshotRecord, latest_snapshot, latest_found, scanned_rows, scan_rows, max_of, rows_of,
  insert_snapshot, begun, prepared, insert_rows, finish, closed, rolled_back,
}
use classic_cheese.Leaderboard.Mysql.Snapshots.Examples.{
  Tables, tables, view, nanoseconds, listing, tables-IsTransactional, tables-IsSelecting,
}
use classic_cheese.Leaderboard.Api.{write_json}
use classic_cheese.Leaderboard.Api.Reads.{Query}
use classic_cheese.Leaderboard.Api.History.{
  AdminSnapshotRequest, requested_n, snapshot_place, region_of, rows_from, row_of_member,
  reply_snapshot, write_snapshot, handle_admin_snapshot, reply_history, handle_leaderboard_history,
}
use classic_cheese.Leaderboard.Api.History.Reread.{
  Asks, posted, asked, history_limit, IsLater, RepliesRows, handle_leaderboard_history-snapshot,
}

abbrev first : Z ℤ
first = record { score = pos 90; member = "7" }

abbrev second : Z ℤ
second = record { score = pos 80; member = "8" }

abbrev unknown : Error
unknown = failed "unknown command"

-- Every sorted set has the two members.
abbrev two_members : Redis Tables ℤ
two_members = record {
  zrevrank = λ key member s. (error unknown, s);
  zscore = λ key member s. (error unknown, s);
  zrevrange_with_scores = λ key a b s. (value (first ∷ second ∷ []), s);
  mget = λ keys s. (error unknown, s);
  exec = λ commands s. (error unknown, s);
  publish_to = λ channel payload s. (error unknown, s);
}

abbrev bad_number : String → Error
bad_number text = failed "invalid syntax"

abbrev pub request : AdminSnapshotRequest
request = record {
  scope = "global";
  region = "";
  period_type = "daily";
  period_key = "2026-09-07";
  top_n = pos 10;
}

abbrev pub query : Query
query name = ite (String_discrete name "scope") "global" (
    ite (String_discrete name "period_type") "daily"
      (ite (String_discrete name "period_key") "2026-09-07" ""))

abbrev empty : Tables
empty = ([], [])

no_region : query "region" ≡ ""
no_region =
    if_neg (String_discrete "region" "scope") (ne_by_test "region" "scope" refl) _ _
    ∙ if_neg (String_discrete "region" "period_type") (ne_by_test "region" "period_type" refl) _ _
    ∙ if_neg (String_discrete "region" "period_key") (ne_by_test "region" "period_key" refl) _ _

pub query-Asks : Asks request none query
unfolding region_of is_empty
query-Asks = record {
  scope = if_pos (String_discrete "scope" "scope") refl _ _;
  in_region = ap (λ text. if is_empty text then none else some text) no_region;
  period_type =
      if_neg (String_discrete "period_type" "scope") (ne_by_test "period_type" "scope" refl) _ _
      ∙ if_pos (String_discrete "period_type" "period_type") refl _ _;
  period_key =
      if_neg (String_discrete "period_key" "scope") (ne_by_test "period_key" "scope" refl) _ _
      ∙ if_neg (String_discrete "period_key" "period_type")
          (ne_by_test "period_key" "period_type" refl) _ _
      ∙ if_pos (String_discrete "period_key" "period_key") refl _ _;
}

place : snapshot_place request ≡ value (global_key "daily" "2026-09-07", none)
unfolding snapshot_place
place = if_pos (String_discrete "global" "global") refl _ _

read :
    top_n two_members (global_key "daily" "2026-09-07") (requested_n request) empty
    ≡ (value (first ∷ second ∷ []), empty)
unfolding top_n requested_n
read = refl

ok :
    (handle_admin_snapshot two_members tables integers bad_number 5000000000
      (value request)
      empty).0.status
    ≡ 200
unfolding write_snapshot reply_snapshot insert_snapshot begun prepared insert_rows finish closed
    rolled_back rows_from row_of_member cons_result atoi write_json requested_n
ok =
    ap (λ o. o.0.status)
      (posted two_members tables integers bad_number request _ none 5000000000 (first ∷ second ∷ [])
        empty empty place read)

-- This table answers every request for a snapshot.
scanned : (rows : List (SnapshotRow ℕ)) → scan_rows (map value rows) none ≡ value rows
unfolding scan_rows cons_result
scanned [] = refl
scanned (row ∷ rows) = ap (cons_result row) (scanned rows)

listed :
    (rs : List (SnapshotRecord ℕ)) (limit : ℤ) (s : Tables)
    → (reply_history two_members tables integers bad_number
        (scanned_rows (value (listing rs limit), s))).0.status
      ≡ 200
unfolding scanned_rows listing reply_history write_json
listed rs limit s =
    ap (λ r. (reply_history two_members tables integers bad_number (r, s)).0.status)
      (scanned (take (pos_part limit) (insertion_sort less_rank (map row_of rs))))

found :
    (m : Option ℕ) (scope period_type period_key : String) (limit : ℤ) (s : Tables)
    → (reply_history two_members tables integers bad_number
        (latest_found tables scope none period_type period_key limit (value m, s))).0.status
      ≡ 200
unfolding latest_found rows_of reply_history write_json
found none scope period_type period_key limit s = refl
found (some at) scope period_type period_key limit s = listed _ limit s

abbrev kept : Tables
kept =
    (handle_admin_snapshot two_members tables integers bad_number 5000000000 (value request)
      empty).1

ok_again :
    (handle_leaderboard_history two_members tables integers bad_number query kept).0.status ≡ 200
unfolding latest_snapshot max_of
ok_again =
    ap (λ o. o.0.status)
      (asked two_members tables integers bad_number request none query kept query-Asks)
    ∙ found _ "global" "daily" "2026-09-07" _ kept

nothing_before :
    IsLater two_members tables integers bad_number view nanoseconds request none 5000000000 empty
unfolding keep
nothing_before = (refl, tt)

handle_leaderboard_history-snapshot_example :
    RepliesRows two_members tables integers bad_number view nanoseconds
      (history_limit query)
      5000000000
      (first ∷ second ∷ [])
      (handle_leaderboard_history two_members tables integers bad_number query kept).0
handle_leaderboard_history-snapshot_example =
    handle_leaderboard_history-snapshot two_members tables integers bad_number view nanoseconds
      tables-IsTransactional tables-IsSelecting request (global_key "daily" "2026-09-07") none query
      5000000000 first (second ∷ []) empty empty kept place query-Asks read (omega arith)
      nothing_before ok refl ok_again
