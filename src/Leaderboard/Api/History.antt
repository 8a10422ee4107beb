-- ===== src/Leaderboard/Api/History.antt =====
-- leaderboard-poc/cmd/api/handlers.go: POST /admin/snapshot and GET /leaderboard/history. `decoded` is
-- what encoding/json makes of the body.
pub mod Rows
pub mod Reread
pub mod Examples
use classic_cheese.Prelude.{
  ℕ, zero, suc, String, String_discrete, List, [], ◌∷◌, Option, none, some, ite, if◌then◌else◌,
}
use classic_cheese.Prelude.Lists.{length}
use classic_cheese.Prelude.Int.{ℤ, pos, ◌+ℤ◌, wrap64, leb_ℤ}
use classic_cheese.Prelude.Text.{is_empty}
use classic_cheese.Prelude.Decimal.{atoi}
use classic_cheese.Http.{Reply, status_ok, status_bad_request, status_internal_server_error}
use classic_cheese.Leaderboard.Score.{Float64}
use classic_cheese.Leaderboard.Models.{SnapshotRow}
use classic_cheese.Leaderboard.Redis.{
  Redis, Error, Result, value, error, Z, top_n, regional_key, global_key,
}
use classic_cheese.Leaderboard.Mysql.{cons_result}
use classic_cheese.Leaderboard.Mysql.Snapshots.{
  SnapshotStatements, insert_snapshot, latest_snapshot,
}
use classic_cheese.Leaderboard.Api.{
  Instant, Payload, snapshot_rows, snapshot_written, write_json, write_error, err_missing_region,
  err_unknown_scope, parse_int_default,
}
use classic_cheese.Leaderboard.Api.Reads.{Query}

pub record AdminSnapshotRequest : Type 0 where
  pub scope : String
  pub region : String
  pub period_type : String
  pub period_key : String
  pub top_n : ℤ

unfoldable pub requested_n : AdminSnapshotRequest → ℤ
requested_n req = if leb_ℤ req.top_n (pos 0) then pos 10 else req.top_n

-- The key of the sorted set, and the region of the rows.
unfoldable pub snapshot_place : AdminSnapshotRequest → Result (String × Option String)
unfolding global_key regional_key is_empty
snapshot_place req =
    ite (String_discrete req.scope "global")
      (value (global_key req.period_type req.period_key, none))
      (ite (String_discrete req.scope "regional")
        (if is_empty req.region
          then error err_missing_region
          else value (regional_key req.region req.period_type req.period_key, some req.region))
        (error err_unknown_scope))

unfoldable pub region_of : Query → Option String
unfolding is_empty
region_of q = if is_empty (q "region") then none else some (q "region")

module _ {S F : Type 0} (redis : Redis S F) (db : SnapshotStatements S Instant) (float : Float64 F)
    (atoi_error : String → Error) where
  unfoldable pub row_of_member :
      ℕ → Z F → Option ℤ → Result (List (SnapshotRow Instant)) → Result (List (SnapshotRow Instant))
  unfolding cons_result wrap64 ◌+ℤ◌
  row_of_member i z none rest = error (atoi_error z.member)
  row_of_member i z (some user_id) rest =
      cons_result
        (record {
          rank_position = wrap64 (pos i +ℤ pos 1);
          user_id = user_id;
          score = float.to_int z.score;
          snapshot_at = 0;
        })
        rest

  -- The rows of the members from the i-th on.
  unfoldable pub rows_from : ℕ → List (Z F) → Result (List (SnapshotRow Instant))
  unfolding row_of_member atoi
  rows_from i [] = value []
  rows_from i (z ∷ zs) = row_of_member i z (atoi z.member) (rows_from (suc i) zs)

  unfoldable pub reply_snapshot : ℕ → Instant → Result (Unit {0}) × S → Reply (Payload F) × S
  unfolding write_json write_error
  reply_snapshot n now (value done, s) = (write_json status_ok (snapshot_written n now), s)
  reply_snapshot n now (error e, s) = (write_error status_internal_server_error e, s)

  unfoldable pub write_snapshot :
      AdminSnapshotRequest
      → Option String
      → Instant
      → Result (List (SnapshotRow Instant))
      → S
      → Reply (Payload F) × S
  unfolding reply_snapshot insert_snapshot write_error
  write_snapshot req region now (error e) s = (write_error status_internal_server_error e, s)
  write_snapshot req region now (value rows) s =
      reply_snapshot (length rows) now
        (insert_snapshot db req.scope region req.period_type req.period_key rows now s)

  unfoldable pub snapshot_top :
      AdminSnapshotRequest
      → Option String
      → Instant
      → Result (List (Z F)) × S
      → Reply (Payload F) × S
  unfolding write_snapshot rows_from write_error
  snapshot_top req region now (error e, s) = (write_error status_internal_server_error e, s)
  snapshot_top req region now (value zs, s) = write_snapshot req region now (rows_from 0 zs) s

  unfoldable pub snapshot_of :
      AdminSnapshotRequest → Instant → Result (String × Option String) → S → Reply (Payload F) × S
  unfolding snapshot_top top_n requested_n write_error
  snapshot_of req now (error e) s = (write_error status_bad_request e, s)
  snapshot_of req now (value (key, region)) s =
      snapshot_top req region now (top_n redis key (requested_n req) s)

  unfoldable pub handle_admin_snapshot :
      Instant → Result AdminSnapshotRequest → S → Reply (Payload F) × S
  unfolding snapshot_of snapshot_place write_error
  handle_admin_snapshot now (error e) s = (write_error status_bad_request e, s)
  handle_admin_snapshot now (value req) s = snapshot_of req now (snapshot_place req) s

  unfoldable pub reply_history : Result (List (SnapshotRow Instant)) × S → Reply (Payload F) × S
  unfolding write_json write_error
  reply_history (value rows, s) = (write_json status_ok (snapshot_rows rows), s)
  reply_history (error e, s) = (write_error status_internal_server_error e, s)

  unfoldable pub handle_leaderboard_history : Query → S → Reply (Payload F) × S
  unfolding reply_history latest_snapshot region_of parse_int_default
  handle_leaderboard_history q s = reply_history (
      latest_snapshot db (q "scope") (region_of q) (q "period_type") (q "period_key")
        (parse_int_default (q "limit") (pos 10)) s)
