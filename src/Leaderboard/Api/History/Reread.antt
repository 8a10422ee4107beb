-- ===== src/Leaderboard/Api/History/Reread.antt =====
-- leaderboard-poc/cmd/api/handlers.go: GET /leaderboard/history replies what POST /admin/snapshot
-- kept.
use classic_cheese.Prelude.{
  ℕ, ◌<◌, ◌≡◌, ◌≢◌, refl, sym, ap, ◌∙◌, subst, String, true, false, List, [], ◌∷◌, map, Option,
  arith,
}
use classic_cheese.Prelude.Lists.{All, take, length}
use classic_cheese.Prelude.Int.{ℤ, pos, pos_part, two_63}
use classic_cheese.Http.{Reply, status_ok}
use classic_cheese.Leaderboard.Score.{Float64}
use classic_cheese.Leaderboard.Models.{SnapshotRow}
use classic_cheese.Leaderboard.Redis.{Redis, Error, Result, value, error, Z, top_n}
use classic_cheese.Leaderboard.Mysql.Snapshots.{
  SnapshotStatements, insert_snapshot, latest_snapshot, row_limit,
}
use classic_cheese.Leaderboard.Mysql.Snapshots.Laws.{SnapshotView, IsTransactional}
use classic_cheese.Leaderboard.Mysql.Snapshots.Selects.{Clock, IsSelecting}
use classic_cheese.Leaderboard.Mysql.Snapshots.Latest.{of_place}
use classic_cheese.Leaderboard.Mysql.Snapshots.RoundTrip.{stamped, latest_snapshot-insert_snapshot}
use classic_cheese.Leaderboard.Api.{
  Instant, Payload, snapshot_rows, write_json, write_error, parse_int_default,
}
use classic_cheese.Leaderboard.Api.Reads.{Query}
use classic_cheese.Leaderboard.Api.History.{
  AdminSnapshotRequest, requested_n, snapshot_place, region_of, rows_from, reply_snapshot,
  write_snapshot, snapshot_top, snapshot_of, handle_admin_snapshot, reply_history,
  handle_leaderboard_history,
}
use classic_cheese.Leaderboard.Api.History.Rows.{AreRowsOf, AreRowsOf-IsStrict, rows_from-AreRowsOf}

error_status : (F : Type 0) (e : Error) → (write_error {F = F} 500 e).status ≢ 200
unfolding write_error write_json
error_status F e h = ground arith

-- The query asks for the leaderboard that the request kept.
pub record Asks (req : AdminSnapshotRequest) (region : Option String) (q : Query) : Type 0 where
  pub scope : q "scope" ≡ req.scope
  pub in_region : region_of q ≡ region
  pub period_type : q "period_type" ≡ req.period_type
  pub period_key : q "period_key" ≡ req.period_key

-- The number of rows that a query asks for.
abbrev pub history_limit : Query → ℕ
history_limit q = pos_part (row_limit (parse_int_default (q "limit") (pos 10)))

module _ {S F : Type 0} (redis : Redis S F) (db : SnapshotStatements S Instant) (float : Float64 F)
    (atoi_error : String → Error) where
  -- A snapshot that replies 200 has made its rows and inserted them.
  reply_snapshot-ok :
      (n : ℕ) (now : Instant) (out : Result (Unit {0}) × S)
      → (reply_snapshot redis db float atoi_error n now out).0.status ≡ 200
      → out ≡ (value tt, (reply_snapshot redis db float atoi_error n now out).1)
  unfolding reply_snapshot
  reply_snapshot-ok n now (value done, s) h = refl
  reply_snapshot-ok n now (error e, s) h = absurd (error_status F e h)

  write_snapshot-ok :
      (req : AdminSnapshotRequest) (region : Option String) (now : Instant)
      (made : Result (List (SnapshotRow Instant))) (s : S)
      → (write_snapshot redis db float atoi_error req region now made s).0.status ≡ 200
      → (rows : List (SnapshotRow Instant)) × (made ≡ value rows)
        × (insert_snapshot db req.scope region req.period_type req.period_key rows now s
            ≡ (value tt, (write_snapshot redis db float atoi_error req region now made s).1))
  unfolding write_snapshot
  write_snapshot-ok req region now (value rows) s h =
      (rows, refl, reply_snapshot-ok (length rows) now _ h)
  write_snapshot-ok req region now (error e) s h = absurd (error_status F e h)

  reply_history-ok :
      (out : Result (List (SnapshotRow Instant)) × S)
      → (reply_history redis db float atoi_error out).0.status ≡ 200
      → (rows : List (SnapshotRow Instant)) × (u : S) × (out ≡ (value rows, u))
        × ((reply_history redis db float atoi_error out).0
            ≡ write_json status_ok (snapshot_rows rows))
  unfolding reply_history
  reply_history-ok (value rows, u) h = (rows, u, refl, refl)
  reply_history-ok (error e, u) h = absurd (error_status F e h)

  pub posted :
      (req : AdminSnapshotRequest) (key : String) (region : Option String) (now : Instant)
      (zs : List (Z F)) (s s1 : S)
      → snapshot_place req ≡ value (key, region)
      → top_n redis key (requested_n req) s ≡ (value zs, s1)
      → handle_admin_snapshot redis db float atoi_error now (value req) s
        ≡ write_snapshot redis db float atoi_error req region now
            (rows_from redis db float atoi_error 0 zs)
            s1
  unfolding handle_admin_snapshot snapshot_of snapshot_top
  posted req key region now zs s s1 place read =
      ap (λ p. snapshot_of redis db float atoi_error req now p s) place
      ∙ ap (snapshot_top redis db float atoi_error req region now) read

  pub asked :
      (req : AdminSnapshotRequest) (region : Option String) (q : Query) (t : S)
      → Asks req region q
      → handle_leaderboard_history redis db float atoi_error q t
        ≡ reply_history redis db float atoi_error (
            latest_snapshot db req.scope region req.period_type req.period_key
              (parse_int_default (q "limit") (pos 10))
              t)
  unfolding handle_leaderboard_history
  asked req region q t asks = rw (asks.scope, asks.in_region, asks.period_type, asks.period_key)

  module _ (v : SnapshotView S Instant) (clock : Clock Instant) where
    -- The reply lists the members as the rows of a snapshot with this time, up to the limit.
    abbrev pub RepliesRows : ℕ → Instant → List (Z F) → Reply (Payload F) → Type 0
    RepliesRows n now zs reply =
        (rows : List (SnapshotRow Instant)) × AreRowsOf float 0 zs rows
        × (reply ≡ write_json status_ok (snapshot_rows (take n (map (stamped v now) rows))))

    abbrev pub IsLater : AdminSnapshotRequest → Option String → Instant → S → Type 0
    IsLater req region now s =
        (clock.before (v.stored now) (v.stored now) ≡ false)
        × All (λ r. clock.before r.snapshot_at (v.stored now) ≡ true)
            (of_place db v clock req.scope region req.period_type req.period_key s)

    module _ (transactional : IsTransactional db v) (selecting : IsSelecting db v clock) where
      replied :
          (req : AdminSnapshotRequest) (region : Option String) (now : Instant) (z : Z F)
          (zs : List (Z F)) (rows : List (SnapshotRow Instant)) (limit : ℤ) (s1 s' t : S)
          → AreRowsOf float 0 (z ∷ zs) rows
          → IsLater req region now s1
          → insert_snapshot db req.scope region req.period_type req.period_key rows now s1
            ≡ (value tt, s')
          → v.table t ≡ v.table s'
          → (reply_history redis db float atoi_error
              (latest_snapshot db req.scope region req.period_type req.period_key limit t)).0.status
            ≡ 200
          → RepliesRows
              (pos_part (row_limit limit))
              now
              (z ∷ zs)
              (reply_history redis db float atoi_error
                (latest_snapshot db req.scope region req.period_type req.period_key limit t)).0
      replied req region now z zs [] limit s1 s' t are later inserted same h = absurd are
      replied req region now z zs (row ∷ rows) limit s1 s' t are later inserted same h =
          let (found, u, read, reply) = reply_history-ok _ h in
          (
            row ∷ rows,
            are,
            reply
                ∙ ap (λ rs. write_json status_ok (snapshot_rows rs))
                    (latest_snapshot-insert_snapshot db v clock req.scope region req.period_type
                      req.period_key now transactional selecting row rows found limit s1 s' t u
                      later.0 (AreRowsOf-IsStrict float 0 (z ∷ zs) (row ∷ rows) are) later.1
                      inserted same read),
          )

      -- What a snapshot kept is read again: if POST /admin/snapshot replies 200, where Redis lists at
      -- least one member, and nobody writes to the table before GET /leaderboard/history of the same
      -- leaderboard replies 200, then that reply lists the members that Redis listed, from the first
      -- one on and up to the limit, with the ranks 1, 2, 3, ..., the users they name, their scores as
      -- ints and the snapshot's time. (If transactions, MAX and ORDER BY work, and the column keeps the
      -- snapshot's time as later than that of any snapshot of this leaderboard before it.)
      pub handle_leaderboard_history-snapshot :
          (req : AdminSnapshotRequest) (key : String) (region : Option String) (q : Query)
          (now : Instant) (z : Z F) (zs : List (Z F)) (s s1 t : S)
          → snapshot_place req ≡ value (key, region)
          → Asks req region q
          → top_n redis key (requested_n req) s ≡ (value (z ∷ zs), s1)
          → length (z ∷ zs) < two_63
          → IsLater req region now s1
          → (handle_admin_snapshot redis db float atoi_error now (value req) s).0.status ≡ 200
          → v.table t
            ≡ v.table (handle_admin_snapshot redis db float atoi_error now (value req) s).1
          → (handle_leaderboard_history redis db float atoi_error q t).0.status ≡ 200
          → RepliesRows
              (history_limit q)
              now
              (z ∷ zs)
              (handle_leaderboard_history redis db float atoi_error q t).0
      handle_leaderboard_history-snapshot req key region q now z zs s s1 t place asks read small
            later ok same ok' =
          let post = posted req key region now (z ∷ zs) s s1 place read in
          let get = asked req region q t asks in
          let (rows, made, inserted) =
            write_snapshot-ok req region now (rows_from redis db float atoi_error 0 (z ∷ zs)) s1
              (ap (λ o. o.0.status) (sym post) ∙ ok) in
          subst (λ o. RepliesRows (history_limit q) now (z ∷ zs) o.0) (sym get)
            (replied req region now z zs rows (parse_int_default (q "limit") (pos 10)) s1 _ t
              (rows_from-AreRowsOf float redis db atoi_error 0 (z ∷ zs) rows (omega arith) made)
              later inserted (same ∙ ap (λ o. v.table o.1) post)
              (ap (λ o. o.0.status) (sym get) ∙ ok'))
