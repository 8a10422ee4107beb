-- ===== src/Leaderboard/Api/Reads.antt =====
-- leaderboard-poc/cmd/api/handlers.go: GET /leaderboard/top, /leaderboard/rank and
-- /leaderboard/around. A query string is a function from its parameters, "" for one that is missing.
pub mod Windows
use classic_cheese.Prelude.{
  String, String_discrete, Bool, true, false, List, [], ◌∷◌, Option, none, some, ite, if◌then◌else◌,
}
use classic_cheese.Prelude.Int.{ℤ, pos, ◌-ℤ◌, wrap64, ltb_ℤ, ℤ_discrete}
use classic_cheese.Prelude.Decimal.{itoa}
use classic_cheese.Http.{Reply, status_ok, status_bad_request, status_internal_server_error}
use classic_cheese.Leaderboard.Score.{Float64}
use classic_cheese.Leaderboard.Sorting.{Sort}
use classic_cheese.Leaderboard.Redis.{
  Redis, Error, Result, value, error, Z, top_n, rank, around, regional_key, global_key,
}
use classic_cheese.Leaderboard.Mysql.{Database}
use classic_cheese.Leaderboard.Api.{
  RankedEntry, Payload, entries, ranked, unranked, write_json, write_error, z_to_entries,
  err_missing_region, err_missing_user_id, err_unknown_scope, parse_int_default,
}
use classic_cheese.Leaderboard.Api.Friends.{
  Outcome, returned, raised, panics, friends_leaderboard, first_n, entry_for, around_user,
}

abbrev pub Query : Type 0
Query = String → String

-- Which leaderboard the scope names: the key of a sorted set, the friends, or a bad request.
pub data Scope : Type 0 where
  sorted_set : String → Scope
  friends : Scope
  bad : Error → Scope

unfoldable pub scope_of : Query → Scope
unfolding global_key regional_key
scope_of q =
    ite (String_discrete (q "scope") "global")
      (sorted_set (global_key (q "period_type") (q "period_key")))
      (ite (String_discrete (q "scope") "regional")
        (ite (String_discrete (q "region") "") (bad err_missing_region)
          (sorted_set (regional_key (q "region") (q "period_type") (q "period_key"))))
        (ite (String_discrete (q "scope") "friends") friends (bad err_unknown_scope)))

module _ {F : Type 0} where
  -- The replies that several handlers share.
  unfoldable pub reply_entries : Result (List (RankedEntry F)) → Reply (Payload F)
  unfolding write_json write_error
  reply_entries (value es) = write_json status_ok (entries es)
  reply_entries (error e) = write_error status_internal_server_error e

  unfoldable pub reply_cut : Option (List (RankedEntry F)) → Option (Reply (Payload F))
  unfolding write_json
  reply_cut none = none
  reply_cut (some es) = some (write_json status_ok (entries es))

  unfoldable pub reply_friends :
      {S : Type 0}
      → (List (RankedEntry F) → Option (Reply (Payload F)))
      → Outcome (List (RankedEntry F)) × S
      → Option (Reply (Payload F)) × S
  unfolding write_error
  reply_friends answer (returned es, s) = (answer es, s)
  reply_friends answer (raised e, s) = (some (write_error status_internal_server_error e), s)
  reply_friends answer (panics, s) = (none, s)

  unfoldable pub reply_entry : ℤ → Option (RankedEntry F) → Reply (Payload F)
  unfolding write_json
  reply_entry user_id none = write_json status_ok (unranked user_id)
  reply_entry user_id (some e) = write_json status_ok (ranked user_id e.rank e.score true)

unfoldable pub start_rank : ℤ → ℤ → ℤ
unfolding wrap64 ◌-ℤ◌
start_rank rank count =
    let start = wrap64 (rank -ℤ count) in if ltb_ℤ start (pos 1) then pos 1 else start

module _ {S F : Type 0} (redis : Redis S F) (db : Database S) (float : Float64 F)
    (parse_float : String → F) (sort : Sort (RankedEntry F)) (atoi_error : String → Error) where
  abbrev pub Handler : Type 0
  Handler = Query → S → Option (Reply (Payload F)) × S

  unfoldable pub reply_listed : ℤ → Result (List (Z F)) × S → Option (Reply (Payload F)) × S
  unfolding reply_entries write_error z_to_entries
  reply_listed start (value zs, s) = (some (reply_entries (z_to_entries atoi_error zs start)), s)
  reply_listed start (error e, s) = (some (write_error status_internal_server_error e), s)

  unfoldable pub top_scope : Query → ℤ → Scope → S → Option (Reply (Payload F)) × S
  unfolding reply_listed top_n reply_friends reply_cut first_n friends_leaderboard parse_int_default
      write_error
  top_scope q n (sorted_set key) s = reply_listed (pos 1) (top_n redis key n s)
  top_scope q n friends s =
      let user_id = parse_int_default (q "user_id") (pos 0) in
      ite (ℤ_discrete user_id (pos 0))
        (some (write_error status_bad_request err_missing_user_id), s)
        (reply_friends (λ es. reply_cut (first_n n es))
          (friends_leaderboard redis db float parse_float sort user_id (q "period_type")
            (q "period_key") s))
  top_scope q n (bad e) s = (some (write_error status_bad_request e), s)

  unfoldable pub handle_leaderboard_top : Handler
  unfolding top_scope scope_of parse_int_default
  handle_leaderboard_top q s = top_scope q (parse_int_default (q "n") (pos 10)) (scope_of q) s

  unfoldable pub reply_rank : ℤ → Result (Option (ℤ × F)) × S → Option (Reply (Payload F)) × S
  unfolding write_json write_error
  reply_rank user_id (error e, s) = (some (write_error status_internal_server_error e), s)
  reply_rank user_id (value none, s) =
      (some (write_json status_ok (ranked user_id (pos 0) (float.of_int (pos 0)) false)), s)
  reply_rank user_id (value (some (rank, score)), s) =
      (some (write_json status_ok (ranked user_id rank score true)), s)

  unfoldable pub rank_scope : Query → ℤ → Scope → S → Option (Reply (Payload F)) × S
  unfolding reply_rank rank itoa reply_friends reply_entry entry_for friends_leaderboard write_error
  rank_scope q user_id (sorted_set key) s = reply_rank user_id (rank redis key (itoa user_id) s)
  rank_scope q user_id friends s =
      reply_friends (λ es. some (reply_entry user_id (entry_for user_id es)))
        (friends_leaderboard redis db float parse_float sort user_id (q "period_type")
          (q "period_key") s)
  rank_scope q user_id (bad e) s = (some (write_error status_bad_request e), s)

  -- What the handlers that need a user do first.
  unfoldable pub with_user : (ℤ → S → Option (Reply (Payload F)) × S) → Handler
  unfolding parse_int_default write_error
  with_user handle q s =
      let user_id = parse_int_default (q "user_id") (pos 0) in
      ite (ℤ_discrete user_id (pos 0))
        (some (write_error status_bad_request err_missing_user_id), s) (handle user_id s)

  unfoldable pub handle_leaderboard_rank : Handler
  unfolding with_user rank_scope scope_of
  handle_leaderboard_rank q s = with_user (λ u t. rank_scope q u (scope_of q) t) q s

  unfoldable pub reply_window :
      ℤ → List (Z F) → Result (Option (ℤ × F)) × S → Option (Reply (Payload F)) × S
  unfolding start_rank reply_entries z_to_entries write_json write_error
  reply_window count zs (error e, s) = (some (write_error status_internal_server_error e), s)
  reply_window count zs (value none, s) = (some (write_json status_ok (entries [])), s)
  reply_window count zs (value (some (rank, score)), s) =
      (some (reply_entries (z_to_entries atoi_error zs (start_rank rank count))), s)

  unfoldable pub around_set :
      String → ℤ → ℤ → Result (List (Z F)) × S → Option (Reply (Payload F)) × S
  unfolding reply_window rank itoa write_error
  around_set key user_id count (error e, s) = (some (write_error status_internal_server_error e), s)
  around_set key user_id count (value zs, s) =
      reply_window count zs (rank redis key (itoa user_id) s)

  unfoldable pub around_scope : Query → ℤ → ℤ → Scope → S → Option (Reply (Payload F)) × S
  unfolding around_set around itoa reply_friends reply_cut around_user friends_leaderboard
      write_error
  around_scope q user_id count (sorted_set key) s =
      around_set key user_id count (around redis key (itoa user_id) count s)
  around_scope q user_id count friends s =
      reply_friends (λ es. reply_cut (around_user user_id count es))
        (friends_leaderboard redis db float parse_float sort user_id (q "period_type")
          (q "period_key") s)
  around_scope q user_id count (bad e) s = (some (write_error status_bad_request e), s)

  unfoldable pub handle_leaderboard_around : Handler
  unfolding with_user around_scope scope_of parse_int_default
  handle_leaderboard_around q s =
      with_user (λ u t. around_scope q u (parse_int_default (q "count") (pos 5)) (scope_of q) t) q s
