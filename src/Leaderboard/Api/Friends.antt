-- ===== src/Leaderboard/Api/Friends.antt =====
-- leaderboard-poc/cmd/api/handlers.go: the leaderboard of a user's friends, and what is cut from it.
pub mod Board
pub mod Cuts
pub mod Found
use classic_cheese.Prelude.{
  ℕ, suc, ◌<◌, String, Bool, true, false, List, [], ◌∷◌, Option, none, some, if◌then◌else◌,
}
use classic_cheese.Prelude.Lists.{length}
use classic_cheese.Prelude.Int.{ℤ, pos, ◌+ℤ◌, ◌-ℤ◌, wrap64, ltb_ℤ, eqb_ℤ}
use classic_cheese.Leaderboard.Score.{Float64}
use classic_cheese.Leaderboard.Sorting.{Sort}
use classic_cheese.Leaderboard.Redis.{Redis, Error, Result, value, error, mget_user_scores}
use classic_cheese.Leaderboard.Mysql.{Database, friend_ids}
use classic_cheese.Leaderboard.Api.{RankedEntry, slice}

-- `returned` and `raised` are the two kinds of return, `panics` is none.
pub data Outcome (A : Type 0) : Type 0 where
  returned : A → Outcome A
  raised : Error → Outcome A
  panics : Outcome A

module _ {F : Type 0} (float : Float64 F) (parse_float : String → F) where
  unfoldable pub score_of : Option String → F
  score_of none = float.of_int (pos 0)
  score_of (some text) = parse_float text

  abbrev pub add_scored :
      RankedEntry F → Option (List (RankedEntry F)) → Option (List (RankedEntry F))
  add_scored e none = none
  add_scored e (some es) = some (e ∷ es)

  -- `ids[i]` for each score, which panics if there are more scores than ids.
  unfoldable pub scored : List ℤ → List (Option String) → Option (List (RankedEntry F))
  unfolding score_of
  scored ids [] = some []
  scored [] (v ∷ raw) = none
  scored (id ∷ ids) (v ∷ raw) =
      add_scored (record { rank = pos 0; user_id = id; score = score_of v }) (scored ids raw)

-- `entries[i].Rank = i + 1`, from the i-th on.
unfoldable pub number : {F : Type 0} → ℕ → List (RankedEntry F) → List (RankedEntry F)
number i [] = []
number i (e ∷ es) = record e { rank = pos (suc i) } ∷ number (suc i) es

module _ {F : Type 0} (float : Float64 F) where
  abbrev pub above : RankedEntry F → RankedEntry F → Bool
  above a b = float.gt a.score b.score

  unfoldable pub board :
      Sort (RankedEntry F) → Option (List (RankedEntry F)) → Outcome (List (RankedEntry F))
  unfolding number
  board sort none = panics
  board sort (some es) = returned (number 0 (sort above es))

module _ {S F : Type 0} (redis : Redis S F) (db : Database S) (float : Float64 F)
    (parse_float : String → F) (sort : Sort (RankedEntry F)) where
  unfoldable pub with_scores :
      List ℤ → Result (List (Option String)) × S → Outcome (List (RankedEntry F)) × S
  unfolding board scored
  with_scores ids (error e, s) = (raised e, s)
  with_scores ids (value raw, s) = (board float sort (scored float parse_float ids raw), s)

  unfoldable pub with_friends :
      ℤ → String → String → Result (List ℤ) × S → Outcome (List (RankedEntry F)) × S
  unfolding with_scores mget_user_scores
  with_friends user_id period_type period_key (error e, s) = (raised e, s)
  with_friends user_id period_type period_key (value friends, s) =
      with_scores (user_id ∷ friends)
        (mget_user_scores redis (user_id ∷ friends) period_type period_key s)

  unfoldable pub friends_leaderboard : ℤ → String → String → S → Outcome (List (RankedEntry F)) × S
  unfolding with_friends friend_ids
  friends_leaderboard user_id period_type period_key s =
      with_friends user_id period_type period_key (friend_ids db user_id s)

unfoldable pub window_start : ℕ → ℤ → ℤ
unfolding wrap64 ◌-ℤ◌
window_start center count =
    let start = wrap64 (pos center -ℤ count) in if ltb_ℤ start (pos 0) then pos 0 else start

unfoldable pub window_end : ℕ → ℤ → ℕ → ℤ
unfolding wrap64 ◌+ℤ◌
window_end center count size =
    let end = wrap64 (wrap64 (pos center +ℤ count) +ℤ pos 1) in
    if ltb_ℤ (pos size) end then pos size else end

module _ {F : Type 0} where
  -- `/leaderboard/top`: the first n.
  unfoldable pub first_n : ℤ → List (RankedEntry F) → Option (List (RankedEntry F))
  unfolding slice
  first_n n es = if ltb_ℤ n (pos (length es)) then slice es (pos 0) n else some es

  -- `/leaderboard/rank`: the first entry of the user.
  unfoldable pub entry_for : ℤ → List (RankedEntry F) → Option (RankedEntry F)
  entry_for user_id [] = none
  entry_for user_id (e ∷ es) =
      let rest = entry_for user_id es in if eqb_ℤ e.user_id user_id then some e else rest

  -- The index of the user's first entry; `none` is -1.
  unfoldable pub center_of : ℤ → ℕ → List (RankedEntry F) → Option ℕ
  center_of user_id i [] = none
  center_of user_id i (e ∷ es) =
      let rest = center_of user_id (suc i) es in if eqb_ℤ e.user_id user_id then some i else rest

  unfoldable pub window : Option ℕ → ℤ → List (RankedEntry F) → Option (List (RankedEntry F))
  unfolding window_start window_end slice
  window none count es = some []
  window (some center) count es =
      slice es (window_start center count) (window_end center count (length es))

  -- `/leaderboard/around`: the entries about the user's.
  unfoldable pub around_user : ℤ → ℤ → List (RankedEntry F) → Option (List (RankedEntry F))
  unfolding center_of window
  around_user user_id count es = window (center_of user_id 0 es) count es
