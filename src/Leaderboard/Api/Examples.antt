-- ===== src/Leaderboard/Api/Examples.antt =====
-- A user 7 with a friend 8, and a sorted set of three members, for leaderboard-poc/cmd/api.
use mathlib.Core.List.Permᴰ
use mathlib.Core.Option.{some-injective}
use classic_cheese.Prelude.{
  ℕ, zero, suc, ◌-◌, ◌≡◌, ◌≢◌, refl, sym, ap, String, List, [], ◌∷◌, none, some, arith,
}
use classic_cheese.Prelude.Lists.{get_elem?, take, drop}
use classic_cheese.Prelude.Int.{ℤ, pos, negsuc}
use classic_cheese.Prelude.Decimal.{itoa}
use classic_cheese.Leaderboard.Sorting.{insertion_sort, insertion_sort-IsSort}
use classic_cheese.Leaderboard.Redis.{Redis, Error, failed, value, Z, mget_user_scores}
use classic_cheese.Leaderboard.Mysql.{Database, friend_ids, scanned, scan_ids, cons_result}
use classic_cheese.Leaderboard.Api.{RankedEntry}
use classic_cheese.Leaderboard.Api.Friends.{
  returned, friends_leaderboard, first_n, around_user, score_of,
}
use classic_cheese.Leaderboard.Api.Friends.Board.{IsBoard, pairs, friends_leaderboard-IsBoard}
use classic_cheese.Leaderboard.Api.Friends.Cuts.{
  CutsFirst, first_n_lem, ShowsWindow, around_user_lem,
}
use classic_cheese.Leaderboard.Api.Friends.Found.{IsFound, user-IsFound}
use classic_cheese.Leaderboard.Api.Reads.{sorted_set, around_scope}
use classic_cheese.Leaderboard.Api.Reads.Windows.{Answers, RepliesAround, around_scope-true}
use classic_cheese.Leaderboard.Examples.{integers, integers-IsScoreOrder}

abbrev members : List (Z ℤ)
members =
    record { score = pos 90; member = "3" }
    ∷ record { score = pos 80; member = "7" }
    ∷ record { score = pos 70; member = "8" }
    ∷ []

abbrev place_in_range : ℤ → ℤ → List (Z ℤ)
place_in_range (pos a) (pos b) = take (suc b - a) (drop a members)
place_in_range a b = []

-- User 7 is second; of two users asked for only the first has a mirrored score.
abbrev quiet : Redis (Unit {0}) ℤ
quiet = record {
  zrevrank = λ key member s. (value (pos 1), s);
  zscore = λ key member s. (value (pos 80), s);
  zrevrange_with_scores = λ key a b s. (value (place_in_range a b), s);
  mget = λ keys s. (value (some "5" ∷ none ∷ []), s);
  exec = λ commands s. (value [], s);
  publish_to = λ channel payload s. (value tt, s);
}

abbrev one_friend : Database (Unit {0})
one_friend = record {
  select_friends = λ id s. (value (record { scans = value (pos 8) ∷ []; err = none }), s);
}

abbrev fives : String → ℤ
fives text = pos 5

abbrev mine : RankedEntry ℤ
mine = record { rank = pos 1; user_id = pos 7; score = pos 5 }

abbrev theirs : RankedEntry ℤ
theirs = record { rank = pos 2; user_id = pos 8; score = pos 0 }

listed_friends : friend_ids one_friend (pos 7) tt ≡ (value (pos 8 ∷ []), tt)
unfolding friend_ids scanned scan_ids cons_result
listed_friends = refl

listed_scores :
    mget_user_scores quiet (pos 7 ∷ pos 8 ∷ []) "daily" "2026-09-07" tt
    ≡ (value (some "5" ∷ none ∷ []), tt)
unfolding mget_user_scores
listed_scores = refl

friends_leaderboard-IsBoard_example :
    (es : List (RankedEntry ℤ)) × (friends_leaderboard quiet one_friend integers fives
        insertion_sort
        (pos 7)
        "daily"
        "2026-09-07"
        tt
      ≡ (returned es, tt))
    × IsBoard integers fives (pairs integers fives (pos 7 ∷ pos 8 ∷ []) (some "5" ∷ none ∷ [])) es
friends_leaderboard-IsBoard_example =
    friends_leaderboard-IsBoard integers fives integers-IsScoreOrder insertion_sort
      insertion_sort-IsSort quiet one_friend (pos 7) "daily" "2026-09-07" tt tt tt (pos 8 ∷ [])
      (some "5" ∷ none ∷ []) listed_friends listed_scores refl

first_n_lem_example : CutsFirst (pos 1) (mine ∷ theirs ∷ []) (first_n (pos 1) (mine ∷ theirs ∷ []))
first_n_lem_example = first_n_lem (pos 1) (mine ∷ theirs ∷ [])

seven_ne_eight : pos 7 ≢ pos 8
seven_ne_eight e = ground arith

around_user_lem_example :
    ShowsWindow 1
      (negsuc 0)
      (mine ∷ theirs ∷ [])
      (around_user (pos 8) (negsuc 0) (mine ∷ theirs ∷ []))
around_user_lem_example =
    around_user_lem (pos 8) (negsuc 0) (mine ∷ theirs ∷ []) 1 (seven_ne_eight, refl) (omega arith)

counted :
    (i : ℕ) (e : RankedEntry ℤ) → get_elem? (mine ∷ theirs ∷ []) i ≡ some e → e.rank ≡ pos (suc i)
counted zero e h = sym (ap (λ c. c.rank) (some-injective _ _ h))
counted (suc zero) e h = sym (ap (λ c. c.rank) (some-injective _ _ h))
counted (suc (suc i)) e h = absurd (ground arith)

two_listed :
    IsBoard integers fives
      (pairs integers fives (pos 7 ∷ pos 8 ∷ []) (some "5" ∷ none ∷ []))
      (mine ∷ theirs ∷ [])
unfolding score_of
two_listed = record { same_users = Permᴰ.refl _; sorted = ((refl, tt), (tt, tt)); ranks = counted }

user-IsFound_example :
    (n : ℕ) × (e : RankedEntry ℤ) × IsFound (pos 7) (mine ∷ theirs ∷ []) n e
    × (e.rank ≡ pos (suc n))
user-IsFound_example =
    user-IsFound integers fives (pos 7) (pos 8 ∷ []) (some "5") (none ∷ []) (mine ∷ theirs ∷ [])
      two_listed

abbrev bad_number : String → Error
bad_number text = failed text

second : Answers quiet "lb:global:daily:2026-09-07" (itoa (pos 7)) members 1 (pos 80) tt
second = record { place_of = refl; score_of = refl; range_of = λ a b. refl }

around_scope-true_example :
    RepliesAround quiet one_friend integers fives insertion_sort bad_number members 1 1
      (around_scope quiet one_friend integers fives insertion_sort bad_number
        (λ name. "")
        (pos 7)
        (pos 1)
        (sorted_set "lb:global:daily:2026-09-07")
        tt)
      tt
around_scope-true_example =
    around_scope-true quiet one_friend integers fives insertion_sort bad_number (λ name. "")
      "lb:global:daily:2026-09-07" (pos 7) members 1 1 (pos 80) tt second (omega arith)
      (omega arith)
