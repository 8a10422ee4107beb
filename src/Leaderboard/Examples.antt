-- ===== src/Leaderboard/Examples.antt =====
-- A small store in place of Redis and concrete runs of leaderboard-poc's aggregator and notifier on
-- it. Scores are integers here.
use Prim.Native.Char.{Char, code}
use mathlib.Core.List.Permᴰ
use classic_cheese.Prelude.{
  ap, sym, ◌∙◌, ◌≢◌, ◌≡◌, ◌↔◌, refl, String, String_discrete, List, [], ◌∷◌, Option, none, some,
  arith, inr,
}
use classic_cheese.Prelude.Int.{ℤ, pos, ltb_ℤ, ◌+ℤ◌, wrap64}
use classic_cheese.Prelude.Dict.{lookup, insert, erase}
use classic_cheese.Leaderboard.Score.{Float64, IsScoreOrder}
use classic_cheese.Leaderboard.Sorting.{insertion_sort, insertion_sort-IsSort}
use classic_cheese.Leaderboard.Models.{ScoreEvent, Notification}
use classic_cheese.Leaderboard.Redis.{
  Redis, Result, value, Z, Command, del, zadd, zincrby, incrby, rank, rank_of, ranked_with,
}
use classic_cheese.Leaderboard.Redis.Keys.{colon, regional_key_inj}
use classic_cheese.Leaderboard.Aggregator.{
  Combos, ComboKey, Order, snapshot, run_cycle, receive_all,
}
use classic_cheese.Leaderboard.Aggregator.Cycle.{WritesAll, run_cycle_lem}
use classic_cheese.Leaderboard.Aggregator.Tracker.{Covers, Names, snapshot-receive_all}
use classic_cheese.Leaderboard.Notifier.{handle_event, reason_of, set_rank, memory_key}
use classic_cheese.Leaderboard.Notifier.Reasons.{Explains, reason_of_lem}
use classic_cheese.Leaderboard.Notifier.Announce.{
  Announces, handle_event-Announces, handle_event-again, rank_answer,
}

abbrev pub integers : Float64 ℤ
integers = record { gt = λ a b. ltb_ℤ b a; of_int = λ n. n; to_int = λ n. n }

pub integers-IsScoreOrder : IsScoreOrder integers
integers-IsScoreOrder = record {
  irrefl = λ a. ground arith;
  trans = λ a b c h k. ground arith;
  connected = λ a b c h k. ground arith;
}

-- The sorted sets by their keys.
abbrev Store : Type 0
Store = List (String × List (Z ℤ))

abbrev or_nothing : Option (List (Z ℤ)) → List (Z ℤ)
or_nothing none = []
or_nothing (some zs) = zs

unfoldable run : List (Command ℤ) → Store → Store
run [] s = s
run (del key ∷ cs) s = run cs (erase String_discrete key s)
run (zadd key zs ∷ cs) s = run cs (insert String_discrete key zs s)
run (zincrby key x member ∷ cs) s = run cs s
run (incrby key n ∷ cs) s = run cs s

-- It answers any question for a rank with the third place and 70 points.
abbrev store : Redis Store ℤ
store = record {
  zrevrank = λ key member s. (value (pos 2), s);
  zscore = λ key member s. (value (pos 70), s);
  zrevrange_with_scores = λ key a b s. (value (or_nothing (lookup String_discrete key s)), s);
  mget = λ keys s. (value [], s);
  exec = λ commands s. (value [], run commands s);
  publish_to = λ channel payload s. (value tt, s);
}

abbrev as_listed : Order ℤ
as_listed = record { regions = λ xs. xs; combos = λ xs. xs; merged = λ xs. xs }

abbrev today : ComboKey
today = record { period_type = "daily"; period_key = "2026-09-07" }

abbrev two_regions : Combos
two_regions = (today, (("apac", tt) ∷ ("us-east", tt) ∷ [])) ∷ []

abbrev scores : Store
scores =
    ("lb:regional:apac:daily:2026-09-07", record { score = pos 5; member = "1" } ∷ [])
    ∷ (
      "lb:regional:us-east:daily:2026-09-07",
      record { score = pos 9; member = "1" } ∷ record { score = pos 7; member = "2" } ∷ [],
    )
    ∷ []

run_cycle_example :
    WritesAll store integers insertion_sort as_listed
      (snapshot (λ xs. xs) two_regions)
      scores
      (run_cycle store integers insertion_sort as_listed two_regions scores)
run_cycle_example =
    run_cycle_lem store integers insertion_sort as_listed integers-IsScoreOrder
      insertion_sort-IsSort (λ m. Permᴰ.refl m) two_regions scores

abbrev event : ScoreEvent (Unit {0})
event = record {
  user_id = pos 7;
  region = "apac";
  period_type = "daily";
  period_key = "2026-09-07";
  score_delta = pos 10;
  timestamp = tt;
}

abbrev deliveries : List (Option (ScoreEvent (Unit {0})))
deliveries = none ∷ some event ∷ []

snapshot-receive_all_example :
    Covers today "apac" (snapshot (λ xs. xs) (receive_all deliveries []))
    ↔ Names today "apac" deliveries
snapshot-receive_all_example =
    snapshot-receive_all (λ xs. xs) (λ xs. Permᴰ.refl xs) deliveries today "apac"

reason_of_example : Explains (pos 3) (pos 20) (pos 30) (reason_of (pos 3) (pos 20) (pos 30))
reason_of_example =
    reason_of_lem (pos 3) (pos 20) (pos 30) (omega arith, omega arith)
      (inr (omega arith, omega arith))

abbrev write_reason : Notification ℤ (Unit {0}) → Result String
write_reason n = value n.reason

third : rank_answer store event scores ≡ (value (some (pos 3, pos 70)), scores)
unfolding rank rank_of ranked_with wrap64 ◌+ℤ◌
third = refl

handle_event-Announces_example :
    Announces store write_reason tt
      (pos 3)
      event
      []
      (pos 3)
      (pos 70)
      scores
      (handle_event store write_reason tt (pos 3) event [] scores)
handle_event-Announces_example =
    handle_event-Announces store write_reason tt (pos 3) event [] scores scores (pos 3) (pos 70) tt
      (omega arith, omega arith) third

handle_event-again_example :
    handle_event store write_reason tt (pos 3) event (set_rank (memory_key event) (pos 3) []) scores
    ≡ record { failure = none; ranks = set_rank (memory_key event) (pos 3) []; state = scores }
handle_event-again_example =
    handle_event-again store write_reason tt (pos 3) event [] scores scores (pos 3) (pos 70)
      (omega arith) (omega arith, omega arith) third

plain_letter : (c : Char) → code c ≡ 97 → c ≢ colon
plain_letter c e p = absurd (ninety_seven (sym e ∙ ap code p))
  where
    ninety_seven : 97 ≢ code colon
    ninety_seven h = ground arith

abbrev letter : String
letter = "a"

abbrev letters : String
letters = "aa"

abbrev year : String
year = "2026"

regional_key_inj_example : (letter ≡ letter) × (letters ≡ letters) × (year ≡ year)
regional_key_inj_example =
    regional_key_inj letter letters year letter letters year (plain_letter _ refl, tt)
      (plain_letter _ refl, (plain_letter _ refl, tt)) (plain_letter _ refl, tt)
      (plain_letter _ refl, (plain_letter _ refl, tt)) refl
