-- ===== src/Leaderboard/Global/Examples.antt =====
-- A cycle of leaderboard-poc's aggregator over two regions, and the global leaderboard that the API
-- serves after it, on sorted sets that are kept in order.
use mathlib.Core.List.{Permᴰ}
use mathlib.Core.List.Permᴰ
use classic_cheese.Prelude.{
  zero, suc, ◌-◌, ◌≡◌, refl, sym, ap, subst, String, String_discrete, List, [], ◌∷◌, ◌++◌, Option,
  none, some,
}
use classic_cheese.Prelude.Lists.{take, drop}
use classic_cheese.Prelude.Int.{ℤ, pos, negsuc}
use classic_cheese.Prelude.Dict.{
  lookup, insert, erase, lookup-insert_self, lookup-insert_ne, lookup-erase_self, lookup-erase_ne,
}
use classic_cheese.Leaderboard.Examples.{integers, integers-IsScoreOrder}
use classic_cheese.Leaderboard.Sorting.{
  insertion_sort, insertion_sort-IsSort, IsSorted, IsWeakOrder,
}
use classic_cheese.Leaderboard.Redis.{
  Redis, Error, Result, value, error, failed, Z, Command, del, zadd, zincrby, incrby, replace_zset,
  top_n, global_key,
}
use classic_cheese.Leaderboard.Redis.Results.{value_injective}
use classic_cheese.Leaderboard.Mysql.{Database}
use classic_cheese.Leaderboard.Aggregator.{ComboKey, Order, run_combo}
use classic_cheese.Leaderboard.Aggregator.Cycle.{entries_read}
use classic_cheese.Leaderboard.Aggregator.Ranking.{IsRanking}
use classic_cheese.Leaderboard.Api.{parse_int_default}
use classic_cheese.Leaderboard.Api.Reads.{handle_leaderboard_top}
use classic_cheese.Leaderboard.Api.History.Examples.{query, query-Asks}
use classic_cheese.Leaderboard.Global.Sets.{above, others, Effect, Ran, IsSets}
use classic_cheese.Leaderboard.Global.Served.{RepliesTop, run_combo-top}

abbrev Sets : Type 0
Sets = List (String × List (Z ℤ))

abbrev or_nothing : Option (List (Z ℤ)) → List (Z ℤ)
or_nothing none = []
or_nothing (some zs) = zs

abbrev members : String → Sets → List (Z ℤ)
members key s = or_nothing (lookup String_discrete key s)

abbrev range : ℤ → ℤ → List (Z ℤ) → List (Z ℤ)
range (pos zero) (pos b) zs = take (suc b) zs
range (pos (suc a)) (pos b) zs = take (b - a) (drop (suc a) zs)
range (negsuc a) b zs = []
range (pos a) (negsuc b) zs = []

abbrev step : Command ℤ → Sets → Sets
step (del key) s = erase String_discrete key s
step (zadd key zs) s =
    insert String_discrete key (insertion_sort (above integers) (zs ++ others zs (members key s))) s
step (zincrby key x member) s = s
step (incrby key n) s = s

unfoldable run : List (Command ℤ) → Sets → Sets
run [] s = s
run (c ∷ cs) s = run cs (step c s)

abbrev sorted_sets : Redis Sets ℤ
sorted_sets = record {
  zrevrank = λ key member s. (error (failed "unknown command"), s);
  zscore = λ key member s. (error (failed "unknown command"), s);
  zrevrange_with_scores = λ key a b s. (value (range a b (members key s)), s);
  mget = λ keys s. (value [], s);
  exec = λ commands s. (value [], run commands s);
  publish_to = λ channel payload s. (value tt, s);
}

above-IsWeakOrder : IsWeakOrder (above integers)
above-IsWeakOrder = record {
  irrefl = λ a. integers-IsScoreOrder.irrefl a.score;
  trans = λ a b c. integers-IsScoreOrder.trans a.score b.score c.score;
  connected = λ a b c. integers-IsScoreOrder.connected a.score b.score c.score;
}

step-Effect : (key : String) (c : Command ℤ) (s : Sets) → Effect integers members key c s (step c s)
step-Effect key (del k) s = (
  λ e. rw e (ap or_nothing (lookup-erase_self String_discrete key s)),
  λ n. ap or_nothing (lookup-erase_ne String_discrete k key s n),
)
step-Effect key (zadd k zs) s = (
  λ e apart.
      let same : members key (step (zadd k zs) s)
          ≡ insertion_sort (above integers) (zs ++ others zs (members key s)) =
        rw e (ap or_nothing (lookup-insert_self String_discrete key _ s)) in
      (
        subst (λ k. Permᴰ k (zs ++ others zs (members key s))) (sym same)
            (insertion_sort-IsSort.perm (above integers) _),
        subst (IsSorted (above integers)) (sym same)
            (insertion_sort-IsSort.sorted (above integers) above-IsWeakOrder _),
      ),
  λ n. ap or_nothing (lookup-insert_ne String_discrete k key _ s n),
)
step-Effect key (zincrby k x member) s = λ n. refl
step-Effect key (incrby k n) s = λ n. refl

run-Ran :
    (key : String) (cs : List (Command ℤ)) (s : Sets) → Ran integers members key cs s (run cs s)
unfolding run
run-Ran key [] s = refl
run-Ran key (c ∷ cs) s = (step c s, step-Effect key c s, run-Ran key cs (step c s))

sorted_sets-IsSets : IsSets sorted_sets integers members
sorted_sets-IsSets = record {
  ran = λ key cs s t replies h.
      subst (Ran integers members key cs s) (ap (λ o. o.1) h) (run-Ran key cs s);
  ranged = λ key n s t zs h. sym (value_injective _ zs (ap (λ o. o.0) h));
}

abbrev scores : Sets
scores =
    ("lb:regional:apac:daily:2026-09-07", record { score = pos 5; member = "1" } ∷ [])
    ∷ (
      "lb:regional:us-east:daily:2026-09-07",
      record { score = pos 9; member = "1" } ∷ record { score = pos 7; member = "2" } ∷ [],
    )
    ∷ []

abbrev today : ComboKey
today = record { period_type = "daily"; period_key = "2026-09-07" }

abbrev both : List String
both = "apac" ∷ "us-east" ∷ []

abbrev as_listed : Order ℤ
as_listed = record { regions = λ xs. xs; combos = λ xs. xs; merged = λ xs. xs }

abbrev no_friends : Database Sets
no_friends = record { select_friends = λ id s. (error (failed "unknown table"), s) }

abbrev zero_of : String → ℤ
zero_of text = pos 0

abbrev bad_number : String → Error
bad_number text = failed "invalid syntax"

abbrev written : Sets
written = run_combo sorted_sets integers insertion_sort as_listed today both scores

abbrev found : Result (List (Z ℤ)) × Sets
found =
    top_n sorted_sets (global_key "daily" "2026-09-07") (parse_int_default (query "n") (pos 10))
      written

run_combo-top_example :
    (ranking : List (ℤ × ℤ)) × IsRanking integers
      (entries_read sorted_sets today both scores)
      ranking
    × RepliesTop sorted_sets no_friends integers zero_of insertion_sort bad_number members
        sorted_sets-IsSets
        (parse_int_default (query "n") (pos 10))
        ranking
        (handle_leaderboard_top sorted_sets no_friends integers zero_of insertion_sort bad_number
          query written).0
unfolding top_n replace_zset
run_combo-top_example =
    run_combo-top sorted_sets no_friends integers zero_of insertion_sort bad_number members
      sorted_sets-IsSets insertion_sort as_listed integers-IsScoreOrder insertion_sort-IsSort
      (λ m. Permᴰ.refl m) today both query [] _ scores written written refl refl query-Asks.scope
      query-Asks.period_type query-Asks.period_key refl
