-- ===== src/Leaderboard/Aggregator/Cycle.antt =====
-- leaderboard-poc/cmd/aggregator/main.go, `runCycle`: what a cycle writes for each live leaderboard.
use mathlib.Core.List.{Permᴰ}
use mathlib.Core.List.Permᴰ
use classic_cheese.Prelude.{String, ◌≡◌, refl, List, [], ◌∷◌, ◌++◌, ◌∙◌, ap, subst}
use classic_cheese.Prelude.Int.{ℤ, ℤ_discrete}
use classic_cheese.Prelude.Dict.{Unique, lookup}
use classic_cheese.Leaderboard.Score.{Float64, IsScoreOrder}
use classic_cheese.Leaderboard.Sorting.{Sort, IsSort}
use classic_cheese.Leaderboard.Redis.{
  Redis, Result, value, error, Z, top_n, replace_zset, regional_key, global_key,
}
use classic_cheese.Leaderboard.Aggregator.{
  ComboKey, Merged, Order, per_region_n, merge_region, merge_entries, members_of, ranked,
  read_regions, write_global, run_combo, run_combos, run_cycle, snapshot, Combos,
}
use classic_cheese.Leaderboard.Aggregator.Merge.{
  Matches, Holds, merge_entries-Holds, merge_entries-Unique,
}
use classic_cheese.Leaderboard.Aggregator.Ranking.{IsRanking, ranked-IsRanking, Perm-Same}

module _ {S F : Type 0} (redis : Redis S F) where
  abbrev pub entries_of : Result (List (Z F)) → List (Z F)
  entries_of (value entries) = entries
  entries_of (error e) = []

  -- The entries that Redis answers for the regions, one region after the other.
  unfoldable pub entries_read : ComboKey → List String → S → List (Z F)
  unfolding top_n regional_key
  entries_read combo [] s = []
  entries_read combo (region ∷ regions) s =
      let answer =
        top_n redis (regional_key region combo.period_type combo.period_key) per_region_n s in
      entries_of answer.0 ++ entries_read combo regions answer.1

  -- The state after these reads.
  unfoldable pub after_reads : ComboKey → List String → S → S
  unfolding top_n regional_key
  after_reads combo [] s = s
  after_reads combo (region ∷ regions) s =
      after_reads combo regions
        (top_n redis (regional_key region combo.period_type combo.period_key) per_region_n s).1

  module _ (float : Float64 F) (sort : Sort (ℤ × F)) (order : Order F) where
    -- What the cycle does with one live leaderboard: it reads its regions and writes a ranking of
    -- what they say as the global one.
    abbrev pub WritesRanking : ComboKey → List String → S → S → Type 0
    WritesRanking combo regions s s' =
        (ranking : List (ℤ × F)) × IsRanking float (entries_read combo regions s) ranking
        × (s'
            ≡ (replace_zset redis (global_key combo.period_type combo.period_key)
                (members_of ranking) (after_reads combo regions s)).1)

    -- The same for each leaderboard of a list, one after the other.
    abbrev pub WritesAll : List (ComboKey × List String) → S → S → Type 0
    WritesAll [] s s' = s' ≡ s
    WritesAll ((combo, regions) ∷ rest) s s' =
        (mid : S) × WritesRanking combo regions s mid × WritesAll rest mid s'

    merge_region-append :
        (answer : Result (List (Z F))) (merged : Merged F)
        → merge_region float answer merged ≡ merge_entries float (entries_of answer) merged
    unfolding merge_entries
    merge_region-append (value entries) merged = refl
    merge_region-append (error e) merged = refl

    merge_entries-append :
        (xs ys : List (Z F)) (merged : Merged F)
        → merge_entries float ys (merge_entries float xs merged)
          ≡ merge_entries float (xs ++ ys) merged
    unfolding merge_entries
    merge_entries-append [] ys merged = refl
    merge_entries-append (x ∷ xs) ys merged = merge_entries-append xs ys _

    -- Reading and merging region by region merges all that is read.
    read_regions_lem :
        (combo : ComboKey) (regions : List String) (merged : Merged F) (s : S)
        → read_regions redis float sort order combo regions merged s
          ≡ (merge_entries float (entries_read combo regions s) merged, after_reads combo regions s)
    unfolding read_regions entries_read after_reads merge_entries
    read_regions_lem combo [] merged s = refl
    read_regions_lem combo (region ∷ regions) merged s =
        let answer =
          top_n redis (regional_key region combo.period_type combo.period_key) per_region_n s in
        read_regions_lem combo regions (merge_region float answer.0 merged) answer.1
        ∙ ap (λ m. (m, after_reads combo regions answer.1))
            (ap (merge_entries float (entries_read combo regions answer.1))
                (merge_region-append answer.0 merged)
              ∙ merge_entries-append (entries_of answer.0) (entries_read combo regions answer.1)
                  merged)

    pub run_combo_writes :
        (combo : ComboKey) (regions : List String) (s : S)
        → run_combo redis float sort order combo regions s
          ≡ (replace_zset redis
              (global_key combo.period_type combo.period_key)
              (members_of (
                ranked float sort
                  (order.merged (merge_entries float (entries_read combo regions s) []))))
              (after_reads combo regions s)).1
    unfolding run_combo write_global
    run_combo_writes combo regions s =
        ap (write_global redis float sort order combo) (read_regions_lem combo regions [] s)

    module _ (o : IsScoreOrder float) (sort_laws : IsSort sort)
        (visits_all : (m : Merged F) → Permᴰ (order.merged m) m) where
      -- The order in which the merged map is visited does not matter.
      visited-IsRanking :
          (entries : List (Z F)) (merged : Merged F)
          → Unique ℤ_discrete merged
          → Holds float entries merged
          → IsRanking float entries (ranked float sort (order.merged merged))
      visited-IsRanking entries merged unique holds =
          let same = Perm-Same (Permᴰ.symm (visits_all merged)) unique in
          ranked-IsRanking float o sort sort_laws entries (order.merged merged) same.0
            (λ u. subst (Matches float u entries) (same.1 u) (holds u))

      pub merged-IsRanking :
          (entries : List (Z F))
          → IsRanking float entries
              (ranked float sort (order.merged (merge_entries float entries [])))
      unfolding lookup
      merged-IsRanking entries =
          visited-IsRanking entries (merge_entries float entries [])
            (merge_entries-Unique float entries [] tt)
            (merge_entries-Holds float o [] entries [] (λ u. tt))

      run_combo_lem :
          (combo : ComboKey) (regions : List String) (s : S)
          → WritesRanking combo regions s (run_combo redis float sort order combo regions s)
      unfolding run_combo write_global
      run_combo_lem combo regions s = (
        ranked float sort (order.merged (merge_entries float (entries_read combo regions s) [])),
        merged-IsRanking (entries_read combo regions s),
        run_combo_writes combo regions s,
      )

      run_combos_lem :
          (list : List (ComboKey × List String)) (s : S)
          → WritesAll list s (run_combos redis float sort order list s)
      unfolding run_combos
      run_combos_lem [] s = refl
      run_combos_lem ((combo, regions) ∷ rest) s = (
        run_combo redis float sort order combo regions s,
        run_combo_lem combo regions s,
        run_combos_lem rest (run_combo redis float sort order combo regions s),
      )

      -- For each live leaderboard in turn a cycle reads the regions and writes as the global one a
      -- ranking of what Redis answered: at most 50 users, each once with the best of their scores,
      -- in falling order; whoever has an entry is ranked, or 50 users are and the entry is above
      -- none of them. This holds whatever other clients do meanwhile; a region that fails to be read
      -- counts as empty. The sort meets its contract, scores are ordered, and the merged map is
      -- visited in some order.
      pub run_cycle_lem :
          (combos : Combos) (s : S)
          → WritesAll
              (order.combos (snapshot order.regions combos))
              s
              (run_cycle redis float sort order combos s)
      unfolding run_cycle
      run_cycle_lem combos s = run_combos_lem (order.combos (snapshot order.regions combos)) s
