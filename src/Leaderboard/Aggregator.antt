-- ===== src/Leaderboard/Aggregator.antt =====
-- leaderboard-poc/cmd/aggregator/main.go: which leaderboards are live, and the merging of their
-- regions into the global ranking.
-- A Go map is an association list; the orders in which `range` visits the maps are the argument
-- `order`.
pub mod Merge
pub mod Ranking
pub mod Cycle
pub mod Tracker
use classic_cheese.Prelude.{
  String, String_discrete, ◌≡◌, ap, Bool, false, List, [], ◌∷◌, Option, none, some, map, arith,
  if◌then◌else◌,
}
use classic_cheese.Prelude.Lists.{take}
use classic_cheese.Prelude.Int.{ℤ, pos, ℤ_discrete}
use classic_cheese.Prelude.Dict.{lookup, insert}
use classic_cheese.Prelude.Decimal.{itoa, atoi}
use classic_cheese.Leaderboard.Models.{ScoreEvent, Verdict, ack, nack}
use classic_cheese.Leaderboard.Score.{Float64}
use classic_cheese.Leaderboard.Sorting.{Sort}
use classic_cheese.Leaderboard.Redis.{
  Redis, Result, value, error, Z, top_n, replace_zset, regional_key, global_key,
}

pub record ComboKey : Type 0 where
  pub period_type : String
  pub period_key : String

pub ComboKey_ext :
    (a b : ComboKey) → a.period_type ≡ b.period_type → a.period_key ≡ b.period_key → a ≡ b
ComboKey_ext a b e e' = ground arith

unfoldable pub ComboKey_discrete : Discrete ComboKey
ComboKey_discrete a b = elim (String_discrete a.period_type b.period_type) [
  | yes e ↦ elim (String_discrete a.period_key b.period_key) [
    | yes e' ↦ yes (ComboKey_ext a b e e')
    | no n ↦ no (λ p. n (ap (λ c. c.period_key) p))
  ]
  | no n ↦ no (λ p. n (ap (λ c. c.period_type) p))
]

-- A set of regions, as Go writes it: a map into the empty struct.
abbrev pub Regions : Type 0
Regions = List (String × Unit {0})

abbrev pub Combos : Type 0
Combos = List (ComboKey × Regions)

abbrev pub regions_of : Option Regions → Regions
regions_of none = []
regions_of (some regions) = regions

unfoldable pub mark_active : String → String → String → Combos → Combos
mark_active period_type period_key region combos =
    let key : ComboKey = record { period_type = period_type; period_key = period_key } in
    insert ComboKey_discrete key
      (insert String_discrete region tt (regions_of (lookup ComboKey_discrete key combos))) combos

-- The orders in which three maps are visited.
pub record Order (F : Type 0) : Type 0 where
  pub regions : List String → List String
  pub combos : List (ComboKey × List String) → List (ComboKey × List String)
  pub merged : List (ℤ × F) → List (ℤ × F)

unfoldable pub snapshot : (List String → List String) → Combos → List (ComboKey × List String)
snapshot visit combos = map (λ c. (c.0, visit (map (λ r. r.0) c.1))) combos

-- One message of the queue; `none` is one that does not parse.
unfoldable pub receive : {T : Type 0} → Option (ScoreEvent T) → Combos → Verdict × Combos
unfolding mark_active
receive none combos = (nack false, combos)
receive (some event) combos =
    (ack, mark_active event.period_type event.period_key event.region combos)

unfoldable pub receive_all : {T : Type 0} → List (Option (ScoreEvent T)) → Combos → Combos
unfolding receive
receive_all [] combos = combos
receive_all (d ∷ ds) combos = receive_all ds (receive d combos).1

abbrev pub per_region_n : ℤ
per_region_n = pos 50

abbrev pub Merged : Type 0 → Type 0
Merged F = List (ℤ × F)

module _ {F : Type 0} (float : Float64 F) where
  unfoldable pub merge_score : ℤ → F → Option F → Merged F → Merged F
  merge_score user_id score none merged = insert ℤ_discrete user_id score merged
  merge_score user_id score (some existing) merged =
      if float.gt score existing then insert ℤ_discrete user_id score merged else merged

  unfoldable pub merge_user : Option ℤ → F → Merged F → Merged F
  unfolding merge_score
  merge_user none score merged = merged
  merge_user (some user_id) score merged =
      merge_score user_id score (lookup ℤ_discrete user_id merged) merged

  unfoldable pub merge_entries : List (Z F) → Merged F → Merged F
  unfolding merge_user
  merge_entries [] merged = merged
  merge_entries (e ∷ es) merged = merge_entries es (merge_user (atoi e.member) e.score merged)

  -- A region that cannot be read is passed over.
  abbrev pub merge_region : Result (List (Z F)) → Merged F → Merged F
  merge_region (value entries) merged = merge_entries entries merged
  merge_region (error e) merged = merged

  -- The order of the ranking.
  abbrev pub higher : ℤ × F → ℤ × F → Bool
  higher a b = float.gt a.1 b.1

  unfoldable pub ranked : Sort (ℤ × F) → Merged F → List (ℤ × F)
  ranked sort merged = take 50 (sort higher merged)

unfoldable pub members_of : {F : Type 0} → List (ℤ × F) → List (Z F)
members_of ranking = map (λ r. record { score = r.1; member = itoa r.0 }) ranking

module _ {S F : Type 0} (redis : Redis S F) (float : Float64 F) (sort : Sort (ℤ × F))
    (order : Order F) where
  unfoldable pub read_regions : ComboKey → List String → Merged F → S → Merged F × S
  unfolding top_n regional_key
  read_regions combo [] merged s = (merged, s)
  read_regions combo (region ∷ regions) merged s =
      let answer =
        top_n redis (regional_key region combo.period_type combo.period_key) per_region_n s in
      read_regions combo regions (merge_region float answer.0 merged) answer.1

  unfoldable pub write_global : ComboKey → Merged F × S → S
  unfolding ranked members_of replace_zset global_key
  write_global combo (merged, s) =
      (replace_zset redis (global_key combo.period_type combo.period_key)
        (members_of (ranked float sort (order.merged merged))) s).1

  unfoldable pub run_combo : ComboKey → List String → S → S
  unfolding read_regions write_global
  run_combo combo regions s = write_global combo (read_regions combo regions [] s)

  unfoldable pub run_combos : List (ComboKey × List String) → S → S
  unfolding run_combo
  run_combos [] s = s
  run_combos ((combo, regions) ∷ rest) s = run_combos rest (run_combo combo regions s)

  unfoldable pub run_cycle : Combos → S → S
  unfolding snapshot run_combos
  run_cycle combos s = run_combos (order.combos (snapshot order.regions combos)) s
