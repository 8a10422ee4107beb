-- ===== src/Leaderboard/Global/Sets.antt =====
-- What leaderboard-poc relies on of Redis's sorted sets: DEL, ZADD and ZREVRANGE, and from these what
-- ReplaceZSet (leaderboard-poc/internal/redisclient/redisclient.go) leaves.
use mathlib.Core.List.{Permᴰ, append-nil}
use classic_cheese.Prelude.{
  ℕ, suc, ◌≡◌, ◌≢◌, refl, sym, ap, ◌∙◌, subst, String, String_discrete, Bool, true, false, List, [],
  ◌∷◌, ◌++◌, ite, if◌then◌else◌,
}
use classic_cheese.Prelude.Lists.{All, take}
use classic_cheese.Prelude.Int.{pos}
use classic_cheese.Leaderboard.Score.{Float64}
use classic_cheese.Leaderboard.Sorting.{IsSorted}
use classic_cheese.Leaderboard.Redis.{
  Redis, value, Z, Command, del, zadd, zincrby, incrby, replace_commands, replace_zset,
}

abbrev pub above : {F : Type 0} → Float64 F → Z F → Z F → Bool
above float a b = float.gt a.score b.score

-- No member stands twice.
abbrev pub AreApart : {F : Type 0} → List (Z F) → Type 0
AreApart [] = Unit
AreApart (z ∷ zs) = All (λ y. z.member ≢ y.member) zs × AreApart zs

abbrev names : {F : Type 0} → String → List (Z F) → Bool
names member [] = false
names member (z ∷ zs) = ite (String_discrete z.member member) true (names member zs)

-- The members that ZADD leaves as they are.
abbrev pub others : {F : Type 0} → List (Z F) → List (Z F) → List (Z F)
others zs [] = []
others zs (y ∷ ys) = let rest = others zs ys in if names y.member zs then rest else y ∷ rest

module _ {S F : Type 0} (float : Float64 F) (members : String → S → List (Z F)) where
  -- What one command does to the sorted set at a key.
  abbrev pub Effect : String → Command F → S → S → Type 0
  Effect key (del k) s t =
      (k ≡ key → members key t ≡ []) × (k ≢ key → members key t ≡ members key s)
  Effect key (zadd k zs) s t =
      (k ≡ key
        → AreApart zs
        → Permᴰ (members key t) (zs ++ others zs (members key s))
          × IsSorted (above float) (members key t))
      × (k ≢ key → members key t ≡ members key s)
  Effect key (zincrby k x member) s t = k ≢ key → members key t ≡ members key s
  Effect key (incrby k n) s t = k ≢ key → members key t ≡ members key s

  -- The commands take effect one after the other.
  abbrev pub Ran : String → List (Command F) → S → S → Type 0
  Ran key [] s t = members key t ≡ members key s
  Ran key (c ∷ cs) s t = (u : S) × Effect key c s u × Ran key cs u t

-- The members of each sorted set, highest score first: what a pipeline does to those that nobody
-- else writes to meanwhile, and what ZREVRANGE reads.
pub record IsSets {S F : Type 0} (redis : Redis S F) (float : Float64 F)
    (members : String → S → List (Z F)) : Type 0 where
  pub ran :
      (key : String) (commands : List (Command F)) (s t : S) (replies : List F)
      → redis.exec commands s ≡ (value replies, t)
      → Ran float members key commands s t
  pub ranged :
      (key : String) (n : ℕ) (s t : S) (zs : List (Z F))
      → redis.zrevrange_with_scores key (pos 0) (pos n) s ≡ (value zs, t)
      → zs ≡ take (suc n) (members key s)

module _ {S F : Type 0} (redis : Redis S F) (float : Float64 F) (members : String → S → List (Z F))
    (sets : IsSets redis float members) where
  -- What stood there before is gone, and the new members are there in the order of their scores.
  pub replace_zset-replaces :
      (key : String) (zs : List (Z F)) (s t : S) (replies : List F)
      → AreApart zs
      → replace_zset redis key zs s ≡ (value replies, t)
      → Permᴰ (members key t) zs × IsSorted (above float) (members key t)
  unfolding replace_zset replace_commands
  replace_zset-replaces key [] s t replies apart h =
      let (u, deleted, same) = sets.ran key _ s t replies h in
      let empty = same ∙ deleted.0 refl in
      (subst (λ k. Permᴰ k []) (sym empty) Permᴰ.nil, subst (IsSorted (above float)) (sym empty) tt)
  replace_zset-replaces key (z ∷ zs) s t replies apart h =
      let (u, deleted, rest) = sets.ran key _ s t replies h in
      let (w, added, same) = rest in
      let (perm, sorted) = added.0 refl apart in
      let nothing_else : (z ∷ zs) ++ others (z ∷ zs) (members key u) ≡ z ∷ zs =
        ap (λ old. (z ∷ zs) ++ others (z ∷ zs) old) (deleted.0 refl) ∙ append-nil (z ∷ zs) in
      (
        subst (λ k. Permᴰ k (z ∷ zs)) (sym same) (subst (Permᴰ (members key w)) nothing_else perm),
        subst (IsSorted (above float)) (sym same) sorted,
      )
