-- ===== src/Leaderboard/Aggregator/Ranking.antt =====
-- leaderboard-poc/cmd/aggregator/main.go, `runCycle`: the merged scores, sorted and cut, are a ranking
-- of the entries that were read.
use mathlib.Core.List.{Permᴰ}
use mathlib.Core.List.Permᴰ
use classic_cheese.Prelude.{
  ℕ, zero, suc, ◌≤◌, ◌≡◌, ◌≢◌, refl, sym, ◌∙◌, ap, subst, false, List, [], ◌∷◌, Option, none, some,
  arith, ◌⊎◌, inl, inr, if_pos, if_neg,
}
use classic_cheese.Prelude.Lists.{All, length, take, drop, length-take}
use classic_cheese.Prelude.Int.{ℤ, ℤ_discrete}
use classic_cheese.Prelude.Dict.{lookup, Unique, All-lookup}
use classic_cheese.Prelude.Decimal.{atoi}
use classic_cheese.Leaderboard.Score.{Float64, IsScoreOrder}
use classic_cheese.Leaderboard.Sorting.{
  Sort, IsSort, IsWeakOrder, IsSorted, IsCut, take-drop-IsCut, take-IsSorted,
}
use classic_cheese.Leaderboard.Redis.{Z}
use classic_cheese.Leaderboard.Aggregator.{Merged, higher, ranked}
use classic_cheese.Leaderboard.Aggregator.Merge.{Matches, Holds, IsBest, IsTop, Has}

module _ {F : Type 0} where
  -- Two maps in which every user has the same score.
  abbrev pub Same : Merged F → Merged F → Type 0
  Same xs ys = (u : ℤ) → lookup ℤ_discrete u xs ≡ lookup ℤ_discrete u ys

  lookup-cons_cong :
      (u : ℤ) (c : ℤ × F) (xs ys : Merged F)
      → lookup ℤ_discrete u xs ≡ lookup ℤ_discrete u ys
      → lookup ℤ_discrete u (c ∷ xs) ≡ lookup ℤ_discrete u (c ∷ ys)
  unfolding lookup
  lookup-cons_cong u (j, x) xs ys h = rw h refl

  lookup-swap :
      (u : ℤ) (a b : ℤ × F) (xs : Merged F)
      → Unique ℤ_discrete (a ∷ b ∷ xs)
      → lookup ℤ_discrete u (a ∷ b ∷ xs) ≡ lookup ℤ_discrete u (b ∷ a ∷ xs)
  unfolding lookup
  lookup-swap u (i, x) (j, y) xs h = ground (arith, h.0)

  Unique-swap :
      (a b : ℤ × F) (xs : Merged F)
      → Unique ℤ_discrete (a ∷ b ∷ xs)
      → Unique ℤ_discrete (b ∷ a ∷ xs)
  unfolding lookup
  Unique-swap (i, x) (j, y) xs h = ground (arith, h.0, h.1.0, h.1.1)

  -- A permutation of a map is the same map.
  pub Perm-Same :
      {xs ys : Merged F} → Permᴰ xs ys → Unique ℤ_discrete xs → Unique ℤ_discrete ys × Same xs ys
  Perm-Same Permᴰ.nil h = (tt, λ u. refl)
  Perm-Same (Permᴰ.cons {a = a} {b = b} {l₁ = xs} {l₂ = ys} e p) h =
      let ih = Perm-Same p h.1 in
      subst (λ c. Unique ℤ_discrete (c ∷ ys) × Same (a ∷ xs) (c ∷ ys)) e
        ((sym (ih.1 a.0) ∙ h.0, ih.0), λ u. lookup-cons_cong u a xs ys (ih.1 u))
  Perm-Same (Permᴰ.swap {a = a} {b = b} {a' = a'} {b' = b'} {l = l} e e') h =
      subst (λ c. Unique ℤ_discrete (c ∷ b' ∷ l) × Same (a ∷ b ∷ l) (c ∷ b' ∷ l)) e'
        (subst (λ c. Unique ℤ_discrete (b ∷ c ∷ l) × Same (a ∷ b ∷ l) (b ∷ c ∷ l)) e
          (Unique-swap a b l h, λ u. lookup-swap u a b l h))
  Perm-Same (Permᴰ.trans p q) h =
      let first = Perm-Same p h in
      let second = Perm-Same q first.0 in (second.0, λ u. first.1 u ∙ second.1 u)

  -- In a map without repeated users each pair is what its user is looked up as.
  All-found :
      (xs : Merged F) → Unique ℤ_discrete xs → All (λ r. lookup ℤ_discrete r.0 xs ≡ some r.1) xs
  unfolding lookup
  All-found [] h = tt
  All-found ((u, x) ∷ xs) h = (if_pos (ℤ_discrete u u) refl _ _, deeper xs h.0 (All-found xs h.1))
    where
      deeper :
          (ys : Merged F)
          → lookup ℤ_discrete u xs ≡ none
          → All (λ r. lookup ℤ_discrete r.0 xs ≡ some r.1) ys
          → All (λ r. lookup ℤ_discrete r.0 ((u, x) ∷ xs) ≡ some r.1) ys
      deeper [] fresh k = tt
      deeper ((v, y) ∷ ys) fresh k = (
        if_neg (ℤ_discrete u v)
              (λ e. ground (arith, subst (λ w. lookup ℤ_discrete w xs ≡ none) e fresh)) _ _
            ∙ k.0,
        deeper ys fresh k.1,
      )

  All-take_map :
      {P Q : ℤ × F → Type 0} (n : ℕ) (xs : Merged F)
      → ((r : ℤ × F) → P r → Q r)
      → All P xs
      → All Q (take n xs)
  All-take_map zero xs f h = tt
  All-take_map (suc n) [] f h = tt
  All-take_map (suc n) (x ∷ xs) f h = (f x h.0, All-take_map n xs f h.1)

  lookup-take-none :
      (u : ℤ) (n : ℕ) (xs : Merged F)
      → lookup ℤ_discrete u xs ≡ none
      → lookup ℤ_discrete u (take n xs) ≡ none
  unfolding lookup
  lookup-take-none u zero xs h = refl
  lookup-take-none u (suc n) [] h = refl
  lookup-take-none u (suc n) ((v, y) ∷ xs) h = ground (arith, lookup-take-none u n xs)

  take-Unique : (n : ℕ) (xs : Merged F) → Unique ℤ_discrete xs → Unique ℤ_discrete (take n xs)
  take-Unique zero xs h = tt
  take-Unique (suc n) [] h = tt
  take-Unique (suc n) ((u, x) ∷ xs) h = (lookup-take-none u n xs h.0, take-Unique n xs h.1)

  -- A user of the map stands before the cut, or behind it and the front is full.
  lookup-take :
      (u : ℤ) (x : F) (n : ℕ) (xs : Merged F)
      → lookup ℤ_discrete u xs ≡ some x
      → (lookup ℤ_discrete u (take n xs) ≡ some x)
        ⊎ ((length (take n xs) ≡ n) × (lookup ℤ_discrete u (drop n xs) ≡ some x))
  unfolding lookup
  lookup-take u x zero xs h = inr (refl, h)
  lookup-take u x (suc n) [] h = absurd (ground arith)
  lookup-take u x (suc n) ((v, y) ∷ xs) h = elim (ℤ_discrete v u) [
    | yes e ↦ inl (if_pos (ℤ_discrete v u) e _ _ ∙ sym (if_pos (ℤ_discrete v u) e _ _) ∙ h)
    | no e ↦ behind e (lookup-take u x n xs (sym (if_neg (ℤ_discrete v u) e _ _) ∙ h))
  ]
    where
      behind :
          v ≢ u
          → (lookup ℤ_discrete u (take n xs) ≡ some x)
            ⊎ ((length (take n xs) ≡ n) × (lookup ℤ_discrete u (drop n xs) ≡ some x))
          → (lookup ℤ_discrete u ((v, y) ∷ take n xs) ≡ some x)
            ⊎ ((suc (length (take n xs)) ≡ suc n) × (lookup ℤ_discrete u (drop n xs) ≡ some x))
      behind e (inl k) = inl (if_neg (ℤ_discrete v u) e _ _ ∙ k)
      behind e (inr k) = inr (ap suc k.0, k.1)

  length-take_le : (n : ℕ) (xs : Merged F) → length (take n xs) ≤ n
  length-take_le n xs = omega (arith, length-take n xs)

module _ {F : Type 0} (float : Float64 F) where
  -- A ranking of the users by their best scores among the entries: at most 50 users, each once with
  -- the best of the scores, in falling order. Whoever has an entry is ranked, or 50 users are and the
  -- entry's score is above none of theirs.
  pub record IsRanking (entries : List (Z F)) (ranking : List (ℤ × F)) : Type 0 where
    pub bounded : length ranking ≤ 50
    pub sorted : IsSorted (higher float) ranking
    pub once : Unique ℤ_discrete ranking
    pub best : All (λ r. IsBest float r.0 r.1 entries) ranking
    pub complete :
        (u : ℤ) (x : F)
        → Has u x entries
        → (lookup ℤ_discrete u ranking ≢ none)
          ⊎ ((length ranking ≡ 50) × All (λ r. float.gt x r.1 ≡ false) ranking)

  IsTop-Has :
      (u : ℤ) (x y : F) (zs : List (Z F)) → IsTop float u y zs → Has u x zs → float.gt x y ≡ false
  IsTop-Has u x y [] t h = absurd h
  IsTop-Has u x y (z ∷ zs) t (inl (e, same)) = subst (λ w. float.gt w y ≡ false) same (t.0 e)
  IsTop-Has u x y (z ∷ zs) t (inr h) = IsTop-Has u x y zs t.1 h

  None-Has : (u : ℤ) (x : F) (zs : List (Z F)) → All (λ z. atoi z.member ≢ some u) zs → ¬ Has u x zs
  None-Has u x [] n h = h
  None-Has u x (z ∷ zs) n (inl (e, same)) = n.0 e
  None-Has u x (z ∷ zs) n (inr h) = None-Has u x zs n.1 h

  module _ (o : IsScoreOrder float) where
    higher-IsWeakOrder : IsWeakOrder (higher float)
    higher-IsWeakOrder = record {
      irrefl = λ a. o.irrefl a.1;
      trans = λ a b c. o.trans a.1 b.1 c.1;
      connected = λ a b c. o.connected a.1 b.1 c.1;
    }

    module _ (sort : Sort (ℤ × F)) (sort_laws : IsSort sort) (entries : List (Z F))
        (merged : Merged F) (unique : Unique ℤ_discrete merged)
        (holds : Holds float entries merged) where
      all-IsSorted : IsSorted (higher float) (sort (higher float) merged)
      all-IsSorted = sort_laws.sorted (higher float) higher-IsWeakOrder merged

      same :
          Unique ℤ_discrete (sort (higher float) merged) × Same merged (sort (higher float) merged)
      same = Perm-Same (Permᴰ.symm (sort_laws.perm (higher float) merged)) unique

      sorted-IsBest :
          (r : ℤ × F)
          → lookup ℤ_discrete r.0 (sort (higher float) merged) ≡ some r.1
          → IsBest float r.0 r.1 entries
      sorted-IsBest r e = subst (Matches float r.0 entries) (same.1 r.0 ∙ e) (holds r.0)

      -- Nobody before the cut is below somebody behind it.
      above_rest :
          (x : F) (u : ℤ) (y : F) (kept rest : List (ℤ × F))
          → IsCut (higher float) kept rest
          → lookup ℤ_discrete u rest ≡ some y
          → float.gt x y ≡ false
          → All (λ r. float.gt x r.1 ≡ false) kept
      above_rest x u y [] rest cut e h = tt
      above_rest x u y (r ∷ kept) rest cut e h = (
        o.connected x y r.1 h
            (All-lookup ℤ_discrete (λ c. float.gt c.1 r.1 ≡ false) u rest cut.0 e),
        above_rest x u y kept rest cut.1 e h,
      )

      Has-place :
          (u : ℤ) (x : F)
          → Has u x entries
          → (prior : Option F) → lookup ℤ_discrete u merged ≡ prior
          → Matches float u entries prior
          → (lookup ℤ_discrete u (ranked float sort merged) ≢ none)
            ⊎ ((length (ranked float sort merged) ≡ 50)
                × All (λ r. float.gt x r.1 ≡ false) (ranked float sort merged))
      unfolding ranked
      Has-place u x h none e m = absurd (None-Has u x entries m h)
      Has-place u x h (some y) e m =
          elim (lookup-take u y 50 (sort (higher float) merged) (sym (same.1 u) ∙ e)) [
            | inl k ↦ inl (λ n. ground (arith, sym n ∙ k))
            | inr k ↦ inr (
              k.0,
              above_rest x u y _ _
                  (take-drop-IsCut (higher float) 50 (sort (higher float) merged) all-IsSorted) k.1
                  (IsTop-Has u x y entries m.1 h),
            )
          ]

      pub ranked-IsRanking : IsRanking entries (ranked float sort merged)
      unfolding ranked
      ranked-IsRanking = record {
        bounded = length-take_le 50 (sort (higher float) merged);
        sorted = take-IsSorted (higher float) 50 (sort (higher float) merged) all-IsSorted;
        once = take-Unique 50 (sort (higher float) merged) same.0;
        best =
            All-take_map 50 (sort (higher float) merged) sorted-IsBest
              (All-found (sort (higher float) merged) same.0);
        complete = λ u x h. Has-place u x h _ refl (holds u);
      }
