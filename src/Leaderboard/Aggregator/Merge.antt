-- ===== src/Leaderboard/Aggregator/Merge.antt =====
-- leaderboard-poc/cmd/aggregator/main.go, `runCycle`: the merged map holds each user's best score.
use classic_cheese.Prelude.{
  ◌≡◌, ◌≢◌, refl, sym, ◌∙◌, ap, subst, true, false, List, [], ◌∷◌, ◌++◌, Option, none, some, arith,
  Bool-cases, ◌⊎◌, inl, inr,
}
use classic_cheese.Prelude.Lists.{All, All-append}
use classic_cheese.Prelude.Int.{ℤ, ℤ_discrete}
use classic_cheese.Prelude.Dict.{
  lookup, lookup-insert_self, lookup-insert_ne, Unique, insert-Unique,
}
use classic_cheese.Prelude.Decimal.{atoi}
use classic_cheese.Leaderboard.Score.{Float64, IsScoreOrder}
use classic_cheese.Leaderboard.Redis.{Z}
use classic_cheese.Leaderboard.Aggregator.{Merged, merge_score, merge_user, merge_entries}

module _ {F : Type 0} where
  -- Some entry gives the user this score.
  abbrev pub Has : ℤ → F → List (Z F) → Type 0
  Has u x [] = ⊥
  Has u x (z ∷ zs) = ((atoi z.member ≡ some u) × (z.score ≡ x)) ⊎ Has u x zs

  pub Has-append_left : (u : ℤ) (x : F) (xs ys : List (Z F)) → Has u x xs → Has u x (xs ++ ys)
  Has-append_left u x [] ys h = absurd h
  Has-append_left u x (z ∷ zs) ys (inl h) = inl h
  Has-append_left u x (z ∷ zs) ys (inr h) = inr (Has-append_left u x zs ys h)

  pub Has-append_right : (u : ℤ) (x : F) (xs ys : List (Z F)) → Has u x ys → Has u x (xs ++ ys)
  Has-append_right u x [] ys h = h
  Has-append_right u x (z ∷ zs) ys h = inr (Has-append_right u x zs ys h)

module _ {F : Type 0} (float : Float64 F) where
  -- The user's scores are none of them above this one.
  abbrev pub IsTop : ℤ → F → List (Z F) → Type 0
  IsTop u x = All (λ z. atoi z.member ≡ some u → float.gt z.score x ≡ false)

  -- The best score of a user among the entries.
  abbrev pub IsBest : ℤ → F → List (Z F) → Type 0
  IsBest u x zs = Has u x zs × IsTop u x zs

  -- What the map says of a user who has these entries.
  abbrev pub Matches : ℤ → List (Z F) → Option F → Type 0
  Matches u zs none = All (λ z. atoi z.member ≢ some u) zs
  Matches u zs (some x) = IsBest u x zs

  abbrev pub Holds : List (Z F) → Merged F → Type 0
  Holds zs merged = (u : ℤ) → Matches u zs (lookup ℤ_discrete u merged)

  -- An entry of somebody else changes nothing for a user.
  Matches-other :
      (u : ℤ) (zs : List (Z F)) (z : Z F) (o : Option F)
      → atoi z.member ≢ some u
      → Matches u zs o
      → Matches u (zs ++ z ∷ []) o
  Matches-other u zs z none ne h = All-append _ zs (z ∷ []) h (ne, tt)
  Matches-other u zs z (some x) ne h =
      (Has-append_left u x zs (z ∷ []) h.0, All-append _ zs (z ∷ []) h.1 ((λ e. absurd (ne e)), tt))

  IsTop-of_none :
      (u : ℤ) (x : F) (zs : List (Z F)) → All (λ z. atoi z.member ≢ some u) zs → IsTop u x zs
  IsTop-of_none u x [] h = tt
  IsTop-of_none u x (z ∷ zs) h = ((λ e. absurd (h.0 e)), IsTop-of_none u x zs h.1)

  module _ (o : IsScoreOrder float) where
    IsTop-raise :
        (u : ℤ) (x y : F) (zs : List (Z F)) → float.gt y x ≡ true → IsTop u x zs → IsTop u y zs
    IsTop-raise u x y [] h t = tt
    IsTop-raise u x y (z ∷ zs) h t = (
      (λ e. elim (Bool-cases (float.gt z.score y)) [
        | inl p ↦ absurd (ground (arith, o.trans z.score y x p h, t.0 e))
        | inr p ↦ p
      ]),
      IsTop-raise u x y zs h t.1,
    )

    IsBest-of_own :
        (u : ℤ) (zs : List (Z F)) (z : Z F)
        → atoi z.member ≡ some u
        → IsTop u z.score zs
        → IsBest u z.score (zs ++ z ∷ [])
    IsBest-of_own u zs z e t = (
      Has-append_right u z.score zs (z ∷ []) (inl (e, refl)),
      All-append _ zs (z ∷ []) t ((λ _. o.irrefl z.score), tt),
    )

    -- The user's own entry: kept if it is above the score so far.
    Matches-own :
        (u : ℤ) (zs : List (Z F)) (z : Z F) (merged : Merged F)
        → atoi z.member ≡ some u
        → (prior : Option F) → lookup ℤ_discrete u merged ≡ prior
        → Matches u zs prior
        → Matches u (zs ++ z ∷ []) (lookup ℤ_discrete u (merge_score float u z.score prior merged))
    unfolding merge_score
    Matches-own u zs z merged e none p h =
        rw (lookup-insert_self ℤ_discrete u z.score merged)
          (IsBest-of_own u zs z e (IsTop-of_none u z.score zs h))
    Matches-own u zs z merged e (some x) p h = elim (Bool-cases (float.gt z.score x)) [
      | inl above ↦
          rw (above, lookup-insert_self ℤ_discrete u z.score merged)
            (IsBest-of_own u zs z e (IsTop-raise u x z.score zs above h.1))
      | inr below ↦
          rw (below, p)
            (Has-append_left u x zs (z ∷ []) h.0, All-append _ zs (z ∷ []) h.1 ((λ _. below), tt))
    ]

    merge_score-others :
        (u v : ℤ) (x : F) (prior : Option F) (merged : Merged F)
        → v ≢ u
        → lookup ℤ_discrete u (merge_score float v x prior merged) ≡ lookup ℤ_discrete u merged
    unfolding merge_score
    merge_score-others u v x none merged ne = lookup-insert_ne ℤ_discrete v u x merged ne
    merge_score-others u v x (some y) merged ne = elim (Bool-cases (float.gt x y)) [
      | inl e ↦ rw e (lookup-insert_ne ℤ_discrete v u x merged ne)
      | inr e ↦ rw e refl
    ]

    merge_user-Holds :
        (zs : List (Z F)) (z : Z F) (merged : Merged F)
        → Holds zs merged
        → (named : Option ℤ) → atoi z.member ≡ named
        → Holds (zs ++ z ∷ []) (merge_user float named z.score merged)
    unfolding merge_user
    merge_user-Holds zs z merged h none e u =
        Matches-other u zs z _ (λ p. ground (arith, sym e ∙ p)) (h u)
    merge_user-Holds zs z merged h (some v) e u = elim (ℤ_discrete v u) [
      | yes same ↦
          subst
            (λ w. Matches u (zs ++ z ∷ []) (
              lookup ℤ_discrete u
                (merge_score float w z.score (lookup ℤ_discrete w merged) merged)))
            (sym same) (Matches-own u zs z merged (e ∙ ap some same) _ refl (h u))
      | no other ↦
          rw (merge_score-others u v z.score (lookup ℤ_discrete v merged) merged other)
            (Matches-other u zs z _ (λ p. other (some_inj v u (sym e ∙ p))) (h u))
    ]
      where
        some_inj : (a b : ℤ) → some a ≡ some b → a ≡ b
        some_inj a b p = ground arith

    pub merge_entries-Holds :
        (seen zs : List (Z F)) (merged : Merged F)
        → Holds seen merged
        → Holds (seen ++ zs) (merge_entries float zs merged)
    unfolding merge_entries
    merge_entries-Holds seen [] merged h = rw (append_nil seen) h
      where
        append_nil : (xs : List (Z F)) → xs ++ [] ≡ xs
        append_nil [] = refl
        append_nil (x ∷ xs) = ap (◌∷◌ x) (append_nil xs)
    merge_entries-Holds seen (z ∷ zs) merged h =
        rw (sym (append_snoc seen))
          (merge_entries-Holds (seen ++ z ∷ []) zs _ (merge_user-Holds seen z merged h _ refl))
      where
        append_snoc : (xs : List (Z F)) → (xs ++ z ∷ []) ++ zs ≡ xs ++ z ∷ zs
        append_snoc [] = refl
        append_snoc (x ∷ xs) = ap (◌∷◌ x) (append_snoc xs)

  merge_score-Unique :
      (u : ℤ) (x : F) (prior : Option F) (merged : Merged F)
      → Unique ℤ_discrete merged
      → Unique ℤ_discrete (merge_score float u x prior merged)
  unfolding merge_score
  merge_score-Unique u x none merged h = insert-Unique ℤ_discrete u x merged h
  merge_score-Unique u x (some y) merged h = elim (Bool-cases (float.gt x y)) [
    | inl e ↦ rw e (insert-Unique ℤ_discrete u x merged h)
    | inr e ↦ rw e h
  ]

  merge_user-Unique :
      (named : Option ℤ) (x : F) (merged : Merged F)
      → Unique ℤ_discrete merged
      → Unique ℤ_discrete (merge_user float named x merged)
  unfolding merge_user
  merge_user-Unique none x merged h = h
  merge_user-Unique (some u) x merged h = merge_score-Unique u x _ merged h

  pub merge_entries-Unique :
      (zs : List (Z F)) (merged : Merged F)
      → Unique ℤ_discrete merged
      → Unique ℤ_discrete (merge_entries float zs merged)
  unfolding merge_entries
  merge_entries-Unique [] merged h = h
  merge_entries-Unique (z ∷ zs) merged h =
      merge_entries-Unique zs _ (merge_user-Unique (atoi z.member) z.score merged h)
