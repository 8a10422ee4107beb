-- ===== src/Leaderboard/Global/Kept.antt =====
-- What Redis keeps of the global leaderboard that leaderboard-poc/cmd/aggregator/main.go writes: a
-- ranking of the same users.
use mathlib.Core.List.{Permᴰ, head-eq_of_cons-eq, tail-eq_of_cons-eq}
use mathlib.Core.List.Permᴰ
use classic_cheese.Prelude.{
  ◌≤◌, ◌≡◌, ◌≢◌, refl, sym, ap, ◌∙◌, subst, inl, inr, String, false, List, [], ◌∷◌, map, arith,
}
use classic_cheese.Prelude.Lists.{All, length-perm}
use classic_cheese.Prelude.Int.{ℤ, ℤ_discrete, IsInt64}
use classic_cheese.Prelude.Dict.{Unique, All-keys_ne}
use classic_cheese.Prelude.Decimal.{itoa, itoa_inj, atoi-IsInt64}
use classic_cheese.Leaderboard.Score.{Float64}
use classic_cheese.Leaderboard.Sorting.{IsSorted}
use classic_cheese.Leaderboard.Redis.{Redis, value, Z, replace_zset}
use classic_cheese.Leaderboard.Global.Sets.{above, AreApart, IsSets, replace_zset-replaces}
use classic_cheese.Leaderboard.Aggregator.{higher, members_of}
use classic_cheese.Leaderboard.Aggregator.Merge.{Has, IsBest}
use classic_cheese.Leaderboard.Aggregator.Ranking.{IsRanking, Perm-Same}

module _ {A B : Type 0} (f : A → B) where
  -- A permutation of images is the images of a permutation.
  Perm-map :
      {zs ws : List B}
      → Permᴰ zs ws
      → (rs : List A) → ws ≡ map f rs
      → (qs : List A) × (zs ≡ map f qs) × Permᴰ qs rs
  Perm-map Permᴰ.nil [] h = ([], refl, Permᴰ.nil)
  Perm-map Permᴰ.nil (r ∷ rs) h = absurd (ground arith)
  Perm-map (Permᴰ.cons e p) [] h = absurd (ground arith)
  Perm-map (Permᴰ.cons {a = a} {l₁ = l} e p) (r ∷ rs) h =
      let (qs, same, q) = Perm-map p rs (tail-eq_of_cons-eq h) in
      (r ∷ qs, ap (λ c. c ∷ l) (e ∙ head-eq_of_cons-eq h) ∙ ap (◌∷◌ (f r)) same, Permᴰ.cons refl q)
  Perm-map (Permᴰ.swap e d) [] h = absurd (ground arith)
  Perm-map (Permᴰ.swap e d) (r ∷ []) h = absurd (ground arith)
  Perm-map (Permᴰ.swap {a = a} {b = b} {l = l} e d) (r ∷ r' ∷ rs) h =
      let rest = tail-eq_of_cons-eq h in
      (
        r' ∷ r ∷ rs,
        ap (λ c. c ∷ b ∷ l) (e ∙ head-eq_of_cons-eq rest)
            ∙ ap (λ c. f r' ∷ c ∷ l) (d ∙ head-eq_of_cons-eq h)
            ∙ ap (λ c. f r' ∷ f r ∷ c) (tail-eq_of_cons-eq rest),
        Permᴰ.swap refl refl,
      )
  Perm-map (Permᴰ.trans p q) rs h =
      let (mid, same, perm) = Perm-map q rs h in
      let (qs, same', perm') = Perm-map p mid same in (qs, same', Permᴰ.trans perm' perm)

All-perm : {A : Type 0} (P : A → Type 0) {xs ys : List A} → Permᴰ xs ys → All P xs → All P ys
All-perm P Permᴰ.nil h = tt
All-perm P (Permᴰ.cons e p) h = (subst P e h.0, All-perm P p h.1)
All-perm P (Permᴰ.swap e d) h = (subst P d h.1.0, (subst P e h.0, h.1.1))
All-perm P (Permᴰ.trans p q) h = All-perm P q (All-perm P p h)

module _ {F : Type 0} where
  abbrev pub AreInts : List (ℤ × F) → Type 0
  AreInts rs = All (λ r. IsInt64 r.0) rs

  members-AreApart :
      (rs : List (ℤ × F)) → AreInts rs → Unique ℤ_discrete rs → AreApart (members_of rs)
  unfolding members_of
  members-AreApart [] ints h = tt
  members-AreApart ((u, x) ∷ rs) ints h =
      (others rs ints.1 (All-keys_ne ℤ_discrete u rs h.0), members-AreApart rs ints.1 h.1)
    where
      others :
          (qs : List (ℤ × F))
          → AreInts qs
          → All (λ c. c.0 ≢ u) qs
          → All (λ y. itoa u ≢ y.member) (members_of qs)
      others [] k n = tt
      others (q ∷ qs) k n = ((λ e. n.0 (sym (itoa_inj u q.0 ints.0 k.0 e))), others qs k.1 n.1)

  Has-IsInt64 : (u : ℤ) (x : F) (zs : List (Z F)) → Has u x zs → IsInt64 u
  Has-IsInt64 u x [] h = absurd h
  Has-IsInt64 u x (z ∷ zs) (inl h) = atoi-IsInt64 z.member u h.0
  Has-IsInt64 u x (z ∷ zs) (inr h) = Has-IsInt64 u x zs h

  best-AreInts :
      (float : Float64 F) (entries : List (Z F)) (rs : List (ℤ × F))
      → All (λ r. IsBest float r.0 r.1 entries) rs
      → AreInts rs
  best-AreInts float entries [] h = tt
  best-AreInts float entries (r ∷ rs) h =
      (Has-IsInt64 r.0 r.1 entries h.0.0, best-AreInts float entries rs h.1)

  -- In another order that is sorted as well, a ranking is a ranking.
  perm-IsRanking :
      (float : Float64 F) (entries : List (Z F)) (rs qs : List (ℤ × F))
      → Permᴰ qs rs
      → IsSorted (higher float) qs
      → IsRanking float entries rs
      → IsRanking float entries qs
  perm-IsRanking float entries rs qs p sorted ranking =
      let (once, same) = Perm-Same (Permᴰ.symm p) ranking.once in
      record {
        bounded = subst (λ n. n ≤ 50) (sym (length-perm p)) ranking.bounded;
        sorted = sorted;
        once = once;
        best = All-perm (λ r. IsBest float r.0 r.1 entries) (Permᴰ.symm p) ranking.best;
        complete = λ u x h. elim (ranking.complete u x h) [
          | inl k ↦ inl (λ e. k (same u ∙ e))
          | inr (full, below) ↦
              inr
                (length-perm p ∙ full, All-perm (λ r. float.gt x r.1 ≡ false) (Permᴰ.symm p) below)
        ];
      }

  members-higher :
      (float : Float64 F) (qs : List (ℤ × F))
      → IsSorted (above float) (members_of qs)
      → IsSorted (higher float) qs
  unfolding members_of
  members-higher float [] h = tt
  members-higher float (q ∷ qs) h = (rest q qs h.0, members-higher float qs h.1)
    where
      rest :
          (q : ℤ × F) (qs : List (ℤ × F))
          → All (λ y. float.gt y.score q.1 ≡ false) (members_of qs)
          → All (λ r. float.gt r.1 q.1 ≡ false) qs
      rest q [] k = tt
      rest q (r ∷ qs) k = (k.0, rest q qs k.1)

module _ {S F : Type 0} (redis : Redis S F) (float : Float64 F) (members : String → S → List (Z F))
    (sets : IsSets redis float members) where
  -- Once a ranking is written, the sorted set holds a ranking of the same entries. (Redis orders the
  -- users of one score in its own way.)
  pub replace_zset-IsRanking :
      (entries : List (Z F)) (ranking : List (ℤ × F)) (key : String) (s t : S) (replies : List F)
      → IsRanking float entries ranking
      → replace_zset redis key (members_of ranking) s ≡ (value replies, t)
      → (kept : List (ℤ × F)) × (members key t ≡ members_of kept)
        × IsRanking float entries kept
        × AreInts kept
  unfolding members_of
  replace_zset-IsRanking entries ranking key s t replies is written =
      let ints = best-AreInts float entries ranking is.best in
      let (perm, sorted) =
        replace_zset-replaces redis float members sets key (members_of ranking) s t replies
          (members-AreApart ranking ints is.once) written in
      let (kept, same, p) = Perm-map _ perm ranking refl in
      (
        kept,
        same,
        perm-IsRanking float entries ranking kept p
            (members-higher float kept (subst (IsSorted (above float)) same sorted)) is,
        All-perm (λ r. IsInt64 r.0) (Permᴰ.symm p) ints,
      )
