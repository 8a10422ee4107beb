-- ===== src/Leaderboard/Sorting/Unique.antt =====
-- Sorting a list that increases strictly leaves it as it is. (`ORDER BY rank_position` of
-- leaderboard-poc/internal/mysqlclient/mysqlclient.go.)
use mathlib.Core.List.{Perm, Mem, eq-or-mem_of_mem-cons, mem-cons_self, not-mem-nil}
use mathlib.Core.List.Perm
use mathlib.Core.Logic.Or
use classic_cheese.Prelude.{◌≡◌, refl, sym, ap, ◌∙◌, subst, Bool, true, false, List, [], ◌∷◌, arith}
use classic_cheese.Prelude.Lists.{All}
use classic_cheese.Leaderboard.Sorting.{IsSorted}

module _ {A : Type 0} (less : A → A → Bool) where
  abbrev pub IsStrict : List A → Type 0
  IsStrict [] = Unit
  IsStrict (x ∷ xs) = All (λ y. less x y ≡ true) xs × IsStrict xs

module _ {A : Type 0} (set : IsSet A) (less : A → A → Bool) where
  All-Mem :
      (b : Bool) (f : A → Bool) (y : A) (xs : List A) → All (λ z. f z ≡ b) xs → Mem y xs → f y ≡ b
  All-Mem b f y [] h m = absurd (not-mem-nil m)
  All-Mem b f y (x ∷ xs) h m =
      Or.elim (hlevel) (eq-or-mem_of_mem-cons m) (λ e. ap f e ∙ h.0) (All-Mem b f y xs h.1)

  same_head :
      (y x : A) (ys xs : List A)
      → IsSorted less (y ∷ ys)
      → IsStrict less (x ∷ xs)
      → Perm (y ∷ ys) (x ∷ xs)
      → y ≡ x
  same_head y x ys xs s h p =
      Or.elim (set y x) (eq-or-mem_of_mem-cons ((Perm.mem_iff p).0 mem-cons_self)) (λ e. e)
        (λ m.
          Or.elim (set y x) (eq-or-mem_of_mem-cons ((Perm.mem_iff p).1 mem-cons_self)) (λ e. sym e)
            (λ n. absurd (
              ground (
                arith,
                All-Mem true (less x) y xs h.0 m,
                All-Mem false (λ z. less z y) x ys s.0 n,
              ))))

  pub sorted_unique : (ys xs : List A) → IsSorted less ys → IsStrict less xs → Perm ys xs → ys ≡ xs
  sorted_unique [] [] s h p = refl
  sorted_unique [] (x ∷ xs) s h p = absurd (not-mem-nil ((Perm.mem_iff p).1 mem-cons_self))
  sorted_unique (y ∷ ys) [] s h p = absurd (not-mem-nil ((Perm.mem_iff p).0 mem-cons_self))
  sorted_unique (y ∷ ys) (x ∷ xs) s h p =
      let same = same_head y x ys xs s h p in
      ap (λ a. a ∷ ys) same
      ∙ ap (◌∷◌ x)
          (sorted_unique ys xs s.1 h.1 (Perm.cons_inv (subst (λ a. Perm (a ∷ ys) (x ∷ xs)) same p)))
