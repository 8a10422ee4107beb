-- ===== src/Leaderboard/Sorting.antt =====
-- `sort.Slice` of package sort: it permutes the slice so that no element is less than one in front
-- of it, and leaves the order of equal elements open. So the sort is a parameter with this contract.
pub mod Unique
use mathlib.Core.List.{Permᴰ}
use mathlib.Core.List.Permᴰ
use classic_cheese.Prelude.{
  ℕ, zero, suc, ◌≡◌, refl, Bool, true, false, List, [], ◌∷◌, arith, Bool-cases, inl, inr,
  if◌then◌else◌,
}
use classic_cheese.Prelude.Lists.{All, take, drop}

abbrev pub Sort : Type 0 → Type 0
Sort A = (A → A → Bool) → List A → List A

module _ {A : Type 0} (less : A → A → Bool) where
  -- No element is less than one in front of it.
  abbrev pub IsSorted : List A → Type 0
  IsSorted [] = Unit
  IsSorted (x ∷ xs) = All (λ y. less y x ≡ false) xs × IsSorted xs

-- `less` must be a strict weak order; what the contract promises for it.
pub record IsWeakOrder {A : Type 0} (less : A → A → Bool) : Type 0 where
  pub irrefl : (a : A) → less a a ≡ false
  pub trans : (a b c : A) → less a b ≡ true → less b c ≡ true → less a c ≡ true
  pub connected : (a b c : A) → less a b ≡ false → less b c ≡ false → less a c ≡ false

pub record IsSort {A : Type 0} (sort : Sort A) : Type 0 where
  pub perm : (less : A → A → Bool) (xs : List A) → Permᴰ (sort less xs) xs
  pub sorted :
      (less : A → A → Bool) → IsWeakOrder less → (xs : List A) → IsSorted less (sort less xs)

-- An insertion sort, which meets the contract.
module _ {A : Type 0} (less : A → A → Bool) where
  unfoldable pub insert_sorted : A → List A → List A
  insert_sorted x [] = x ∷ []
  insert_sorted x (y ∷ ys) =
      let rest = insert_sorted x ys in if less y x then y ∷ rest else x ∷ y ∷ ys

  unfoldable pub insertion_sort : List A → List A
  unfolding insert_sorted
  insertion_sort [] = []
  insertion_sort (x ∷ xs) = insert_sorted x (insertion_sort xs)

  insert_sorted-perm : (x : A) (ys : List A) → Permᴰ (insert_sorted x ys) (x ∷ ys)
  unfolding insert_sorted
  insert_sorted-perm x [] = Permᴰ.refl (x ∷ [])
  insert_sorted-perm x (y ∷ ys) = elim (Bool-cases (less y x)) [
    | inl e ↦ rw e (Permᴰ.trans (Permᴰ.cons refl (insert_sorted-perm x ys)) (Permᴰ.swap refl refl))
    | inr e ↦ rw e (Permᴰ.refl (x ∷ y ∷ ys))
  ]

  insertion_sort-perm : (xs : List A) → Permᴰ (insertion_sort xs) xs
  unfolding insertion_sort
  insertion_sort-perm [] = Permᴰ.refl []
  insertion_sort-perm (x ∷ xs) =
      Permᴰ.trans (insert_sorted-perm x (insertion_sort xs))
        (Permᴰ.cons refl (insertion_sort-perm xs))

  All-insert_sorted :
      (P : A → Type 0) (x : A) (ys : List A) → P x → All P ys → All P (insert_sorted x ys)
  unfolding insert_sorted
  All-insert_sorted P x [] p h = (p, tt)
  All-insert_sorted P x (y ∷ ys) p h = elim (Bool-cases (less y x)) [
    | inl e ↦ rw e (h.0, All-insert_sorted P x ys p h.1)
    | inr e ↦ rw e (p, h)
  ]

  not-less-below :
      IsWeakOrder less
      → (x y : A) (ys : List A) → less y x ≡ false
      → All (λ z. less z y ≡ false) ys
      → All (λ z. less z x ≡ false) ys
  not-less-below o x y [] e h = tt
  not-less-below o x y (z ∷ zs) e h = (o.connected z y x h.0 e, not-less-below o x y zs e h.1)

  insert_sorted-IsSorted :
      IsWeakOrder less
      → (x : A) (ys : List A) → IsSorted less ys
      → IsSorted less (insert_sorted x ys)
  unfolding insert_sorted
  insert_sorted-IsSorted o x [] h = (tt, tt)
  insert_sorted-IsSorted o x (y ∷ ys) h = elim (Bool-cases (less y x)) [
    | inl e ↦ rw e (
      All-insert_sorted (λ z. less z y ≡ false) x ys (asymm y x e) h.0,
      insert_sorted-IsSorted o x ys h.1,
    )
    | inr e ↦ rw e ((e, not-less-below o x y ys e h.0), h)
  ]
    where
      asymm : (a b : A) → less a b ≡ true → less b a ≡ false
      asymm a b p = elim (Bool-cases (less b a)) [
        | inl q ↦ absurd (ground (arith, o.trans a b a p q, o.irrefl a))
        | inr q ↦ q
      ]

  insertion_sort-IsSorted : IsWeakOrder less → (xs : List A) → IsSorted less (insertion_sort xs)
  unfolding insertion_sort
  insertion_sort-IsSorted o [] = tt
  insertion_sort-IsSorted o (x ∷ xs) =
      insert_sorted-IsSorted o x (insertion_sort xs) (insertion_sort-IsSorted o xs)

pub insertion_sort-IsSort : {A : Type 0} → IsSort (insertion_sort {A = A})
insertion_sort-IsSort = record { perm = insertion_sort-perm; sorted = insertion_sort-IsSorted }

module _ {A : Type 0} (less : A → A → Bool) where
  -- A sorted list cut at any place: nothing behind the cut is less than anything in front of it.
  abbrev pub IsCut : List A → List A → Type 0
  IsCut kept rest = All (λ x. All (λ y. less y x ≡ false) rest) kept

  All-drop : (P : A → Type 0) (n : ℕ) (xs : List A) → All P xs → All P (drop n xs)
  All-drop P zero xs h = h
  All-drop P (suc n) [] h = h
  All-drop P (suc n) (x ∷ xs) h = All-drop P n xs h.1

  pub take-drop-IsCut : (n : ℕ) (xs : List A) → IsSorted less xs → IsCut (take n xs) (drop n xs)
  take-drop-IsCut zero xs h = tt
  take-drop-IsCut (suc n) [] h = tt
  take-drop-IsCut (suc n) (x ∷ xs) h =
      (All-drop (λ y. less y x ≡ false) n xs h.0, take-drop-IsCut n xs h.1)

  All-take : (P : A → Type 0) (n : ℕ) (xs : List A) → All P xs → All P (take n xs)
  All-take P zero xs h = tt
  All-take P (suc n) [] h = tt
  All-take P (suc n) (x ∷ xs) h = (h.0, All-take P n xs h.1)

  pub take-IsSorted : (n : ℕ) (xs : List A) → IsSorted less xs → IsSorted less (take n xs)
  take-IsSorted zero xs h = tt
  take-IsSorted (suc n) [] h = tt
  take-IsSorted (suc n) (x ∷ xs) h =
      (All-take (λ y. less y x ≡ false) n xs h.0, take-IsSorted n xs h.1)
