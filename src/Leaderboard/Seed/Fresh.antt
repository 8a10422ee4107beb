-- ===== src/Leaderboard/Seed/Fresh.antt =====
-- leaderboard-poc/cmd/seed/main.go, createFriendGraph: among more users than are picked one is left to pick.
use mathlib.Core.Option.{some-injective}
use classic_cheese.Prelude.{
  ℕ, zero, suc, ◌≤◌, ◌<◌, ◌≡◌, ◌≢◌, refl, sym, ap, ◌∙◌, ◌⊎◌, inl, inr, List, [], ◌∷◌, none, some,
  arith, if_pos, if_neg, Option-cases,
}
use classic_cheese.Prelude.Lists.{All, length, get_or, get_elem?, All-get_elem}
use classic_cheese.Prelude.Int.{ℤ, ℤ_discrete}
use classic_cheese.Prelude.Dict.{lookup, insert, erase, lookup-erase_ne}
use classic_cheese.Leaderboard.Seed.{Picked}

abbrev pub AreDistinct : List ℤ → Type 0
AreDistinct [] = Unit
AreDistinct (x ∷ xs) = All (λ y. x ≢ y) xs × AreDistinct xs

length-erase_le : (x : ℤ) (p : Picked) → length (erase ℤ_discrete x p) ≤ length p
unfolding erase
length-erase_le x [] = omega arith
length-erase_le x ((y, w) ∷ p) = ground (arith, length-erase_le x p)

length-erase_found :
    (x : ℤ) (p : Picked)
    → lookup ℤ_discrete x p ≡ some tt
    → suc (length (erase ℤ_discrete x p)) ≤ length p
unfolding erase lookup
length-erase_found x [] h = absurd (ground arith)
length-erase_found x ((y, w) ∷ p) h = ground (arith, length-erase_le x p, length-erase_found x p)

-- Of more distinct numbers than are in a set one is not in it.
abbrev Fresh : List ℤ → Picked → Type 0
Fresh xs p = (i : ℕ) × (x : ℤ) × (get_elem? xs i ≡ some x) × (lookup ℤ_discrete x p ≡ none)

pub new_or_few : (xs : List ℤ) (p : Picked) → AreDistinct xs → Fresh xs p ⊎ (length xs ≤ length p)
new_or_few [] p h = inr (omega arith)
new_or_few (x ∷ xs) p h = elim (Option-cases (lookup ℤ_discrete x p)) [
  | inl e ↦ inl (0, x, refl, e)
  | inr found ↦ elim (new_or_few xs (erase ℤ_discrete x p) h.1) [
    | inl fresh ↦ inl (deeper xs h.0 fresh)
    | inr few ↦ inr (omega (arith, length-erase_found x p found.1))
  ]
]
  where
    deeper :
        (ys : List ℤ) → All (λ y. x ≢ y) ys → Fresh ys (erase ℤ_discrete x p) → Fresh (x ∷ ys) p
    deeper ys others (i, y, at, e) = (
      suc i,
      y,
      at,
      sym (lookup-erase_ne ℤ_discrete x y p (All-get_elem (λ y. x ≢ y) ys i others at)) ∙ e,
    )

pub get_or-found : (xs : List ℤ) (i : ℕ) (d x : ℤ) → get_elem? xs i ≡ some x → get_or xs i d ≡ x
get_or-found [] i d x h = absurd (ground arith)
get_or-found (y ∷ xs) zero d x h = some-injective y x h
get_or-found (y ∷ xs) (suc i) d x h = get_or-found xs i d x h

-- A number of the list stands at a place below its length.
pub get_or_place :
    (xs : List ℤ) (i : ℕ) (d : ℤ) → i < length xs → get_elem? xs i ≡ some (get_or xs i d)
get_or_place [] i d h = absurd (omega arith)
get_or_place (x ∷ xs) zero d h = refl
get_or_place (x ∷ xs) (suc i) d h = get_or_place xs i d (omega arith)

-- Adding what is there changes nothing.
pub insert-known :
    (x : ℤ) (p : Picked) → lookup ℤ_discrete x p ≡ some tt → insert ℤ_discrete x tt p ≡ p
unfolding lookup insert
insert-known x [] h = absurd (ground arith)
insert-known x ((y, w) ∷ p) h = elim (ℤ_discrete y x) [
  | yes e ↦ if_pos (ℤ_discrete y x) e _ _ ∙ ap (λ z. (z, tt) ∷ p) (sym e)
  | no e ↦
      if_neg (ℤ_discrete y x) e _ _
      ∙ ap (◌∷◌ (y, w)) (insert-known x p (sym (if_neg (ℤ_discrete y x) e _ _) ∙ h))
]

pub not_user :
    (x user_id : ℤ) (p : Picked)
    → lookup ℤ_discrete x ((user_id, tt) ∷ p) ≡ none
    → (x ≢ user_id) × (lookup ℤ_discrete x p ≡ none)
unfolding lookup
not_user x user_id p h = elim (ℤ_discrete user_id x) [
  | yes e ↦ absurd (ground arith)
  | no e ↦ ((λ q. e (sym q)), sym (if_neg (ℤ_discrete user_id x) e _ _) ∙ h)
]
