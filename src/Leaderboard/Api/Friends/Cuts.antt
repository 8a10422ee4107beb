-- ===== src/Leaderboard/Api/Friends/Cuts.antt =====
-- leaderboard-poc/cmd/api/handlers.go: the slices that the friends scope cuts from a leaderboard.
use classic_cheese.Prelude.{
  ℕ, zero, suc, ◌+◌, ◌-◌, ◌≤◌, ◌<◌, ◌≡◌, ◌≢◌, refl, sym, ◌∙◌, ap, true, false, List, [], ◌∷◌, ◌++◌,
  Option, none, some, arith, if◌then◌else◌, Bool-cases, leb, inl, inr, ◌⊎◌,
}
use classic_cheese.Prelude.Lists.{length, take, drop, take-append-drop, length-take, length-drop}
use classic_cheese.Prelude.Int.{ℤ, pos, negsuc, ◌+ℤ◌, ◌-ℤ◌, wrap64, two_63, ltb_ℤ, eqb_ℤ}
use classic_cheese.Leaderboard.Api.{RankedEntry, slice}
use classic_cheese.Leaderboard.Api.Friends.{
  first_n, window, window_start, window_end, around_user, center_of,
}

module _ {A : Type 0} where
  take-all : (n : ℕ) (xs : List A) → length xs ≤ n → take n xs ≡ xs
  take-all zero [] h = refl
  take-all zero (x ∷ xs) h = absurd (omega arith)
  take-all (suc n) [] h = refl
  take-all (suc n) (x ∷ xs) h = ap (◌∷◌ x) (take-all n xs (omega arith))

  slice_lem :
      (xs : List A) (a b : ℕ)
      → a ≤ b
      → b ≤ length xs
      → slice xs (pos a) (pos b) ≡ some (take (b - a) (drop a xs))
  unfolding slice
  slice_lem xs a b h k = ground arith

  slice_backwards : (xs : List A) (a b : ℕ) → b < a → slice xs (pos a) (pos b) ≡ none
  unfolding slice
  slice_backwards xs a b h = ground arith

  slice-of_negative : (xs : List A) (a : ℤ) (b : ℕ) → slice xs a (negsuc b) ≡ none
  unfolding slice
  slice-of_negative xs (pos a) b = refl
  slice-of_negative xs (negsuc a) b = refl

  -- The part of a list from `a` up to `b`, where what is out of range is left out.
  pub record IsPart (xs : List A) (a b : ℕ) (part : List A) : Type 0 where
    pub before : List A
    pub after : List A
    pub whole : xs ≡ before ++ (part ++ after)
    pub before_size : length before ≡ a
    pub after_size : length after ≡ length xs - b

  pub take-drop-IsPart :
      (xs : List A) (a b c : ℕ)
      → a ≤ b
      → a ≤ length xs
      → length xs - b ≡ length xs - c
      → IsPart xs a c (take (b - a) (drop a xs))
  take-drop-IsPart xs a b c h k e = record {
    before = take a xs;
    after = drop (b - a) (drop a xs);
    whole =
        sym (ap (◌++◌ (take a xs)) (take-append-drop (b - a) (drop a xs)) ∙ take-append-drop a xs);
    before_size = omega (arith, length-take a xs);
    after_size = omega (arith, length-drop (b - a) (drop a xs), length-drop a xs);
  }

minus_zero : (n : ℕ) → n - 0 ≡ n
minus_zero n = omega arith

plus_zero : (n : ℕ) → 0 + n ≡ n
plus_zero n = omega arith

module _ {F : Type 0} where
  -- The first n entries, or a panic if n is negative.
  abbrev pub CutsFirst : ℤ → List (RankedEntry F) → Option (List (RankedEntry F)) → Type 0
  CutsFirst (pos n) es out = out ≡ some (take n es)
  CutsFirst (negsuc n) es out = out ≡ none

  -- What the friends scope of /leaderboard/top cuts from the list is the first n entries for any n
  -- from 0 on; every negative n is a panic.
  pub first_n_lem : (n : ℤ) (es : List (RankedEntry F)) → CutsFirst n es (first_n n es)
  unfolding first_n
  first_n_lem (pos n) es = elim (Bool-cases (ltb_ℤ (pos n) (pos (length es)))) [
    | inl e ↦
        rw e (
          slice_lem es 0 n (omega arith) (ground arith) ∙ ap (λ k. some (take k es)) (minus_zero n))
    | inr e ↦ rw e (ap some (sym (take-all n es (ground arith))))
  ]
  first_n_lem (negsuc n) es = ground (arith, slice-of_negative es (pos 0) n)

window_start_lem :
    (center count : ℕ)
    → center < two_63
    → count < two_63
    → window_start center (pos count) ≡ pos (center - count)
unfolding window_start wrap64 ◌-ℤ◌
window_start_lem center count h k = ground arith

window_end_lem :
    (center count size : ℕ)
    → center + count + 1 < two_63
    → window_end center (pos count) size
      ≡ pos (if leb (center + count + 1) size then center + count + 1 else size)
unfolding window_end wrap64 ◌+ℤ◌
window_end_lem center count size h = ground arith

-- With a negative count the window ends before it starts.
window_start_past :
    (center count : ℕ)
    → center + count + 1 < two_63
    → window_start center (negsuc count) ≡ pos (center + count + 1)
unfolding window_start wrap64 ◌-ℤ◌
window_start_past center count h = ground arith

window_end_past :
    (center count size : ℕ)
    → center < size
    → center + count + 1 < two_63
    → (window_end center (negsuc count) size ≡ pos (center - count))
      ⊎ ((n : ℕ) × (window_end center (negsuc count) size ≡ negsuc n))
unfolding window_end wrap64 ◌+ℤ◌
window_end_past center count size h k = elim (Bool-cases (leb count center)) [
  | inl e ↦ inl (ground arith)
  | inr e ↦ inr (count - center - 1, ground arith)
]

-- How far a count reaches.
abbrev pub size_of : ℤ → ℕ
size_of (pos n) = n
size_of (negsuc n) = n

pub eqb_ℤ-same : (a b : ℤ) → a ≡ b → eqb_ℤ a b ≡ true
eqb_ℤ-same a b h = ground arith

pub eqb_ℤ-other : (a b : ℤ) → a ≢ b → eqb_ℤ a b ≡ false
eqb_ℤ-other a b h = ground arith

module _ {F : Type 0} where
  -- What the window about an entry shows: the entries at most `count` places away.
  abbrev pub ShowsWindow : ℕ → ℤ → List (RankedEntry F) → Option (List (RankedEntry F)) → Type 0
  ShowsWindow center (pos count) es out =
      (shown : List (RankedEntry F)) × (out ≡ some shown)
      × IsPart es (center - count) (center + count + 1) shown
  ShowsWindow center (negsuc count) es out = out ≡ none

  window_wide :
      (center count : ℕ) (es : List (RankedEntry F))
      → center < length es
      → center + count + 1 < two_63
      → ShowsWindow center (pos count) es (window (some center) (pos count) es)
  unfolding window
  window_wide center count es h k = elim (Bool-cases (leb (center + count + 1) (length es))) [
    | inl e ↦ (
      take (center + count + 1 - (center - count)) (drop (center - count) es),
      rw
          (
            window_start_lem center count (omega arith) (omega arith),
            window_end_lem center count (length es) k,
            e,
          )
          (slice_lem es (center - count) (center + count + 1) (omega arith) (ground arith)),
      take-drop-IsPart es (center - count) (center + count + 1) (center + count + 1) (omega arith)
          (omega arith) refl,
    )
    | inr e ↦ (
      take (length es - (center - count)) (drop (center - count) es),
      rw
          (
            window_start_lem center count (omega arith) (omega arith),
            window_end_lem center count (length es) k,
            e,
          )
          (slice_lem es (center - count) (length es) (omega arith) (omega arith)),
      take-drop-IsPart es (center - count) (length es) (center + count + 1) (omega arith)
          (omega arith) (ground arith),
    )
  ]

  window_negative :
      (center count : ℕ) (es : List (RankedEntry F))
      → center < length es
      → center + count + 1 < two_63
      → window (some center) (negsuc count) es ≡ none
  unfolding window
  window_negative center count es h k = elim (window_end_past center count (length es) h k) [
    | inl e ↦
        rw (window_start_past center count k, e)
          (slice_backwards es (center + count + 1) (center - count) (omega arith))
    | inr (n, e) ↦ rw e (slice-of_negative es (window_start center (negsuc count)) n)
  ]

  -- The user's first entry has this index.
  abbrev pub IsFirst : ℤ → List (RankedEntry F) → ℕ → Type 0
  IsFirst user_id [] n = ⊥
  IsFirst user_id (e ∷ es) zero = e.user_id ≡ user_id
  IsFirst user_id (e ∷ es) (suc n) = (e.user_id ≢ user_id) × IsFirst user_id es n

  IsFirst-bound : (u : ℤ) (es : List (RankedEntry F)) (n : ℕ) → IsFirst u es n → n < length es
  IsFirst-bound u [] n h = absurd h
  IsFirst-bound u (e ∷ es) zero h = omega arith
  IsFirst-bound u (e ∷ es) (suc n) h = omega (arith, IsFirst-bound u es n h.1)

  center_of-IsFirst :
      (u : ℤ) (i : ℕ) (es : List (RankedEntry F)) (n : ℕ)
      → IsFirst u es n
      → center_of u i es ≡ some (i + n)
  unfolding center_of
  center_of-IsFirst u i [] n h = absurd h
  center_of-IsFirst u i (e ∷ es) zero h = rw (eqb_ℤ-same e.user_id u h) (ap some (omega arith))
  center_of-IsFirst u i (e ∷ es) (suc n) h =
      rw (eqb_ℤ-other e.user_id u h.0)
        (center_of-IsFirst u (suc i) es n h.1 ∙ ap some (omega arith))

  shows :
      (center : ℕ) (count : ℤ) (es : List (RankedEntry F))
      → center < length es
      → center + size_of count + 1 < two_63
      → ShowsWindow center count es (window (some center) count es)
  shows center (pos count) es h k = window_wide center count es h k
  shows center (negsuc count) es h k = window_negative center count es h k

  -- What the friends scope of /leaderboard/around cuts from the list is, for a count from 0 on,
  -- exactly the entries at most that many places away from the user's first entry; every negative
  -- count is a panic. (If the index and the count together stay below 2 ^ 63.)
  pub around_user_lem :
      (user_id : ℤ) (count : ℤ) (es : List (RankedEntry F)) (center : ℕ)
      → IsFirst user_id es center
      → center + size_of count + 1 < two_63
      → ShowsWindow center count es (around_user user_id count es)
  unfolding around_user
  around_user_lem user_id count es center h k =
      rw (center_of-IsFirst user_id 0 es center h, plus_zero center)
        (shows center count es (IsFirst-bound user_id es center h) k)
