-- ===== src/Leaderboard/Notifier/Reasons.antt =====
-- leaderboard-poc/cmd/notifier/main.go, `handleEvent`: the two reasons to announce a rank.
use classic_cheese.Prelude.{
  String, ◌≡◌, ◌≢◌, ◌↔◌, refl, sym, Bool, true, false, ◌&&◌, ◌||◌, arith, ◌⊎◌, inl, inr,
  if◌then◌else◌, ne_by_test,
}
use classic_cheese.Prelude.Int.{
  ℤ, pos, ◌-ℤ◌, ◌+ℤ◌, leb_ℤ, ltb_ℤ, eqb_ℤ, wrap64, wrap64_fixed, IsInt64, ◌≤ℤ◌,
}
use classic_cheese.Leaderboard.Notifier.{reason_of, top_n_threshold}

-- The user enters the top ten: from outside it, or from no known rank, which is 0.
abbrev pub Enters : ℤ → ℤ → Type 0
Enters rank previous = (rank ≤ℤ pos 10) × ((previous ≡ pos 0) ⊎ (pos 11 ≤ℤ previous))

-- The user climbs by more than the threshold from a known rank.
abbrev pub Climbs : ℤ → ℤ → ℤ → Type 0
Climbs threshold rank previous = (pos 1 ≤ℤ previous) × (rank +ℤ threshold +ℤ pos 1 ≤ℤ previous)

abbrev pub IsRank : ℤ → Type 0
IsRank r = (pos 1 ≤ℤ r) × IsInt64 r

false-ne-true : false ≢ true
false-ne-true e = ground arith

enters : ℤ → ℤ → Bool
enters rank previous =
    leb_ℤ rank top_n_threshold && (eqb_ℤ previous (pos 0) || ltb_ℤ top_n_threshold previous)

climbs : ℤ → ℤ → ℤ → Bool
climbs threshold rank previous =
    ltb_ℤ (pos 0) previous && ltb_ℤ threshold (wrap64 (previous -ℤ rank))

enters_lem : (rank previous : ℤ) → (enters rank previous ≡ true) ↔ Enters rank previous
unfolding enters
enters_lem rank previous = ground arith

-- The difference of two ranks does not overflow.
difference : (rank previous : ℤ) → IsRank rank → IsRank previous → IsInt64 (previous -ℤ rank)
unfolding ◌-ℤ◌
difference rank previous h k = ground arith

climbs_exact :
    (threshold rank previous : ℤ)
    → (ltb_ℤ threshold (previous -ℤ rank) ≡ true) ↔ (rank +ℤ threshold +ℤ pos 1 ≤ℤ previous)
unfolding ◌+ℤ◌ ◌-ℤ◌
climbs_exact threshold rank previous = ground arith

climbs_lem :
    (threshold rank previous : ℤ)
    → IsRank rank
    → (previous ≡ pos 0) ⊎ IsRank previous
    → (climbs threshold rank previous ≡ true) ↔ Climbs threshold rank previous
unfolding climbs
climbs_lem threshold rank previous h (inl z) = ground arith
climbs_lem threshold rank previous h (inr k) =
    rw (wrap64_fixed (previous -ℤ rank) (difference rank previous h k))
      (ground (arith, climbs_exact threshold rank previous))

top10_ne_jump : ◌≢◌ {A = String} "top10" "rank_jump"
top10_ne_jump = ne_by_test "top10" "rank_jump" refl

pub top10_ne_none : ◌≢◌ {A = String} "top10" ""
top10_ne_none = ne_by_test "top10" "" refl

pub jump_ne_none : ◌≢◌ {A = String} "rank_jump" ""
jump_ne_none = ne_by_test "rank_jump" "" refl

-- What the reason says, one equivalence for each.
abbrev pub Explains : ℤ → ℤ → ℤ → String → Type 0
Explains threshold rank previous reason =
    ((reason ≡ "top10") ↔ Enters rank previous)
    × ((reason ≡ "rank_jump") ↔ ((¬ Enters rank previous) × Climbs threshold rank previous))
    × ((reason ≡ "") ↔ ((¬ Enters rank previous) × (¬ Climbs threshold rank previous)))

module _ (threshold rank previous : ℤ) (h : IsRank rank)
    (known : (previous ≡ pos 0) ⊎ IsRank previous) where
  Explains-top10 : Enters rank previous → Explains threshold rank previous "top10"
  Explains-top10 e = (
    (λ _. e, λ _. refl),
    (λ q. absurd (top10_ne_jump q), λ p. absurd (p.0 e)),
    (λ q. absurd (top10_ne_none q), λ p. absurd (p.0 e)),
  )

  Explains-jump :
      ¬ Enters rank previous
      → Climbs threshold rank previous
      → Explains threshold rank previous "rank_jump"
  Explains-jump n c = (
    (λ q. absurd (top10_ne_jump (sym q)), λ e. absurd (n e)),
    (λ _. (n, c), λ _. refl),
    (λ q. absurd (jump_ne_none q), λ p. absurd (p.1 c)),
  )

  Explains-none :
      ¬ Enters rank previous
      → ¬ Climbs threshold rank previous
      → Explains threshold rank previous ""
  Explains-none n c = (
    (λ q. absurd (top10_ne_none (sym q)), λ e. absurd (n e)),
    (λ q. absurd (jump_ne_none (sym q)), λ p. absurd (c p.1)),
    (λ _. (n, c), λ _. refl),
  )

  -- A rank is announced as "top10" exactly if the user comes into the top ten from outside or from no
  -- known rank, as "rank_jump" exactly if not so and the user climbed by more than the threshold, and
  -- not at all exactly if neither holds. Ranks are positive 64-bit numbers, 0 is no known rank.
  pub reason_of_lem : Explains threshold rank previous (reason_of threshold rank previous)
  unfolding reason_of enters climbs
  reason_of_lem =
      chosen (enters rank previous) (climbs threshold rank previous) (enters_lem rank previous)
        (climbs_lem threshold rank previous h known)
    where
      chosen :
          (b c : Bool)
          → (b ≡ true) ↔ Enters rank previous
          → (c ≡ true) ↔ Climbs threshold rank previous
          → Explains threshold rank previous (if b then "top10" else if c then "rank_jump" else "")
      chosen true c e k = Explains-top10 (e.0 refl)
      chosen false true e k = Explains-jump (λ p. false-ne-true (e.1 p)) (k.0 refl)
      chosen false false e k =
          Explains-none (λ p. false-ne-true (e.1 p)) (λ p. false-ne-true (k.1 p))
