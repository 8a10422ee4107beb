-- ===== src/Leaderboard/Score.antt =====
-- What the services do with a score, a float64: they compare it, make it from an int and turn it into
-- one. Redis holds no NaN, so `>` on scores is a strict weak order; `IsScoreOrder` says so.
use classic_cheese.Prelude.{◌≡◌, Bool, true, false, arith, Bool-cases, inl, inr}
use classic_cheese.Prelude.Int.{ℤ}

pub record Float64 (F : Type 0) : Type 0 where
  -- `a > b`
  pub gt : F → F → Bool
  -- `float64(n)` and `int(x)`
  pub of_int : ℤ → F
  pub to_int : F → ℤ

pub record IsScoreOrder {F : Type 0} (f : Float64 F) : Type 0 where
  pub irrefl : (a : F) → f.gt a a ≡ false
  pub trans : (a b c : F) → f.gt a b ≡ true → f.gt b c ≡ true → f.gt a c ≡ true
  pub connected : (a b c : F) → f.gt a b ≡ false → f.gt b c ≡ false → f.gt a c ≡ false

module _ {F : Type 0} (f : Float64 F) (o : IsScoreOrder f) where
  pub gt_asymm : (a b : F) → f.gt a b ≡ true → f.gt b a ≡ false
  gt_asymm a b h = elim (Bool-cases (f.gt b a)) [
    | inl e ↦ absurd (ground (arith, o.trans a b a h e, o.irrefl a))
    | inr e ↦ e
  ]
