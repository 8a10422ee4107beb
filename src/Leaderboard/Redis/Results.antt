-- ===== src/Leaderboard/Redis/Results.antt =====
-- leaderboard-poc/internal/redisclient/redisclient.go: the two kinds of result are told apart, and
-- give back what they hold.
use classic_cheese.Prelude.{◌≡◌, ◌≢◌, refl, ap, ◌⊎◌, inl, inr}
use classic_cheese.Leaderboard.Redis.{Error, Result, value, error}

module _ {A : Type 0} where
  value_or : A → Result A → A
  value_or d (value a) = a
  value_or d (error e) = d

  error_or : Error → Result A → Error
  error_or d (value a) = d
  error_or d (error e) = e

  pub value_injective : (a b : A) → ◌≡◌ {A = Result A} (value a) (value b) → a ≡ b
  unfolding value_or
  value_injective a b h = ap (value_or a) h

  pub error_injective : (e d : Error) → ◌≡◌ {A = Result A} (error e) (error d) → e ≡ d
  unfolding error_or
  error_injective e d h = ap (error_or e) h

  pub error-ne-value : (e : Error) (a : A) → ◌≢◌ {A = Result A} (error e) (value a)
  error-ne-value e a p = cc

  pub Result-cases : (r : Result A) → ((a : A) × (r ≡ value a)) ⊎ ((e : Error) × (r ≡ error e))
  Result-cases (value a) = inl (a, refl)
  Result-cases (error e) = inr (e, refl)
