-- ===== src/Leaderboard/Models/Period/Calendar.antt =====
-- The calendar of package time, as far as leaderboard-poc/internal/models/models.go relies on it: an
-- ISO week is a week of days.
use native.Mathlib.Decide.{dec_lt}
use classic_cheese.Prelude.{
  ℕ, zero, suc, ◌+◌, ◌-◌, ◌*◌, ◌/◌, ◌%◌, ◌≤◌, ◌<◌, ◌≡◌, ◌↔◌, refl, sym, ap, subst, ◌∙◌, arith,
  Bool-cases, inl, inr, ℕ_discrete, ltb, leb,
}
use classic_cheese.Leaderboard.Models.Period.{
  Date, is_leap, days_in_month, days_in_year, days_of_months, year_day, days_before_year,
  day_number, week_of, iso_week,
}

pub record IsDate (d : Date) : Type 0 where
  pub year_in : 1 ≤ d.year
  pub month_in : (1 ≤ d.month) × (d.month ≤ 12)
  pub day_in : (1 ≤ d.day) × (d.day ≤ days_in_month d.year d.month)

year_length : (y : ℕ) → (365 ≤ days_in_year y) × (days_in_year y ≤ 366)
unfolding days_in_year
year_length y = ground arith

days_before_year-suc :
    (y : ℕ) → 1 ≤ y → days_before_year (suc y) ≡ days_before_year y + days_in_year y
unfolding days_before_year days_in_year is_leap
days_before_year-suc y h = ground arith

twelve_months : (y : ℕ) → days_of_months y 12 ≡ days_in_year y
unfolding days_of_months days_in_month days_in_year
twelve_months y = ground arith

-- A function on numbers that does not fall from one to the next does not fall at all.
mono :
    (f : ℕ → ℕ) (a : ℕ)
    → ((n : ℕ) → a ≤ n → f n ≤ f (suc n))
    → (m n : ℕ) → a ≤ m
    → m ≤ n
    → f m ≤ f n
mono f a step m zero h k = rw (zero_of m k) (omega arith)
  where
    zero_of : (m : ℕ) → m ≤ 0 → m ≡ 0
    zero_of m k = omega arith
mono f a step m (suc n) h k = elim (ℕ_discrete m (suc n)) [
  | yes e ↦ rw e (omega arith)
  | no e ↦ omega (arith, mono f a step m n h (omega arith), step n (omega arith))
]

months-le : (y m n : ℕ) → m ≤ n → days_of_months y m ≤ days_of_months y n
months-le y m n h = mono (days_of_months y) 0 grows m n (omega arith) h
  where
    grows : (k : ℕ) → 0 ≤ k → days_of_months y k ≤ days_of_months y (suc k)
    grows k h = unfold days_of_months in omega arith

days_before_year-le :
    (y z : ℕ) → 1 ≤ y → suc y ≤ z → days_before_year y + days_in_year y ≤ days_before_year z
days_before_year-le y z h k =
    omega (arith, days_before_year-suc y h, mono days_before_year 1 grows (suc y) z (omega arith) k)
  where
    grows : (n : ℕ) → 1 ≤ n → days_before_year n ≤ days_before_year (suc n)
    grows n h = omega (arith, days_before_year-suc n h)

in_month :
    (y k day : ℕ)
    → suc k ≤ 12
    → 1 ≤ day
    → day ≤ days_in_month y (suc k)
    → days_of_months y k + (day - 1) < days_in_year y
in_month y k day h lo hi = omega (arith, months-le y (suc k) 12 h, twelve_months y, month_end)
  where
    month_end : days_of_months y (suc k) ≡ days_of_months y k + days_in_month y (suc k)
    month_end = unfold days_of_months in refl

year_day-lt : (d : Date) → IsDate d → year_day d < days_in_year d.year
unfolding year_day
year_day-lt d v =
    let whole : suc (d.month - 1) ≡ d.month = omega (arith, v.month_in) in
    in_month d.year (d.month - 1) d.day (omega (arith, v.month_in)) v.day_in.0 (rw whole v.day_in.1)

-- The day `n` is the r-th of the year, from 0.
pub record Falls (n y r : ℕ) : Type 0 where
  pub later : 1 ≤ y
  pub inside : r < days_in_year y
  pub number : n ≡ days_before_year y + r

-- A day falls in one year and on one day of it.
Falls-same : (n y r z q : ℕ) → Falls n y r → Falls n z q → (y ≡ z) × (r ≡ q)
Falls-same n y r z q a b = elim (dec_lt y z) [
  | yes lt ↦
      absurd (omega (arith, days_before_year-le y z a.later lt, a.inside, a.number, b.number))
  | no ge ↦ elim (dec_lt z y) [
    | yes gt ↦
        absurd (omega (arith, days_before_year-le z y b.later gt, b.inside, a.number, b.number))
    | no le ↦
        let same : y ≡ z = omega arith in
        (same, omega (arith, a.number, b.number, ap days_before_year same))
  ]
]

-- The year and the week that ISOWeek gives are those of the Thursday in the week of the day.
abbrev pub IsWeek : ℕ → ℕ × ℕ → Type 0
IsWeek n (y, w) = (r : ℕ) × Falls (n / 7 * 7 + 3) y r × (w ≡ r / 7 + 1)

first_year : days_before_year 1 ≡ 0
unfolding days_before_year
first_year = refl

year_one : (y : ℕ) → y ≡ 1 → days_before_year y ≡ 0
year_one y e = ap days_before_year e ∙ first_year

-- The Thursday falls in the year before, in the year of the day, or in the year after.
Falls-before :
    (n y r : ℕ)
    → Falls n y r
    → r + 3 < n % 7
    → Falls (n / 7 * 7 + 3) (y - 1) (r + 3 + days_in_year (y - 1) - n % 7)
Falls-before n y r f h = record {
  later = above;
  inside = omega (arith, year_length (y - 1));
  number = omega (arith, f.number, year_length (y - 1), length_of);
}
  where
    above : 1 ≤ y - 1
    above = elim (ℕ_discrete y 1) [
      | yes e ↦ absurd (omega (arith, f.number, year_one y e))
      | no e ↦ omega (arith, f.later)
    ]

    whole : suc (y - 1) ≡ y
    whole = omega (arith, f.later)

    length_of : days_before_year y ≡ days_before_year (y - 1) + days_in_year (y - 1)
    length_of = sym (ap days_before_year whole) ∙ days_before_year-suc (y - 1) above

Falls-after :
    (n y r : ℕ)
    → Falls n y r
    → n % 7 ≤ r + 3
    → days_in_year y ≤ r + 3 - n % 7
    → Falls (n / 7 * 7 + 3) (y + 1) (r + 3 - n % 7 - days_in_year y)
Falls-after n y r f h k = record {
  later = omega arith;
  inside = omega (arith, f.inside, year_length y, year_length (y + 1));
  number = omega (arith, f.number, ap days_before_year next, days_before_year-suc y f.later);
}
  where
    next : y + 1 ≡ suc y
    next = omega arith

Falls-within :
    (n y r : ℕ)
    → Falls n y r
    → n % 7 ≤ r + 3
    → r + 3 - n % 7 < days_in_year y
    → Falls (n / 7 * 7 + 3) y (r + 3 - n % 7)
Falls-within n y r f h k = record { later = f.later; inside = k; number = omega (arith, f.number) }

week_of-IsWeek : (n y r : ℕ) → Falls n y r → IsWeek n (week_of y (r + 3) (n % 7))
unfolding week_of
week_of-IsWeek n y r f = elim (Bool-cases (ltb (r + 3) (n % 7))) [
  | inl e ↦ rw e (_, Falls-before n y r f (ground arith), refl)
  | inr e ↦ elim (Bool-cases (leb (days_in_year y) (r + 3 - n % 7))) [
    | inl e' ↦ rw (e, e') (_, Falls-after n y r f (ground arith) (ground arith), refl)
    | inr e' ↦ rw (e, e') (_, Falls-within n y r f (ground arith) (ground arith), refl)
  ]
]

day-Falls : (d : Date) → IsDate d → Falls (day_number d) d.year (year_day d)
unfolding day_number
day-Falls d v = record { later = v.year_in; inside = year_day-lt d v; number = refl }

iso_week-IsWeek : (d : Date) → IsDate d → IsWeek (day_number d) (iso_week d)
unfolding iso_week
iso_week-IsWeek d v = week_of-IsWeek (day_number d) d.year (year_day d) (day-Falls d v)

pub pair_eq : {a b c d : ℕ} → a ≡ b → c ≡ d → ◌≡◌ {A = ℕ × ℕ} (a, c) (b, d)
pair_eq {a} {b} {c} {d} p q = ap (λ t. (t, c)) p ∙ ap (λ t. (b, t)) q

IsWeek-same : (m n : ℕ) (p q : ℕ × ℕ) → IsWeek m p → IsWeek n q → (p ≡ q) ↔ (m / 7 ≡ n / 7)
IsWeek-same m n (y, w) (z, v) (r, a, e) (k, b, e') = (to, from)
  where
    to : ◌≡◌ {A = ℕ × ℕ} (y, w) (z, v) → m / 7 ≡ n / 7
    to p =
        let year : y ≡ z = ap (λ c. c.0) p in
        let week : w ≡ v = ap (λ c. c.1) p in
        omega (arith, a.number, b.number, e, e', ap days_before_year year, week)

    from : m / 7 ≡ n / 7 → ◌≡◌ {A = ℕ × ℕ} (y, w) (z, v)
    from h =
        let (year, day) =
          Falls-same (m / 7 * 7 + 3) y r z k a (subst (λ t. Falls (t * 7 + 3) z k) (sym h) b) in
        pair_eq year (e ∙ ap (λ t. t / 7 + 1) day ∙ sym e')

-- Two days have the same ISO year and week exactly if no Monday lies between them.
pub iso_week-same :
    (a b : Date)
    → IsDate a
    → IsDate b
    → (iso_week a ≡ iso_week b) ↔ (day_number a / 7 ≡ day_number b / 7)
iso_week-same a b va vb =
    IsWeek-same (day_number a) (day_number b) (iso_week a) (iso_week b) (iso_week-IsWeek a va)
      (iso_week-IsWeek b vb)
