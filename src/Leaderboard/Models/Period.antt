-- ===== src/Leaderboard/Models/Period.antt =====
-- leaderboard-poc/internal/models/models.go: the period keys. A time is known by its date in UTC, in
-- the years from 1 on; `iso_week` is ISOWeek of package time, which takes the year and the week of
-- the Thursday in the same week.
pub mod Calendar
pub mod Keys
pub mod Examples
use classic_cheese.Prelude.{
  ℕ, zero, suc, ◌+◌, ◌-◌, ◌*◌, ◌/◌, ◌%◌, ◌≤◌, String, String_discrete, Bool, ◌&&◌, ◌||◌, not, List,
  [], ◌∷◌, ite, ltb, leb, ◌==◌, if◌then◌else◌,
}
use classic_cheese.Prelude.Text.{concat}
use classic_cheese.Prelude.Decimal.{pad}

pub record Date : Type 0 where
  pub year : ℕ
  pub month : ℕ
  pub day : ℕ

unfoldable pub is_leap : ℕ → Bool
is_leap y = y % 4 == 0 && (not (y % 100 == 0) || y % 400 == 0)

unfoldable pub days_in_month : ℕ → ℕ → ℕ
unfolding is_leap
days_in_month y m =
    if m == 2
    then (if is_leap y then 29 else 28)
    else if m == 4 || m == 6 || m == 9 || m == 11
    then 30
    else 31

unfoldable pub days_in_year : ℕ → ℕ
unfolding is_leap
days_in_year y = if is_leap y then 366 else 365

-- The days of the year before the (k + 1)-th month.
unfoldable pub days_of_months : ℕ → ℕ → ℕ
unfolding days_in_month
days_of_months y zero = 0
days_of_months y (suc k) = days_of_months y k + days_in_month y (suc k)

-- The day of the year from 0; the days before a year, counted from 0001-01-01, a Monday.
unfoldable pub year_day : Date → ℕ
unfolding days_of_months
year_day d = days_of_months d.year (d.month - 1) + (d.day - 1)

unfoldable pub days_before_year : ℕ → ℕ
days_before_year y = let p = y - 1 in p * 365 + p / 4 - p / 100 + p / 400

unfoldable pub day_number : Date → ℕ
unfolding days_before_year year_day
day_number d = days_before_year d.year + year_day d

-- The year and the week of the year, given the year, the day of the year of the week's Monday plus
-- the length of a week's first half, and the weekday from Monday.
unfoldable pub week_of : ℕ → ℕ → ℕ → ℕ × ℕ
unfolding days_in_year
week_of y thursday weekday =
    if ltb thursday weekday
    then (y - 1, (thursday + days_in_year (y - 1) - weekday) / 7 + 1)
    else if leb (days_in_year y) (thursday - weekday)
    then (y + 1, (thursday - weekday - days_in_year y) / 7 + 1)
    else (y, (thursday - weekday) / 7 + 1)

unfoldable pub iso_week : Date → ℕ × ℕ
unfolding week_of day_number year_day
iso_week d = week_of d.year (year_day d + 3) (day_number d % 7)

unfoldable pub daily_key : Date → String
unfolding concat pad
daily_key d = concat (pad 4 d.year ∷ "-" ∷ pad 2 d.month ∷ "-" ∷ pad 2 d.day ∷ [])

unfoldable pub weekly_text : ℕ × ℕ → String
unfolding concat pad
weekly_text (year, week) = concat (pad 4 year ∷ "-W" ∷ pad 2 week ∷ [])

unfoldable pub weekly_key : Date → String
unfolding weekly_text iso_week
weekly_key d = weekly_text (iso_week d)

unfoldable pub monthly_key : Date → String
unfolding concat pad
monthly_key d = concat (pad 4 d.year ∷ "-" ∷ pad 2 d.month ∷ [])

unfoldable pub period_key : String → Date → String
unfolding daily_key weekly_key monthly_key
period_key period_type d = ite (String_discrete period_type "daily") (daily_key d) (
    ite (String_discrete period_type "weekly") (weekly_key d)
      (ite (String_discrete period_type "monthly") (monthly_key d) ""))

-- `PeriodTypes`.
abbrev pub period_types : List String
period_types = "daily" ∷ "weekly" ∷ "monthly" ∷ []
