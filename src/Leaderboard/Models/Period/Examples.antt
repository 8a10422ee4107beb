-- ===== src/Leaderboard/Models/Period/Examples.antt =====
-- Period keys of leaderboard-poc at the turn of a year.
use classic_cheese.Prelude.{◌≡◌, ◌/◌, ◌↔◌, arith}
use classic_cheese.Leaderboard.Models.Period.{Date, day_number, days_in_month, is_leap}
use classic_cheese.Leaderboard.Models.Period.Calendar.{IsDate}
use classic_cheese.Leaderboard.Models.Period.Keys.{SameKey, period_key-same}

abbrev new_year_eve : Date
new_year_eve = record { year = 2026; month = 12; day = 31 }

abbrev new_year : Date
new_year = record { year = 2027; month = 1; day = 1 }

new_year_eve-IsDate : IsDate new_year_eve
unfolding days_in_month is_leap
new_year_eve-IsDate = record {
  year_in = omega arith;
  month_in = (omega arith, omega arith);
  day_in = (omega arith, omega arith);
}

new_year-IsDate : IsDate new_year
unfolding days_in_month is_leap
new_year-IsDate = record {
  year_in = omega arith;
  month_in = (omega arith, omega arith);
  day_in = (omega arith, omega arith);
}

period_key-same_example :
    (SameKey "daily" new_year_eve new_year ↔ (new_year_eve ≡ new_year))
    × (SameKey "weekly" new_year_eve new_year
        ↔ (day_number new_year_eve / 7 ≡ day_number new_year / 7))
    × (SameKey "monthly" new_year_eve new_year
        ↔ ((new_year_eve.year ≡ new_year.year) × (new_year_eve.month ≡ new_year.month)))
period_key-same_example = period_key-same new_year_eve new_year new_year_eve-IsDate new_year-IsDate
