-- ===== src/Leaderboard/Config/Examples.antt =====
-- An environment for leaderboard-poc/internal/config/config.go:
-- one in which every variable has the same value.
use classic_cheese.Prelude.{◌≡◌, ◌≢◌, refl, String, inr, arith, none, ne_by_test}
use classic_cheese.Prelude.Decimal.{atoi}
use classic_cheese.Leaderboard.Config.{Config, ok, load}
use classic_cheese.Leaderboard.Config.Load.{Reflects, load-Reflects}

abbrev sevens : String → String
sevens key = "7"

abbrev same : String → String
same text = text

seven_set : ◌≢◌ {A = String} "7" ""
seven_set = ne_by_test "7" "" refl

seven_number : atoi "7" ≢ none
unfolding atoi
seven_number e = ground arith

load-Reflects_example : (c : Config) × (load sevens same same ≡ ok c) × Reflects sevens c
load-Reflects_example =
    load-Reflects sevens same same (seven_set, seven_set, inr seven_number, inr seven_number)
