-- ===== src/Leaderboard/Seed/Examples.antt =====
-- leaderboard-poc/cmd/seed with three users and draws that go round.
use mathlib.Core.List.{mem-append}
use mathlib.Core.List.Permᴰ
use native.Mathlib.Nat.{mod-lt}
use classic_cheese.Prelude.{ℕ, ◌+◌, ◌-◌, ◌%◌, refl, sym, ap, subst, inr, List, [], ◌∷◌, ◌++◌, arith}
use classic_cheese.Prelude.Int.{ℤ, pos}
use classic_cheese.Leaderboard.Redis.{Result, value}
use classic_cheese.Leaderboard.Seed.{Services, create_friend_graph}
use classic_cheese.Leaderboard.Seed.Fresh.{AreDistinct}
use classic_cheese.Leaderboard.Seed.Picks.{IsRandom, Befriends, pick-Befriends}
use classic_cheese.Leaderboard.Seed.Table.{Links, TableView, IsTable, Adds}
use classic_cheese.Leaderboard.Seed.Linked.{Makes, create_friend_graph-Makes}

abbrev in_turn : ℕ → ℕ → ℕ
in_turn k n = k % n

in_turn-IsRandom : IsRandom in_turn 3 3
in_turn-IsRandom = record {
  bounded = λ k n h. mod-lt k h;
  fair = λ k i h. ((i + 3 - k % 3) % 3, omega arith, omega arith);
}

abbrev three_users : List ℤ
three_users = pos 1 ∷ pos 2 ∷ pos 3 ∷ []

three_users-AreDistinct : AreDistinct three_users
three_users-AreDistinct =
    (((λ e. ground arith), ((λ e. ground arith), tt)), (((λ e. ground arith), tt), (tt, tt)))

-- The rows of the table, and those of the transaction.
record State : Type 0 where
  table : Links
  given : Links

-- Everything succeeds.
abbrev willing : Services State
willing = record {
  insert_user = λ name region s. (value (value (pos 1)), s);
  begin_tx = λ s. (value 0, record s { given = [] });
  prepare_insert = λ tx s. (value 0, s);
  insert_friend = λ stmt user_id friend_id s.
      (value tt, record s { given = s.given ++ (user_id, friend_id) ∷ [] });
  close = λ stmt s. s;
  commit = λ tx s. (value tt, record s { table = s.table ++ s.given });
  rollback = λ tx s. s;
  post = λ user_id region delta s. (value 200, s);
}

abbrev view : TableView State
view = record { rows = λ s. s.table; staged = λ s. s.given }

committed : (s : State) → Adds view s.given s (record s { table = s.table ++ s.given })
committed s = record { added = λ row. mem-append }

willing-IsTable : IsTable willing view
willing-IsTable = record {
  began = λ s t tx h. (
    ap (λ (o : Result ℕ × State). o.1.given) (sym h),
    ap (λ (o : Result ℕ × State). o.1.table) (sym h),
  );
  begin_lem = λ s. refl;
  prepare_lem = λ tx s. (refl, refl);
  inserted =
      λ stmt user_id friend_id s t h. ap (λ (o : Result (Unit {0}) × State). o.1.given) (sym h);
  insert_lem = λ stmt user_id friend_id s. refl;
  committed = λ tx s t h.
      subst (λ (o : Result (Unit {0}) × State). Adds view s.given s o.1) h (committed s);
  commit_lem = λ tx s. inr (committed s);
  close_lem = λ stmt s. refl;
  rollback_lem = λ tx s. refl;
}

abbrev no_rows : State
no_rows = record { table = []; given = [] }

pick-Befriends_example : Befriends in_turn 3 three_users in_turn-IsRandom (pos 1) 2 6 0 []
pick-Befriends_example =
    pick-Befriends in_turn 3 three_users in_turn-IsRandom (pos 1) 2 6 0 (omega arith) (omega arith)
      three_users-AreDistinct

create_friend_graph-Makes_example :
    Makes in_turn 3 willing
      (λ xs. xs)
      45
      view
      three_users
      no_rows
      (create_friend_graph in_turn willing (λ xs. xs) 45 three_users 0 no_rows)
create_friend_graph-Makes_example =
    create_friend_graph-Makes in_turn 3 willing (λ xs. xs) 45 view willing-IsTable three_users 0
      no_rows (λ xs. Permᴰ.refl xs) in_turn-IsRandom three_users-AreDistinct (omega arith)
