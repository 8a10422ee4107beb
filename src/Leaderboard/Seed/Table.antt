-- ===== src/Leaderboard/Seed/Table.antt =====
-- What leaderboard-poc/cmd/seed relies on of the table friends and of the transaction that it writes.
use mathlib.Core.List.{Mem}
use mathlib.Core.Logic.{◌∨₁◌}
use classic_cheese.Prelude.{ℕ, ◌≡◌, ◌⊎◌, ◌↔◌, List, [], ◌∷◌, ◌++◌}
use classic_cheese.Prelude.Int.{ℤ}
use classic_cheese.Leaderboard.Redis.{value}
use classic_cheese.Leaderboard.Seed.{Services}

abbrev pub Links : Type 0
Links = List (ℤ × ℤ)

-- The rows of the table, and those that the open transaction has been given.
pub record TableView (S : Type 0) : Type 0 where
  pub rows : S → Links
  pub staged : S → Links

module _ {S : Type 0} (v : TableView S) where
  abbrev pub Stays : S → S → Type 0
  Stays s t = v.rows t ≡ v.rows s

  -- The rows that were there and these, and no others. (INSERT IGNORE makes no row twice.)
  pub record Adds (rows : Links) (s t : S) : Type 0 where
    pub added : (row : ℤ × ℤ) → Mem row (v.rows t) ↔ (Mem row (v.rows s) ∨₁ Mem row rows)

-- As long as nobody else writes to the table. A COMMIT that fails may have taken effect.
pub record IsTable {S : Type 0} (services : Services S) (v : TableView S) : Type 0 where
  pub began :
      (s t : S) (tx : ℕ) → services.begin_tx s ≡ (value tx, t) → (v.staged t ≡ []) × Stays v s t
  pub begin_lem : (s : S) → Stays v s (services.begin_tx s).1
  pub prepare_lem :
      (tx : ℕ) (s : S)
      → (v.staged (services.prepare_insert tx s).1 ≡ v.staged s)
        × Stays v s (services.prepare_insert tx s).1
  pub inserted :
      (stmt : ℕ) (user_id friend_id : ℤ) (s t : S)
      → services.insert_friend stmt user_id friend_id s ≡ (value tt, t)
      → v.staged t ≡ v.staged s ++ (user_id, friend_id) ∷ []
  pub insert_lem :
      (stmt : ℕ) (user_id friend_id : ℤ) (s : S)
      → Stays v s (services.insert_friend stmt user_id friend_id s).1
  pub committed :
      (tx : ℕ) (s t : S) → services.commit tx s ≡ (value tt, t) → Adds v (v.staged s) s t
  pub commit_lem :
      (tx : ℕ) (s : S)
      → Stays v s (services.commit tx s).1 ⊎ Adds v (v.staged s) s (services.commit tx s).1
  pub close_lem : (stmt : ℕ) (s : S) → Stays v s (services.close stmt s)
  pub rollback_lem : (tx : ℕ) (s : S) → Stays v s (services.rollback tx s)
