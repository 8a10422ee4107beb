-- ===== src/Leaderboard/Api/History/Rows.antt =====
-- leaderboard-poc/cmd/api/handlers.go, POST /admin/snapshot: the rows of a sorted set's members.
use classic_cheese.Prelude.{
  ℕ, suc, ◌+◌, ◌≤◌, ◌<◌, ◌≡◌, refl, sym, subst, String, true, List, [], ◌∷◌, Option, none, some,
  arith,
}
use classic_cheese.Prelude.Lists.{All, length}
use classic_cheese.Prelude.Int.{ℤ, pos, two_63, wrap64_next}
use classic_cheese.Prelude.Decimal.{atoi}
use classic_cheese.Leaderboard.Score.{Float64}
use classic_cheese.Leaderboard.Models.{SnapshotRow}
use classic_cheese.Leaderboard.Sorting.Unique.{IsStrict}
use classic_cheese.Leaderboard.Redis.{Redis, Error, Result, value, Z}
use classic_cheese.Leaderboard.Redis.Results.{value_injective, error-ne-value}
use classic_cheese.Leaderboard.Mysql.Snapshots.{SnapshotStatements}
use classic_cheese.Leaderboard.Mysql.Snapshots.Selects.{less_rank}
use classic_cheese.Leaderboard.Mysql.Snapshots.Latest.{cons_result-value}
use classic_cheese.Leaderboard.Api.{Instant}
use classic_cheese.Leaderboard.Api.History.{row_of_member, rows_from}

module _ {F : Type 0} (float : Float64 F) where
  -- One row for each member, in order: the ranks from the (i + 1)-st on, the user that the member
  -- names, and the score as an int.
  abbrev pub AreRowsOf : ℕ → List (Z F) → List (SnapshotRow Instant) → Type 0
  AreRowsOf i [] [] = Unit
  AreRowsOf i [] (r ∷ rs) = ⊥
  AreRowsOf i (z ∷ zs) [] = ⊥
  AreRowsOf i (z ∷ zs) (r ∷ rs) =
      (r.rank_position ≡ pos (suc i))
      × (atoi z.member ≡ some r.user_id)
      × (r.score ≡ float.to_int z.score)
      × AreRowsOf (suc i) zs rs

  ranks_above :
      (r : SnapshotRow Instant) (n i : ℕ) (zs : List (Z F)) (rs : List (SnapshotRow Instant))
      → r.rank_position ≡ pos n
      → n ≤ i
      → AreRowsOf i zs rs
      → All (λ y. less_rank r y ≡ true) rs
  ranks_above r n i [] [] e h k = tt
  ranks_above r n i [] (y ∷ rs) e h k = absurd k
  ranks_above r n i (z ∷ zs) [] e h k = absurd k
  ranks_above r n i (z ∷ zs) (y ∷ rs) e h k =
      (rw (e, k.0) (ground arith), ranks_above r n (suc i) zs rs e (omega arith) k.3)

  pub AreRowsOf-IsStrict :
      (i : ℕ) (zs : List (Z F)) (rs : List (SnapshotRow Instant))
      → AreRowsOf i zs rs
      → IsStrict less_rank rs
  AreRowsOf-IsStrict i [] [] k = tt
  AreRowsOf-IsStrict i [] (y ∷ rs) k = absurd k
  AreRowsOf-IsStrict i (z ∷ zs) [] k = absurd k
  AreRowsOf-IsStrict i (z ∷ zs) (y ∷ rs) k = (
    ranks_above y (suc i) (suc i) zs rs k.0 (omega arith) k.3,
    AreRowsOf-IsStrict (suc i) zs rs k.3,
  )

  module _ {S : Type 0} (redis : Redis S F) (db : SnapshotStatements S Instant)
      (atoi_error : String → Error) where
    row_of_member-value :
        (i : ℕ) (z : Z F) (zs : List (Z F)) (named : Option ℤ)
        (rest : Result (List (SnapshotRow Instant))) (rs : List (SnapshotRow Instant))
        → suc i < two_63
        → atoi z.member ≡ named
        → row_of_member redis db float atoi_error i z named rest ≡ value rs
        → ((more : List (SnapshotRow Instant)) → rest ≡ value more → AreRowsOf (suc i) zs more)
        → AreRowsOf i (z ∷ zs) rs
    unfolding row_of_member
    row_of_member-value i z zs none rest rs small e h k = absurd (error-ne-value _ rs h)
    row_of_member-value i z zs (some u) rest rs small e h k =
        let (more, done, whole) = cons_result-value _ rest rs h in
        subst (AreRowsOf i (z ∷ zs)) (sym whole) (wrap64_next i small, e, refl, k more done)

    pub rows_from-AreRowsOf :
        (i : ℕ) (zs : List (Z F)) (rs : List (SnapshotRow Instant))
        → i + length zs < two_63
        → rows_from redis db float atoi_error i zs ≡ value rs
        → AreRowsOf i zs rs
    unfolding rows_from
    rows_from-AreRowsOf i [] rs small h = subst (AreRowsOf i []) (value_injective _ _ h) tt
    rows_from-AreRowsOf i (z ∷ zs) rs small h =
        row_of_member-value i z zs (atoi z.member) _ rs (omega arith) refl h
          (λ more done. rows_from-AreRowsOf (suc i) zs more (omega arith) done)
