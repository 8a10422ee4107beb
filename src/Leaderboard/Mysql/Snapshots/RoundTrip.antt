-- ===== src/Leaderboard/Mysql/Snapshots/RoundTrip.antt =====
-- leaderboard-poc/internal/mysqlclient/mysqlclient.go: `LatestSnapshot` reads what `InsertSnapshot`
-- wrote.
use std.HLevel.{hedberg}
use mathlib.Core.List.{Perm}
use mathlib.Core.Option.{some-injective}
use classic_cheese.Prelude.{
  ℕ, zero, suc, ◌≡◌, refl, sym, ap, ◌∙◌, subst, ◌⊎◌, inl, inr, String, String_discrete, true, false,
  List, [], ◌∷◌, ◌++◌, map, ◌≢◌, Option, none, some, arith, if_pos, if_neg,
}
use classic_cheese.Prelude.Lists.{All, take, get_elem?, length, length-append, All-right}
use classic_cheese.Prelude.Int.{ℤ, ℤ_discrete, pos_part}
use classic_cheese.Leaderboard.Models.{SnapshotRow}
use classic_cheese.Leaderboard.Redis.{value}
use classic_cheese.Leaderboard.Sorting.Unique.{IsStrict, sorted_unique}
use classic_cheese.Leaderboard.Mysql.Snapshots.{
  SnapshotRecord, SnapshotStatements, record_of, row_limit, insert_snapshot, latest_snapshot,
}
use classic_cheese.Leaderboard.Mysql.Snapshots.Laws.{SnapshotView, IsTransactional}
use classic_cheese.Leaderboard.Mysql.Snapshots.Inserted.{
  AllOrNothing, new_rows, insert_snapshot-AllOrNothing,
}
use classic_cheese.Leaderboard.Mysql.Snapshots.Selects.{
  Clock, same_text, same_region, belongs, is_at, row_of, less_rank, IsLatest, keep, keep-append,
  keep-All, keep-nothing, IsSelecting,
}
use classic_cheese.Leaderboard.Mysql.Snapshots.Latest.{of_place, ListsFrom, latest_snapshot-value}

same_text_self : (a : String) → same_text a a ≡ true
same_text_self a = if_pos (String_discrete a a) refl _ _

same_region_self : (r : Option String) → same_region r r ≡ true
same_region_self none = refl
same_region_self (some a) = same_text_self a

SnapshotRow_set : {T : Type 0} → IsSet T → IsSet (SnapshotRow T)
SnapshotRow_set set = hlevel ℤ_discrete

module _ {S T : Type 0} (v : SnapshotView S T) (at : T) where
  -- The row as it comes back.
  abbrev pub stamped : SnapshotRow T → SnapshotRow T
  stamped row = record {
    rank_position = row.rank_position;
    user_id = row.user_id;
    score = row.score;
    snapshot_at = v.stored at;
  }

  stamped-IsStrict :
      (rows : List (SnapshotRow T))
      → IsStrict less_rank rows
      → IsStrict less_rank (map stamped rows)
  stamped-IsStrict [] h = tt
  stamped-IsStrict (row ∷ rows) h = (above row rows h.0, stamped-IsStrict rows h.1)
    where
      above :
          (row : SnapshotRow T) (rows : List (SnapshotRow T))
          → All (λ y. less_rank row y ≡ true) rows
          → All (λ y. less_rank (stamped row) y ≡ true) (map stamped rows)
      above row [] k = tt
      above row (r ∷ rs) k = (k.0, above row rs k.1)

module _ {S T : Type 0} (db : SnapshotStatements S T) (v : SnapshotView S T) (clock : Clock T)
    (scope : String) (region : Option String) (period_type period_key : String) (at : T) where
  abbrev written : List (SnapshotRow T) → List (SnapshotRecord T)
  written rows = new_rows db v scope region period_type period_key rows at

  written-belongs :
      (rows : List (SnapshotRow T))
      → All (λ r. belongs scope region period_type period_key r ≡ true) (written rows)
  unfolding belongs record_of
  written-belongs [] = tt
  written-belongs (row ∷ rows) = (
    rw (
      same_text_self scope,
      same_region_self region,
      same_text_self period_type,
      same_text_self period_key,
    ),
    written-belongs rows,
  )

  written-is_at :
      (rows : List (SnapshotRow T)) → All (λ r. is_at clock (v.stored at) r ≡ true) (written rows)
  unfolding record_of
  written-is_at [] = tt
  written-is_at (row ∷ rows) = (if_pos (clock.discrete _ _) refl _ _, written-is_at rows)

  row_of-written :
      (rows : List (SnapshotRow T)) → map row_of (written rows) ≡ map (stamped v at) rows
  unfolding record_of
  row_of-written [] = refl
  row_of-written (row ∷ rows) = ap (◌∷◌ (stamped v at row)) (row_of-written rows)

  -- Older rows have other times.
  older-is_at :
      (rs : List (SnapshotRecord T))
      → clock.before (v.stored at) (v.stored at) ≡ false
      → All (λ r. clock.before r.snapshot_at (v.stored at) ≡ true) rs
      → All (λ r. is_at clock (v.stored at) r ≡ false) rs
  older-is_at [] irrefl h = tt
  older-is_at (r ∷ rs) irrefl h = (
    if_neg (clock.discrete _ _)
        (λ e. ground (arith, ap (λ a. clock.before a (v.stored at)) e ∙ irrefl, h.0)) _ _,
    older-is_at rs irrefl h.1,
  )

  -- The latest time of older rows and written ones is that of the written.
  time_of :
      (old : List (SnapshotRecord T)) (rows : List (SnapshotRow T)) (i : ℕ) (r : SnapshotRecord T)
      → get_elem? (old ++ written rows) i ≡ some r
      → All (λ r. clock.before r.snapshot_at (v.stored at) ≡ true) old
      → (clock.before r.snapshot_at (v.stored at) ≡ true) ⊎ (r.snapshot_at ≡ v.stored at)
  unfolding record_of
  time_of [] [] i r e h = absurd (ground arith)
  time_of [] (row ∷ rows) zero r e h = inr (sym (ap (λ c. c.snapshot_at) (some-injective _ _ e)))
  time_of [] (row ∷ rows) (suc i) r e h = time_of [] rows i r e tt
  time_of (o ∷ old) rows zero r e h =
      inl (ap (λ c. clock.before c.snapshot_at (v.stored at)) (sym (some-injective _ _ e)) ∙ h.0)
  time_of (o ∷ old) rows (suc i) r e h = time_of old rows i r e h.1

  latest_time :
      (old : List (SnapshotRecord T)) (row : SnapshotRow T) (rows : List (SnapshotRow T)) (a : T)
      → All (λ r. clock.before r.snapshot_at (v.stored at) ≡ true) old
      → IsLatest clock (some a) (old ++ written (row ∷ rows))
      → a ≡ v.stored at
  unfolding record_of
  latest_time old row rows a h (i, r, found, same, none_after) =
      elim (time_of old (row ∷ rows) i r found h) [
        | inr e ↦ sym same ∙ e
        | inl earlier ↦
            let written_after = (All-right _ old (written (row ∷ rows)) none_after).0 in
            absurd
              (ground (arith, earlier, written_after, ap (λ c. clock.before c (v.stored at)) same))
      ]

  append-ne-nil :
      (old : List (SnapshotRecord T)) (row : SnapshotRow T) (rows : List (SnapshotRow T))
      → old ++ written (row ∷ rows) ≢ []
  append-ne-nil old row rows e =
      ground (arith, length-append old (written (row ∷ rows)), ap length e)

  listed :
      (old : List (SnapshotRecord T)) (row : SnapshotRow T) (rows found : List (SnapshotRow T))
      (n : ℕ)
      → clock.before (v.stored at) (v.stored at) ≡ false
      → IsStrict less_rank (row ∷ rows)
      → All (λ r. clock.before r.snapshot_at (v.stored at) ≡ true) old
      → ListsFrom clock n (old ++ written (row ∷ rows)) found
      → found ≡ take n (map (stamped v at) (row ∷ rows))
  listed old row rows found n irrefl strict earlier (inl (none_there, r)) =
      absurd (append-ne-nil old row rows none_there)
  listed old row rows found n irrefl strict earlier
        (inr (a, latest, (order, perm, sorted, whole))) =
      let time = latest_time old row rows a earlier latest in
      let chosen : keep (is_at clock a) (old ++ written (row ∷ rows)) ≡ written (row ∷ rows) =
        ap (λ c. keep (is_at clock c) (old ++ written (row ∷ rows))) time
        ∙ keep-append (is_at clock (v.stored at)) old (written (row ∷ rows))
        ∙ ap (λ k. k ++ keep (is_at clock (v.stored at)) (written (row ∷ rows)))
            (keep-nothing (is_at clock (v.stored at)) old (older-is_at old irrefl earlier))
        ∙ keep-All (is_at clock (v.stored at)) (written (row ∷ rows))
            (written-is_at (row ∷ rows)) in
      whole
      ∙ ap (take n) (
          sorted_unique (SnapshotRow_set (hedberg clock.discrete)) less_rank order
            (map (stamped v at) (row ∷ rows)) sorted (stamped-IsStrict v at (row ∷ rows) strict)
            (subst (Perm order) (ap (map row_of) chosen ∙ row_of-written (row ∷ rows)) perm))

  module _ (transactional : IsTransactional db v) (selecting : IsSelecting db v clock) where
    after_insert :
        (rows : List (SnapshotRow T)) (s s' t : S)
        → insert_snapshot db scope region period_type period_key rows at s ≡ (value tt, s')
        → v.table t ≡ v.table s'
        → of_place db v clock scope region period_type period_key t
          ≡ of_place db v clock scope region period_type period_key s ++ written rows
    after_insert rows s s' t h same =
        let grown = subst (AllOrNothing db v (written rows) s) h (
          insert_snapshot-AllOrNothing db v transactional scope region period_type period_key rows
            at s) in
        let mine = belongs scope region period_type period_key in
        ap (keep mine) (same ∙ grown)
        ∙ keep-append mine (v.table s) (written rows)
        ∙ ap (λ k. keep mine (v.table s) ++ k) (keep-All mine (written rows) (written-belongs rows))

    -- After a snapshot of at least one row, with increasing ranks and a time that the column keeps as
    -- later than those of the older snapshots, the latest snapshot has its rows, up to the limit.
    pub latest_snapshot-insert_snapshot :
        (row : SnapshotRow T) (rows found : List (SnapshotRow T)) (limit : ℤ) (s s' t u : S)
        → clock.before (v.stored at) (v.stored at) ≡ false
        → IsStrict less_rank (row ∷ rows)
        → All
            (λ r. clock.before r.snapshot_at (v.stored at) ≡ true)
            (of_place db v clock scope region period_type period_key s)
        → insert_snapshot db scope region period_type period_key (row ∷ rows) at s ≡ (value tt, s')
        → v.table t ≡ v.table s'
        → latest_snapshot db scope region period_type period_key limit t ≡ (value found, u)
        → found ≡ take (pos_part (row_limit limit)) (map (stamped v at) (row ∷ rows))
    latest_snapshot-insert_snapshot row rows found limit s s' t u irrefl strict earlier written_at
          same read =
        listed (of_place db v clock scope region period_type period_key s) row rows found _ irrefl
          strict earlier
          (subst (λ rs. ListsFrom clock (pos_part (row_limit limit)) rs found)
            (after_insert (row ∷ rows) s s' t written_at same)
            (latest_snapshot-value db v clock scope region period_type period_key selecting limit t
              u found read))
