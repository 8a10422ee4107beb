-- ===== src/Leaderboard/Mysql/Snapshots/Examples.antt =====
-- A table of snapshots, run in place of leaderboard-poc's MySQL. It has one transaction at a time. Times
-- are in nanoseconds and kept in whole seconds.
use mathlib.Core.List.{head-eq_of_cons-eq, tail-eq_of_cons-eq}
use classic_cheese.Prelude.{
  ℕ, suc, ◌*◌, ◌/◌, ◌≡◌, refl, sym, ap, ◌∙◌, subst, String, true, false, List, [], ◌∷◌, ◌++◌, map,
  Option, none, some, arith, ltb, if◌then◌else◌, ℕ_discrete, Bool-cases, inl, inr,
}
use classic_cheese.Prelude.Lists.{All, take}
use classic_cheese.Prelude.Int.{ℤ, pos, pos_part}
use classic_cheese.Leaderboard.Models.{SnapshotRow}
use classic_cheese.Leaderboard.Redis.{value}
use classic_cheese.Leaderboard.Redis.Results.{value_injective}
use classic_cheese.Leaderboard.Sorting.{insertion_sort, insertion_sort-IsSort, IsWeakOrder}
use classic_cheese.Leaderboard.Mysql.{Rows}
use classic_cheese.Leaderboard.Mysql.Snapshots.{
  SnapshotRecord, SnapshotStatements, insert_snapshot, max_of, rows_of,
}
use classic_cheese.Leaderboard.Mysql.Snapshots.Laws.{SnapshotView, kept, IsTransactional}
use classic_cheese.Leaderboard.Mysql.Snapshots.Inserted.{
  AllOrNothing, new_rows, insert_snapshot-AllOrNothing,
}
use classic_cheese.Leaderboard.Mysql.Snapshots.Selects.{
  Clock, belongs, is_at, row_of, less_rank, IsLatest, IsListing, keep, IsSelecting,
}

abbrev pub Tables : Type 0
Tables = List (SnapshotRecord ℕ) × List (SnapshotRecord ℕ)

abbrev pub nanoseconds : Clock ℕ
nanoseconds = record { discrete = ℕ_discrete; before = ltb }

abbrev pub view : SnapshotView Tables ℕ
view = record {
  table = λ s. s.0;
  pending = λ tx s. s.1;
  tx_of = λ stmt. stmt;
  stored = λ t. t / 1000000000 * 1000000000;
}

abbrev later_of : SnapshotRecord ℕ → Option ℕ → Option ℕ
later_of r none = some r.snapshot_at
later_of r (some at) = if ltb at r.snapshot_at then some r.snapshot_at else some at

unfoldable pub latest : List (SnapshotRecord ℕ) → Option ℕ
latest [] = none
latest (r ∷ rs) = later_of r (latest rs)

unfoldable pub listing : List (SnapshotRecord ℕ) → ℤ → Rows (SnapshotRow ℕ)
listing rs limit = record {
  scans = map value (take (pos_part limit) (insertion_sort less_rank (map row_of rs)));
  err = none;
}

abbrev pub tables : SnapshotStatements Tables ℕ
tables = record {
  begin_tx = λ s. (value 0, (s.0, []));
  prepare_insert = λ tx s. (value tx, s);
  insert_row = λ stmt r s. (value tt, (s.0, s.1 ++ kept view r ∷ []));
  close = λ stmt s. s;
  commit = λ tx s. (value tt, (s.0 ++ s.1, []));
  rollback = λ tx s. s;
  select_max = λ scope period_type period_key s.
      (value (latest (keep (belongs scope none period_type period_key) s.0)), s);
  select_max_of = λ scope region period_type period_key s.
      (value (latest (keep (belongs scope (some region) period_type period_key) s.0)), s);
  select_rows = λ scope period_type period_key at limit s. (
    value (
        listing (keep (is_at nanoseconds at) (keep (belongs scope none period_type period_key) s.0))
          limit),
    s,
  );
  select_rows_of = λ scope region period_type period_key at limit s. (
    value (
        listing
          (keep (is_at nanoseconds at)
            (keep (belongs scope (some region) period_type period_key) s.0))
          limit),
    s,
  );
}

pub tables-IsTransactional : IsTransactional tables view
tables-IsTransactional = record {
  begin_value = λ s t tx h. (sym (ap (λ o. o.1.0) h), sym (ap (λ o. o.1.1) h));
  begin_error = λ s t e h. sym (ap (λ o. o.1.0) h);
  prepare_value = λ tx stmt s t h. (
    sym (value_injective _ _ (ap (λ o. o.0) h)),
    sym (ap (λ o. o.1.0) h),
    sym (ap (λ o. o.1.1) h),
  );
  prepare_error = λ tx s t e h. sym (ap (λ o. o.1.0) h);
  insert_value = λ stmt r s t h. (sym (ap (λ o. o.1.0) h), sym (ap (λ o. o.1.1) h));
  insert_error = λ stmt r s t e h. sym (ap (λ o. o.1.0) h);
  commit_value = λ tx s t h. sym (ap (λ o. o.1.0) h);
  commit_error = λ tx s t e h. inr (sym (ap (λ o. o.1.0) h));
  rollback_lem = λ tx s. refl;
  close_lem = λ stmt s. refl;
}

not_after :
    (a b : ℕ) (rs : List (SnapshotRecord ℕ))
    → ltb a b ≡ true
    → All (λ r. ltb a r.snapshot_at ≡ false) rs
    → All (λ r. ltb b r.snapshot_at ≡ false) rs
not_after a b [] h k = tt
not_after a b (r ∷ rs) h k = (ground arith, not_after a b rs h k.1)

later-IsLatest :
    (r : SnapshotRecord ℕ) (rs : List (SnapshotRecord ℕ)) (found : Option ℕ)
    → IsLatest nanoseconds found rs
    → IsLatest nanoseconds (later_of r found) (r ∷ rs)
later-IsLatest r rs none h = (
  0,
  r,
  refl,
  refl,
  (ground arith, subst (All (λ y. ltb r.snapshot_at y.snapshot_at ≡ false)) (sym h) tt),
)
later-IsLatest r rs (some at) (i, last, found, same, none_after) =
    elim (Bool-cases (ltb at r.snapshot_at)) [
      | inl e ↦
          subst (λ b. IsLatest nanoseconds (if b then some r.snapshot_at else some at) (r ∷ rs))
            (sym e) (0, r, refl, refl, (ground arith, not_after at r.snapshot_at rs e none_after))
      | inr e ↦
          subst (λ b. IsLatest nanoseconds (if b then some r.snapshot_at else some at) (r ∷ rs))
            (sym e) (suc i, last, found, same, (e, none_after))
    ]

latest-IsLatest : (rs : List (SnapshotRecord ℕ)) → IsLatest nanoseconds (latest rs) rs
unfolding latest
latest-IsLatest [] = refl
latest-IsLatest (r ∷ rs) = later-IsLatest r rs (latest rs) (latest-IsLatest rs)

less_rank-IsWeakOrder : IsWeakOrder (less_rank {T = ℕ})
less_rank-IsWeakOrder = record {
  irrefl = λ a. ground arith;
  trans = λ a b c h k. ground arith;
  connected = λ a b c h k. ground arith;
}

pub map-value_inj : {A : Type 0} (xs ys : List A) → map value xs ≡ map value ys → xs ≡ ys
map-value_inj [] [] h = refl
map-value_inj [] (y ∷ ys) h = absurd (ground arith)
map-value_inj (x ∷ xs) [] h = absurd (ground arith)
map-value_inj (x ∷ xs) (y ∷ ys) h =
    ap (λ a. a ∷ xs) (value_injective x y (head-eq_of_cons-eq h))
    ∙ ap (◌∷◌ y) (map-value_inj xs ys (tail-eq_of_cons-eq h))

listing-IsListing :
    (rs : List (SnapshotRecord ℕ)) (n : ℕ) (rows : List (SnapshotRow ℕ))
    → (listing rs (pos n)).scans ≡ map value rows
    → IsListing n rs rows
unfolding listing
listing-IsListing rs n rows h = (
  insertion_sort less_rank (map row_of rs),
  ∣ insertion_sort-IsSort.perm less_rank (map row_of rs) ∣₁,
  insertion_sort-IsSort.sorted less_rank less_rank-IsWeakOrder (map row_of rs),
  sym (map-value_inj _ _ h),
)

max_value :
    (scope : String) (region : Option String) (period_type period_key : String) (s t : Tables)
    (found : Option ℕ)
    → max_of tables scope region period_type period_key s ≡ (value found, t)
    → (t.0 ≡ s.0)
      × IsLatest nanoseconds found (keep (belongs scope region period_type period_key) s.0)
unfolding max_of
max_value scope none period_type period_key s t found h = (
  sym (ap (λ o. o.1.0) h),
  subst (λ m. IsLatest nanoseconds m (keep (belongs scope none period_type period_key) s.0))
      (value_injective _ found (ap (λ o. o.0) h)) (latest-IsLatest _),
)
max_value scope (some region) period_type period_key s t found h = (
  sym (ap (λ o. o.1.0) h),
  subst
      (λ m. IsLatest nanoseconds m (keep (belongs scope (some region) period_type period_key) s.0))
      (value_injective _ found (ap (λ o. o.0) h)) (latest-IsLatest _),
)

rows_value :
    (scope : String) (region : Option String) (period_type period_key : String) (n at : ℕ)
    (s t : Tables) (found : Rows (SnapshotRow ℕ)) (rows : List (SnapshotRow ℕ))
    → rows_of tables scope region period_type period_key (pos n) at s ≡ (value found, t)
    → found.scans ≡ map value rows
    → IsListing n
        (keep (is_at nanoseconds at) (keep (belongs scope region period_type period_key) s.0))
        rows
unfolding rows_of
rows_value scope none period_type period_key n at s t found rows h scans =
    listing-IsListing _ n rows
      (ap (λ f. f.scans) (value_injective _ found (ap (λ o. o.0) h)) ∙ scans)
rows_value scope (some region) period_type period_key n at s t found rows h scans =
    listing-IsListing _ n rows
      (ap (λ f. f.scans) (value_injective _ found (ap (λ o. o.0) h)) ∙ scans)

pub tables-IsSelecting : IsSelecting tables view nanoseconds
tables-IsSelecting = record {
  max_value = max_value;
  rows_value = λ scope region period_type period_key n at s t found rows h scans quiet.
      rows_value scope region period_type period_key n at s t found rows h scans;
}

abbrev row : SnapshotRow ℕ
row = record { rank_position = pos 1; user_id = pos 7; score = pos 80; snapshot_at = 0 }

insert_snapshot-AllOrNothing_example :
    AllOrNothing tables view
      (new_rows tables view "global" none "daily" "2026-09-07" (row ∷ []) 5000000000)
      ([], [])
      (insert_snapshot tables "global" none "daily" "2026-09-07" (row ∷ []) 5000000000 ([], []))
insert_snapshot-AllOrNothing_example =
    insert_snapshot-AllOrNothing tables view tables-IsTransactional "global" none "daily"
      "2026-09-07" (row ∷ []) 5000000000 ([], [])
