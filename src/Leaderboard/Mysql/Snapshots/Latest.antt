-- ===== src/Leaderboard/Mysql/Snapshots/Latest.antt =====
-- leaderboard-poc/internal/mysqlclient/mysqlclient.go, `LatestSnapshot`: what it returns when it
-- succeeds.
use classic_cheese.Prelude.{
  ℕ, ◌≡◌, refl, sym, ap, ◌∙◌, subst, ◌⊎◌, inl, inr, String, List, [], ◌∷◌, map, Option, none, some,
  arith,
}
use classic_cheese.Prelude.Int.{ℤ, pos, pos_part}
use classic_cheese.Leaderboard.Models.{SnapshotRow}
use classic_cheese.Leaderboard.Redis.{Error, Result, value, error}
use classic_cheese.Leaderboard.Redis.Results.{value_injective, error-ne-value}
use classic_cheese.Leaderboard.Mysql.{Rows, cons_result}
use classic_cheese.Leaderboard.Mysql.Snapshots.{
  SnapshotRecord, SnapshotStatements, scan_rows, scanned_rows, max_of, rows_of, row_limit,
  latest_found, latest_snapshot,
}
use classic_cheese.Leaderboard.Mysql.Snapshots.Laws.{SnapshotView}
use classic_cheese.Leaderboard.Mysql.Snapshots.Selects.{
  Clock, belongs, is_at, IsLatest, IsListing, keep, IsSelecting,
}

pub cons_result-value :
    {A : Type 0} (x : A) (r : Result (List A)) (ys : List A)
    → cons_result x r ≡ value ys
    → (xs : List A) × (r ≡ value xs) × (ys ≡ x ∷ xs)
unfolding cons_result
cons_result-value x (value xs) ys h = (xs, refl, sym (value_injective _ _ h))
cons_result-value x (error e) ys h = absurd (error-ne-value e ys h)

scan_rows-value :
    {T : Type 0} (scans : List (Result (SnapshotRow T))) (err : Option Error)
    (rows : List (SnapshotRow T))
    → scan_rows scans err ≡ value rows
    → (scans ≡ map value rows) × (err ≡ none)
unfolding scan_rows
scan_rows-value [] none rows h = (ap (map value) (value_injective _ _ h), refl)
scan_rows-value [] (some e) rows h = absurd (error-ne-value e rows h)
scan_rows-value (value row ∷ scans) err rows h =
    let (more, rest, whole) = cons_result-value row (scan_rows scans err) rows h in
    let (same, quiet) = scan_rows-value scans err more rest in
    (ap (◌∷◌ (value row)) same ∙ ap (map value) (sym whole), quiet)
scan_rows-value (error e ∷ scans) err rows h = absurd (error-ne-value _ rows h)

scanned_rows-value :
    {S T : Type 0} (out : Result (Rows (SnapshotRow T)) × S) (rows : List (SnapshotRow T)) (u : S)
    → scanned_rows out ≡ (value rows, u)
    → (found : Rows (SnapshotRow T)) × (t : S) × (out ≡ (value found, t))
      × (found.scans ≡ map value rows)
      × (found.err ≡ none)
unfolding scanned_rows
scanned_rows-value (value found, t) rows u h =
    let (same, quiet) = scan_rows-value found.scans found.err rows (ap (λ c. c.0) h) in
    (found, t, refl, same, quiet)
scanned_rows-value (error e, t) rows u h = absurd (error-ne-value _ rows (ap (λ c. c.0) h))

row_limit_pos : (limit : ℤ) → row_limit limit ≡ pos (pos_part (row_limit limit))
unfolding row_limit
row_limit_pos limit = ground arith

-- What `LatestSnapshot` returns of a leaderboard's rows: nothing if there is no row, otherwise the first
-- `n` of the rows that have the latest time, by rank.
abbrev pub ListsFrom :
    {T : Type 0} → Clock T → ℕ → List (SnapshotRecord T) → List (SnapshotRow T) → Type 0
ListsFrom {T} clock n rs rows =
    ((rs ≡ []) × (rows ≡ []))
    ⊎ ((at : T) × IsLatest clock (some at) rs × IsListing n (keep (is_at clock at) rs) rows)

module _ {S T : Type 0} (db : SnapshotStatements S T) (v : SnapshotView S T) (clock : Clock T)
    (scope : String) (region : Option String) (period_type period_key : String) where
  -- The rows of this leaderboard.
  abbrev pub of_place : S → List (SnapshotRecord T)
  of_place s = keep (belongs scope region period_type period_key) (v.table s)

  abbrev pub ListsLatest : ℕ → S → List (SnapshotRow T) → Type 0
  ListsLatest n s rows = ListsFrom clock n (of_place s) rows

  module _ (laws : IsSelecting db v clock) where
    found_lem :
        (n : ℕ) (s u : S) (out : Result (Option T) × S) (rows : List (SnapshotRow T))
        → max_of db scope region period_type period_key s ≡ out
        → latest_found db scope region period_type period_key (pos n) out ≡ (value rows, u)
        → ListsLatest n s rows
    unfolding latest_found
    found_lem n s u (value none, t) rows m h = inl (
      (laws.max_value scope region period_type period_key s t none m).1,
      sym (value_injective _ _ (ap (λ c. c.0) h)),
    )
    found_lem n s u (value (some at), t) rows m h =
        let (same, latest) = laws.max_value scope region period_type period_key s t (some at) m in
        let (found, w, asked, scans, quiet) =
          scanned_rows-value (rows_of db scope region period_type period_key (pos n) at t) rows u
            h in
        inr (
          at,
          latest,
          subst
              (λ table.
                IsListing n
                  (keep (is_at clock at) (keep (belongs scope region period_type period_key) table))
                  rows)
              same
              (laws.rows_value scope region period_type period_key n at t w found rows asked scans
                quiet),
        )
    found_lem n s u (error e, t) rows m h = absurd (error-ne-value _ rows (ap (λ c. c.0) h))

    pub latest_snapshot-value :
        (limit : ℤ) (s u : S) (rows : List (SnapshotRow T))
        → latest_snapshot db scope region period_type period_key limit s ≡ (value rows, u)
        → ListsLatest (pos_part (row_limit limit)) s rows
    unfolding latest_snapshot
    latest_snapshot-value limit s u rows h =
        found_lem (pos_part (row_limit limit)) s u (max_of db scope region period_type period_key s)
          rows refl
          (ap
              (λ k.
                latest_found db scope region period_type period_key k
                  (max_of db scope region period_type period_key s))
              (sym (row_limit_pos limit))
            ∙ h)
