-- ===== src/Leaderboard/Mysql/Snapshots/Selects.antt =====
-- What the two queries of `LatestSnapshot` of leaderboard-poc's mysqlclient say of the table.
use mathlib.Core.List.{Perm}
use classic_cheese.Prelude.{
  ℕ, ◌≡◌, refl, ap, Bool, Bool-cases, inl, inr, true, false, ◌&&◌, String, String_discrete, List,
  [], ◌∷◌, ◌++◌, map, Option, none, some, ite, if◌then◌else◌,
}
use classic_cheese.Prelude.Lists.{All, take, get_elem?}
use classic_cheese.Prelude.Int.{pos, ltb_ℤ}
use classic_cheese.Leaderboard.Models.{SnapshotRow}
use classic_cheese.Leaderboard.Redis.{value}
use classic_cheese.Leaderboard.Sorting.{IsSorted}
use classic_cheese.Leaderboard.Mysql.{Rows}
use classic_cheese.Leaderboard.Mysql.Snapshots.{SnapshotRecord, SnapshotStatements, max_of, rows_of}
use classic_cheese.Leaderboard.Mysql.Snapshots.Laws.{SnapshotView}

-- Times with an order.
pub record Clock (T : Type 0) : Type 0 where
  pub discrete : Discrete T
  pub before : T → T → Bool

abbrev pub same_text : String → String → Bool
same_text a b = ite (String_discrete a b) true false

abbrev pub same_region : Option String → Option String → Bool
same_region none none = true
same_region (some a) (some b) = same_text a b
same_region none (some b) = false
same_region (some a) none = false

module _ {T : Type 0} where
  -- The row is of this leaderboard.
  unfoldable pub belongs : String → Option String → String → String → SnapshotRecord T → Bool
  belongs scope region period_type period_key r =
      same_text r.scope scope
      && same_region r.region region
      && same_text r.period_type period_type
      && same_text r.period_key period_key

  abbrev pub is_at : Clock T → T → SnapshotRecord T → Bool
  is_at clock at r = ite (clock.discrete r.snapshot_at at) true false

  abbrev pub row_of : SnapshotRecord T → SnapshotRow T
  row_of r = record {
    rank_position = r.rank_position;
    user_id = r.user_id;
    score = r.score;
    snapshot_at = r.snapshot_at;
  }

  abbrev pub less_rank : SnapshotRow T → SnapshotRow T → Bool
  less_rank a b = ltb_ℤ a.rank_position b.rank_position

  -- MAX(snapshot_at): NULL for no rows, otherwise the time of a row that no row's time is after.
  abbrev pub IsLatest : Clock T → Option T → List (SnapshotRecord T) → Type 0
  IsLatest clock none rs = rs ≡ []
  IsLatest clock (some at) rs =
      (i : ℕ) × (r : SnapshotRecord T) × (get_elem? rs i ≡ some r)
      × (r.snapshot_at ≡ at)
      × All (λ r. clock.before at r.snapshot_at ≡ false) rs

  -- ORDER BY rank_position ASC LIMIT n; rows of one rank may come in any order.
  abbrev pub IsListing : ℕ → List (SnapshotRecord T) → List (SnapshotRow T) → Type 0
  IsListing n rs rows =
      (order : List (SnapshotRow T)) × Perm order (map row_of rs)
      × IsSorted less_rank order
      × (rows ≡ take n order)

module _ {A : Type 0} where
  -- WHERE.
  unfoldable pub keep : (A → Bool) → List A → List A
  keep f [] = []
  keep f (x ∷ xs) = let rest = keep f xs in if f x then x ∷ rest else rest

  pub keep-append : (f : A → Bool) (xs ys : List A) → keep f (xs ++ ys) ≡ keep f xs ++ keep f ys
  unfolding keep
  keep-append f [] ys = refl
  keep-append f (x ∷ xs) ys = elim (Bool-cases (f x)) [
    | inl e ↦ rw e (ap (◌∷◌ x) (keep-append f xs ys))
    | inr e ↦ rw e (keep-append f xs ys)
  ]

  pub keep-All : (f : A → Bool) (xs : List A) → All (λ x. f x ≡ true) xs → keep f xs ≡ xs
  unfolding keep
  keep-All f [] h = refl
  keep-All f (x ∷ xs) h = rw h.0 (ap (◌∷◌ x) (keep-All f xs h.1))

  pub keep-nothing : (f : A → Bool) (xs : List A) → All (λ x. f x ≡ false) xs → keep f xs ≡ []
  unfolding keep
  keep-nothing f [] h = refl
  keep-nothing f (x ∷ xs) h = rw h.0 (keep-nothing f xs h.1)

pub record IsSelecting {S T : Type 0} (db : SnapshotStatements S T) (v : SnapshotView S T)
    (clock : Clock T) : Type 0 where
  pub max_value :
      (scope : String) (region : Option String) (period_type period_key : String) (s t : S)
      (latest : Option T)
      → max_of db scope region period_type period_key s ≡ (value latest, t)
      → (v.table t ≡ v.table s)
        × IsLatest clock latest (keep (belongs scope region period_type period_key) (v.table s))
  pub rows_value :
      (scope : String) (region : Option String) (period_type period_key : String) (n : ℕ) (at : T)
      (s t : S) (found : Rows (SnapshotRow T)) (rows : List (SnapshotRow T))
      → rows_of db scope region period_type period_key (pos n) at s ≡ (value found, t)
      → found.scans ≡ map value rows
      → found.err ≡ none
      → IsListing n
          (keep (is_at clock at) (keep (belongs scope region period_type period_key) (v.table s)))
          rows
