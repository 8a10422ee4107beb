-- ===== src/Leaderboard/Mysql/Snapshots/Inserted.antt =====
-- leaderboard-poc/internal/mysqlclient/mysqlclient.go, `InsertSnapshot`: all rows or none.
use mathlib.Core.List.{append-nil, append_assoc}
use classic_cheese.Prelude.{
  ℕ, ◌≡◌, refl, sym, ap, ◌∙◌, subst, ◌⊎◌, inl, inr, String, List, [], ◌∷◌, ◌++◌, map, Option,
}
use classic_cheese.Prelude.Text.{concat}
use classic_cheese.Prelude.Decimal.{itoa}
use classic_cheese.Leaderboard.Models.{SnapshotRow}
use classic_cheese.Leaderboard.Redis.{Result, value, error}
use classic_cheese.Leaderboard.Mysql.{wrap}
use classic_cheese.Leaderboard.Mysql.Snapshots.{
  SnapshotRecord, SnapshotStatements, record_of, insert_rows, finish, closed, rolled_back, prepared,
  begun, insert_snapshot,
}
use classic_cheese.Leaderboard.Mysql.Snapshots.Laws.{SnapshotView, kept, IsTransactional}

joined : {A : Type 0} {a b c d : List A} → a ≡ b → c ≡ d → a ++ c ≡ b ++ d
joined {b = b} {c = c} p q = ap (λ x. x ++ c) p ∙ ap (λ y. b ++ y) q

module _ {S T : Type 0} (db : SnapshotStatements S T) (v : SnapshotView S T) where
  -- The rows that a call adds to the table.
  abbrev pub new_rows :
      String → Option String → String → String → List (SnapshotRow T) → T → List (SnapshotRecord T)
  new_rows scope region period_type period_key rows at =
      map (kept v) (map (record_of scope region period_type period_key at) rows)

  -- Success writes the rows; a failure writes none of them, unless the answer to the COMMIT is lost.
  abbrev pub AllOrNothing : List (SnapshotRecord T) → S → Result (Unit {0}) × S → Type 0
  AllOrNothing rs s (value done, s') = v.table s' ≡ v.table s ++ rs
  AllOrNothing rs s (error e, s') = (v.table s' ≡ v.table s) ⊎ (v.table s' ≡ v.table s ++ rs)

  -- The rows wait in the statement's transaction.
  abbrev Waits : ℕ → List (SnapshotRecord T) → S → Result (Unit {0}) × S → Type 0
  Waits stmt rs s (value done, t) =
      (v.table t ≡ v.table s)
      × (v.pending (v.tx_of stmt) t ≡ v.pending (v.tx_of stmt) s ++ map (kept v) rs)
  Waits stmt rs s (error e, t) = v.table t ≡ v.table s

  abbrev after :
      ℕ → SnapshotRecord T → List (SnapshotRecord T) → Result (Unit {0}) × S → Result (Unit {0}) × S
  after stmt r rs result_t =
      let (result, t) = result_t in
      elim result [
        | value done ↦ insert_rows db stmt rs t
        | error e ↦
            (error (wrap (concat ("inserting snapshot row for user " ∷ itoa r.user_id ∷ [])) e), t)
      ]

  module _ (laws : IsTransactional db v) where
    Waits-cons :
        (stmt : ℕ) (r : SnapshotRecord T) (rs : List (SnapshotRecord T)) (s t : S)
        (out : Result (Unit {0}) × S)
        → v.table t ≡ v.table s
        → v.pending (v.tx_of stmt) t ≡ v.pending (v.tx_of stmt) s ++ kept v r ∷ []
        → Waits stmt rs t out
        → Waits stmt (r ∷ rs) s out
    Waits-cons stmt r rs s t (value done, u) same added h = (
      h.0 ∙ same,
      h.1
          ∙ ap (λ p. p ++ map (kept v) rs) added
          ∙ append_assoc (v.pending (v.tx_of stmt) s) (kept v r ∷ []) (map (kept v) rs),
    )
    Waits-cons stmt r rs s t (error e, u) same added h = h ∙ same

    after-Waits :
        (stmt : ℕ) (r : SnapshotRecord T) (rs : List (SnapshotRecord T)) (s : S)
        (one : Result (Unit {0}) × S)
        → db.insert_row stmt r s ≡ one
        → ((t : S) → Waits stmt rs t (insert_rows db stmt rs t))
        → Waits stmt (r ∷ rs) s (after stmt r rs one)
    after-Waits stmt r rs s (value done, t) h rest =
        let (same, added) = laws.insert_value stmt r s t h in
        Waits-cons stmt r rs s t (insert_rows db stmt rs t) same added (rest t)
    after-Waits stmt r rs s (error e, t) h rest = laws.insert_error stmt r s t e h

    insert_rows-Waits :
        (stmt : ℕ) (rs : List (SnapshotRecord T)) (s : S)
        → Waits stmt rs s (insert_rows db stmt rs s)
    unfolding insert_rows
    insert_rows-Waits stmt [] s = (refl, sym (append-nil _))
    insert_rows-Waits stmt (r ∷ rs) s =
        after-Waits stmt r rs s (db.insert_row stmt r s) refl (insert_rows-Waits stmt rs)

    -- The deferred calls change nothing in the table.
    AllOrNothing-quiet :
        (rs : List (SnapshotRecord T)) (s t u : S) (result : Result (Unit {0}))
        → v.table u ≡ v.table t
        → AllOrNothing rs s (result, t)
        → AllOrNothing rs s (result, u)
    AllOrNothing-quiet rs s t u (value done) same h = same ∙ h
    AllOrNothing-quiet rs s t u (error e) same (inl h) = inl (same ∙ h)
    AllOrNothing-quiet rs s t u (error e) same (inr h) = inr (same ∙ h)

    committed :
        (tx : ℕ) (rs : List (SnapshotRecord T)) (s t : S) (out : Result (Unit {0}) × S)
        → db.commit tx t ≡ out
        → v.table t ≡ v.table s
        → v.pending tx t ≡ rs
        → AllOrNothing rs s out
    committed tx rs s t (value done, u) h same waits =
        laws.commit_value tx t u h ∙ joined same waits
    committed tx rs s t (error e, u) h same waits = elim (laws.commit_error tx t u e h) [
      | inl before ↦ inl (before ∙ same)
      | inr after ↦ inr (after ∙ joined same waits)
    ]

    finished :
        (tx stmt : ℕ) (rs : List (SnapshotRecord T)) (s t : S) (out : Result (Unit {0}) × S)
        → v.tx_of stmt ≡ tx
        → v.table t ≡ v.table s
        → v.pending tx t ≡ []
        → Waits stmt rs t out
        → AllOrNothing (map (kept v) rs) s (finish db tx out)
    unfolding finish
    finished tx stmt rs s t (value done, u) of same empty h =
        committed tx (map (kept v) rs) s u (db.commit tx u) refl (h.0 ∙ same) (
          subst (λ n. v.pending n u ≡ v.pending n t ++ map (kept v) rs) of h.1
          ∙ ap (λ p. p ++ map (kept v) rs) empty)
    finished tx stmt rs s t (error e, u) of same empty h = inl (h ∙ same)

    prepared_lem :
        (tx : ℕ) (rs : List (SnapshotRecord T)) (s t : S) (out : Result ℕ × S)
        → db.prepare_insert tx t ≡ out
        → v.table t ≡ v.table s
        → v.pending tx t ≡ []
        → AllOrNothing (map (kept v) rs) s (prepared db tx rs out)
    unfolding prepared closed
    prepared_lem tx rs s t (value stmt, u) h same empty =
        let (of, still, waits) = laws.prepare_value tx stmt t u h in
        let out = finish db tx (insert_rows db stmt rs u) in
        AllOrNothing-quiet (map (kept v) rs) s out.1 _ out.0 (laws.close_lem stmt out.1) (
          finished tx stmt rs s u (insert_rows db stmt rs u) of (still ∙ same) (waits ∙ empty)
            (insert_rows-Waits stmt rs u))
    prepared_lem tx rs s t (error e, u) h same empty = inl (laws.prepare_error tx t u e h ∙ same)

    begun_lem :
        (rs : List (SnapshotRecord T)) (s : S) (out : Result ℕ × S)
        → db.begin_tx s ≡ out
        → AllOrNothing (map (kept v) rs) s (begun db rs out)
    unfolding begun rolled_back
    begun_lem rs s (value tx, t) h =
        let (same, empty) = laws.begin_value s t tx h in
        let out = prepared db tx rs (db.prepare_insert tx t) in
        AllOrNothing-quiet (map (kept v) rs) s out.1 _ out.0 (laws.rollback_lem tx out.1)
          (prepared_lem tx rs s t (db.prepare_insert tx t) refl same empty)
    begun_lem rs s (error e, t) h = inl (laws.begin_error s t e h)

    -- A snapshot is written as a whole: if `InsertSnapshot` succeeds the table has all its rows in
    -- addition, in their order and with the snapshot's time; if it fails, at whatever step, the table is
    -- as before, or has all the rows as well if only the answer to the COMMIT is lost. (If transactions
    -- are atomic.)
    pub insert_snapshot-AllOrNothing :
        (scope : String) (region : Option String) (period_type period_key : String)
        (rows : List (SnapshotRow T)) (at : T) (s : S)
        → AllOrNothing
            (new_rows scope region period_type period_key rows at)
            s
            (insert_snapshot db scope region period_type period_key rows at s)
    unfolding insert_snapshot
    insert_snapshot-AllOrNothing scope region period_type period_key rows at s =
        begun_lem (map (record_of scope region period_type period_key at) rows) s (db.begin_tx s)
          refl
