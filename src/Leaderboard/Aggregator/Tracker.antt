-- ===== src/Leaderboard/Aggregator/Tracker.antt =====
-- leaderboard-poc/cmd/aggregator/main.go: the tracker lists exactly what the messages named.
use mathlib.Core.List.{Permᴰ}
use mathlib.Core.List.Permᴰ
use classic_cheese.Prelude.{
  String, String_discrete, ◌≡◌, ◌↔◌, sym, ◌∙◌, ap, subst, List, [], ◌∷◌, Option, none, some, map,
  arith, ◌⊎◌, inl, inr, if_pos, if_neg,
}
use classic_cheese.Prelude.Dict.{
  lookup, insert, Unique, insert-Unique, lookup-insert_self, lookup-insert_ne,
}
use classic_cheese.Leaderboard.Models.{ScoreEvent}
use classic_cheese.Leaderboard.Aggregator.{
  ComboKey, ComboKey_discrete, Regions, Combos, regions_of, mark_active, snapshot, receive,
  receive_all,
}

-- The tracker holds the region under the key.
abbrev IsLive : ComboKey → String → Combos → Type 0
IsLive key region combos =
    lookup String_discrete region (regions_of (lookup ComboKey_discrete key combos)) ≡ some tt

abbrev IsIn : String → List String → Type 0
IsIn r [] = ⊥
IsIn r (x ∷ xs) = (x ≡ r) ⊎ IsIn r xs

-- A snapshot lists the region under the key.
abbrev pub Covers : ComboKey → String → List (ComboKey × List String) → Type 0
Covers key region [] = ⊥
Covers key region (c ∷ cs) = ((c.0 ≡ key) × IsIn region c.1) ⊎ Covers key region cs

abbrev pub key_of : {T : Type 0} → ScoreEvent T → ComboKey
key_of event = record { period_type = event.period_type; period_key = event.period_key }

-- Some message is an event of the region in that period.
abbrev pub Names : {T : Type 0} → ComboKey → String → List (Option (ScoreEvent T)) → Type 0
Names key region [] = ⊥
Names key region (none ∷ ds) = Names key region ds
Names key region (some event ∷ ds) =
    ((key_of event ≡ key) × (event.region ≡ region)) ⊎ Names key region ds

mark_active-others :
    (pt pk r : String) (key : ComboKey) (region : String) (combos : Combos)
    → ¬ ((record { period_type = pt; period_key = pk } ≡ key) × (r ≡ region))
    → lookup String_discrete region
        (regions_of (lookup ComboKey_discrete key (mark_active pt pk r combos)))
      ≡ lookup String_discrete region (regions_of (lookup ComboKey_discrete key combos))
unfolding mark_active
mark_active-others pt pk r key region combos h =
    let own : ComboKey = record { period_type = pt; period_key = pk } in
    let regions = regions_of (lookup ComboKey_discrete own combos) in
    elim (ComboKey_discrete own key) [
      | yes e ↦
          subst
            (λ k.
              lookup String_discrete region (
                regions_of (
                  lookup ComboKey_discrete k
                    (insert ComboKey_discrete own (insert String_discrete r tt regions) combos)))
              ≡ lookup String_discrete region (regions_of (lookup ComboKey_discrete k combos)))
            e
            (rw
              (lookup-insert_self ComboKey_discrete own (insert String_discrete r tt regions)
                combos)
              (lookup-insert_ne String_discrete r region tt regions (λ p. h (e, p))))
      | no n ↦
          ap (λ o. lookup String_discrete region (regions_of o))
            (lookup-insert_ne ComboKey_discrete own key (insert String_discrete r tt regions) combos
              n)
    ]

mark_active-marks :
    (pt pk r : String) (combos : Combos)
    → IsLive (record { period_type = pt; period_key = pk }) r (mark_active pt pk r combos)
unfolding mark_active
mark_active-marks pt pk r combos =
    let own : ComboKey = record { period_type = pt; period_key = pk } in
    let regions = regions_of (lookup ComboKey_discrete own combos) in
    rw (lookup-insert_self ComboKey_discrete own (insert String_discrete r tt regions) combos)
      (lookup-insert_self String_discrete r tt regions)

module _ {T : Type 0} where
  receive-IsLive :
      (event : ScoreEvent T) (key : ComboKey) (region : String) (combos : Combos)
      → IsLive key region (mark_active event.period_type event.period_key event.region combos)
        ↔ (((key_of event ≡ key) × (event.region ≡ region)) ⊎ IsLive key region combos)
  receive-IsLive event key region combos = elim (ComboKey_discrete (key_of event) key) [
    | yes e ↦ elim (String_discrete event.region region) [
      | yes p ↦ (
        λ _. inl (e, p),
        λ _.
            subst
              (λ r.
                IsLive key r (mark_active event.period_type event.period_key event.region combos))
              p
              (subst
                (λ k.
                  IsLive k event.region
                    (mark_active event.period_type event.period_key event.region combos))
                e (mark_active-marks event.period_type event.period_key event.region combos)),
      )
      | no n ↦ unchanged (λ q. n q.1)
    ]
    | no n ↦ unchanged (λ q. n q.0)
  ]
    where
      unchanged :
          ¬ ((key_of event ≡ key) × (event.region ≡ region))
          → IsLive key region (mark_active event.period_type event.period_key event.region combos)
            ↔ (((key_of event ≡ key) × (event.region ≡ region)) ⊎ IsLive key region combos)
      unchanged n =
          let same =
            mark_active-others event.period_type event.period_key event.region key region combos
              n in
          (
            λ live. inr (sym same ∙ live),
            λ o. elim o [ inl q ↦ absurd (n q) | inr live ↦ same ∙ live ],
          )

  receive_all-IsLive :
      (key : ComboKey) (region : String) (ds : List (Option (ScoreEvent T))) (combos : Combos)
      → IsLive key region (receive_all ds combos) ↔ (Names key region ds ⊎ IsLive key region combos)
  unfolding receive_all receive
  receive_all-IsLive key region [] combos = (inr, λ o. elim o [ inl n ↦ absurd n | inr l ↦ l ])
  receive_all-IsLive key region (none ∷ ds) combos = receive_all-IsLive key region ds combos
  receive_all-IsLive key region (some event ∷ ds) combos =
      let ih =
        receive_all-IsLive key region ds
          (mark_active event.period_type event.period_key event.region combos) in
      let one = receive-IsLive event key region combos in
      (
        λ live. elim (ih.0 live) [
          | inl n ↦ inl (inr n)
          | inr l ↦ elim (one.0 l) [ inl q ↦ inl (inl q) | inr k ↦ inr k ]
        ],
        λ o. elim o [
          | inl (inl q) ↦ ih.1 (inr (one.1 (inl q)))
          | inl (inr n) ↦ ih.1 (inl n)
          | inr l ↦ ih.1 (inr (one.1 (inr l)))
        ],
      )

  receive_all-Unique :
      (ds : List (Option (ScoreEvent T))) (combos : Combos)
      → Unique ComboKey_discrete combos
      → Unique ComboKey_discrete (receive_all ds combos)
  unfolding receive_all receive mark_active
  receive_all-Unique [] combos u = u
  receive_all-Unique (none ∷ ds) combos u = receive_all-Unique ds combos u
  receive_all-Unique (some event ∷ ds) combos u =
      receive_all-Unique ds _ (insert-Unique ComboKey_discrete (key_of event) _ combos u)

-- The names of a set of regions.
IsIn-lookup :
    (r : String) (regions : Regions)
    → IsIn r (map (λ c. c.0) regions) ↔ (lookup String_discrete r regions ≡ some tt)
unfolding lookup
IsIn-lookup r [] = (λ h. absurd h, λ e. absurd (ground arith))
IsIn-lookup r ((j, tt) ∷ regions) = elim (String_discrete j r) [
  | yes e ↦ (λ _. if_pos (String_discrete j r) e _ _, λ _. inl e)
  | no n ↦
      let ih = IsIn-lookup r regions in
      (
        λ o. elim o [ inl e ↦ absurd (n e) | inr h ↦ if_neg (String_discrete j r) n _ _ ∙ ih.0 h ],
        λ e. inr (ih.1 (sym (if_neg (String_discrete j r) n _ _) ∙ e)),
      )
]

IsIn-perm : (r : String) {xs ys : List String} → Permᴰ xs ys → IsIn r xs → IsIn r ys
IsIn-perm r Permᴰ.nil h = h
IsIn-perm r (Permᴰ.cons e p) (inl q) = inl (sym e ∙ q)
IsIn-perm r (Permᴰ.cons e p) (inr h) = inr (IsIn-perm r p h)
IsIn-perm r (Permᴰ.swap e e') (inl q) = inr (inl (sym e ∙ q))
IsIn-perm r (Permᴰ.swap e e') (inr (inl q)) = inl (sym e' ∙ q)
IsIn-perm r (Permᴰ.swap e e') (inr (inr h)) = inr (inr h)
IsIn-perm r (Permᴰ.trans p q) h = IsIn-perm r q (IsIn-perm r p h)

module _ (visit : List String → List String)
    (visits_all : (xs : List String) → Permᴰ (visit xs) xs) where
  visited :
      (r : String) (regions : Regions)
      → IsIn r (visit (map (λ c. c.0) regions)) ↔ (lookup String_discrete r regions ≡ some tt)
  visited r regions =
      let names = map (λ c. c.0) regions in
      (
        λ h. (IsIn-lookup r regions).0 (IsIn-perm r (visits_all names) h),
        λ e. IsIn-perm r (Permᴰ.symm (visits_all names)) ((IsIn-lookup r regions).1 e),
      )

  not-Covers :
      (key : ComboKey) (region : String) (combos : Combos)
      → lookup ComboKey_discrete key combos ≡ none
      → ¬ Covers key region (snapshot visit combos)
  unfolding snapshot lookup
  not-Covers key region [] e h = h
  not-Covers key region ((c, rs) ∷ cs) e (inl q) =
      absurd (ground (arith, sym (if_pos (ComboKey_discrete c key) q.0 _ _) ∙ e))
  not-Covers key region ((c, rs) ∷ cs) e (inr h) = elim (ComboKey_discrete c key) [
    | yes p ↦ absurd (ground (arith, sym (if_pos (ComboKey_discrete c key) p _ _) ∙ e))
    | no n ↦ not-Covers key region cs (sym (if_neg (ComboKey_discrete c key) n _ _) ∙ e) h
  ]

  Covers-IsLive :
      (key : ComboKey) (region : String) (combos : Combos)
      → Unique ComboKey_discrete combos
      → Covers key region (snapshot visit combos) ↔ IsLive key region combos
  unfolding snapshot lookup
  Covers-IsLive key region [] u = (λ h. absurd h, λ e. absurd (ground arith))
  Covers-IsLive key region ((c, rs) ∷ cs) u = elim (ComboKey_discrete c key) [
    | yes e ↦
        let found =
          ap (λ o. lookup String_discrete region (regions_of o))
            (if_pos (ComboKey_discrete c key) e (some rs) (lookup ComboKey_discrete key cs)) in
        (
          λ h. elim h [
            | inl q ↦ found ∙ (visited region rs).0 q.1
            | inr k ↦ absurd (
                not-Covers key region cs (subst (λ w. lookup ComboKey_discrete w cs ≡ none) e u.0)
                  k)
          ],
          λ live. inl (e, (visited region rs).1 (sym found ∙ live)),
        )
    | no n ↦
        let passed =
          ap (λ o. lookup String_discrete region (regions_of o))
            (if_neg (ComboKey_discrete c key) n (some rs) (lookup ComboKey_discrete key cs)) in
        let ih = Covers-IsLive key region cs u.1 in
        (
          λ h. elim h [ inl q ↦ absurd (n q.0) | inr k ↦ passed ∙ ih.0 k ],
          λ live. inr (ih.1 (sym passed ∙ live)),
        )
  ]

  -- After any messages the snapshot lists a region under a period exactly if one of the messages is
  -- an event of that region in that period.
  pub snapshot-receive_all :
      {T : Type 0} (ds : List (Option (ScoreEvent T))) (key : ComboKey) (region : String)
      → Covers key region (snapshot visit (receive_all ds [])) ↔ Names key region ds
  unfolding lookup
  snapshot-receive_all ds key region =
      let listed = Covers-IsLive key region (receive_all ds []) (receive_all-Unique ds [] tt) in
      let live = receive_all-IsLive key region ds [] in
      (
        λ h. elim (live.0 (listed.0 h)) [ inl n ↦ n | inr l ↦ absurd (ground (arith, l)) ],
        λ n. listed.1 (live.1 (inl n)),
      )
