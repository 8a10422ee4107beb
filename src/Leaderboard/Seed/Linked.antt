-- ===== src/Leaderboard/Seed/Linked.antt =====
-- leaderboard-poc/cmd/seed/main.go: createFriendGraph ends, and makes the graph.
use mathlib.Core.Logic.{◌∨₁◌}
use mathlib.Core.Logic.Or
use mathlib.Core.List.{Permᴰ, Mem, append_assoc, append-nil, not-mem-nil, Mem-prop}
use native.Mathlib.Nat.{le_trans, mul-le-mul_right}
use classic_cheese.Prelude.{
  ℕ, suc, ◌+◌, ◌-◌, ◌*◌, ◌≤◌, ◌<◌, ◌≡◌, refl, sym, ap, ◌∙◌, subst, ◌⊎◌, inl, inr, ◌↔◌, List, [],
  ◌∷◌, ◌++◌, Option, some, none, arith, ltb, Bool-cases, map,
}
use classic_cheese.Prelude.Lists.{length}
use classic_cheese.Prelude.Int.{ℤ}
use classic_cheese.Prelude.Text.{concat}
use classic_cheese.Prelude.Decimal.{itoa}
use classic_cheese.Leaderboard.Mysql.{wrap}
use classic_cheese.Leaderboard.Redis.{Result, value, error}
use classic_cheese.Leaderboard.Seed.{
  Services, Picked, friend_count, link, link_all, finish, prepared, begun, create_friend_graph,
}
use classic_cheese.Leaderboard.Seed.Fresh.{AreDistinct}
use classic_cheese.Leaderboard.Seed.Picks.{IsRandom, AreFriends, pick-Befriends}
use classic_cheese.Leaderboard.Seed.Table.{Links, TableView, IsTable, Adds, Stays}

-- How many friends a user gets: 5 to 15, or all others if they are fewer.
abbrev pub IsCount : ℕ → ℕ → Type 0
IsCount users count = (count ≤ 15) × ((5 ≤ count) ⊎ (suc count ≡ users))

friend_count_lem :
    (intn : ℕ → ℕ → ℕ) (patience users k : ℕ)
    → IsRandom intn users patience
    → 2 ≤ users
    → (friend_count intn users k < users) × (friend_count intn users k ≤ 15)
unfolding friend_count
friend_count_lem intn patience users k random h = ground (arith, random.bounded k 11 (omega arith))

friend_count-IsCount :
    (intn : ℕ → ℕ → ℕ) (patience users k : ℕ)
    → IsRandom intn users patience
    → 2 ≤ users
    → IsCount users (friend_count intn users k)
unfolding friend_count
friend_count-IsCount intn patience users k random h =
    elim (Bool-cases (ltb (users - 1) (5 + intn k 11))) [
      | inl few ↦ rw few (ground (arith, random.bounded k 11 (omega arith)))
      | inr many ↦ rw many (ground (arith, random.bounded k 11 (omega arith)))
    ]

-- A row for each friend of the user.
abbrev pub rows_for : ℤ → List ℤ → Links
rows_for user_id = map (λ friend_id. (user_id, friend_id))

-- For each of the users in turn the rows of friends: other users, none twice, as many as there should be.
abbrev pub AreLinksOf : List ℤ → List ℤ → Links → Type 0
AreLinksOf user_ids [] rows = rows ≡ []
AreLinksOf user_ids (user_id ∷ users) rows =
    (friends : Picked) × (order : List ℤ) × (rest : Links) × (rows ≡ rows_for user_id order ++ rest)
    × Permᴰ order (map (λ c. c.0) friends)
    × AreFriends user_ids user_id friends
    × IsCount (length user_ids) (length friends)
    × AreLinksOf user_ids users rest

module _ {S : Type 0} (intn : ℕ → ℕ → ℕ) (patience : ℕ) (services : Services S)
    (visit : List ℤ → List ℤ) (fuel : ℕ) (v : TableView S) where
  -- The graph in full.
  abbrev IsMade : List ℤ → S → S → Type 0
  IsMade user_ids s t = (rows : Links) × AreLinksOf user_ids user_ids rows × Adds v rows s t

  -- On success the graph is made; on an error nothing is, or all of it.
  abbrev Ends : List ℤ → S → Result (Unit {0}) → S → Type 0
  Ends user_ids s (value done) t = IsMade user_ids s t
  Ends user_ids s (error e) t = Stays v s t ⊎ IsMade user_ids s t

  abbrev pub Makes : List ℤ → S → Option (Result (Unit {0})) × S → Type 0
  Makes user_ids s out = (r : Result (Unit {0})) × (out.0 ≡ some r) × Ends user_ids s r out.1

  -- The rows that the transaction has got, after some inserts.
  abbrev Inserts : Links → S → Result (Unit {0}) × S → Type 0
  Inserts rows s (value done, t) = (v.staged t ≡ v.staged s ++ rows) × Stays v s t
  Inserts rows s (error e, t) = Stays v s t

  -- The same for the loop over some of the users.
  abbrev InsertsFor : List ℤ → List ℤ → S → Result (Unit {0}) → S → Type 0
  InsertsFor user_ids users s (value done) t =
      (rows : Links) × AreLinksOf user_ids users rows
      × (v.staged t ≡ v.staged s ++ rows)
      × Stays v s t
  InsertsFor user_ids users s (error e) t = Stays v s t

  abbrev Loops : List ℤ → List ℤ → S → Option (Result (Unit {0})) × S → Type 0
  Loops user_ids users s (none, t) = ⊥
  Loops user_ids users s (some r, t) = InsertsFor user_ids users s r t

  -- The rest of the loop over the users, after a picking and after the links of a user.
  abbrev after_links :
      ℕ → List ℤ → List ℤ → ℕ → Result (Unit {0}) × S → Option (Result (Unit {0})) × S
  after_links stmt user_ids users j out =
      let (linked, t) = out in
      elim linked [
        | value done ↦ link_all intn services visit fuel stmt user_ids users j t
        | error e ↦ (some (error e), t)
      ]

  abbrev after_pick :
      ℕ → List ℤ → ℤ → List ℤ → S → Option Picked × ℕ → Option (Result (Unit {0})) × S
  after_pick stmt user_ids user_id users s out =
      let (picked, j) = out in
      elim picked [
        | none ↦ (none, s)
        | some friends ↦
            after_links stmt user_ids users j
              (link intn services visit stmt user_id (visit (map (λ c. c.0) friends)) s)
      ]

  -- The rest of the loop over the friends, after an insert.
  abbrev after_insert : ℕ → ℤ → ℤ → List ℤ → Result (Unit {0}) × S → Result (Unit {0}) × S
  after_insert stmt user_id friend_id friends out =
      let (linked, t) = out in
      elim linked [
        | value done ↦ link intn services visit stmt user_id friends t
        | error e ↦
            (error (wrap (concat ("linking " ∷ itoa user_id ∷ " -> " ∷ itoa friend_id ∷ [])) e), t)
      ]

  module _ (table : IsTable services v) where
    -- One more row before the others.
    onward :
        (row : ℤ × ℤ) (rows : Links) (s t : S) (out : Result (Unit {0}) × S)
        → v.staged t ≡ v.staged s ++ row ∷ []
        → Stays v s t
        → Inserts rows t out
        → Inserts (row ∷ rows) s out
    onward row rows s t (value done, u) staged same (more, stays) = (
      more ∙ ap (λ l. l ++ rows) staged ∙ append_assoc (v.staged s) (row ∷ []) rows,
      stays ∙ same,
    )
    onward row rows s t (error e, u) staged same stays = stays ∙ same

    inserted :
        (stmt : ℕ) (user_id friend_id : ℤ) (friends : List ℤ) (s : S) (out : Result (Unit {0}) × S)
        → services.insert_friend stmt user_id friend_id s ≡ out
        → ((t : S)
            → Inserts
                (rows_for user_id friends)
                t
                (link intn services visit stmt user_id friends t))
        → Inserts
            (rows_for user_id (friend_id ∷ friends))
            s
            (after_insert stmt user_id friend_id friends out)
    inserted stmt user_id friend_id friends s (value done, t) h rest =
        onward (user_id, friend_id) (rows_for user_id friends) s t
          (link intn services visit stmt user_id friends t)
          (table.inserted stmt user_id friend_id s t h)
          (subst (λ o. Stays v s o.1) h (table.insert_lem stmt user_id friend_id s)) (rest t)
    inserted stmt user_id friend_id friends s (error e, t) h rest =
        subst (λ o. Stays v s o.1) h (table.insert_lem stmt user_id friend_id s)

    link-Inserts :
        (stmt : ℕ) (user_id : ℤ) (friends : List ℤ) (s : S)
        → Inserts (rows_for user_id friends) s (link intn services visit stmt user_id friends s)
    unfolding link
    link-Inserts stmt user_id [] s = (sym (append-nil (v.staged s)), refl)
    link-Inserts stmt user_id (friend_id ∷ friends) s =
        inserted stmt user_id friend_id friends s (services.insert_friend stmt user_id friend_id s)
          refl (λ t. link-Inserts stmt user_id friends t)

    module _ (visits_all : (xs : List ℤ) → Permᴰ (visit xs) xs) (user_ids : List ℤ)
        (random : IsRandom intn (length user_ids) patience) (distinct : AreDistinct user_ids)
        (two : 2 ≤ length user_ids) (enough : 15 * patience ≤ fuel) where
      -- The links of one user before those of the others.
      with_links :
          (user_id : ℤ) (users : List ℤ) (friends : Picked) (s t : S)
          (out : Option (Result (Unit {0})) × S)
          → v.staged t ≡ v.staged s ++ rows_for user_id (visit (map (λ c. c.0) friends))
          → Stays v s t
          → AreFriends user_ids user_id friends
          → IsCount (length user_ids) (length friends)
          → Loops user_ids users t out
          → Loops user_ids (user_id ∷ users) s out
      with_links user_id users friends s t (none, u) given stays are count same = elim same [ ]
      with_links user_id users friends s t (some (error e), u) given stays are count same =
          same ∙ stays
      with_links user_id users friends s t (some (value d), u) given stays are count
            (rows, links, staged, same) =
          let mine = rows_for user_id (visit (map (λ c. c.0) friends)) in
          (
            mine ++ rows,
            (
              friends,
              visit (map (λ c. c.0) friends),
              rows,
              refl,
              visits_all (map (λ c. c.0) friends),
              are,
              count,
              links,
            ),
            staged ∙ ap (λ l. l ++ rows) given ∙ append_assoc (v.staged s) mine rows,
            same ∙ stays,
          )

      after_links-Loops :
          (stmt : ℕ) (user_id : ℤ) (users : List ℤ) (friends : Picked) (j : ℕ) (s : S)
          (out : Result (Unit {0}) × S)
          → Inserts (rows_for user_id (visit (map (λ c. c.0) friends))) s out
          → AreFriends user_ids user_id friends
          → IsCount (length user_ids) (length friends)
          → ((t : S)
              → Loops user_ids users t (link_all intn services visit fuel stmt user_ids users j t))
          → Loops user_ids (user_id ∷ users) s (after_links stmt user_ids users j out)
      after_links-Loops stmt user_id users friends j s (error e, t) stays are count rest = stays
      after_links-Loops stmt user_id users friends j s (value done, t) (given, stays) are count
            rest =
          with_links user_id users friends s t _ given stays are count (rest t)

      link_all-Loops :
          (stmt : ℕ) (users : List ℤ) (k : ℕ) (s : S)
          → Loops user_ids users s (link_all intn services visit fuel stmt user_ids users k s)
      unfolding link_all
      link_all-Loops stmt [] k s = ([], refl, sym (append-nil (v.staged s)), refl)
      link_all-Loops stmt (user_id ∷ users) k s =
          let count = friend_count intn (length user_ids) k in
          let (few, bounded) = friend_count_lem intn patience (length user_ids) k random two in
          let (friends, j, picked, long, good) =
            pick-Befriends intn patience user_ids random user_id count fuel (suc k)
              (le_trans (mul-le-mul_right patience bounded) enough) few distinct in
          subst (Loops user_ids (user_id ∷ users) s)
            (sym (ap (after_pick stmt user_ids user_id users s) picked))
            (after_links-Loops stmt user_id users friends j s _
              (link-Inserts stmt user_id (visit (map (λ c. c.0) friends)) s) good
              (subst (IsCount (length user_ids)) (sym long)
                (friend_count-IsCount intn patience (length user_ids) k random two))
              (λ t. link_all-Loops stmt users j t))

      Adds-Stays :
          (rows staged : Links) (s t u w : S)
          → Stays v s t
          → staged ≡ rows
          → Adds v staged t u
          → Stays v u w
          → Adds v rows s w
      Adds-Stays rows staged s t u w same is adds after = record {
        added = λ row.
            rw (after, ← is)
              (subst (λ l. Mem row (v.rows u) ↔ (Mem row l ∨₁ Mem row staged)) same
                (adds.added row));
      }

      finished :
          (tx stmt : ℕ) (s t u : S) (rows : Links) (out : Result (Unit {0}) × S)
          → services.commit tx u ≡ out
          → AreLinksOf user_ids user_ids rows
          → v.staged u ≡ rows
          → Stays v s u
          → Makes user_ids s (some out.0, services.rollback tx (services.close stmt out.1))
      finished tx stmt s t u rows (value done, w) h links staged same = (
        value done,
        refl,
        (
          rows,
          links,
          Adds-Stays rows _ s u w _ same staged (table.committed tx u w h)
              (table.rollback_lem tx (services.close stmt w) ∙ table.close_lem stmt w),
        ),
      )
      finished tx stmt s t u rows (error e, w) h links staged same =
          let after = table.rollback_lem tx (services.close stmt w) ∙ table.close_lem stmt w in
          (
            error e,
            refl,
            elim (subst (λ o. Stays v u o.1 ⊎ Adds v (v.staged u) u o.1) h
                (table.commit_lem tx u)) [
                  | inl kept ↦ inl (after ∙ kept ∙ same)
                  | inr adds ↦ inr (rows, links, Adds-Stays rows _ s u w _ same staged adds after)
                ],
          )

      finish-Makes :
          (tx stmt : ℕ) (s t : S) (out : Option (Result (Unit {0})) × S)
          → v.staged t ≡ []
          → Stays v s t
          → Loops user_ids user_ids t out
          → Makes user_ids s (finish intn services visit tx stmt out)
      unfolding finish
      finish-Makes tx stmt s t (none, u) empty same stays = elim stays [ ]
      finish-Makes tx stmt s t (some (error e), u) empty same stays = (
        error e,
        refl,
        inl (table.rollback_lem tx (services.close stmt u) ∙ table.close_lem stmt u ∙ stays ∙ same),
      )
      finish-Makes tx stmt s t (some (value done), u) empty same (rows, links, staged, stays) =
          finished tx stmt s t u rows (services.commit tx u) refl links
            (staged ∙ ap (λ l. l ++ rows) empty) (stays ∙ same)

      prepared-Makes :
          (tx k : ℕ) (s t : S) (out : Result ℕ × S)
          → v.staged out.1 ≡ []
          → Stays v s out.1
          → Makes user_ids s (prepared intn services visit fuel tx user_ids k out)
      unfolding prepared
      prepared-Makes tx k s t (value stmt, u) empty same =
          finish-Makes tx stmt s u _ empty same (link_all-Loops stmt user_ids k u)
      prepared-Makes tx k s t (error e, u) empty same =
          (error e, refl, inl (table.rollback_lem tx u ∙ same))

      begun-Makes :
          (k : ℕ) (s : S) (out : Result ℕ × S)
          → services.begin_tx s ≡ out
          → Makes user_ids s (begun intn services visit fuel user_ids k out)
      unfolding begun
      begun-Makes k s (value tx, t) h =
          let (empty, same) = table.began s t tx h in
          let (staged, stays) = table.prepare_lem tx t in
          prepared-Makes tx k s t (services.prepare_insert tx t) (staged ∙ empty) (stays ∙ same)
      begun-Makes k s (error e, t) h =
          (error e, refl, inl (subst (λ o. Stays v s o.1) h (table.begin_lem s)))

    nothing_added : (s : S) → Adds v [] s s
    nothing_added s = record {
      added = λ row.
          ((λ m. ∣ inl m ∣₁), λ c. Or.elim Mem-prop c (λ m. m) (λ m. absurd (not-mem-nil m)));
    }

    -- With less than two users there are no friends to be made.
    few-IsMade : (user_ids : List ℤ) (s : S) → length user_ids < 2 → IsMade user_ids s s
    few-IsMade [] s few = ([], refl, nothing_added s)
    few-IsMade (u ∷ []) s few = (
      [],
      (
        [],
        [],
        [],
        refl,
        Permᴰ.nil,
        record { once = tt; others = tt; known = tt },
        (omega arith, inr refl),
        refl,
      ),
      nothing_added s,
    )
    few-IsMade (u ∷ w ∷ us) s few = absurd (omega arith)

    -- The friend graph is made, for any number of users: with fuel for 15 times `patience` draws for
    -- each user the function never runs out of it, and if it returns no error the table has got, beside
    -- the rows it had, for each user the rows of 5 to 15 other users, or of all others if they are
    -- fewer, none of them twice, and no more rows. If it returns an error the table is as before, or
    -- has all these rows if only the answer to the COMMIT is lost. (If no user is listed twice, each
    -- user comes up within any `patience` draws, `range` visits the whole set, transactions are
    -- atomic, and nobody else writes to the table.)
    pub create_friend_graph-Makes :
        (user_ids : List ℤ) (k : ℕ) (s : S)
        → ((xs : List ℤ) → Permᴰ (visit xs) xs)
        → IsRandom intn (length user_ids) patience
        → AreDistinct user_ids
        → 15 * patience ≤ fuel
        → Makes user_ids s (create_friend_graph intn services visit fuel user_ids k s)
    unfolding create_friend_graph
    create_friend_graph-Makes user_ids k s visits_all random distinct enough =
        elim (Bool-cases (ltb (length user_ids) 2)) [
          | inl few ↦ rw few (value tt, refl, few-IsMade user_ids s (ground arith))
          | inr many ↦ rw many (
              begun-Makes visits_all user_ids random distinct (ground arith) enough k s
                (services.begin_tx s) refl)
        ]
