-- ===== src/Leaderboard/Seed/Picks.antt =====
-- leaderboard-poc/cmd/seed/main.go, createFriendGraph: the loop that picks a user's friends ends.
use native.Mathlib.Nat.{suc-mul}
use classic_cheese.Prelude.{
  ℕ, zero, suc, ◌+◌, ◌*◌, ◌≤◌, ◌<◌, ◌≡◌, ◌≢◌, sym, ap, ◌∙◌, ◌⊎◌, inl, inr, List, [], ◌∷◌, none,
  some, arith, ltb, ite, if_pos, if_neg, true, false, Option-cases, if◌then◌else◌,
}
use classic_cheese.Prelude.Lists.{All, length, get_or, get_elem?, get_elem?_bound}
use classic_cheese.Prelude.Int.{ℤ, pos, ℤ_discrete}
use classic_cheese.Prelude.Dict.{
  lookup, insert, Unique, insert-Unique, length-insert_new, All-insert,
}
use classic_cheese.Leaderboard.Seed.{Picked, pick}
use classic_cheese.Leaderboard.Seed.Fresh.{
  AreDistinct, new_or_few, get_or-found, get_or_place, insert-known, not_user,
}

-- A draw is below its bound, and each number below `users` comes up within any `patience` draws with
-- this bound.
pub record IsRandom (intn : ℕ → ℕ → ℕ) (users patience : ℕ) : Type 0 where
  pub bounded : (k n : ℕ) → 0 < n → intn k n < n
  pub fair : (k i : ℕ) → i < users → (j : ℕ) × (j < patience) × (intn (k + j) users ≡ i)

-- Friends of the user among the users, none of them twice.
pub record AreFriends (user_ids : List ℤ) (user_id : ℤ) (p : Picked) : Type 0 where
  pub once : Unique ℤ_discrete p
  pub others : All (λ c. c.0 ≢ user_id) p
  pub known : All (λ c. (i : ℕ) × (get_elem? user_ids i ≡ some c.0)) p

module _ (intn : ℕ → ℕ → ℕ) (patience : ℕ) (user_ids : List ℤ)
    (random : IsRandom intn (length user_ids) patience) (user_id : ℤ) (count : ℕ) where
  abbrev candidate : ℕ → ℤ
  candidate k = get_or user_ids (intn k (length user_ids)) (pos 0)

  abbrev next : ℕ → Picked → Picked
  next k p = ite (ℤ_discrete (candidate k) user_id) p (insert ℤ_discrete (candidate k) tt p)

  next-AreFriends :
      (k : ℕ) (p : Picked)
      → 0 < length user_ids
      → AreFriends user_ids user_id p
      → AreFriends user_ids user_id (next k p)
  next-AreFriends k p some_user are = elim (ℤ_discrete (candidate k) user_id) [
    | yes e ↦ rw (if_pos _ e) are
    | no e ↦ rw (if_neg _ e) (record {
      once = insert-Unique ℤ_discrete (candidate k) tt p are.once;
      others = All-insert ℤ_discrete (λ c. c.0 ≢ user_id) (candidate k) tt p e are.others;
      known =
          All-insert ℤ_discrete (λ c. (i : ℕ) × (get_elem? user_ids i ≡ some c.0)) (candidate k) tt
            p
            (
              intn k (length user_ids),
              get_or_place user_ids _ (pos 0) (random.bounded k (length user_ids) some_user),
            )
            are.known;
    })
  ]

  -- A round adds one friend or none.
  next_cases : (k : ℕ) (p : Picked) → (next k p ≡ p) ⊎ (length (next k p) ≡ suc (length p))
  next_cases k p = elim (ℤ_discrete (candidate k) user_id) [
    | yes e ↦
        inl (if_pos (ℤ_discrete (candidate k) user_id) e p (insert ℤ_discrete (candidate k) tt p))
    | no e ↦ elim (Option-cases (lookup ℤ_discrete (candidate k) p)) [
      | inl fresh ↦ inr (
          ap length (if_neg (ℤ_discrete (candidate k) user_id) e _ _)
          ∙ length-insert_new ℤ_discrete (candidate k) tt p fresh)
      | inr found ↦
          inl
            (if_neg (ℤ_discrete (candidate k) user_id) e _ _ ∙ insert-known (candidate k) p found.1)
    ]
  ]

  -- If it draws somebody fresh, it adds one.
  next-fresh :
      (k : ℕ) (p : Picked)
      → candidate k ≢ user_id
      → lookup ℤ_discrete (candidate k) p ≡ none
      → length (next k p) ≡ suc (length p)
  next-fresh k p other fresh =
      ap length (if_neg (ℤ_discrete (candidate k) user_id) other _ _)
      ∙ length-insert_new ℤ_discrete (candidate k) tt p fresh

  round :
      (fuel k : ℕ) (p : Picked)
      → length p < count
      → pick intn (suc fuel) user_ids user_id count p k
        ≡ pick intn fuel user_ids user_id count (next k p) (suc k)
  unfolding pick
  round fuel k p few =
      let short : ltb (length p) count ≡ true = ground arith in
      ap (λ b. if b then pick intn fuel user_ids user_id count (next k p) (suc k) else (some p, k))
        short

  stop :
      (fuel k : ℕ) (p : Picked)
      → length p ≡ count
      → pick intn fuel user_ids user_id count p k ≡ (some p, k)
  unfolding pick
  stop zero k p full =
      let enough : ltb (length p) count ≡ false = ground arith in
      ap (λ b. (if b then none else some p, k)) enough
  stop (suc fuel) k p full =
      let enough : ltb (length p) count ≡ false = ground arith in
      ap (λ b. if b then pick intn fuel user_ids user_id count (next k p) (suc k) else (some p, k))
        enough

  -- From here the loop comes to a state with one friend more, within so many rounds.
  abbrev Gains : ℕ → ℕ → Picked → ℕ → Type 0
  Gains fuel k p rounds =
      (fuel' : ℕ) × (q : Picked) × (k' : ℕ) × (pick intn fuel user_ids user_id count p k
        ≡ pick intn fuel' user_ids user_id count q k')
      × (length q ≡ suc (length p))
      × AreFriends user_ids user_id q
      × (fuel ≤ fuel' + rounds)

  gains :
      (j fuel k : ℕ) (p : Picked) (x : ℤ)
      → length p < count
      → 0 < length user_ids
      → AreFriends user_ids user_id p
      → candidate (k + j) ≡ x
      → x ≢ user_id
      → lookup ℤ_discrete x p ≡ none
      → j < fuel
      → Gains fuel k p (suc j)
  gains j zero k p x few some_user are drawn other fresh enough = absurd (omega arith)
  gains zero (suc fuel) k p x few some_user are drawn other fresh enough =
      let here : candidate k ≡ x = ap candidate {y = k + 0} (omega arith) ∙ drawn in
      (
        fuel,
        next k p,
        suc k,
        round fuel k p few,
        next-fresh k p (λ e. other (sym here ∙ e)) (ap (λ z. lookup ℤ_discrete z p) here ∙ fresh),
        next-AreFriends k p some_user are,
        omega arith,
      )
  gains (suc j) (suc fuel) k p x few some_user are drawn other fresh enough =
      elim (next_cases k p) [
        | inr grew ↦ (
          fuel,
          next k p,
          suc k,
          round fuel k p few,
          grew,
          next-AreFriends k p some_user are,
          omega arith,
        )
        | inl same ↦
            let (fuel', q, k', goes, more, friends, within) =
              gains j fuel (suc k) p x few some_user are
                (ap candidate {y = k + suc j} (omega arith) ∙ drawn) other fresh (omega arith) in
            (
              fuel',
              q,
              k',
              round fuel k p few
                  ∙ ap (λ r. pick intn fuel user_ids user_id count r (suc k)) same
                  ∙ goes,
              more,
              friends,
              omega (arith, within),
            )
      ]

  -- The loop ends with as many friends as are wanted.
  abbrev pub Befriends : ℕ → ℕ → Picked → Type 0
  Befriends fuel k p =
      (q : Picked) × (k' : ℕ) × (pick intn fuel user_ids user_id count p k ≡ (some q, k'))
      × (length q ≡ count)
      × AreFriends user_ids user_id q

  finishes :
      (n fuel k : ℕ) (p : Picked)
      → length p + n ≡ count
      → n * patience ≤ fuel
      → count < length user_ids
      → AreDistinct user_ids
      → AreFriends user_ids user_id p
      → Befriends fuel k p
  finishes zero fuel k p full enough users distinct are =
      (p, k, stop fuel k p (omega arith), omega arith, are)
  finishes (suc n) fuel k p full enough users distinct are =
      elim (new_or_few user_ids ((user_id, tt) ∷ p) distinct) [
        | inr few ↦ absurd (omega arith)
        | inl fresh ↦
            let (i, x, at, absent) = fresh in
            let (other, new) = not_user x user_id p absent in
            let (j, soon, drawn) = random.fair k i (get_elem?_bound user_ids i at) in
            let (fuel', q, k', goes, more, friends, within) =
              gains j fuel k p x (omega arith) (omega arith) are
                (ap (λ a. get_or user_ids a (pos 0)) drawn ∙ get_or-found user_ids i (pos 0) x at)
                other new (omega (arith, suc-mul n patience)) in
            let (r, k'', rest, long, good) =
              finishes n fuel' k' q (omega (arith, more))
                (omega (arith, suc-mul n patience, within)) users distinct friends in
            (r, k'', goes ∙ rest, long, good)
      ]

  -- The loop that picks friends ends, if there are more users than friends wanted, no user is listed twice,
  -- and each user comes up within any `patience` draws: after at most `count * patience` draws it has
  -- exactly `count` friends, all of them users, none of them twice and none of them the user.
  pub pick-Befriends :
      (fuel k : ℕ)
      → count * patience ≤ fuel
      → count < length user_ids
      → AreDistinct user_ids
      → Befriends fuel k []
  pick-Befriends fuel k enough users distinct =
      finishes count fuel k [] (omega arith) enough users distinct
        (record { once = tt; others = tt; known = tt })
