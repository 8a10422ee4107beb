-- ===== src/Leaderboard/Seed.antt =====
-- leaderboard-poc/cmd/seed/main.go: createUsers, createFriendGraph and postScoreEvents. `intn k n` is
-- the k-th call of rand.Intn in the run, with the bound `n`. An outcome is `none` if the function
-- panics or, for a loop on fuel, if the fuel is used up.
pub mod Fresh
pub mod Picks
pub mod Table
pub mod Linked
pub mod Examples
use classic_cheese.Prelude.{
  ℕ, zero, suc, ◌+◌, ◌-◌, ◌%◌, String, List, [], ◌∷◌, ◌++◌, Option, none, some, map, ltb, ite,
  if◌then◌else◌, ◌==◌,
}
use classic_cheese.Prelude.Lists.{length, get_or}
use classic_cheese.Prelude.Int.{ℤ, pos, negsuc, ℤ_discrete}
use classic_cheese.Prelude.Dict.{lookup, insert}
use classic_cheese.Prelude.Text.{concat}
use classic_cheese.Prelude.Decimal.{itoa, pad}
use classic_cheese.Http.{status_ok}
use classic_cheese.Leaderboard.Redis.{Error, failed, Result, value, error}
use classic_cheese.Leaderboard.Mysql.{wrap}

abbrev pub regions : List String
regions = "us-east" ∷ "eu-west" ∷ "apac" ∷ []

-- What the command asks of MySQL and of cmd/api.
pub record Services (S : Type 0) : Type 0 where
  -- INSERT INTO users (name, region) VALUES (?, ?), and LastInsertId of its result
  pub insert_user : String → String → S → Result (Result ℤ) × S
  pub begin_tx : S → Result ℕ × S
  -- INSERT IGNORE INTO friends (user_id, friend_id) VALUES (?, ?), in a transaction
  pub prepare_insert : ℕ → S → Result ℕ × S
  pub insert_friend : ℕ → ℤ → ℤ → S → Result (Unit {0}) × S
  pub close : ℕ → S → S
  pub commit : ℕ → S → Result (Unit {0}) × S
  pub rollback : ℕ → S → S
  -- POST /score/update with user_id, region and score_delta, for its status
  pub post : ℤ → String → ℤ → S → Result ℕ × S

-- The map from users to their regions.
abbrev pub RegionOf : Type 0
RegionOf = List (ℤ × String)

abbrev pub Users : Type 0
Users = List ℤ × RegionOf

unfoldable pub player : ℕ → String
unfolding concat pad
player i = concat ("player-" ∷ pad 3 (i + 1) ∷ [])

unfoldable pub region_at : ℕ → String
region_at i = get_or regions (i % 3) ""

module _ {S : Type 0} (services : Services S) where
  -- The users from the i-th on, `n` of them; those made so far are `ids`.
  unfoldable pub users_from : ℕ → ℕ → List ℤ → RegionOf → S → Result Users × S
  unfolding wrap concat player region_at
  users_from i zero ids region_of s = (value (ids, region_of), s)
  users_from i (suc n) ids region_of s =
      let (inserted, t) = services.insert_user (player i) (region_at i) s in
      elim inserted [
        | value last_id ↦ elim last_id [
          | value id ↦
              users_from (suc i) n (ids ++ id ∷ []) (insert ℤ_discrete id (region_at i) region_of) t
          | error e ↦ (error e, t)
        ]
        | error e ↦ (error (wrap (concat ("inserting user " ∷ player i ∷ [])) e), t)
      ]

  -- A negative number is no capacity for a slice.
  unfoldable pub create_users : ℤ → S → Option (Result Users) × S
  unfolding users_from
  create_users (negsuc n) s = (none, s)
  create_users (pos n) s = let (users, t) = users_from 0 n [] [] s in (some users, t)

-- A missing key reads as no text.
abbrev pub or_no_region : Option String → String
or_no_region none = ""
or_no_region (some region) = region

-- The set of friends that are picked so far.
abbrev pub Picked : Type 0
Picked = List (ℤ × Unit {0})

module _ (intn : ℕ → ℕ → ℕ) where
  -- The loop until there are `count`, from the k-th draw on, with the number of the next draw.
  unfoldable pub pick : ℕ → List ℤ → ℤ → ℕ → Picked → ℕ → Option Picked × ℕ
  pick zero user_ids user_id count picked k =
      (if ltb (length picked) count then none else some picked, k)
  pick (suc fuel) user_ids user_id count picked k =
      let candidate = get_or user_ids (intn k (length user_ids)) (pos 0) in
      let next =
        ite (ℤ_discrete candidate user_id) picked (insert ℤ_discrete candidate tt picked) in
      let rest = pick fuel user_ids user_id count next (suc k) in
      if ltb (length picked) count then rest else (some picked, k)

  -- How many friends a user gets, by the k-th draw.
  unfoldable pub friend_count : ℕ → ℕ → ℕ
  friend_count users k =
      let count = 5 + intn k 11 in if ltb (users - 1) count then users - 1 else count

  module _ {S : Type 0} (services : Services S) (visit : List ℤ → List ℤ) where
    unfoldable pub link : ℕ → ℤ → List ℤ → S → Result (Unit {0}) × S
    unfolding wrap concat itoa
    link stmt user_id [] s = (value tt, s)
    link stmt user_id (friend_id ∷ friends) s =
        let (linked, t) = services.insert_friend stmt user_id friend_id s in
        elim linked [
          | value done ↦ link stmt user_id friends t
          | error e ↦ (
            error (wrap (concat ("linking " ∷ itoa user_id ∷ " -> " ∷ itoa friend_id ∷ [])) e),
            t,
          )
        ]

    -- The friends of the users that are left, with fuel for the picking of each.
    unfoldable pub link_all : ℕ → ℕ → List ℤ → List ℤ → ℕ → S → Option (Result (Unit {0})) × S
    unfolding pick friend_count link
    link_all fuel stmt user_ids [] k s = (some (value tt), s)
    link_all fuel stmt user_ids (user_id ∷ users) k s =
        let (picked, j) =
          pick fuel user_ids user_id (friend_count (length user_ids) k) [] (suc k) in
        elim picked [
          | none ↦ (none, s)
          | some friends ↦
              let (linked, t) = link stmt user_id (visit (map (λ c. c.0) friends)) s in
              elim linked [
                | value done ↦ link_all fuel stmt user_ids users j t
                | error e ↦ (some (error e), t)
              ]
        ]

    unfoldable pub finish : ℕ → ℕ → Option (Result (Unit {0})) × S → Option (Result (Unit {0})) × S
    finish tx stmt (none, s) = (none, s)
    finish tx stmt (some (value done), s) =
        let (committed, t) = services.commit tx s in
        (some committed, services.rollback tx (services.close stmt t))
    finish tx stmt (some (error e), s) =
        (some (error e), services.rollback tx (services.close stmt s))

    unfoldable pub prepared : ℕ → ℕ → List ℤ → ℕ → Result ℕ × S → Option (Result (Unit {0})) × S
    unfolding finish link_all
    prepared fuel tx user_ids k (value stmt, s) =
        finish tx stmt (link_all fuel stmt user_ids user_ids k s)
    prepared fuel tx user_ids k (error e, s) = (some (error e), services.rollback tx s)

    unfoldable pub begun : ℕ → List ℤ → ℕ → Result ℕ × S → Option (Result (Unit {0})) × S
    unfolding prepared
    begun fuel user_ids k (value tx, s) = prepared fuel tx user_ids k (services.prepare_insert tx s)
    begun fuel user_ids k (error e, s) = (some (error e), s)

    unfoldable pub create_friend_graph : ℕ → List ℤ → ℕ → S → Option (Result (Unit {0})) × S
    unfolding begun
    create_friend_graph fuel user_ids k s =
        if ltb (length user_ids) 2
        then (some (value tt), s)
        else begun fuel user_ids k (services.begin_tx s)

    unfoldable pub posted : ℕ → ℕ → Result ℕ → Result (Unit {0})
    unfolding wrap concat itoa
    posted i count (error e) = error (
        wrap (concat ("posting score event " ∷ itoa (pos (i + 1)) ∷ "/" ∷ itoa (pos count) ∷ [])) e)
    posted i count (value status) =
        if status == status_ok
        then value tt
        else error (
            failed (
              concat (
                "score event "
                ∷ itoa (pos (i + 1))
                ∷ "/"
                ∷ itoa (pos count)
                ∷ " got status "
                ∷ itoa (pos status)
                ∷ [])))

    -- The i-th post of `count` and those after it, `n` in number; each takes two draws. With no users
    -- rand.Intn panics.
    unfoldable pub posts_from :
        ℕ → ℕ → ℕ → List ℤ → RegionOf → ℕ → S → Option (Result (Unit {0})) × S
    unfolding posted lookup
    posts_from count i zero user_ids region_of k s = (some (value tt), s)
    posts_from count i (suc n) [] region_of k s = (none, s)
    posts_from count i (suc n) (u ∷ us) region_of k s =
        let user_ids = u ∷ us in
        let user_id = get_or user_ids (intn k (length user_ids)) (pos 0) in
        let (status, t) =
          services.post user_id (or_no_region (lookup ℤ_discrete user_id region_of))
            (pos (1 + intn (suc k) 100)) s in
        elim (posted i count status) [
          | value done ↦ posts_from count (suc i) n user_ids region_of (suc (suc k)) t
          | error e ↦ (some (error e), t)
        ]

    unfoldable pub post_score_events :
        List ℤ → RegionOf → ℤ → ℕ → S → Option (Result (Unit {0})) × S
    unfolding posts_from
    post_score_events user_ids region_of (pos count) k s =
        posts_from count 0 count user_ids region_of k s
    post_score_events user_ids region_of (negsuc count) k s = (some (value tt), s)
