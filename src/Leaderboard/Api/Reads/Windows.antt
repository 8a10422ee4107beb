-- ===== src/Leaderboard/Api/Reads/Windows.antt =====
-- leaderboard-poc/cmd/api/handlers.go: the ranks that /leaderboard/around writes beside the entries
-- of a sorted set.
use mathlib.Core.Option.{some-injective}
use classic_cheese.Prelude.{
  ℕ, zero, suc, ◌+◌, ◌-◌, ◌<◌, ◌≡◌, ◌≢◌, refl, sym, ◌∙◌, ap, String, List, [], ◌∷◌, Option, none,
  some, arith,
}
use classic_cheese.Prelude.Lists.{length, take, drop, get_elem?, get_elem?_bound}
use classic_cheese.Prelude.Int.{ℤ, pos, ◌+ℤ◌, ◌-ℤ◌, wrap64, two_63}
use classic_cheese.Prelude.Decimal.{itoa, atoi}
use classic_cheese.Http.{Reply}
use classic_cheese.Leaderboard.Score.{Float64}
use classic_cheese.Leaderboard.Sorting.{Sort}
use classic_cheese.Leaderboard.Redis.{
  Redis, Error, Result, value, error, Z, rank, rank_of, ranked_with, around, around_of,
  around_start,
}
use classic_cheese.Leaderboard.Mysql.{Database}
use classic_cheese.Leaderboard.Api.{
  RankedEntry, Payload, z_to_entries, entries_from, entry_of, add_entry,
}
use classic_cheese.Leaderboard.Api.Friends.Cuts.{IsPart, take-drop-IsPart}
use classic_cheese.Leaderboard.Api.Reads.{
  Query, sorted_set, around_scope, around_set, reply_window, reply_entries, start_rank,
}

module _ {A : Type 0} where
  get_elem?-take :
      (n : ℕ) (xs : List A) (j : ℕ) {x : A}
      → get_elem? (take n xs) j ≡ some x
      → get_elem? xs j ≡ some x
  get_elem?-take zero xs j h = absurd (ground arith)
  get_elem?-take (suc n) [] j h = h
  get_elem?-take (suc n) (y ∷ xs) zero h = h
  get_elem?-take (suc n) (y ∷ xs) (suc j) h = get_elem?-take n xs j h

  get_elem?-drop :
      (n : ℕ) (xs : List A) (j : ℕ) {x : A}
      → get_elem? (drop n xs) j ≡ some x
      → get_elem? xs (n + j) ≡ some x
  get_elem?-drop zero xs j h = ap (get_elem? xs) {y = j} (omega arith) ∙ h
  get_elem?-drop (suc n) [] j h = h
  get_elem?-drop (suc n) (y ∷ xs) j h =
      ap (get_elem? (y ∷ xs)) {y = suc (n + j)} (omega arith) ∙ get_elem?-drop n xs j h

error-ne-value : {A : Type 0} (e : Error) (a : A) → ◌≢◌ {A = Result A} (error e) (value a)
error-ne-value e a p = ground arith

module _ {F : Type 0} (atoi_error : String → Error) where
  -- The entry says of the sorted set's member what is true of it, and this is its rank.
  abbrev pub Describes : RankedEntry F → ℤ → Z F → Type 0
  Describes e rank z = (e.rank ≡ rank) × (atoi z.member ≡ some e.user_id) × (e.score ≡ z.score)

  values_of : Result (List (RankedEntry F)) → List (RankedEntry F)
  values_of (value es) = es
  values_of (error e) = []

  entry_of-value :
      (rank : ℤ) (z : Z F) (named : Option ℤ) (rest : Result (List (RankedEntry F)))
      (es : List (RankedEntry F))
      → entry_of atoi_error rank z named rest ≡ value es
      → (u : ℤ) × (tail : List (RankedEntry F)) × (named ≡ some u)
        × (rest ≡ value tail)
        × (es ≡ record { rank = rank; user_id = u; score = z.score } ∷ tail)
  unfolding entry_of add_entry values_of
  entry_of-value rank z none rest es h = absurd (error-ne-value _ es h)
  entry_of-value rank z (some u) (error e) es h = absurd (error-ne-value e es h)
  entry_of-value rank z (some u) (value tail) es h = (u, tail, refl, refl, sym (ap values_of h))

  in_entry :
      (start : ℤ) (i : ℕ) (z : Z F) (zs : List (Z F)) (u : ℤ) (tail : List (RankedEntry F))
      → atoi z.member ≡ some u
      → ((m : ℕ) (d : RankedEntry F)
          → get_elem? tail m ≡ some d
          → (y : Z F) × (get_elem? zs m ≡ some y)
            × Describes d (wrap64 (start +ℤ pos (suc i + m))) y)
      → (j : ℕ) (e : RankedEntry F)
      → get_elem? (record { rank = wrap64 (start +ℤ pos i); user_id = u; score = z.score } ∷ tail) j
        ≡ some e
      → (y : Z F) × (get_elem? (z ∷ zs) j ≡ some y) × Describes e (wrap64 (start +ℤ pos (i + j))) y
  in_entry start i z zs u tail named deeper zero e k =
      let same = some-injective _ _ k in
      (
        z,
        refl,
        (
          sym (ap (λ c. c.rank) same) ∙ ap (λ n. wrap64 (start +ℤ pos n)) (omega arith),
          named ∙ ap (λ c. some c.user_id) same,
          sym (ap (λ c. c.score) same),
        ),
      )
  in_entry start i z zs u tail named deeper (suc j) e k =
      let (y, at, (ranked_as, of, scored)) = deeper j e k in
      (y, at, (ranked_as ∙ ap (λ n. wrap64 (start +ℤ pos n)) (omega arith), of, scored))

  entries_from_lem :
      (start : ℤ) (i : ℕ) (zs : List (Z F)) (es : List (RankedEntry F))
      → entries_from atoi_error start i zs ≡ value es
      → (j : ℕ) (e : RankedEntry F) → get_elem? es j ≡ some e
      → (z : Z F) × (get_elem? zs j ≡ some z) × Describes e (wrap64 (start +ℤ pos (i + j))) z
  unfolding entries_from values_of
  entries_from_lem start i [] es h j e k =
      absurd (ground (arith, ap (λ xs. get_elem? xs j) (ap values_of h) ∙ k))
  entries_from_lem start i (z ∷ zs) es h j e k =
      let (u, tail, named, rest, made) = entry_of-value _ z (atoi z.member) _ es h in
      in_entry start i z zs u tail named
        (λ m d at. entries_from_lem start (suc i) zs tail rest m d at) j e
        (ap (λ xs. get_elem? xs j) (sym made) ∙ k)

start_rank_lem :
    (i count : ℕ)
    → suc i < two_63
    → count < two_63
    → start_rank (pos (suc i)) (pos count) ≡ pos (suc (i - count))
unfolding start_rank wrap64 ◌-ℤ◌
start_rank_lem i count h k = ground arith

shifted : (a j : ℕ) → a + j + 1 < two_63 → wrap64 (pos (suc a) +ℤ pos (0 + j)) ≡ pos (suc (a + j))
unfolding wrap64 ◌+ℤ◌
shifted a j h = ground arith

next : (i : ℕ) → suc i < two_63 → wrap64 (pos i +ℤ pos 1) ≡ pos (suc i)
unfolding wrap64 ◌+ℤ◌
next i h = ground arith

far_end : (i count : ℕ) → i + count < two_63 → wrap64 (pos i +ℤ pos count) ≡ pos (i + count)
unfolding wrap64 ◌+ℤ◌
far_end i count h = ground arith

around_start_lem :
    (i count : ℕ) → i < two_63 → count < two_63 → around_start (pos i) (pos count) ≡ pos (i - count)
unfolding around_start wrap64 ◌-ℤ◌
around_start_lem i count h k = ground arith

module _ {S F : Type 0} (redis : Redis S F) where
  -- What Redis answers of a sorted set, highest score first, that nobody writes to meanwhile: the
  -- place and the score of a member, and the members from one place to another, both included.
  pub record Answers (key member : String) (members : List (Z F)) (place : ℕ) (score : F) (s : S)
      : Type 0 where
    pub place_of : redis.zrevrank key member s ≡ (value (pos place), s)
    pub score_of : redis.zscore key member s ≡ (value score, s)
    pub range_of :
        (a b : ℕ)
        → redis.zrevrange_with_scores key (pos a) (pos b) s
          ≡ (value (take (suc b - a) (drop a members)), s)

  module _ {key member : String} {members : List (Z F)} {place : ℕ} {score : F} {s : S}
      (answers : Answers key member members place score s) where
    rank_lem :
        suc place < two_63 → rank redis key member s ≡ (value (some (pos (suc place), score)), s)
    unfolding rank rank_of ranked_with
    rank_lem h = rw (answers.place_of, answers.score_of, next place h) refl

    around_lem :
        (count : ℕ)
        → place + count < two_63
        → around redis key member (pos count) s
          ≡ (value (take (suc (place + count) - (place - count)) (drop (place - count) members)), s)
    unfolding around around_of
    around_lem count h =
        ap (around_of redis key (pos count)) answers.place_of
        ∙ rw
            (
              around_of,
              around_start_lem place count (omega arith) (omega arith),
              far_end place count h,
            )
            (answers.range_of (place - count) (place + count))

  module _ (db : Database S) (float : Float64 F) (parse_float : String → F)
      (sort : Sort (RankedEntry F)) (atoi_error : String → Error) where
    -- Each entry describes a member of the set, and its rank is the member's place from 1.
    abbrev pub TrueRanks : List (Z F) → List (RankedEntry F) → Type 0
    TrueRanks members es =
        (j : ℕ) (e : RankedEntry F)
        → get_elem? es j ≡ some e
        → (k : ℕ) × (z : Z F) × (get_elem? members k ≡ some z)
          × Describes atoi_error e (pos (suc k)) z

    -- The reply lists the members at most `count` places away, with their true ranks.
    abbrev pub RepliesAround : List (Z F) → ℕ → ℕ → Option (Reply (Payload F)) × S → S → Type 0
    RepliesAround members place count out s =
        (shown : List (Z F)) × IsPart members (place - count) (place + count + 1) shown
        × (out
            ≡ (some (reply_entries (z_to_entries atoi_error shown (pos (suc (place - count))))), s))
        × ((es : List (RankedEntry F))
            → z_to_entries atoi_error shown (pos (suc (place - count))) ≡ value es
            → TrueRanks members es)

    window-TrueRanks :
        (members : List (Z F)) (a n : ℕ) (es : List (RankedEntry F))
        → length members + 1 < two_63
        → z_to_entries atoi_error (take n (drop a members)) (pos (suc a)) ≡ value es
        → TrueRanks members es
    unfolding z_to_entries
    window-TrueRanks members a n es small made j e at =
        let (z, found, (ranked_as, of, scored)) =
          entries_from_lem atoi_error (pos (suc a)) 0 (take n (drop a members)) es made j e at in
        let there = get_elem?-drop a members j (get_elem?-take n (drop a members) j found) in
        (
          a + j,
          z,
          there,
          (
            ranked_as ∙ shifted a j (omega (arith, get_elem?_bound members (a + j) there)),
            of,
            scored,
          ),
        )

    -- While nobody writes to the sorted set, /leaderboard/around in a sorted set replies with
    -- exactly the members at most `count` places away from the user, and, if these are numbers,
    -- each with its true rank; it changes nothing. (For a set and a reach below 2 ^ 63.)
    pub around_scope-true :
        (q : Query) (key : String) (user_id : ℤ) (members : List (Z F)) (place count : ℕ) (x : F)
        (s : S)
        → Answers key (itoa user_id) members place x s
        → place < length members
        → length members + count + 1 < two_63
        → RepliesAround members place count
            (around_scope redis db float parse_float sort atoi_error q user_id
              (pos count)
              (sorted_set key)
              s)
            s
    unfolding around_scope around_set reply_window
    around_scope-true q key user_id members place count x s answers inside small = (
      take (suc (place + count) - (place - count)) (drop (place - count) members),
      take-drop-IsPart members (place - count) (suc (place + count)) (place + count + 1)
          (omega arith) (omega arith) (omega arith),
      rw
          (
            around_lem answers count (omega arith),
            rank_lem answers (omega arith),
            start_rank_lem place count (omega arith) (omega arith),
          )
          refl,
      λ es made.
          window-TrueRanks members (place - count) (suc (place + count) - (place - count)) es
            (omega arith) made,
    )
