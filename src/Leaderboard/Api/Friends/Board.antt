-- ===== src/Leaderboard/Api/Friends/Board.antt =====
-- leaderboard-poc/cmd/api/handlers.go, `friendsLeaderboard`: the list is a leaderboard of the user and
-- the friends by their mirrored scores.
use mathlib.Core.List.{Permᴰ}
use mathlib.Core.Option.{some-injective}
use classic_cheese.Prelude.{
  ℕ, zero, suc, ◌+◌, ◌≡◌, refl, sym, ◌∙◌, ap, subst, String, false, List, [], ◌∷◌, Option, some,
  arith, map,
}
use classic_cheese.Prelude.Lists.{length, get_elem?, All}
use classic_cheese.Prelude.Int.{ℤ, pos}
use classic_cheese.Leaderboard.Score.{Float64, IsScoreOrder}
use classic_cheese.Leaderboard.Sorting.{Sort, IsSort, IsWeakOrder, IsSorted}
use classic_cheese.Leaderboard.Redis.{Redis, value, mget_user_scores}
use classic_cheese.Leaderboard.Mysql.{Database, friend_ids}
use classic_cheese.Leaderboard.Api.{RankedEntry}
use classic_cheese.Leaderboard.Api.Friends.{
  returned, score_of, add_scored, scored, above, number, board, with_scores, with_friends,
  friends_leaderboard,
}

abbrev pub pair_of : {F : Type 0} → RankedEntry F → ℤ × F
pair_of e = (e.user_id, e.score)

module _ {F : Type 0} (float : Float64 F) (parse_float : String → F) where
  -- The users with their scores, pair by pair.
  abbrev pub pairs : List ℤ → List (Option String) → List (ℤ × F)
  pairs [] raw = []
  pairs (id ∷ ids) [] = []
  pairs (id ∷ ids) (v ∷ raw) = (id, score_of float parse_float v) ∷ pairs ids raw

  -- A leaderboard of these pairs: all of them and no others, the scores falling, the ranks counting
  -- up from 1.
  pub record IsBoard (of : List (ℤ × F)) (es : List (RankedEntry F)) : Type 0 where
    pub same_users : Permᴰ (map pair_of es) of
    pub sorted : IsSorted (above float) es
    pub ranks : (i : ℕ) (e : RankedEntry F) → get_elem? es i ≡ some e → e.rank ≡ pos (suc i)

  scored_lem :
      (ids : List ℤ) (raw : List (Option String))
      → length raw ≡ length ids
      → (es : List (RankedEntry F)) × (scored float parse_float ids raw ≡ some es)
        × (map pair_of es ≡ pairs ids raw)
  unfolding scored
  scored_lem [] [] h = ([], refl, refl)
  scored_lem [] (v ∷ raw) h = absurd (omega arith)
  scored_lem (id ∷ ids) [] h = absurd (omega arith)
  scored_lem (id ∷ ids) (v ∷ raw) h =
      let (es, e, p) = scored_lem ids raw (omega arith) in
      (
        record { rank = pos 0; user_id = id; score = score_of float parse_float v } ∷ es,
        ap (add_scored float parse_float _) e,
        ap (◌∷◌ (id, score_of float parse_float v)) p,
      )

  number-pairs : (i : ℕ) (es : List (RankedEntry F)) → map pair_of (number i es) ≡ map pair_of es
  unfolding number
  number-pairs i [] = refl
  number-pairs i (e ∷ es) = ap (◌∷◌ (pair_of e)) (number-pairs (suc i) es)

  number-ranks :
      (i j : ℕ) (es : List (RankedEntry F)) (e : RankedEntry F)
      → get_elem? (number i es) j ≡ some e
      → e.rank ≡ pos (suc (i + j))
  unfolding number
  number-ranks i j [] e h = absurd (ground arith)
  number-ranks i zero (x ∷ es) e h =
      sym (ap (λ c. c.rank) (some-injective _ _ h)) ∙ ap (λ k. pos (suc k)) (omega arith)
  number-ranks i (suc j) (x ∷ es) e h =
      number-ranks (suc i) j es e h ∙ ap (λ k. pos (suc k)) (omega arith)

  number-All :
      (x : RankedEntry F) (r : ℤ) (i : ℕ) (es : List (RankedEntry F))
      → All (λ y. above float y x ≡ false) es
      → All (λ y. above float y (record x { rank = r }) ≡ false) (number i es)
  unfolding number
  number-All x r i [] h = tt
  number-All x r i (e ∷ es) h = (h.0, number-All x r (suc i) es h.1)

  number-IsSorted :
      (i : ℕ) (es : List (RankedEntry F))
      → IsSorted (above float) es
      → IsSorted (above float) (number i es)
  unfolding number
  number-IsSorted i [] h = tt
  number-IsSorted i (e ∷ es) h =
      (number-All e (pos (suc i)) (suc i) es h.0, number-IsSorted (suc i) es h.1)

  above-IsWeakOrder : IsScoreOrder float → IsWeakOrder (above float)
  above-IsWeakOrder o = record {
    irrefl = λ a. o.irrefl a.score;
    trans = λ a b c. o.trans a.score b.score c.score;
    connected = λ a b c. o.connected a.score b.score c.score;
  }

  Permᴰ-map : {xs ys : List (RankedEntry F)} → Permᴰ xs ys → Permᴰ (map pair_of xs) (map pair_of ys)
  Permᴰ-map Permᴰ.nil = Permᴰ.nil
  Permᴰ-map (Permᴰ.cons e p) = Permᴰ.cons (ap pair_of e) (Permᴰ-map p)
  Permᴰ-map (Permᴰ.swap e e') = Permᴰ.swap (ap pair_of e) (ap pair_of e')
  Permᴰ-map (Permᴰ.trans p q) = Permᴰ.trans (Permᴰ-map p) (Permᴰ-map q)

  module _ (o : IsScoreOrder float) (sort : Sort (RankedEntry F)) (laws : IsSort sort) where
    number-sort-IsBoard :
        (of : List (ℤ × F)) (es : List (RankedEntry F))
        → map pair_of es ≡ of
        → IsBoard of (number 0 (sort (above float) es))
    number-sort-IsBoard of es e = record {
      same_users =
          subst (λ ps. Permᴰ ps of) (sym (number-pairs 0 (sort (above float) es)))
            (subst (Permᴰ (map pair_of (sort (above float) es))) e
              (Permᴰ-map (laws.perm (above float) es)));
      sorted =
          number-IsSorted 0 (sort (above float) es)
            (laws.sorted (above float) (above-IsWeakOrder o) es);
      ranks = λ i e h.
          number-ranks 0 i (sort (above float) es) e h ∙ ap (λ k. pos (suc k)) (omega arith);
    }

    -- The friends leaderboard is one of the user and the user's friends by their mirrored scores, 0
    -- where there is none. (If the database lists the friends and Redis answers a score or nothing
    -- for each key.)
    pub friends_leaderboard-IsBoard :
        {S : Type 0} (redis : Redis S F) (db : Database S) (user_id : ℤ) (pt pk : String)
        (s s' s'' : S) (friends : List ℤ) (raw : List (Option String))
        → friend_ids db user_id s ≡ (value friends, s')
        → mget_user_scores redis (user_id ∷ friends) pt pk s' ≡ (value raw, s'')
        → length raw ≡ length (user_id ∷ friends)
        → (es : List (RankedEntry F)) × (friends_leaderboard redis db float parse_float sort user_id
              pt pk s
            ≡ (returned es, s''))
          × IsBoard (pairs (user_id ∷ friends) raw) es
    unfolding friends_leaderboard with_friends with_scores board
    friends_leaderboard-IsBoard redis db user_id pt pk s s' s'' friends raw e e' h =
        let (es, made, of) = scored_lem (user_id ∷ friends) raw h in
        (
          number 0 (sort (above float) es),
          rw (e, e', made) refl,
          number-sort-IsBoard (pairs (user_id ∷ friends) raw) es of,
        )
