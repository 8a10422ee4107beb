-- ===== src/Leaderboard/Api/Friends/Found.antt =====
-- leaderboard-poc/cmd/api/handlers.go: the friends scope finds the user in the own leaderboard.
use mathlib.Core.List.{Permᴰ}
use mathlib.Core.List.Permᴰ
use classic_cheese.Prelude.{
  ℕ, suc, ◌≡◌, ◌≢◌, refl, sym, ap, ◌∙◌, String, List, [], ◌∷◌, Option, some, ◌⊎◌, inl, inr, map,
}
use classic_cheese.Prelude.Lists.{get_elem?}
use classic_cheese.Prelude.Int.{ℤ, pos, ℤ_discrete}
use classic_cheese.Leaderboard.Score.{Float64}
use classic_cheese.Leaderboard.Api.{RankedEntry}
use classic_cheese.Leaderboard.Api.Friends.{entry_for}
use classic_cheese.Leaderboard.Api.Friends.Board.{IsBoard, pairs, pair_of}
use classic_cheese.Leaderboard.Api.Friends.Cuts.{IsFirst, eqb_ℤ-same, eqb_ℤ-other}

module _ {F : Type 0} where
  abbrev Present : ℤ → List (ℤ × F) → Type 0
  Present u [] = ⊥
  Present u (p ∷ ps) = (p.0 ≡ u) ⊎ Present u ps

  Present-perm : (u : ℤ) {ps qs : List (ℤ × F)} → Permᴰ ps qs → Present u ps → Present u qs
  Present-perm u Permᴰ.nil h = h
  Present-perm u (Permᴰ.cons e p) (inl q) = inl (sym (ap (λ c. c.0) e) ∙ q)
  Present-perm u (Permᴰ.cons e p) (inr h) = inr (Present-perm u p h)
  Present-perm u (Permᴰ.swap e e') (inl q) = inr (inl (sym (ap (λ c. c.0) e) ∙ q))
  Present-perm u (Permᴰ.swap e e') (inr (inl q)) = inl (sym (ap (λ c. c.0) e') ∙ q)
  Present-perm u (Permᴰ.swap e e') (inr (inr h)) = inr (inr h)
  Present-perm u (Permᴰ.trans p q) h = Present-perm u q (Present-perm u p h)

  -- The user has an entry; this is the first and the one that is looked up.
  abbrev pub IsFound : ℤ → List (RankedEntry F) → ℕ → RankedEntry F → Type 0
  IsFound u es n e = IsFirst u es n × (get_elem? es n ≡ some e) × (entry_for u es ≡ some e)

  found :
      (u : ℤ) (es : List (RankedEntry F))
      → Present u (map pair_of es)
      → (n : ℕ) × (e : RankedEntry F) × IsFound u es n e
  unfolding entry_for
  found u [] h = absurd h
  found u (e ∷ es) h = elim (ℤ_discrete e.user_id u) [
    | yes p ↦ (0, e, (p, refl, rw (eqb_ℤ-same e.user_id u p) refl))
    | no p ↦
        let (n, found_entry, (first, at, looked_up)) = found u es (later p h) in
        (suc n, found_entry, ((p, first), at, rw (eqb_ℤ-other e.user_id u p) looked_up))
  ]
    where
      later : e.user_id ≢ u → Present u (map pair_of (e ∷ es)) → Present u (map pair_of es)
      later p (inl q) = absurd (p q)
      later p (inr q) = q

  -- On a leaderboard of the user and the friends the friends scope of /leaderboard/rank finds an
  -- entry of the user, the first one, and its rank is the place that it has in the list.
  pub user-IsFound :
      (float : Float64 F) (parse_float : String → F) (user_id : ℤ) (friends : List ℤ)
      (v : Option String) (raw : List (Option String)) (es : List (RankedEntry F))
      → IsBoard float parse_float (pairs float parse_float (user_id ∷ friends) (v ∷ raw)) es
      → (n : ℕ) × (e : RankedEntry F) × IsFound user_id es n e × (e.rank ≡ pos (suc n))
  user-IsFound float parse_float user_id friends v raw es b =
      let (n, e, (first, at, looked_up)) =
        found user_id es (Present-perm user_id (Permᴰ.symm b.same_users) (inl refl)) in
      (n, e, (first, at, looked_up), b.ranks n e at)
