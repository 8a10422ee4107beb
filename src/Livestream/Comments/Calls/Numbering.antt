-- ===== src/Livestream/Comments/Calls/Numbering.antt =====
-- Ids and counts are handed out without a gap and never twice, in every interleaving.
use classic_cheese.Prelude.{
  ℕ, zero, suc, ◌+◌, ◌<◌, ◌≡◌, ◌≢◌, refl, ap, ◌∙◌, sym, subst, String, List, [], ◌∷◌, ◌++◌, Option,
  none, some, arith, ite, if_pos, if_neg, ltb, if◌then◌else◌, String_discrete,
}
use classic_cheese.Prelude.Int.{ℤ, pos, negsuc, wrap64_next, ℤ_discrete, two_63}
use classic_cheese.Prelude.Lists.{get_elem?, set, total, total-append, total-set}
use classic_cheese.Livestream.Comments.Service.{Counters, value_at, add_one}
use classic_cheese.Livestream.Comments.Service.Counting.{
  add_one-value, value_at-add_one_self, value_at-add_one_ne,
}
use classic_cheese.Livestream.Comments.Calls.{
  Stage, checked, numbered, telling, told, counted, counting, returned, Call,
}

-- The id and the count that a call holds.
abbrev pub id_of : Stage → Option ℤ
id_of checked = none
id_of (numbered c) = some c.id
id_of (telling c ev ps) = some c.id
id_of (told c) = some c.id
id_of (counted c n) = some c.id
id_of (counting c n ev ps) = some c.id
id_of (returned c n) = some c.id

abbrev pub count_of : Stage → Option ℤ
count_of checked = none
count_of (numbered c) = none
count_of (telling c ev ps) = none
count_of (told c) = none
count_of (counted c n) = some n
count_of (counting c n ev ps) = some n
count_of (returned c n) = some n

abbrev pub one_if : Option ℤ → ℕ
one_if none = 0
one_if (some x) = 1

abbrev pub one_if_is : ℤ → Option ℤ → ℕ
one_if_is v none = 0
one_if_is v (some x) = ite (ℤ_discrete x v) 1 0

-- How often each number has been handed out after `n` of them: 1, 2, …, n once each.
abbrev pub expected : ℤ → ℕ → ℕ
expected (pos zero) n = 0
expected (pos (suc j)) n = if ltb j n then 1 else 0
expected (negsuc j) n = 0

module _ (key : Stage → Option ℤ) where
  -- How many calls in the room hold a number, and how many hold the number `v`.
  unfoldable pub any_weight : String → Call → ℕ
  any_weight r c = ite (String_discrete c.fields.room r) (one_if (key c.stage)) 0

  unfoldable pub weight : String → ℤ → Call → ℕ
  weight r v c = ite (String_discrete c.fields.room r) (one_if_is v (key c.stage)) 0

  abbrev pub holders : String → List Call → ℕ
  holders r = total (any_weight r)

  abbrev pub holders_of : String → ℤ → List Call → ℕ
  holders_of r v = total (weight r v)

  -- The counter of the room shows how many numbers are out, and each is out once.
  abbrev pub IsNumbered : Counters → List Call → Type 0
  IsNumbered m calls =
      (r : String)
      → holders r calls < two_63
      → (value_at r m ≡ pos (holders r calls))
        × ((v : ℤ) → holders_of r v calls ≡ expected v (holders r calls))

  any_weight-same :
      (r : String) (c : Call) (t : Stage)
      → key t ≡ key c.stage
      → any_weight r (record c { stage = t }) ≡ any_weight r c
  unfolding any_weight
  any_weight-same r c t e = rw e

  weight-same :
      (r : String) (v : ℤ) (c : Call) (t : Stage)
      → key t ≡ key c.stage
      → weight r v (record c { stage = t }) ≡ weight r v c
  unfolding weight
  weight-same r v c t e = rw e

  any_weight-elsewhere : (r : String) (c : Call) → c.fields.room ≢ r → any_weight r c ≡ 0
  unfolding any_weight
  any_weight-elsewhere r c h = rw (if_neg (String_discrete c.fields.room r) h)

  weight-elsewhere : (r : String) (v : ℤ) (c : Call) → c.fields.room ≢ r → weight r v c ≡ 0
  unfolding weight
  weight-elsewhere r v c h = rw (if_neg (String_discrete c.fields.room r) h)

  any_weight-here : (c : Call) → any_weight c.fields.room c ≡ one_if (key c.stage)
  unfolding any_weight
  any_weight-here c = rw (if_pos (String_discrete c.fields.room c.fields.room) refl)

  weight-here : (v : ℤ) (c : Call) → weight c.fields.room v c ≡ one_if_is v (key c.stage)
  unfolding weight
  weight-here v c = rw (if_pos (String_discrete c.fields.room c.fields.room) refl)

  same_holders-IsNumbered :
      (m m' : Counters) (calls calls' : List Call) (r : String)
      → holders r calls' ≡ holders r calls
      → ((v : ℤ) → holders_of r v calls' ≡ holders_of r v calls)
      → value_at r m' ≡ value_at r m
      → IsNumbered m calls
      → holders r calls' < two_63
      → (value_at r m' ≡ pos (holders r calls'))
        × ((v : ℤ) → holders_of r v calls' ≡ expected v (holders r calls'))
  same_holders-IsNumbered m m' calls calls' r any each value n small =
      let (shown, once) = n r (omega arith) in
      (value ∙ shown ∙ ap pos (sym any), λ v. each v ∙ once v ∙ ap (expected v) (sym any))

  pub keep-IsNumbered :
      (m : Counters) (calls : List Call) (i : ℕ) (c : Call) (t : Stage)
      → get_elem? calls i ≡ some c
      → key t ≡ key c.stage
      → IsNumbered m calls
      → IsNumbered m (set calls i (record c { stage = t }))
  keep-IsNumbered m calls i c t e same n r small =
      same_holders-IsNumbered m m calls (set calls i c') r
        (omega (arith, total-set (any_weight r) calls i c c' e, any_weight-same r c t same))
        (λ v. omega (arith, total-set (weight r v) calls i c c' e, weight-same r v c t same)) refl n
        small
    where
      c' : Call
      c' = record c { stage = t }

  pub arrive-IsNumbered :
      (m : Counters) (calls : List Call) (c : Call)
      → key c.stage ≡ none
      → IsNumbered m calls
      → IsNumbered m (calls ++ c ∷ [])
  unfolding any_weight weight total
  arrive-IsNumbered m calls c fresh n r small =
      same_holders-IsNumbered m m calls (calls ++ c ∷ []) r
        (total-append (any_weight r) calls (c ∷ []) ∙ rw fresh (ground arith))
        (λ v. total-append (weight r v) calls (c ∷ []) ∙ rw fresh (ground arith)) refl n small

  expected_next :
      (v : ℤ) (n : ℕ) → expected v n + one_if_is v (some (pos (suc n))) ≡ expected v (suc n)
  expected_next v n = elim (ℤ_discrete (pos (suc n)) v) [
    | yes e ↦ rw (if_pos _ e) (rw (← e) (ground arith))
    | no e ↦ rw (if_neg _ e) (expected_other v n e)
  ]
    where
      expected_other : (v : ℤ) (n : ℕ) → pos (suc n) ≢ v → expected v n + 0 ≡ expected v (suc n)
      expected_other (pos zero) n e = refl
      expected_other (pos (suc j)) n e = let other : j ≢ n = λ q. e (rw q) in ground arith
      expected_other (negsuc j) n e = refl

  -- What `IsNumbered` says of one room.
  abbrev pub Shows : Counters → List Call → String → Type 0
  Shows m calls r =
      (value_at r m ≡ pos (holders r calls))
      × ((v : ℤ) → holders_of r v calls ≡ expected v (holders r calls))

  module _ (m : Counters) (calls : List Call) (i : ℕ) (c : Call) (t : Stage)
      (e : get_elem? calls i ≡ some c) (before : key c.stage ≡ none)
      (after : key t ≡ some (add_one c.fields.room m).1) (n : IsNumbered m calls) where
    abbrev c' : Call
    c' = record c { stage = t }

    abbrev calls' : List Call
    calls' = set calls i c'

    any-grows : holders c.fields.room calls' ≡ suc (holders c.fields.room calls)
    any-grows = omega (
      arith,
      total-set (any_weight c.fields.room) calls i c c' e,
      any_weight-here c ∙ ap one_if before,
      any_weight-here c' ∙ ap one_if after,
    )

    each-grows :
        (v : ℤ)
        → holders_of c.fields.room v calls'
          ≡ holders_of c.fields.room v calls + one_if_is v (some (add_one c.fields.room m).1)
    each-grows v = omega (
      arith,
      total-set (weight c.fields.room v) calls i c c' e,
      weight-here v c ∙ ap (one_if_is v) before,
      weight-here v c' ∙ ap (one_if_is v) after,
    )

    assign_here :
        holders c.fields.room calls' < two_63
        → Shows (add_one c.fields.room m).0 calls' c.fields.room
    assign_here small = (
      value_at-add_one_self c.fields.room m ∙ fresh ∙ ap pos (sym any-grows),
      λ v.
          each-grows v
          ∙ rw (old.1 v, fresh) (expected_next v (holders c.fields.room calls))
          ∙ ap (expected v) (sym any-grows),
    )
      where
        old : Shows m calls c.fields.room
        old = n c.fields.room (omega (arith, any-grows))

        fresh : (add_one c.fields.room m).1 ≡ pos (suc (holders c.fields.room calls))
        fresh =
            add_one-value c.fields.room m
            ∙ rw (old.0) (wrap64_next (holders c.fields.room calls) (omega (arith, any-grows)))

    assign_elsewhere :
        (r : String)
        → c.fields.room ≢ r
        → holders r calls' < two_63
        → Shows (add_one c.fields.room m).0 calls' r
    assign_elsewhere r other small =
        same_holders-IsNumbered m (add_one c.fields.room m).0 calls calls' r
          (omega (
            arith,
            total-set (any_weight r) calls i c c' e,
            any_weight-elsewhere r c other,
            any_weight-elsewhere r c' other,
          ))
          (λ v. omega (
            arith,
            total-set (weight r v) calls i c c' e,
            weight-elsewhere r v c other,
            weight-elsewhere r v c' other,
          ))
          (value_at-add_one_ne c.fields.room r m other) n small

    pub assign-IsNumbered : IsNumbered (add_one c.fields.room m).0 calls'
    assign-IsNumbered r small = elim (String_discrete c.fields.room r) [
      | yes here ↦
          subst (λ x. holders x calls' < two_63 → Shows (add_one c.fields.room m).0 calls' x) here
            assign_here small
      | no other ↦ assign_elsewhere r other small
    ]
