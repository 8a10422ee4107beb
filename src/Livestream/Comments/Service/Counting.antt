-- ===== src/Livestream/Comments/Service/Counting.antt =====
-- The counters of a room: `counterFor` and `Add` of service.go.
use classic_cheese.Prelude.{◌≡◌, ◌≢◌, refl, ap, ◌∙◌, String, Option, none, some, String_discrete}
use classic_cheese.Prelude.Int.{ℤ, pos, ◌+ℤ◌, wrap64}
use classic_cheese.Prelude.Dict.{lookup, lookup-insert_self, lookup-insert_ne}
use classic_cheese.Livestream.Comments.Service.{
  Counters, make_counter, counter_for, or_zero, value_at, add_one,
}

value_at-make_counter :
    (room r : String) (o : Option ℤ) (m : Counters)
    → lookup String_discrete room m ≡ o
    → value_at r (make_counter room o m) ≡ value_at r m
unfolding make_counter
value_at-make_counter room r (some n) m e = refl
value_at-make_counter room r none m e = elim (String_discrete room r) [
  | yes q ↦
      let e' : lookup String_discrete r m ≡ none = rw (← q) e in
      rw q (rw (lookup-insert_self String_discrete r (pos 0) m, e'))
  | no q ↦ ap or_zero (lookup-insert_ne String_discrete room r (pos 0) m q)
]

-- To ask for a counter changes no value.
pub value_at-counter_for :
    (room r : String) (m : Counters) → value_at r (counter_for room m) ≡ value_at r m
unfolding counter_for
value_at-counter_for room r m = value_at-make_counter room r _ m refl

pub add_one-value :
    (room : String) (m : Counters) → (add_one room m).1 ≡ wrap64 (value_at room m +ℤ pos 1)
unfolding add_one
add_one-value room m = rw (value_at-counter_for room room m)

pub value_at-add_one_self :
    (room : String) (m : Counters) → value_at room (add_one room m).0 ≡ (add_one room m).1
unfolding add_one
value_at-add_one_self room m = ap or_zero (lookup-insert_self String_discrete room _ _)

pub value_at-add_one_ne :
    (room r : String) (m : Counters) → room ≢ r → value_at r (add_one room m).0 ≡ value_at r m
unfolding add_one
value_at-add_one_ne room r m other =
    ap or_zero (lookup-insert_ne String_discrete room r _ _ other) ∙ value_at-counter_for room r m
