-- ===== src/Livestream/Comments/Hub/Registry.antt =====
-- A new connection in the room registry: Subscribe in hub.go.
use classic_cheese.Prelude.{
  ℕ, ◌<◌, ◌≡◌, ◌≢◌, refl, ap, ◌∙◌, sym, subst, ◌⊎◌, inl, inr, String, true, false, List, [], ◌∷◌,
  ◌++◌, map, none, some, arith, if_pos, if_neg, ℕ_discrete, String_discrete,
}
use classic_cheese.Prelude.Lists.{
  length, get_elem?, All, All-append, get_elem?_append_left, get_elem?_append_end, get_elem?_bound,
  has,
}
use classic_cheese.Prelude.Dict.{
  lookup, insert, erase, lookup-insert_self, lookup-insert_ne, insert-Unique, All-insert,
}
use classic_cheese.Livestream.Comments.Hub.{
  Subscriber, Hub, IsHealthy, Points, IsNonempty, or_empty, conns_of, targets, subscribe,
}
use classic_cheese.Livestream.Comments.Hub.Order.{
  IsRoom, IsValid, conns_of-AreConns, All-map, IsRoom-Keeps, append-Keeps,
}

insert-IsNonempty :
    (k : String) (p : ℕ) (m : List (String × ℕ)) → IsNonempty (insert String_discrete k p m)
unfolding insert
insert-IsNonempty k p [] = tt
insert-IsNonempty k p ((j, q) ∷ m) = elim (String_discrete j k) [
  | yes e ↦ rw (if_pos _ e) tt
  | no e ↦ rw (if_neg _ e) tt
]

abbrev pub pointers : List (String × ℕ) → List ℕ
pointers = map (λ c. c.1)

has-insert :
    (k : String) (p q : ℕ) (m : List (String × ℕ))
    → has q (pointers (insert String_discrete k p m)) ≡ true
    → (q ≡ p) ⊎ (has q (pointers m) ≡ true)
unfolding insert has
has-insert k p q [] h = ground arith
has-insert k p q ((j, w) ∷ m) h = ground (arith, has-insert k p q m)

pub has-erase :
    (k : String) (q : ℕ) (m : List (String × ℕ))
    → has q (pointers (erase String_discrete k m)) ≡ true
    → has q (pointers m) ≡ true
unfolding erase has
has-erase k q [] h = ground arith
has-erase k q ((j, w) ∷ m) h = ground (arith, has-erase k q m)

-- A registered pointer is a pointer into the heap.
has-bound :
    (heap : List Subscriber) (m : List (String × ℕ)) (p : ℕ)
    → All (Points heap) m
    → has p (pointers m) ≡ true
    → p < length heap
unfolding has
has-bound heap [] p h e = absurd (ground arith)
has-bound heap ((j, q) ∷ m) p h e = elim (ℕ_discrete p q) [
  | yes same ↦ rw same (get_elem?_bound heap q h.0.1)
  | no other ↦ has-bound heap m p h.1 (ground arith)
]

pub conns_of-subscribe_self :
    (uuid room : String) (h : Hub)
    → conns_of (subscribe uuid room h).0 room
      ≡ insert String_discrete uuid (length h.heap) (conns_of h room)
unfolding subscribe
conns_of-subscribe_self uuid room h =
    ap or_empty (lookup-insert_self String_discrete room _ h.rooms)

pub conns_of-subscribe_ne :
    (uuid room r : String) (h : Hub)
    → room ≢ r
    → conns_of (subscribe uuid room h).0 r ≡ conns_of h r
unfolding subscribe
conns_of-subscribe_ne uuid room r h other =
    ap or_empty (lookup-insert_ne String_discrete room r _ h.rooms other)

-- Who is registered in which room after `subscribe`.
pub targets-subscribe :
    (uuid room r : String) (p : ℕ) (h : Hub)
    → has p (targets (subscribe uuid room h).0 r) ≡ true
    → ((p ≡ length h.heap) × (r ≡ room)) ⊎ (has p (targets h r) ≡ true)
targets-subscribe uuid room r p h e = elim (String_discrete room r) [
  | yes q ↦
      let e' : has p (targets (subscribe uuid room h).0 room) ≡ true =
        subst (λ x. has p (targets (subscribe uuid room h).0 x) ≡ true) (sym q) e in
      let here =
        has-insert uuid (length h.heap) p (conns_of h room)
          (ap (λ m. has p (pointers m)) (sym (conns_of-subscribe_self uuid room h)) ∙ e') in
      elim here [ inl new ↦ inl (new, sym q) | inr old ↦ inr (rw (← q) old) ]
  | no q ↦ inr (ap (λ m. has p (pointers m)) (sym (conns_of-subscribe_ne uuid room r h q)) ∙ e)
]

has-targets-bound :
    (h : Hub) (r : String) (p : ℕ) → IsValid h → has p (targets h r) ≡ true → p < length h.heap
has-targets-bound h r p v = has-bound h.heap (conns_of h r) p (conns_of-AreConns h r v).1

subscribe-isolated :
    (uuid room : String) (h : Hub)
    → IsValid h
    → (r r' : String) (p : ℕ) → has p (targets (subscribe uuid room h).0 r) ≡ true
    → has p (targets (subscribe uuid room h).0 r') ≡ true
    → r ≡ r'
subscribe-isolated uuid room h v r r' p e e' = elim (targets-subscribe uuid room r p h e) [
  | inl (new, here) ↦ elim (targets-subscribe uuid room r' p h e') [
    | inl (_, here') ↦ here ∙ sym here'
    | inr old ↦ absurd (omega (arith, has-targets-bound h r' p v old))
  ]
  | inr old ↦ elim (targets-subscribe uuid room r' p h e') [
    | inl (new, _) ↦ absurd (omega (arith, has-targets-bound h r p v old))
    | inr old' ↦ v.isolated r r' p old old'
  ]
]

-- A new connection keeps the registry in order, whatever id it is given.
pub subscribe-IsValid :
    (uuid room : String) (h : Hub) → IsValid h → IsValid (subscribe uuid room h).0
unfolding subscribe
subscribe-IsValid uuid room h v = record {
  unique = insert-Unique String_discrete room _ h.rooms v.unique;
  in_order =
      All-insert String_discrete (IsRoom heap') room _ h.rooms
        (
          (
            insert-Unique String_discrete uuid p conns (conns_of-AreConns h room v).0,
            All-insert String_discrete (Points heap') uuid p conns
                (s, get_elem?_append_end h.heap s, refl)
                (All-map (Points h.heap) (Points heap') conns (append-Keeps h.heap s)
                  (conns_of-AreConns h room v).1),
          ),
          insert-IsNonempty uuid p conns,
        )
        (All-map (IsRoom h.heap) (IsRoom heap') h.rooms
          (IsRoom-Keeps h.heap heap' (append-Keeps h.heap s)) v.in_order);
  healthy = All-append IsHealthy h.heap (s ∷ []) v.healthy ((omega arith, refl), tt);
  isolated = subscribe-isolated uuid room h v;
}
  where
    p : ℕ
    p = length h.heap

    conns : List (String × ℕ)
    conns = conns_of h room

    s : Subscriber
    s = record { id = uuid; events = []; kill = false; once = false }

    heap' : List Subscriber
    heap' = h.heap ++ s ∷ []

-- What `Subscribe` leaves: a new, empty mailbox under the given id, and all else as it was.
pub record Subscribes (uuid room : String) (h : Hub) (h' : Hub) (p : ℕ) : Type 0 where
  pub in_order : IsValid h'
  pub mailbox :
      get_elem? h'.heap p ≡ some (record { id = uuid; events = []; kill = false; once = false })
  pub fresh : get_elem? h.heap p ≡ none
  pub registered : lookup String_discrete uuid (conns_of h' room) ≡ some p
  pub companions :
      (id : String)
      → uuid ≢ id
      → lookup String_discrete id (conns_of h' room) ≡ lookup String_discrete id (conns_of h room)
  pub elsewhere : (r : String) → room ≢ r → conns_of h' r ≡ conns_of h r
  pub kept : (q : ℕ) (s : Subscriber) → get_elem? h.heap q ≡ some s → get_elem? h'.heap q ≡ some s

get_elem?_end : {A : Type 0} (xs : List A) → get_elem? xs (length xs) ≡ none
get_elem?_end [] = refl
get_elem?_end (x ∷ xs) = get_elem?_end xs

-- A new connection gets an empty mailbox of its own, registered in its room under its id; the
-- room's other ids, the other rooms and the other mailboxes stay, and the registry stays in order.
pub subscribe_lem :
    (uuid room : String) (h : Hub)
    → IsValid h
    → Subscribes uuid room h (subscribe uuid room h).0 (subscribe uuid room h).1
unfolding subscribe
subscribe_lem uuid room h v = record {
  in_order = subscribe-IsValid uuid room h v;
  mailbox = get_elem?_append_end h.heap _;
  fresh = get_elem?_end h.heap;
  registered =
      rw (conns_of-subscribe_self uuid room h)
        (lookup-insert_self String_discrete uuid (length h.heap) (conns_of h room));
  companions = λ id other.
      rw (conns_of-subscribe_self uuid room h)
        (lookup-insert_ne String_discrete uuid id (length h.heap) (conns_of h room) other);
  elsewhere = λ r other. conns_of-subscribe_ne uuid room r h other;
  kept = λ q s e. get_elem?_append_left h.heap _ q e;
}
