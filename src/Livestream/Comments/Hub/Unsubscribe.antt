-- ===== src/Livestream/Comments/Hub/Unsubscribe.antt =====
-- `Unsubscribe`: hub.go, lines 57 to 66.
use classic_cheese.Prelude.{
  ℕ, ◌≡◌, ◌≢◌, refl, ap, ◌∙◌, sym, subst, String, true, List, [], ◌∷◌, Option, none, some, arith,
  String_discrete, Option-cases, inl, inr,
}
use classic_cheese.Prelude.Lists.{get_elem?, has}
use classic_cheese.Prelude.Dict.{
  lookup, erase, lookup-insert_self, lookup-insert_ne, lookup-erase_self, lookup-erase_ne,
  insert-Unique, erase-Unique, All-insert, All-erase, All-lookup,
}
use classic_cheese.Livestream.Comments.Hub.{
  Subscriber, Hub, Points, or_empty, conns_of, targets, put_conns, remove_conn, unsubscribe_at,
  unsubscribe,
}
use classic_cheese.Livestream.Comments.Hub.Order.{IsValid, IsRoom, AreConns}
use classic_cheese.Livestream.Comments.Hub.Registry.{pointers, has-erase}

conns_of-put_conns_self :
    (room : String) (conns : List (String × ℕ)) (h : Hub)
    → conns_of (put_conns room conns h) room ≡ conns
unfolding put_conns
conns_of-put_conns_self room [] h = ap or_empty (lookup-erase_self String_discrete room h.rooms)
conns_of-put_conns_self room (c ∷ cs) h =
    ap or_empty (lookup-insert_self String_discrete room (c ∷ cs) h.rooms)

conns_of-put_conns_ne :
    (room r : String) (conns : List (String × ℕ)) (h : Hub)
    → room ≢ r
    → conns_of (put_conns room conns h) r ≡ conns_of h r
unfolding put_conns
conns_of-put_conns_ne room r [] h other =
    ap or_empty (lookup-erase_ne String_discrete room r h.rooms other)
conns_of-put_conns_ne room r (c ∷ cs) h other =
    ap or_empty (lookup-insert_ne String_discrete room r (c ∷ cs) h.rooms other)

put_conns-heap :
    (room : String) (conns : List (String × ℕ)) (h : Hub) → (put_conns room conns h).heap ≡ h.heap
unfolding put_conns
put_conns-heap room [] h = refl
put_conns-heap room (c ∷ cs) h = refl

targets-put_conns :
    (room : String) (conns : List (String × ℕ)) (h : Hub)
    → ((p : ℕ) → has p (pointers conns) ≡ true → has p (targets h room) ≡ true)
    → (r : String) (p : ℕ) → has p (targets (put_conns room conns h) r) ≡ true
    → has p (targets h r) ≡ true
targets-put_conns room conns h fewer r p e = elim (String_discrete room r) [
  | yes q ↦
      subst (λ x. has p (targets h x) ≡ true) q
        (fewer p (
          ap (λ m. has p (pointers m)) (sym (conns_of-put_conns_self room conns h))
          ∙ subst (λ x. has p (targets (put_conns room conns h) x) ≡ true) (sym q) e))
  | no q ↦ ap (λ m. has p (pointers m)) (sym (conns_of-put_conns_ne room r conns h q)) ∙ e
]

-- Fewer connections in one room keep the registry in order.
put_conns-IsValid :
    (room : String) (conns : List (String × ℕ)) (h : Hub)
    → IsValid h
    → AreConns h.heap conns
    → ((p : ℕ) → has p (pointers conns) ≡ true → has p (targets h room) ≡ true)
    → IsValid (put_conns room conns h)
unfolding put_conns
put_conns-IsValid room [] h v c fewer = record {
  unique = erase-Unique String_discrete room h.rooms v.unique;
  in_order = All-erase String_discrete (IsRoom h.heap) room h.rooms v.in_order;
  healthy = v.healthy;
  isolated = λ r r' p e e'.
      v.isolated r r' p (targets-put_conns room [] h fewer r p e)
        (targets-put_conns room [] h fewer r' p e');
}
put_conns-IsValid room (k ∷ ks) h v c fewer = record {
  unique = insert-Unique String_discrete room (k ∷ ks) h.rooms v.unique;
  in_order = All-insert String_discrete (IsRoom h.heap) room (k ∷ ks) h.rooms (c, tt) v.in_order;
  healthy = v.healthy;
  isolated = λ r r' p e e'.
      v.isolated r r' p (targets-put_conns room (k ∷ ks) h fewer r p e)
        (targets-put_conns room (k ∷ ks) h fewer r' p e');
}

-- What `Unsubscribe` leaves: the mailboxes as they were, and the connections but one.
abbrev pub Leaves : Hub → String → String → Hub → Type 0
Leaves h room id h' =
    IsValid h'
    × (h'.heap ≡ h.heap)
    × (conns_of h' room ≡ erase String_discrete id (conns_of h room))
    × ((r : String) → room ≢ r → conns_of h' r ≡ conns_of h r)

remove_conn-Leaves :
    (room id : String) (o : Option (List (String × ℕ))) (h : Hub)
    → lookup String_discrete room h.rooms ≡ o
    → IsValid h
    → Leaves h room id (remove_conn room id o h)
unfolding remove_conn erase
remove_conn-Leaves room id none h e v = (v, refl, rw e, λ r other. refl)
remove_conn-Leaves room id (some conns) h e v = (
  put_conns-IsValid room rest h v
      (
        erase-Unique String_discrete id conns fine.0,
        All-erase String_discrete (Points h.heap) id conns fine.1,
      )
      (λ p held. rw e (has-erase id p conns held)),
  put_conns-heap room rest h,
  rw e (conns_of-put_conns_self room rest h),
  λ r other. conns_of-put_conns_ne room r rest h other,
)
  where
    rest : List (String × ℕ)
    rest = erase String_discrete id conns

    fine : AreConns h.heap conns
    fine = (All-lookup String_discrete (IsRoom h.heap) room h.rooms v.in_order e).0

abbrev pub Unsubscribes : String → ℕ → Hub → String → Type 0
Unsubscribes room p h id = (h' : Hub) × (unsubscribe room p h ≡ some h') × Leaves h room id h'

-- A handler that leaves takes its own connection out of its room: the registry stays in order, no
-- mailbox changes, and the room's other connections and the other rooms stay.
pub unsubscribe-Leaves :
    (room : String) (p : ℕ) (h : Hub) (s : Subscriber)
    → IsValid h
    → get_elem? h.heap p ≡ some s
    → Unsubscribes room p h s.id
unfolding unsubscribe
unsubscribe-Leaves room p h s v e = (
  remove_conn room s.id (lookup String_discrete room h.rooms) h,
  rw (e, unsubscribe_at),
  remove_conn-Leaves room s.id _ h refl v,
)

-- The same, read off a call that returned.
pub unsubscribe_inv :
    (room : String) (p : ℕ) (h h' : Hub)
    → IsValid h
    → unsubscribe room p h ≡ some h'
    → IsValid h' × (h'.heap ≡ h.heap)
unfolding unsubscribe unsubscribe_at
unsubscribe_inv room p h h' v e = elim (Option-cases (get_elem? h.heap p)) [
  | inl missing ↦ absurd (ground arith)
  | inr (s, found) ↦
      let left = remove_conn-Leaves room s.id _ h refl v in
      let same : remove_conn room s.id (lookup String_discrete room h.rooms) h ≡ h' =
        ground arith in
      rw (← same) (left.0, left.1)
]
