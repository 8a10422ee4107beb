-- ===== src/Livestream/Comments/Hub/Order.antt =====
-- The invariant of the room registry of hub.go, and the changes of mailboxes that keep it.
use classic_cheese.Prelude.{
  ℕ, ◌≡◌, refl, ◌∙◌, String, true, List, [], ◌∷◌, ◌++◌, Option, none, some, ℕ_discrete,
  String_discrete,
}
use classic_cheese.Prelude.Lists.{
  modify, All, All-modify, get_elem?_append_left, get_elem?-modify_self, get_elem?-modify_ne, has,
}
use classic_cheese.Prelude.Dict.{Unique, lookup, All-lookup}
use classic_cheese.Livestream.Comments.Hub.{
  Event, Subscriber, Hub, IsHealthy, Points, IsNonempty, or_empty, conns_of, targets, new_hub,
}
use classic_cheese.Livestream.Comments.Hub.Publish.{receive, receive-id, delivered}

-- A room's connections have different ids, and each points to a mailbox of its id.
abbrev pub AreConns : List Subscriber → List (String × ℕ) → Type 0
AreConns heap conns = Unique String_discrete conns × All (Points heap) conns

-- A registered room has a connection.
abbrev pub IsRoom : List Subscriber → String × List (String × ℕ) → Type 0
IsRoom heap (room, conns) = AreConns heap conns × IsNonempty conns

pub record IsValid (h : Hub) : Type 0 where
  pub unique : Unique String_discrete h.rooms
  pub in_order : All (IsRoom h.heap) h.rooms
  pub healthy : All IsHealthy h.heap
  -- No mailbox is registered in two rooms.
  pub isolated :
      (r r' : String) (p : ℕ) → has p (targets h r) ≡ true → has p (targets h r') ≡ true → r ≡ r'

pub new_hub-IsValid : IsValid new_hub
unfolding new_hub has lookup
new_hub-IsValid = record { unique = tt; in_order = tt; healthy = tt; isolated = λ r r' p h h'. cc }

AreConns-or_empty :
    (heap : List Subscriber) (rooms : List (String × List (String × ℕ))) (room : String)
    (o : Option (List (String × ℕ)))
    → All (IsRoom heap) rooms
    → lookup String_discrete room rooms ≡ o
    → AreConns heap (or_empty o)
AreConns-or_empty heap rooms room none v e = (tt, tt)
AreConns-or_empty heap rooms room (some conns) v e =
    (All-lookup String_discrete (IsRoom heap) room rooms v e).0

pub conns_of-AreConns : (h : Hub) (room : String) → IsValid h → AreConns h.heap (conns_of h room)
conns_of-AreConns h room v = AreConns-or_empty h.heap h.rooms room _ v.in_order refl

-- `All` along an implication.
pub All-map {ℓ κ κ'} :
    {A : Type ℓ} (P : A → Type κ) (Q : A → Type κ') (xs : List A)
    → ((x : A) → P x → Q x)
    → All P xs
    → All Q xs
All-map P Q [] f h = tt
All-map P Q (x ∷ xs) f h = (f x h.0, All-map P Q xs f h.1)

-- A heap in which every mailbox is found where it was, with its id.
abbrev pub Keeps : List Subscriber → List Subscriber → Type 0
Keeps heap heap' = (c : String × ℕ) → Points heap c → Points heap' c

AreConns-Keeps :
    (heap heap' : List Subscriber) (conns : List (String × ℕ))
    → Keeps heap heap'
    → AreConns heap conns
    → AreConns heap' conns
AreConns-Keeps heap heap' conns k (u, p) = (u, All-map (Points heap) (Points heap') conns k p)

pub IsRoom-Keeps :
    (heap heap' : List Subscriber)
    → Keeps heap heap'
    → (r : String × List (String × ℕ)) → IsRoom heap r
    → IsRoom heap' r
IsRoom-Keeps heap heap' k (room, conns) (c, n) = (AreConns-Keeps heap heap' conns k c, n)

pub append-Keeps : (heap : List Subscriber) (s : Subscriber) → Keeps heap (heap ++ s ∷ [])
append-Keeps heap s (id, p) (t, at_p, t_id) = (t, get_elem?_append_left heap _ p at_p, t_id)

pub modify-Keeps :
    (f : Subscriber → Subscriber) (q : ℕ) (heap : List Subscriber)
    → ((s : Subscriber) → (f s).id ≡ s.id)
    → Keeps heap (modify heap q f)
modify-Keeps f q heap same_id (id, p) (t, at_p, t_id) = elim (ℕ_discrete q p) [
  | yes e ↦ (f t, rw e (get_elem?-modify_self heap p f at_p), same_id t ∙ t_id)
  | no e ↦ (t, get_elem?-modify_ne heap q p f e ∙ at_p, t_id)
]

-- A change of one mailbox that keeps its id and its health.
pub modify-IsValid :
    (f : Subscriber → Subscriber) (q : ℕ) (h : Hub)
    → ((s : Subscriber) → (f s).id ≡ s.id)
    → ((s : Subscriber) → IsHealthy s → IsHealthy (f s))
    → IsValid h
    → IsValid (record h { heap = modify h.heap q f })
modify-IsValid f q h same_id same_health v = record {
  unique = v.unique;
  in_order =
      All-map (IsRoom h.heap) (IsRoom (modify h.heap q f)) h.rooms
        (IsRoom-Keeps h.heap (modify h.heap q f) (modify-Keeps f q h.heap same_id)) v.in_order;
  healthy = All-modify IsHealthy h.heap q f same_health v.healthy;
  isolated = v.isolated;
}

pub delivered-Keeps :
    (ev : Event) (ps : List ℕ) (heap : List Subscriber) → Keeps heap (delivered ev ps heap)
unfolding delivered
delivered-Keeps ev [] heap c h = h
delivered-Keeps ev (p ∷ ps) heap c h =
    delivered-Keeps ev ps (modify heap p (receive ev)) c
      (modify-Keeps (receive ev) p heap (receive-id ev) c h)
