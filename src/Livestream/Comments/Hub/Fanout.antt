-- ===== src/Livestream/Comments/Hub/Fanout.antt =====
-- The fan-out of one event over a registry in order: `Publish` of hub.go.
use mathlib.Core.Option
use classic_cheese.Prelude.{
  ℕ, ◌≡◌, ◌≢◌, refl, ap, ◌∙◌, sym, String, true, some, arith, if◌then◌else◌, Bool-cases, inl, inr,
}
use classic_cheese.Prelude.Lists.{get_elem?, has}
use classic_cheese.Livestream.Comments.Hub.{Event, Hub, targets, publish}
use classic_cheese.Livestream.Comments.Hub.Publish.{
  receive, delivered, delivered-IsHealthy, delivered_lem, publish-delivered, targets-IsDistinct,
}
use classic_cheese.Livestream.Comments.Hub.Order.{
  IsValid, IsRoom, IsRoom-Keeps, All-map, conns_of-AreConns, delivered-Keeps,
}

abbrev pub after_publish : String → Event → Hub → Hub
after_publish room ev h = record h { heap = delivered ev (targets h room) h.heap }

pub publish_total :
    (room : String) (ev : Event) (h : Hub)
    → IsValid h
    → publish room ev h ≡ some (after_publish room ev h)
publish_total room ev h v = publish-delivered room ev h v.healthy (conns_of-AreConns h room v).1

pub after_publish-IsValid :
    (room : String) (ev : Event) (h : Hub) → IsValid h → IsValid (after_publish room ev h)
after_publish-IsValid room ev h v =
    let heap' = delivered ev (targets h room) h.heap in
    record {
      unique = v.unique;
      in_order =
          All-map (IsRoom h.heap) (IsRoom heap') h.rooms
            (IsRoom-Keeps h.heap heap' (delivered-Keeps ev (targets h room) h.heap)) v.in_order;
      healthy = delivered-IsHealthy ev (targets h room) h.heap v.healthy;
      isolated = v.isolated;
    }

pub heap-after_publish :
    (room : String) (ev : Event) (h : Hub) (p : ℕ)
    → IsValid h
    → get_elem? (after_publish room ev h).heap p ≡ (
        if has p (targets h room)
        then Option.map (receive ev) (get_elem? h.heap p)
        else get_elem? h.heap p)
heap-after_publish room ev h p v =
    let (u, points) = conns_of-AreConns h room v in
    delivered_lem ev (targets h room) h.heap p (targets-IsDistinct h.heap _ u points)

-- A publish that returned: the registry is as it was, and each mailbox that is registered in the
-- room, and no other, has taken part in one round.
abbrev pub Publishes : String → Event → Hub → Type 0
Publishes room ev h =
    (h' : Hub) × (publish room ev h ≡ some h')
    × IsValid h'
    × (h'.rooms ≡ h.rooms)
    × ((p : ℕ)
        → get_elem? h'.heap p ≡ (
            if has p (targets h room)
            then Option.map (receive ev) (get_elem? h.heap p)
            else get_elem? h.heap p))

-- On a registry in order `Publish` never panics and keeps the order. Every mailbox registered in
-- the room gets the event at its end, or, if its buffer is full, is told to close and keeps its
-- events; every other mailbox is as it was, and so is the registry.
pub publish_lem : (room : String) (ev : Event) (h : Hub) → IsValid h → Publishes room ev h
publish_lem room ev h v = (
  after_publish room ev h,
  publish_total room ev h v,
  after_publish-IsValid room ev h v,
  refl,
  λ p. heap-after_publish room ev h p v,
)

-- An event of one room reaches no mailbox that is registered in another.
pub publish_elsewhere :
    (room other : String) (ev : Event) (h h' : Hub) (p : ℕ)
    → IsValid h
    → publish room ev h ≡ some h'
    → room ≢ other
    → has p (targets h other) ≡ true
    → get_elem? h'.heap p ≡ get_elem? h.heap p
publish_elsewhere room other ev h h' p v e apart member =
    elim (Bool-cases (has p (targets h room))) [
      | inl here ↦ absurd (apart (v.isolated room other p here member))
      | inr gone ↦
          let same : after_publish room ev h ≡ h' = ground (arith, publish_total room ev h v) in
          ap (λ (g : Hub). get_elem? g.heap p) (sym same)
          ∙ heap-after_publish room ev h p v
          ∙ rw gone
    ]
