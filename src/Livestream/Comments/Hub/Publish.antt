-- ===== src/Livestream/Comments/Hub/Publish.antt =====
-- What `Publish` does to the mailboxes: hub.go, lines 68 to 87.
use classic_cheese.Prelude.{
  ℕ, ◌≡◌, ◌≢◌, refl, ap, ◌∙◌, sym, String, true, false, List, [], ◌∷◌, ◌++◌, map, some, arith, ltb,
  ◌==◌, if◌then◌else◌, ℕ_discrete, String_discrete,
}
use classic_cheese.Prelude.Lists.{
  length, length-append, get_elem?, modify, All, All-modify, modify-eq-set, get_elem?-modify_self,
  get_elem?-modify_ne, get_elem?-modify_same, length-modify, has, IsDistinct, All-get_elem,
}
use classic_cheese.Prelude.Dict.{Unique, All-keys_ne}
use mathlib.Core.Option
use classic_cheese.Livestream.Comments.Hub.{
  conns_of, Points, Event, Subscriber, Hub, subscriber_buffer_size, close_kill, mark_done, offer,
  send, send_all, publish, targets, IsHealthy,
}

-- A healthy mailbox after the round that serves it.
unfoldable pub receive : Event → Subscriber → Subscriber
receive ev s =
    if ltb (length s.events) subscriber_buffer_size
    then record s { events = s.events ++ ev ∷ [] }
    else record s { kill = true; once = true }

pub receive-id : (ev : Event) (s : Subscriber) → (receive ev s).id ≡ s.id
unfolding receive
receive-id ev s = ground arith

pub receive-IsHealthy : (ev : Event) (s : Subscriber) → IsHealthy s → IsHealthy (receive ev s)
unfolding receive
receive-IsHealthy ev s h = ground (arith, length-append s.events (ev ∷ []))

pub offer-receive : (ev : Event) (s : Subscriber) → IsHealthy s → offer ev s ≡ some (receive ev s)
unfolding offer receive close_kill mark_done
offer-receive ev s h = ground arith

pub send-modify :
    (ev : Event) (p : ℕ) (heap : List Subscriber) {s : Subscriber}
    → All IsHealthy heap
    → get_elem? heap p ≡ some s
    → send ev p heap ≡ some (modify heap p (receive ev))
unfolding send
send-modify ev p heap {s} h e =
    rw (e, send, offer-receive ev s (All-get_elem IsHealthy heap p h e))
      (ap some (modify-eq-set heap p (receive ev) e))

unfoldable pub delivered : Event → List ℕ → List Subscriber → List Subscriber
delivered ev [] heap = heap
delivered ev (p ∷ ps) heap = delivered ev ps (modify heap p (receive ev))

pub length-delivered :
    (ev : Event) (ps : List ℕ) (heap : List Subscriber)
    → length (delivered ev ps heap) ≡ length heap
unfolding delivered
length-delivered ev [] heap = refl
length-delivered ev (p ∷ ps) heap = length-delivered ev ps _ ∙ length-modify heap p (receive ev)

pub delivered-IsHealthy :
    (ev : Event) (ps : List ℕ) (heap : List Subscriber)
    → All IsHealthy heap
    → All IsHealthy (delivered ev ps heap)
unfolding delivered
delivered-IsHealthy ev [] heap h = h
delivered-IsHealthy ev (p ∷ ps) heap h =
    delivered-IsHealthy ev ps _ (All-modify IsHealthy heap p _ (receive-IsHealthy ev) h)

-- A pointer to a mailbox that exists.
abbrev pub IsLive : List Subscriber → ℕ → Type 0
IsLive heap p = (s : Subscriber) × (get_elem? heap p ≡ some s)

pub modify-IsLive :
    (f : Subscriber → Subscriber) (p q : ℕ) (heap : List Subscriber)
    → IsLive heap q
    → IsLive (modify heap p f) q
modify-IsLive f p q heap (s, e) = elim (ℕ_discrete p q) [
  | yes same ↦ (f s, rw same (get_elem?-modify_self heap q f e))
  | no other ↦ (s, get_elem?-modify_ne heap p q f other ∙ e)
]

pub IsLive-modify :
    (ev : Event) (p q : ℕ) (heap : List Subscriber)
    → IsLive heap q
    → IsLive (modify heap p (receive ev)) q
IsLive-modify ev = modify-IsLive (receive ev)

All-IsLive-modify :
    (ev : Event) (p : ℕ) (ps : List ℕ) (heap : List Subscriber)
    → All (IsLive heap) ps
    → All (IsLive (modify heap p (receive ev))) ps
All-IsLive-modify ev p [] heap l = tt
All-IsLive-modify ev p (q ∷ ps) heap l =
    (IsLive-modify ev p q heap l.0, All-IsLive-modify ev p ps heap l.1)

-- The loop ends without a panic.
pub send_all-delivered :
    (ev : Event) (ps : List ℕ) (heap : List Subscriber)
    → All IsHealthy heap
    → All (IsLive heap) ps
    → send_all ev ps heap ≡ some (delivered ev ps heap)
unfolding send_all delivered
send_all-delivered ev [] heap h l = refl
send_all-delivered ev (p ∷ ps) heap h l = rw (send-modify ev p heap h l.0.1) (
    send_all-delivered ev ps _ (All-modify IsHealthy heap p _ (receive-IsHealthy ev) h)
      (All-IsLive-modify ev p ps heap l.1))

delivered_others :
    (ev : Event) (ps : List ℕ) (heap : List Subscriber) (q : ℕ)
    → All (λ p. q ≢ p) ps
    → get_elem? (delivered ev ps heap) q ≡ get_elem? heap q
unfolding delivered
delivered_others ev [] heap q h = refl
delivered_others ev (p ∷ ps) heap q h =
    delivered_others ev ps _ q h.1 ∙ get_elem?-modify_ne heap p q (receive ev) (λ e. h.0 (sym e))

-- Every mailbox of the list takes part in one round, and no other is touched.
pub delivered_lem :
    (ev : Event) (ps : List ℕ) (heap : List Subscriber) (q : ℕ)
    → IsDistinct ps
    → get_elem? (delivered ev ps heap) q
      ≡ (if has q ps then Option.map (receive ev) (get_elem? heap q) else get_elem? heap q)
unfolding delivered has
delivered_lem ev [] heap q d = refl
delivered_lem ev (p ∷ ps) heap q d = elim (ℕ_discrete q p) [
  | yes e ↦
      let test : (q == p) ≡ true = ground arith in
      rw test (rw e (delivered_others ev ps _ p d.0 ∙ get_elem?-modify_same heap p (receive ev)))
  | no e ↦
      let test : (q == p) ≡ false = ground arith in
      rw test (
        delivered_lem ev ps _ q d.1
        ∙ rw (get_elem?-modify_ne heap p q (receive ev) (λ r. e (sym r))))
]

IsDistinct-head :
    (heap : List Subscriber) (k : String) (p : ℕ) (m : List (String × ℕ))
    → Points heap (k, p)
    → All (Points heap) m
    → All (λ c. c.0 ≢ k) m
    → All (λ q. p ≢ q) (map (λ c. c.1) m)
IsDistinct-head heap k p [] here there other = tt
IsDistinct-head heap k p ((j, q) ∷ m) here there other =
    let (s, at_p, s_id) = here in
    let (t, at_q, t_id) = there.0 in
    (
      λ e.
          let same : s ≡ t = ground arith in
          other.0 (sym t_id ∙ ap (λ (u : Subscriber). u.id) (sym same) ∙ s_id),
      IsDistinct-head heap k p m here there.1 other.1,
    )

-- The ids keep the pointers of a room apart.
pub targets-IsDistinct :
    (heap : List Subscriber) (m : List (String × ℕ))
    → Unique String_discrete m
    → All (Points heap) m
    → IsDistinct (map (λ c. c.1) m)
targets-IsDistinct heap [] u h = tt
targets-IsDistinct heap ((k, p) ∷ m) u h = (
  IsDistinct-head heap k p m h.0 h.1 (All-keys_ne String_discrete k m u.0),
  targets-IsDistinct heap m u.1 h.1,
)

pub targets-IsLive :
    (heap : List Subscriber) (m : List (String × ℕ))
    → All (Points heap) m
    → All (IsLive heap) (map (λ c. c.1) m)
targets-IsLive heap [] h = tt
targets-IsLive heap ((k, p) ∷ m) h =
    let (s, at_p, _) = h.0 in ((s, at_p), targets-IsLive heap m h.1)

-- `publish` on a room whose connections are in order.
pub publish-delivered :
    (room : String) (ev : Event) (h : Hub)
    → All IsHealthy h.heap
    → All (Points h.heap) (conns_of h room)
    → publish room ev h ≡ some (record h { heap = delivered ev (targets h room) h.heap })
unfolding publish
publish-delivered room ev h healthy points =
    rw (send_all-delivered ev (targets h room) h.heap healthy (targets-IsLive h.heap _ points))
