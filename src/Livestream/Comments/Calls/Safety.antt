-- ===== src/Livestream/Comments/Calls/Safety.antt =====
-- The invariant of all interleavings of calls and connections.
use classic_cheese.Prelude.{ℕ, ◌≤◌, ◌<◌, ◌≡◌, refl, String, List, [], ◌∷◌, Option, some, arith}
use classic_cheese.Prelude.Int.{ℤ, pos, negsuc, two_63}
use classic_cheese.Prelude.Lists.{
  get_elem?, set, modify, All, All-append, All-get_elem, total, total-le, get_elem?_append_left,
}
use classic_cheese.Livestream.Comments.Hub.{Subscriber, Hub, subscribe}
use classic_cheese.Livestream.Comments.Hub.Order.{IsValid, modify-IsValid, new_hub-IsValid}
use classic_cheese.Livestream.Comments.Hub.Registry.{subscribe-IsValid}
use classic_cheese.Prelude.Dict.{lookup}
use classic_cheese.Livestream.Comments.Hub.Publish.{modify-IsLive}
use classic_cheese.Livestream.Comments.Hub.Unsubscribe.{unsubscribe_inv}
use classic_cheese.Livestream.Comments.Service.{Comment, Service, new_service}
use classic_cheese.Livestream.Comments.Calls.{
  Stage, checked, Call, World, Step, arrive, go, join, leave, read, Reach, here, next, start,
  advance, with_heap, take_event,
}
use classic_cheese.Livestream.Comments.Stream.Mailbox.{take_event-IsHealthy}
use classic_cheese.Livestream.Comments.Calls.Numbering.{
  id_of, count_of, one_if, any_weight, holders, Shows, expected, IsNumbered, keep-IsNumbered,
  arrive-IsNumbered, assign-IsNumbered,
}
use classic_cheese.Livestream.Comments.Calls.Outcome.{
  StageIsLive, KeepsLive, Stage-KeepsLive, Outcome, takes_id, takes_count, moves, advance-Advances,
}

pub record IsSound (w : World) : Type 0 where
  pub hub : IsValid w.service.hub
  pub live : All (λ (c : Call). StageIsLive w.service.hub.heap c.stage) w.calls
  pub ids : IsNumbered id_of w.service.seqs w.calls
  pub counts : IsNumbered count_of w.service.counters w.calls

abbrev AreLive : List Subscriber → List Call → Type 0
AreLive heap = All (λ (c : Call). StageIsLive heap c.stage)

AreLive-KeepsLive :
    (heap heap' : List Subscriber) (calls : List Call)
    → KeepsLive heap heap'
    → AreLive heap calls
    → AreLive heap' calls
AreLive-KeepsLive heap heap' [] k l = tt
AreLive-KeepsLive heap heap' (c ∷ cs) k l =
    (Stage-KeepsLive heap heap' c.stage k l.0, AreLive-KeepsLive heap heap' cs k l.1)

AreLive-set :
    (heap : List Subscriber) (calls : List Call) (i : ℕ) (c : Call)
    → StageIsLive heap c.stage
    → AreLive heap calls
    → AreLive heap (set calls i c)
AreLive-set heap [] i c h l = tt
AreLive-set heap (x ∷ xs) ℕ.zero c h l = (h, l.1)
AreLive-set heap (x ∷ xs) (ℕ.suc i) c h l = (l.0, AreLive-set heap xs i c h l.1)

-- A step of one call.
Outcome-IsSound :
    (w : World) (i : ℕ) (c : Call) (s' : Service) (t' : Stage)
    → IsSound w
    → get_elem? w.calls i ≡ some c
    → Outcome c.fields c.stage w.service s' t'
    → IsSound (record { service = s'; calls = set w.calls i (record c { stage = t' }) })
Outcome-IsSound w i c s' t' v e (takes_id before same after is_s l) = rw is_s (record {
  hub = v.hub;
  live = AreLive-set w.service.hub.heap w.calls i _ l v.live;
  ids = assign-IsNumbered id_of w.service.seqs w.calls i c t' e before after v.ids;
  counts = keep-IsNumbered count_of w.service.counters w.calls i c t' e same v.counts;
})
Outcome-IsSound w i c s' t' v e (takes_count before same after is_s l) = rw is_s (record {
  hub = v.hub;
  live = AreLive-set w.service.hub.heap w.calls i _ l v.live;
  ids = keep-IsNumbered id_of w.service.seqs w.calls i c t' e same v.ids;
  counts = assign-IsNumbered count_of w.service.counters w.calls i c t' e before after v.counts;
})
Outcome-IsSound w i c s' t' v e (moves same same' hub' is_s valid keeps l) = rw is_s (record {
  hub = valid;
  live =
      AreLive-set hub'.heap w.calls i _ l
        (AreLive-KeepsLive w.service.hub.heap hub'.heap w.calls keeps v.live);
  ids = keep-IsNumbered id_of w.service.seqs w.calls i c t' e same v.ids;
  counts = keep-IsNumbered count_of w.service.counters w.calls i c t' e same' v.counts;
})

-- A change of the registry alone.
hub-IsSound :
    (w : World) (hub' : Hub)
    → IsSound w
    → IsValid hub'
    → KeepsLive w.service.hub.heap hub'.heap
    → IsSound (record w { service = record (w.service) { hub = hub' } })
hub-IsSound w hub' v valid keeps = record {
  hub = valid;
  live = AreLive-KeepsLive w.service.hub.heap hub'.heap w.calls keeps v.live;
  ids = v.ids;
  counts = v.counts;
}

pub take_event-id : (s : Subscriber) → (take_event s).id ≡ s.id
unfolding take_event
take_event-id s = refl

subscribe-KeepsLive :
    (uuid room : String) (h : Hub) → KeepsLive h.heap (subscribe uuid room h).0.heap
unfolding subscribe
subscribe-KeepsLive uuid room h p (s, e) = (s, get_elem?_append_left h.heap _ p e)

start-IsSound : IsSound start
unfolding new_service total lookup
start-IsSound = record {
  hub = new_hub-IsValid;
  live = tt;
  ids = λ r small. (refl, none_out);
  counts = λ r small. (refl, none_out);
}
  where
    none_out : (v : ℤ) → 0 ≡ expected v 0
    none_out (pos ℕ.zero) = refl
    none_out (pos (ℕ.suc n)) = ground arith
    none_out (negsuc n) = refl

read-KeepsLive : (p : ℕ) (heap : List Subscriber) → KeepsLive heap (modify heap p take_event)
read-KeepsLive p heap q l = modify-IsLive take_event p q heap l

module _ (marshal : Comment → Option String) where
  go-IsSound :
      (w : World) (now i : ℕ) (c : Call) (s : Service) (t : Stage)
      → IsSound w
      → get_elem? w.calls i ≡ some c
      → advance marshal now c.fields c.stage w.service ≡ some (s, t)
      → IsSound (record { service = s; calls = set w.calls i (record c { stage = t }) })
  go-IsSound w now i c s t v e step =
      let l =
        All-get_elem (λ (c : Call). StageIsLive w.service.hub.heap c.stage) w.calls i v.live e in
      let (s', t', step', o) = advance-Advances marshal now c.fields w.service v.hub c.stage l in
      let same_s : s' ≡ s = ground arith in
      let same_t : t' ≡ t = ground arith in
      rw (← same_s, ← same_t) (Outcome-IsSound w i c s' t' v e o)

  pub Step-IsSound : {w w' : World} → Step marshal w w' → IsSound w → IsSound w'
  unfolding with_heap
  Step-IsSound {w} (arrive f g e) v = record {
    hub = v.hub;
    live = All-append _ w.calls (_ ∷ []) v.live (tt, tt);
    ids = arrive-IsNumbered id_of w.service.seqs w.calls _ refl v.ids;
    counts = arrive-IsNumbered count_of w.service.counters w.calls _ refl v.counts;
  }
  Step-IsSound {w} (go now i c s t e step) v = go-IsSound w now i c s t v e step
  Step-IsSound {w} (join uuid room) v =
      hub-IsSound w (subscribe uuid room w.service.hub).0 v
        (subscribe-IsValid uuid room w.service.hub v.hub)
        (subscribe-KeepsLive uuid room w.service.hub)
  Step-IsSound {w} (leave room p hub e) v =
      let (valid, same) = unsubscribe_inv room p w.service.hub hub v.hub e in
      hub-IsSound w hub v valid (λ q l. rw same l)
  Step-IsSound {w} (read p) v =
      hub-IsSound w (record (w.service.hub) { heap = modify w.service.hub.heap p take_event }) v
        (modify-IsValid take_event p w.service.hub take_event-id take_event-IsHealthy v.hub)
        (read-KeepsLive p w.service.hub.heap)

  pub Reach-IsSound : {w : World} → Reach marshal w → IsSound w
  Reach-IsSound here = start-IsSound
  Reach-IsSound (next r st) = Step-IsSound st (Reach-IsSound r)

one_if-le : (t : Stage) → one_if (count_of t) ≤ one_if (id_of t)
one_if-le checked = omega arith
one_if-le _ = omega arith

any_weight-le : (r : String) (c : Call) → any_weight count_of r c ≤ any_weight id_of r c
unfolding any_weight
any_weight-le r c = ground (arith, one_if-le c.stage)

module _ (marshal : Comment → Option String) (w : World) (reach : Reach marshal w) where
  -- In every interleaving of calls and connections, the comments of a room that have an id bear the
  -- ids from 1 up to their number, each once, and the counts that have been handed out are likewise
  -- 1 up to their number; the two counters of the room show these two numbers. (For fewer than 2 ^ 63
  -- comments in the room.)
  pub Reach-numbered :
      (room : String)
      → holders id_of room w.calls < two_63
      → Shows id_of w.service.seqs w.calls room × Shows count_of w.service.counters w.calls room
  Reach-numbered room small =
      let sound = Reach-IsSound marshal reach in
      let fewer =
        total-le (any_weight count_of room) (any_weight id_of room) w.calls (any_weight-le room) in
      (sound.ids room small, sound.counts room (omega (arith, fewer)))

  -- In every interleaving each call that is under way can take its next step: it never panics.
  pub Reach-advances :
      (now i : ℕ) (c : Call)
      → get_elem? w.calls i ≡ some c
      → (s : Service) × (t : Stage) × (advance marshal now c.fields c.stage w.service ≡ some (s, t))
  Reach-advances now i c e =
      let sound = Reach-IsSound marshal reach in
      let l =
        All-get_elem (λ (c : Call). StageIsLive w.service.hub.heap c.stage) w.calls i sound.live
          e in
      let (s, t, step, _) = advance-Advances marshal now c.fields w.service sound.hub c.stage l in
      (s, t, step)
