-- ===== src/Livestream/Comments/Calls/Outcome.antt =====
-- What one step of a call does: it takes an id, it takes a count, or it moves on.
use classic_cheese.Prelude.{ℕ, ◌≡◌, refl, String, List, [], ◌∷◌, Option, none, some}
use classic_cheese.Prelude.Lists.{modify, All}
use classic_cheese.Livestream.Comments.Hub.{Event, Subscriber, Hub, targets}
use classic_cheese.Livestream.Comments.Hub.Publish.{
  receive, receive-id, receive-IsHealthy, send-modify, IsLive, IsLive-modify, targets-IsLive,
}
use classic_cheese.Livestream.Comments.Hub.Order.{IsValid, modify-IsValid, conns_of-AreConns}
use classic_cheese.Livestream.Comments.Service.{Comment, Service, Fields, add_one}
use classic_cheese.Livestream.Comments.Calls.{
  Stage, checked, numbered, telling, told, counted, counting, returned, with_heap, start_telling,
  advance,
}
use classic_cheese.Livestream.Comments.Calls.Numbering.{id_of, count_of}

-- The mailboxes that the rest of a loop will serve exist.
abbrev pub StageIsLive : List Subscriber → Stage → Type 0
StageIsLive heap (telling c ev ps) = All (IsLive heap) ps
StageIsLive heap (counting c n ev ps) = All (IsLive heap) ps
StageIsLive heap _ = Unit

abbrev pub KeepsLive : List Subscriber → List Subscriber → Type 0
KeepsLive heap heap' = (p : ℕ) → IsLive heap p → IsLive heap' p

pub All-KeepsLive :
    (heap heap' : List Subscriber) (ps : List ℕ)
    → KeepsLive heap heap'
    → All (IsLive heap) ps
    → All (IsLive heap') ps
All-KeepsLive heap heap' [] k l = tt
All-KeepsLive heap heap' (p ∷ ps) k l = (k p l.0, All-KeepsLive heap heap' ps k l.1)

pub Stage-KeepsLive :
    (heap heap' : List Subscriber) (t : Stage)
    → KeepsLive heap heap'
    → StageIsLive heap t
    → StageIsLive heap' t
Stage-KeepsLive heap heap' (telling c ev ps) k l = All-KeepsLive heap heap' ps k l
Stage-KeepsLive heap heap' (counting c n ev ps) k l = All-KeepsLive heap heap' ps k l
Stage-KeepsLive heap heap' _ k l = tt

pub data Outcome (f : Fields) (t : Stage) (s s' : Service) (t' : Stage) : Type 0 where
  takes_id :
      id_of t ≡ none
      → count_of t' ≡ count_of t
      → id_of t' ≡ some (add_one f.room s.seqs).1
      → s' ≡ record s { seqs = (add_one f.room s.seqs).0 }
      → StageIsLive s.hub.heap t'
      → Outcome f t s s' t'
  takes_count :
      count_of t ≡ none
      → id_of t' ≡ id_of t
      → count_of t' ≡ some (add_one f.room s.counters).1
      → s' ≡ record s { counters = (add_one f.room s.counters).0 }
      → StageIsLive s.hub.heap t'
      → Outcome f t s s' t'
  moves :
      id_of t' ≡ id_of t
      → count_of t' ≡ count_of t
      → (hub' : Hub) → s' ≡ record s { hub = hub' }
      → IsValid hub'
      → KeepsLive s.hub.heap hub'.heap
      → StageIsLive hub'.heap t'
      → Outcome f t s s' t'

-- The mailboxes of a snapshot exist.
pub snapshot-IsLive : (h : Hub) (room : String) → IsValid h → All (IsLive h.heap) (targets h room)
snapshot-IsLive h room v = targets-IsLive h.heap _ (conns_of-AreConns h room v).1

abbrev served : Event → ℕ → Hub → Hub
served ev p h = record h { heap = modify h.heap p (receive ev) }

served-IsValid : (ev : Event) (p : ℕ) (h : Hub) → IsValid h → IsValid (served ev p h)
served-IsValid ev p h v = modify-IsValid (receive ev) p h (receive-id ev) (receive-IsHealthy ev) v

module _ (marshal : Comment → Option String) (now : ℕ) (f : Fields) (s : Service)
    (v : IsValid s.hub) where
  abbrev pub Advances : Stage → Type 0
  Advances t =
      (s' : Service) × (t' : Stage) × (advance marshal now f t s ≡ some (s', t'))
      × Outcome f t s s' t'

  start_telling-Outcome :
      (c : Comment) (o : Option String) → Outcome f (numbered c) s s (start_telling marshal c o f s)
  unfolding start_telling
  start_telling-Outcome c none = moves refl refl s.hub refl v (λ p l. l) tt
  start_telling-Outcome c (some json) =
      moves refl refl s.hub refl v (λ p l. l) (snapshot-IsLive s.hub f.room v)

  -- A call never panics, and does one of three things.
  pub advance-Advances : (t : Stage) → StageIsLive s.hub.heap t → Advances t
  unfolding advance
  advance-Advances checked l = (_, _, refl, takes_id refl refl refl refl tt)
  advance-Advances (numbered c) l = (_, _, refl, start_telling-Outcome c (marshal c))
  advance-Advances (telling c ev []) l = (_, _, refl, moves refl refl s.hub refl v (λ p l. l) tt)
  advance-Advances (telling c ev (p ∷ ps)) l =
      let heap' = modify s.hub.heap p (receive ev) in
      (
        with_heap s heap',
        telling c ev ps,
        rw (send-modify ev p s.hub.heap v.healthy l.0.1),
        moves refl refl (served ev p s.hub) refl (served-IsValid ev p s.hub v)
            (λ q. IsLive-modify ev p q s.hub.heap)
            (All-KeepsLive s.hub.heap heap' ps (λ q. IsLive-modify ev p q s.hub.heap) l.1),
      )
  advance-Advances (told c) l = (_, _, refl, takes_count refl refl refl refl tt)
  advance-Advances (counted c n) l =
      (_, _, refl, moves refl refl s.hub refl v (λ p l. l) (snapshot-IsLive s.hub f.room v))
  advance-Advances (counting c n ev []) l = (_, _, refl, moves refl refl s.hub refl v (λ p l. l) tt)
  advance-Advances (counting c n ev (p ∷ ps)) l =
      let heap' = modify s.hub.heap p (receive ev) in
      (
        with_heap s heap',
        counting c n ev ps,
        rw (send-modify ev p s.hub.heap v.healthy l.0.1),
        moves refl refl (served ev p s.hub) refl (served-IsValid ev p s.hub v)
            (λ q. IsLive-modify ev p q s.hub.heap)
            (All-KeepsLive s.hub.heap heap' ps (λ q. IsLive-modify ev p q s.hub.heap) l.1),
      )
  advance-Advances (returned c n) l = (_, _, refl, moves refl refl s.hub refl v (λ p l. l) tt)
