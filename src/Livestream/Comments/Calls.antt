-- ===== src/Livestream/Comments/Calls.antt =====
-- Concurrent calls of `AddComment` and of the Hub's methods: service.go and hub.go.
-- A call is cut at each access to state that others share: a counter, the snapshot of `Publish`, one
-- send. `advance` runs a call to its next cut; `Step` interleaves the calls with connections that
-- come, read and leave. What `counterFor` does under its lock and the `Add` that follows are one
-- step, since the counter that a room has never changes its address. A new connection reads the
-- room's count, which may make the counter; a missing one reads as 0 all the same. `none` is a Go
-- panic.
pub mod Numbering
pub mod Outcome
pub mod Safety
pub mod Solo
use classic_cheese.Prelude.{ℕ, ◌≡◌, String, List, [], ◌∷◌, ◌++◌, Option, none, some}
use classic_cheese.Prelude.Int.{ℤ}
use classic_cheese.Prelude.Lists.{get_elem?, set, modify}
use classic_cheese.Livestream.Comments.Hub.{
  Event, Subscriber, Hub, targets, send, subscribe, unsubscribe, ◌>>=◌,
}
use classic_cheese.Livestream.Comments.Service.{
  Comment, Service, Fields, add_one, count_event, check, trim, ok, new_service,
}

-- How far a call has come.
pub data Stage : Type 0 where
  checked : Stage
  numbered : Comment → Stage
  telling : Comment → Event → List ℕ → Stage
  told : Comment → Stage
  counted : Comment → ℤ → Stage
  counting : Comment → ℤ → Event → List ℕ → Stage
  returned : Comment → ℤ → Stage

pub record Call : Type 0 where
  pub fields : Fields
  pub stage : Stage

pub record World : Type 0 where
  pub service : Service
  pub calls : List Call

unfoldable pub with_heap : Service → List Subscriber → Service
with_heap s heap = record s { hub = record (s.hub) { heap = heap } }

-- The oldest event leaves the mailbox.
abbrev pub drop_event : List Event → List Event
drop_event [] = []
drop_event (e ∷ es) = es

unfoldable pub take_event : Subscriber → Subscriber
take_event s = record s { events = drop_event s.events }

abbrev pub start : World
start = record { service = new_service; calls = [] }

module _ (marshal : Comment → Option String) where
  unfoldable pub start_telling : Comment → Option String → Fields → Service → Stage
  start_telling c none f s = told c
  start_telling c (some json) f s =
      telling c (record { name = "comment"; payload = json }) (targets s.hub f.room)

  unfoldable pub advance : ℕ → Fields → Stage → Service → Option (Service × Stage)
  unfolding add_one start_telling with_heap
  advance now f checked s =
      let (seqs, id) = add_one f.room s.seqs in
      some (
        record s { seqs = seqs },
        numbered (record { id = id; author = f.author; text = f.text; ts = now }),
      )
  advance now f (numbered c) s = some (s, start_telling c (marshal c) f s)
  advance now f (telling c ev []) s = some (s, told c)
  advance now f (telling c ev (p ∷ ps)) s = do
    heap ← send ev p s.hub.heap
    some (with_heap s heap, telling c ev ps)
  advance now f (told c) s =
      let (counters, n) = add_one f.room s.counters in
      some (record s { counters = counters }, counted c n)
  advance now f (counted c n) s = some (s, counting c n (count_event n) (targets s.hub f.room))
  advance now f (counting c n ev []) s = some (s, returned c n)
  advance now f (counting c n ev (p ∷ ps)) s = do
    heap ← send ev p s.hub.heap
    some (with_heap s heap, counting c n ev ps)
  advance now f (returned c n) s = some (s, returned c n)

  pub data Step (w : World) : World → Type 0 where
    arrive :
        (f g : Fields)
        → check (trim f) ≡ ok g
        → Step w (record w { calls = w.calls ++ record { fields = g; stage = checked } ∷ [] })
    go :
        (now i : ℕ) (c : Call) (s : Service) (t : Stage)
        → get_elem? w.calls i ≡ some c
        → advance now c.fields c.stage w.service ≡ some (s, t)
        → Step w (record { service = s; calls = set w.calls i (record c { stage = t }) })
    join :
        (uuid room : String)
        → Step w (record w {
          service = record (w.service) { hub = (subscribe uuid room w.service.hub).0 };
        })
    leave :
        (room : String) (p : ℕ) (hub : Hub)
        → unsubscribe room p w.service.hub ≡ some hub
        → Step w (record w { service = record (w.service) { hub = hub } })
    read :
        (p : ℕ)
        → Step w
            (record w { service = with_heap (w.service) (modify w.service.hub.heap p take_event) })

  pub data Reach : World → Type 0 where
    here : Reach start
    next : {w w' : World} → Reach w → Step w w' → Reach w'
