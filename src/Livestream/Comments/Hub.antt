-- ===== src/Livestream/Comments/Hub.antt =====
-- livestream-poc/server/internal/comments/hub.go and types.go.
-- Subscribers are shared by pointer, so they live in a heap: a pointer is an index into `heap`, and
-- `rooms` maps a room to its connections, each an id and a pointer. A method of the Hub is the code
-- under its lock; `publish` is the snapshot under the read lock and then one send for each target,
-- which the functions below keep apart. `none` is a Go panic. The order in which Go ranges over a
-- map is open: the model goes in the order of the list.
pub mod Publish
pub mod Order
pub mod Registry
pub mod Unsubscribe
pub mod Fanout
use classic_cheese.Prelude.{
  ℕ, suc, ◌+◌, ◌≤◌, ◌<◌, ◌≡◌, String, Bool, true, false, List, [], ◌∷◌, ◌++◌, map, Option, none,
  some, ltb, if◌then◌else◌, String_discrete,
}
use classic_cheese.Prelude.Lists.{length, get_elem?, set, All}
use classic_cheese.Prelude.Dict.{lookup, insert, erase}

pub record Event : Type 0 where
  pub name : String
  pub payload : String

abbrev pub subscriber_buffer_size : ℕ
subscriber_buffer_size = 32

-- `events` is the buffered channel, oldest first; `kill` says whether the channel `kill` is closed;
-- `once` whether the `sync.Once` has run.
pub record Subscriber : Type 0 where
  pub id : String
  pub events : List Event
  pub kill : Bool
  pub once : Bool

pub record Hub : Type 0 where
  pub rooms : List (String × List (String × ℕ))
  pub heap : List Subscriber

unfoldable pub new_hub : Hub
new_hub = record { rooms = []; heap = [] }

-- `close(s.kill)` panics on a closed channel.
unfoldable pub close_kill : Subscriber → Option Subscriber
close_kill s = if s.kill then none else some (record s { kill = true })

unfoldable pub mark_done : Option Subscriber → Option Subscriber
mark_done none = none
mark_done (some s) = some (record s { once = true })

unfoldable pub drop : Subscriber → Option Subscriber
unfolding close_kill mark_done
drop s = if s.once then some s else mark_done (close_kill s)

abbrev pub or_empty : Option (List (String × ℕ)) → List (String × ℕ)
or_empty none = []
or_empty (some conns) = conns

-- `h.rooms[room]`, with nil for a missing room.
abbrev pub conns_of : Hub → String → List (String × ℕ)
conns_of h room = or_empty (lookup String_discrete room h.rooms)

-- The new mailbox has the given id; its pointer is the result.
unfoldable pub subscribe : String → String → Hub → Hub × ℕ
subscribe uuid room h =
    let p = length h.heap in
    let s : Subscriber = record { id = uuid; events = []; kill = false; once = false } in
    (
      record {
        rooms =
            insert String_discrete room (insert String_discrete uuid p (conns_of h room)) h.rooms;
        heap = h.heap ++ s ∷ [];
      },
      p,
    )

unfoldable pub put_conns : String → List (String × ℕ) → Hub → Hub
put_conns room [] h = record h { rooms = erase String_discrete room h.rooms }
put_conns room (c ∷ cs) h = record h { rooms = insert String_discrete room (c ∷ cs) h.rooms }

unfoldable pub remove_conn : String → String → Option (List (String × ℕ)) → Hub → Hub
unfolding put_conns
remove_conn room id none h = h
remove_conn room id (some conns) h = put_conns room (erase String_discrete id conns) h

-- The handler holds the mailbox by its pointer; the id is read from there.
unfoldable pub unsubscribe_at : Option Subscriber → String → Hub → Option Hub
unfolding remove_conn
unsubscribe_at none room h = none
unsubscribe_at (some s) room h =
    some (remove_conn room s.id (lookup String_discrete room h.rooms) h)

unfoldable pub unsubscribe : String → ℕ → Hub → Option Hub
unfolding unsubscribe_at
unsubscribe room p h = unsubscribe_at (get_elem? h.heap p) room h

-- The snapshot of `Publish`.
abbrev pub targets : Hub → String → List ℕ
targets h room = map (λ c. c.1) (conns_of h room)

-- The `select` of `Publish`: send if there is room in the buffer, or else drop the subscriber.
unfoldable pub offer : Event → Subscriber → Option Subscriber
unfolding drop
offer ev s =
    if ltb (length s.events) subscriber_buffer_size
    then some (record s { events = s.events ++ ev ∷ [] })
    else drop s

unfoldable pub store : List Subscriber → ℕ → Option Subscriber → Option (List Subscriber)
store heap p none = none
store heap p (some s) = some (set heap p s)

unfoldable pub offer_at : Event → Option Subscriber → Option Subscriber
unfolding offer
offer_at ev none = none
offer_at ev (some s) = offer ev s

-- One round of the loop of `Publish`.
unfoldable pub send : Event → ℕ → List Subscriber → Option (List Subscriber)
unfolding store offer_at
send ev p heap = store heap p (offer_at ev (get_elem? heap p))

infixl 5 ◌>>=◌
abbrev pub ◌>>=◌ : {A B : Type 0} → Option A → (A → Option B) → Option B
none >>= f = none
some a >>= f = f a

unfoldable pub send_all : Event → List ℕ → List Subscriber → Option (List Subscriber)
unfolding send
send_all ev [] heap = some heap
send_all ev (p ∷ ps) heap = do heap' ← send ev p heap; send_all ev ps heap'

unfoldable pub publish : String → Event → Hub → Option Hub
unfolding send_all
publish room ev h = do heap ← send_all ev (targets h room) h.heap; some (record h { heap = heap })

-- A mailbox between two steps: never more events than the buffer holds, and the channel `kill` is
-- closed exactly if the `sync.Once` has run.
abbrev pub IsHealthy : Subscriber → Type 0
IsHealthy s = (length s.events ≤ subscriber_buffer_size) × (s.kill ≡ s.once)

-- The mailbox that a connection points to bears the connection's id.
abbrev pub Points : List Subscriber → String × ℕ → Type 0
Points heap (id, p) = (s : Subscriber) × (get_elem? heap p ≡ some s) × (s.id ≡ id)

abbrev pub IsNonempty : List (String × ℕ) → Type 0
IsNonempty [] = ⊥
IsNonempty (c ∷ cs) = Unit
