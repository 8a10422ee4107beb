-- ===== src/Livestream/Comments/Stream.antt =====
-- livestream-poc/server/internal/comments/handlers.go: `Stream`, the SSE feed of a room.
-- `open_stream` runs up to the loop. One round of the loop is `serve`, at the case that the `select`
-- chooses among those that are ready; the client and the ticker decide when theirs are.
pub mod Mailbox
pub mod Rounds
use classic_cheese.Prelude.{
  ℕ, ◌≡◌, ◌≢◌, ◌+◌, String, Bool, true, false, List, [], ◌∷◌, ◌++◌, Option, none, some, ite, arith,
  if◌then◌else◌, String_discrete,
}
use classic_cheese.Prelude.Int.{ℤ}
use classic_cheese.Prelude.Lists.{get_elem?, modify}
use classic_cheese.Http.{
  Reply, Headers, http_error, set_header, status_bad_request, status_internal_server_error,
}
use classic_cheese.Livestream.Comments.Hub.{Event, Subscriber, Hub, subscribe, unsubscribe}
use classic_cheese.Livestream.Comments.Service.{Service, count, count_event}
use classic_cheese.Livestream.Comments.Handlers.{write_event}
use classic_cheese.Livestream.Comments.Calls.{take_event}

-- An SSE connection: what has been written and flushed, and whether the handler still runs.
pub record Feed : Type 0 where
  pub room : String
  pub mailbox : ℕ
  pub headers : Headers
  pub out : List String
  pub open_ : Bool

pub data Opening : Type 0 where
  refused : Reply (Unit {0}) → Opening
  opened : Service → Feed → Opening

unfoldable pub stream_headers : Headers
stream_headers = set_header "X-Accel-Buffering" "no" (
    set_header "Connection" "keep-alive"
      (set_header "Cache-Control" "no-cache" (set_header "Content-Type" "text/event-stream" [])))

-- The subscription comes first, and then the count that primes the client. What other handlers do to
-- the service between the two is `meanwhile`.
unfoldable pub start_feed : String → String → (Service → Service) → Service → Opening
unfolding stream_headers
start_feed uuid room meanwhile s =
    let (hub, p) = subscribe uuid room s.hub in
    let (s', n) = count room (meanwhile (record s { hub = hub })) in
    opened s' (record {
      room = room;
      mailbox = p;
      headers = stream_headers;
      out = write_event (count_event n) ∷ [];
      open_ = true;
    })

unfoldable pub open_stream : String → String → (Service → Service) → Bool → Service → Opening
unfolding start_feed
open_stream uuid room meanwhile can_flush s =
    ite (String_discrete room "") (refused (http_error [] "room is required" status_bad_request)) (
      if can_flush
      then start_feed uuid room meanwhile s
      else refused (http_error [] "streaming unsupported" status_internal_server_error))

-- The cases of the `select`.
pub data Ready : Type 0 where
  done killed event tick : Ready

-- A handler that returns runs its deferred `Unsubscribe`.
unfoldable pub hang_up : Feed → Option Hub → Option (Feed × Hub)
hang_up c none = none
hang_up c (some h) = some (record c { open_ = false }, h)

unfoldable pub write_first : Feed → List Event → Feed
write_first c [] = c
write_first c (ev ∷ evs) = record c { out = c.out ++ write_event ev ∷ [] }

unfoldable pub pass_on : Feed → Option Subscriber → Hub → Option (Feed × Hub)
unfolding write_first
pass_on c none h = none
pass_on c (some s) h =
    some (write_first c s.events, record h { heap = modify h.heap c.mailbox take_event })

unfoldable pub keep_alive : String
keep_alive = ": keep-alive\n\n"

unfoldable pub serve : Ready → Feed → Hub → Option (Feed × Hub)
unfolding hang_up pass_on keep_alive
serve done c h = hang_up c (unsubscribe c.room c.mailbox h)
serve killed c h = hang_up c (unsubscribe c.room c.mailbox h)
serve event c h = pass_on c (get_elem? h.heap c.mailbox) h
serve tick c h = some (record c { out = c.out ++ keep_alive ∷ [] }, h)

-- Which cases the mailbox makes ready: a closed channel, or a buffered event.
abbrev pub IsReady : Subscriber → Ready → Type 0
IsReady s done = Unit
IsReady s killed = s.kill ≡ true
IsReady s event = s.events ≢ []
IsReady s tick = Unit
