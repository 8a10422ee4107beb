-- ===== src/Livestream/Comments/Stream/Mailbox.antt =====
-- One mailbox between `Publish`, which offers, and the SSE handler, which takes: hub.go, lines 80 to
-- 86, and handlers.go, lines 81 to 94.
use classic_cheese.Prelude.{
  ◌≤◌, ◌≡◌, refl, ap, ◌∙◌, sym, String, false, List, [], ◌∷◌, ◌++◌, Option, none, some, arith, ltb,
  Bool-cases, inl, inr,
}
use mathlib.Core.List.{append_assoc, append-nil, Sublist, sublist-append_left}
use mathlib.Core.List.Sublist
use classic_cheese.Prelude.Lists.{length}
use classic_cheese.Livestream.Comments.Hub.{
  Event, Subscriber, IsHealthy, subscriber_buffer_size, offer,
}
use classic_cheese.Livestream.Comments.Hub.Publish.{receive, receive-IsHealthy, offer-receive}
use classic_cheese.Livestream.Comments.Calls.{take_event, drop_event}

pub data Turn : Type 0 where
  offered : Event → Turn
  taken : Turn

-- The event that a read hands to the handler.
abbrev pub first_event : List Event → List Event
first_event [] = []
first_event (e ∷ es) = e ∷ []

-- A mailbox and what its handler has read; `none` is a Go panic.
unfoldable pub with_read : List Event → Option Subscriber → Option (Subscriber × List Event)
with_read got none = none
with_read got (some s) = some (s, got)

unfoldable pub turn : Turn → Subscriber × List Event → Option (Subscriber × List Event)
unfolding with_read take_event
turn (offered ev) (s, got) = with_read got (offer ev s)
turn taken (s, got) = some (take_event s, got ++ first_event s.events)

unfoldable pub turns :
    List Turn → Option (Subscriber × List Event) → Option (Subscriber × List Event)
turns [] m = m
turns (t ∷ ts) none = none
turns (t ∷ ts) (some m) = turns ts (turn t m)

abbrev pub offers : List Turn → List Event
offers [] = []
offers (offered ev ∷ ts) = ev ∷ offers ts
offers (taken ∷ ts) = offers ts

-- What the handler has read, and what waits, after `sent` has been offered: in order and at most
-- once; and all of it, unless the mailbox was told to close.
pub record Delivers (sent : List Event) (s : Subscriber) (got : List Event) : Type 0 where
  pub healthy : IsHealthy s
  pub in_order : Sublist (got ++ s.events) sent
  pub lossless : s.kill ≡ false → got ++ s.events ≡ sent

receive-in_order :
    (ev : Event) (sent got : List Event) (s : Subscriber)
    → Sublist (got ++ s.events) sent
    → Sublist (got ++ (receive ev s).events) (sent ++ ev ∷ [])
unfolding receive
receive-in_order ev sent got s h =
    elim (Bool-cases (ltb (length s.events) subscriber_buffer_size)) [
      | inl e ↦
          rw e
            (rw (← append_assoc got s.events (ev ∷ [])) (Sublist.append h (Sublist.refl (ev ∷ []))))
      | inr e ↦ rw e (Sublist.trans h (sublist-append_left sent (ev ∷ [])))
    ]

receive-lossless :
    (ev : Event) (sent got : List Event) (s : Subscriber)
    → (s.kill ≡ false → got ++ s.events ≡ sent)
    → (receive ev s).kill ≡ false
    → got ++ (receive ev s).events ≡ sent ++ ev ∷ []
unfolding receive
receive-lossless ev sent got s h =
    elim (Bool-cases (ltb (length s.events) subscriber_buffer_size)) [
      | inl e ↦
          rw e
            (λ open_. sym (append_assoc got s.events (ev ∷ [])) ∙ ap (λ l. l ++ ev ∷ []) (h open_))
      | inr e ↦ rw e (λ closed. cc)
    ]

receive-Delivers :
    (ev : Event) (sent got : List Event) (s : Subscriber)
    → Delivers sent s got
    → Delivers (sent ++ ev ∷ []) (receive ev s) got
receive-Delivers ev sent got s d = record {
  healthy = receive-IsHealthy ev s d.healthy;
  in_order = receive-in_order ev sent got s d.in_order;
  lossless = receive-lossless ev sent got s d.lossless;
}

read-append :
    (got events : List Event) → (got ++ first_event events) ++ drop_event events ≡ got ++ events
read-append got [] = simp append-nil
read-append got (e ∷ es) = append_assoc got (e ∷ []) es

drop_event-le : (es : List Event) → length (drop_event es) ≤ length es
drop_event-le [] = omega arith
drop_event-le (e ∷ es) = omega arith

pub take_event-IsHealthy : (s : Subscriber) → IsHealthy s → IsHealthy (take_event s)
unfolding take_event
take_event-IsHealthy s h = (omega (arith, drop_event-le s.events, h.0), h.1)

take-Delivers :
    (sent got : List Event) (s : Subscriber)
    → Delivers sent s got
    → Delivers sent (take_event s) (got ++ first_event s.events)
unfolding take_event
take-Delivers sent got s d = record {
  healthy = take_event-IsHealthy s d.healthy;
  in_order = rw (read-append got s.events) d.in_order;
  lossless = λ open_. read-append got s.events ∙ d.lossless open_;
}

turns-Delivers :
    (ts : List Turn) (sent got : List Event) (s : Subscriber)
    → Delivers sent s got
    → (s' : Subscriber) × (got' : List Event) × (turns ts (some (s, got)) ≡ some (s', got'))
      × Delivers (sent ++ offers ts) s' got'
unfolding turns turn with_read
turns-Delivers [] sent got s d = (s, got, refl, rw (append-nil sent) d)
turns-Delivers (offered ev ∷ ts) sent got s d =
    let (s', got', e, d') =
      turns-Delivers ts (sent ++ ev ∷ []) got (receive ev s) (receive-Delivers ev sent got s d) in
    (
      s',
      got',
      rw (offer-receive ev s d.healthy) e,
      rw (← append_assoc sent (ev ∷ []) (offers ts)) d',
    )
turns-Delivers (taken ∷ ts) sent got s d =
    turns-Delivers ts sent (got ++ first_event s.events) (take_event s) (take-Delivers sent got s d)

abbrev pub new_mailbox : String → Subscriber
new_mailbox id = record { id = id; events = []; kill = false; once = false }

abbrev pub MailboxDelivers : String → List Turn → Type 0
MailboxDelivers id ts =
    (s : Subscriber) × (got : List Event) × (turns ts (some (new_mailbox id, [])) ≡ some (s, got))
    × Delivers (offers ts) s got

-- Whatever is offered to a new mailbox and read from it, in any order of turns, nothing panics, the
-- handler reads the events in the order in which they were offered and none twice, never more than
-- the buffer's size wait, and unless the mailbox was told to close no event is missing.
pub mailbox_delivers : (id : String) (ts : List Turn) → MailboxDelivers id ts
mailbox_delivers id ts =
    turns-Delivers ts [] [] (new_mailbox id) (record {
      healthy = (omega arith, refl);
      in_order = Sublist.refl [];
      lossless = λ open_. refl;
    })
