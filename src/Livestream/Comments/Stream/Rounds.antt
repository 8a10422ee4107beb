-- ===== src/Livestream/Comments/Stream/Rounds.antt =====
-- The SSE handler over a registry in order: handlers.go, lines 50 to 96.
use classic_cheese.Prelude.{◌≡◌, refl, sym, String, true, false, List, [], ◌∷◌, ◌++◌, map, some}
use mathlib.Core.List.{append-nil}
use classic_cheese.Prelude.Lists.{get_elem?, modify, get_elem?-modify_self}
use classic_cheese.Livestream.Comments.Hub.{Event, Subscriber, Hub}
use classic_cheese.Livestream.Comments.Hub.Order.{IsValid, modify-IsValid}
use classic_cheese.Livestream.Comments.Hub.Registry.{Subscribes}
use classic_cheese.Livestream.Comments.Hub.Unsubscribe.{Leaves, unsubscribe-Leaves}
use classic_cheese.Livestream.Comments.Service.{Service, count_event, value_at}
use classic_cheese.Livestream.Comments.Handlers.{write_event}
use classic_cheese.Livestream.Comments.Calls.{take_event}
use classic_cheese.Livestream.Comments.Calls.Safety.{take_event-id}
use classic_cheese.Livestream.Comments.Stream.{
  Feed, opened, open_stream, Ready, done, killed, event, tick, serve, hang_up, pass_on, write_first,
  keep_alive,
}
use classic_cheese.Livestream.Comments.Stream.Mailbox.{first_event, take_event-IsHealthy}

-- What a round of the loop does, at each case of the `select`.
abbrev pub Does : Ready → Subscriber → Feed → Hub → Feed → Hub → Type 0
Does done s c h c' h' = (c'.open_ ≡ false) × (c'.out ≡ c.out) × Leaves h c.room s.id h'
Does killed s c h c' h' = (c'.open_ ≡ false) × (c'.out ≡ c.out) × Leaves h c.room s.id h'
Does event s c h c' h' =
    (c'.open_ ≡ c.open_)
    × (c'.out ≡ c.out ++ map write_event (first_event s.events))
    × (get_elem? h'.heap c.mailbox ≡ some (take_event s))
    × (h'.rooms ≡ h.rooms)
Does tick s c h c' h' = (c'.open_ ≡ c.open_) × (c'.out ≡ c.out ++ keep_alive ∷ []) × (h' ≡ h)

abbrev pub Serves : Ready → Subscriber → Feed → Hub → Type 0
Serves r s c h =
    (c' : Feed) × (h' : Hub) × (serve r c h ≡ some (c', h')) × IsValid h' × Does r s c h c' h'

write_first-out :
    (c : Feed) (es : List Event)
    → (write_first c es).out ≡ c.out ++ map write_event (first_event es)
unfolding write_first
write_first-out c [] = sym (append-nil c.out)
write_first-out c (e ∷ es) = refl

write_first-open : (c : Feed) (es : List Event) → (write_first c es).open_ ≡ c.open_
unfolding write_first
write_first-open c [] = refl
write_first-open c (e ∷ es) = refl

-- No round panics or puts the registry out of order. A handler that returns has left its room; an
-- event that is read is written and leaves the mailbox.
pub serve-Serves :
    (r : Ready) (c : Feed) (h : Hub) (s : Subscriber)
    → IsValid h
    → get_elem? h.heap c.mailbox ≡ some s
    → Serves r s c h
unfolding serve hang_up pass_on
serve-Serves done c h s v e =
    let (h', left, l) = unsubscribe-Leaves c.room c.mailbox h s v e in
    (record c { open_ = false }, h', rw left, l.0, (refl, refl, l))
serve-Serves killed c h s v e =
    let (h', left, l) = unsubscribe-Leaves c.room c.mailbox h s v e in
    (record c { open_ = false }, h', rw left, l.0, (refl, refl, l))
serve-Serves event c h s v e = (
  write_first c s.events,
  record h { heap = modify h.heap c.mailbox take_event },
  rw e,
  modify-IsValid take_event c.mailbox h take_event-id take_event-IsHealthy v,
  (
    write_first-open c s.events,
    write_first-out c s.events,
    get_elem?-modify_self h.heap c.mailbox take_event e,
    refl,
  ),
)
serve-Serves tick c h s v e =
    (record c { out = c.out ++ keep_alive ∷ [] }, h, refl, v, (refl, refl, refl))

-- A feed that has just been opened, when others have done `meanwhile` between the two steps.
pub record Opens (uuid room : String) (meanwhile : Service → Service) (s s' : Service) (c : Feed)
    : Type 0 where
  pub its_room : c.room ≡ room
  pub running : c.open_ ≡ true
  -- the service when the others see the new connection
  pub joined : Service
  pub joins : Subscribes uuid room s.hub joined.hub c.mailbox
  pub same_numbers : (joined.seqs ≡ s.seqs) × (joined.counters ≡ s.counters)
  pub primed : c.out ≡ write_event (count_event (value_at room (meanwhile joined).counters)) ∷ []
  pub same_hub : s'.hub ≡ (meanwhile joined).hub
  pub same_counts : (r : String) → value_at r s'.counters ≡ value_at r (meanwhile joined).counters

abbrev pub OpensStream : String → String → (Service → Service) → Service → Type 0
OpensStream uuid room meanwhile s =
    (s' : Service) × (c : Feed) × (open_stream uuid room meanwhile true s ≡ opened s' c)
    × Opens uuid room meanwhile s s' c
