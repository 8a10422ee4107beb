-- ===== src/Livestream/Comments/Examples.antt =====
-- The theorems about package comments at concrete inputs, and runs of its functions.
use classic_cheese.Prelude.{
  ◌≡◌, refl, String, true, false, [], ◌∷◌, Option, none, some, arith, String_discrete, ne_by_test,
}
use classic_cheese.Prelude.Int.{pos, wrap64, ◌+ℤ◌}
use classic_cheese.Prelude.Lists.{get_elem?, has, total}
use classic_cheese.Prelude.Dict.{lookup, insert}
use classic_cheese.Prelude.Text.{trim_space, is_empty}
use classic_cheese.Livestream.Comments.Hub.{
  Event, Subscriber, Hub, new_hub, subscribe, publish, send_all,
}
use classic_cheese.Livestream.Comments.Hub.Order.{IsValid, new_hub-IsValid}
use classic_cheese.Livestream.Comments.Hub.Registry.{subscribe-IsValid, Subscribes, subscribe_lem}
use classic_cheese.Livestream.Comments.Hub.Unsubscribe.{Unsubscribes, unsubscribe-Leaves}
use classic_cheese.Livestream.Comments.Hub.Fanout.{
  Publishes, publish_lem, publish_elsewhere, after_publish, publish_total,
}
use classic_cheese.Livestream.Comments.Service.{
  Comment, Service, Fields, new_service, text_required, ok, err, check, add_comment, trim,
  add_valid, add_one,
}
use classic_cheese.Livestream.Comments.Service.AddComment.{
  Accepts, add_comment_accepted, add_comment_rejected,
}
use classic_cheese.Livestream.Comments.Calls.{
  Stage, checked, numbered, Call, World, start, Reach, here, next, arrive, go, advance,
}
use classic_cheese.Livestream.Comments.Calls.Numbering.{id_of, count_of, Shows, any_weight}
use classic_cheese.Livestream.Comments.Calls.Safety.{Reach-numbered, Reach-advances}
use classic_cheese.Livestream.Comments.Calls.Solo.{RunsAdding, checked-RunsAdding}
use classic_cheese.Livestream.Comments.Handlers.{
  post_comment, Owes, IsRefused, post_comment-Owes, post_comment_method,
}
use classic_cheese.Livestream.Comments.Stream.{Feed, done}
use classic_cheese.Livestream.Comments.Stream.Mailbox.{
  MailboxDelivers, mailbox_delivers, offered, taken,
}
use classic_cheese.Livestream.Comments.Stream.Rounds.{Serves, serve-Serves}

-- Two rooms with a viewer each.
abbrev one_viewer : Hub
one_viewer = (subscribe "u1" "cheese" new_hub).0

abbrev two_rooms : Hub
two_rooms = (subscribe "u2" "wine" one_viewer).0

one_viewer-IsValid : IsValid one_viewer
one_viewer-IsValid = subscribe-IsValid "u1" "cheese" new_hub new_hub-IsValid

two_rooms-IsValid : IsValid two_rooms
two_rooms-IsValid = subscribe-IsValid "u2" "wine" one_viewer one_viewer-IsValid

abbrev hello : Event
hello = record { name = "comment"; payload = "hello" }

abbrev viewer : Subscriber
viewer = record { id = "u1"; events = []; kill = false; once = false }

publish_lem_example : Publishes "cheese" hello two_rooms
publish_lem_example = publish_lem "cheese" hello two_rooms two_rooms-IsValid

publish_elsewhere_example :
    get_elem? (after_publish "cheese" hello two_rooms).heap 1 ≡ get_elem? two_rooms.heap 1
unfolding subscribe new_hub lookup insert String_discrete has
publish_elsewhere_example =
    publish_elsewhere "cheese" "wine" hello two_rooms _ 1 two_rooms-IsValid
      (publish_total "cheese" hello two_rooms two_rooms-IsValid) (ne_by_test "cheese" "wine" refl)
      refl

unsubscribe-Leaves_example : Unsubscribes "cheese" 0 two_rooms "u1"
unfolding subscribe new_hub
unsubscribe-Leaves_example = unsubscribe-Leaves "cheese" 0 two_rooms viewer two_rooms-IsValid refl

subscribe_lem_example :
    Subscribes "u2" "wine" one_viewer
      (subscribe "u2" "wine" one_viewer).0
      (subscribe "u2" "wine" one_viewer).1
subscribe_lem_example = subscribe_lem "u2" "wine" one_viewer one_viewer-IsValid

abbrev plain : Comment → Option String
plain c = some c.text

abbrev greeting : Fields
greeting = record { room = " cheese"; author = "ann "; text = "hi" }

abbrev blank : Fields
blank = record { room = "cheese"; author = "ann"; text = "  " }

abbrev idle : Service
idle = record new_service { hub = one_viewer }

add_comment_accepted_example : Accepts plain 7 greeting idle
unfolding trim trim_space
add_comment_accepted_example = add_comment_accepted plain 7 greeting idle one_viewer-IsValid (
  ne_by_test "cheese" "" refl,
  ne_by_test "ann" "" refl,
  ne_by_test "hi" "" refl,
  omega arith,
  omega arith,
)

add_comment_rejected_example : add_comment plain 7 blank idle ≡ some (idle, err text_required)
unfolding trim trim_space
add_comment_rejected_example =
    add_comment_rejected plain 7 blank text_required idle
      (ne_by_test "cheese" "" refl, ne_by_test "ann" "" refl, refl)

-- Two calls for one room, of which the first has taken its id.
abbrev trimmed : Fields
trimmed = record { room = "cheese"; author = "ann"; text = "hi" }

abbrev waiting : Call
waiting = record { fields = trimmed; stage = checked }

greeting_passes : check (trim greeting) ≡ ok trimmed
unfolding check trim trim_space is_empty
greeting_passes = refl

abbrev arrived : World
arrived = record start { calls = waiting ∷ waiting ∷ [] }

arrived-Reach : Reach plain arrived
arrived-Reach =
    next (next here (arrive greeting trimmed greeting_passes))
      (arrive greeting trimmed greeting_passes)

abbrev first_comment : Comment
first_comment = record { id = pos 1; author = "ann"; text = "hi"; ts = 7 }

abbrev one_numbered : World
one_numbered = record {
  service = record new_service { seqs = ("cheese", pos 1) ∷ [] };
  calls = record waiting { stage = numbered first_comment } ∷ waiting ∷ [];
}

takes_first_id :
    advance plain 7 trimmed checked new_service
    ≡ some (one_numbered.service, numbered first_comment)
unfolding advance add_one new_service lookup insert String_discrete wrap64 ◌+ℤ◌
takes_first_id = refl

one_numbered-Reach : Reach plain one_numbered
one_numbered-Reach =
    next arrived-Reach
      (go 7 0 waiting one_numbered.service (numbered first_comment) refl takes_first_id)

Reach-numbered_example :
    Shows id_of one_numbered.service.seqs one_numbered.calls "cheese"
    × Shows count_of one_numbered.service.counters one_numbered.calls "cheese"
Reach-numbered_example =
    Reach-numbered plain one_numbered one_numbered-Reach "cheese"
      (unfold total any_weight String_discrete in omega arith)

Reach-advances_example :
    (s : Service) × (t : Stage) × (advance plain 8 trimmed
        (numbered first_comment)
        one_numbered.service
      ≡ some (s, t))
Reach-advances_example =
    Reach-advances plain one_numbered one_numbered-Reach 8 0
      (record waiting { stage = numbered first_comment }) refl

-- The whole of the first call, alone.
abbrev served_alone : Service
served_alone = record {
  hub = new_hub;
  seqs = ("cheese", pos 1) ∷ [];
  counters = ("cheese", pos 1) ∷ [];
}

first_alone : add_valid plain 7 trimmed new_service ≡ some (served_alone, first_comment, pos 1)
unfolding add_valid add_one new_service lookup insert String_discrete wrap64 ◌+ℤ◌ publish send_all
    new_hub
first_alone = refl

checked-RunsAdding_example : RunsAdding plain 7 trimmed idle
checked-RunsAdding_example = checked-RunsAdding plain 7 trimmed idle one_viewer-IsValid

post_comment-Owes_example :
    Owes plain 7 (some blank) idle (post_comment plain 7 "POST" (some blank) idle)
post_comment-Owes_example = post_comment-Owes plain 7 (some blank) idle one_viewer-IsValid

post_comment_method_example : IsRefused plain 7 idle (post_comment plain 7 "PUT" none idle) 405
post_comment_method_example =
    post_comment_method plain 7 "PUT" none idle (ne_by_test "PUT" "POST" refl)

abbrev viewer_feed : Feed
viewer_feed = record { room = "cheese"; mailbox = 0; headers = []; out = []; open_ = true }

serve-Serves_example : Serves done viewer viewer_feed two_rooms
unfolding subscribe new_hub
serve-Serves_example = serve-Serves done viewer_feed two_rooms viewer two_rooms-IsValid refl

-- Somebody else's comment between the subscription and the priming.
abbrev hello_meanwhile : Service → Service
hello_meanwhile s = record s { counters = ("cheese", pos 1) ∷ s.counters }

mailbox_delivers_example : MailboxDelivers "u1" (offered hello ∷ offered hello ∷ taken ∷ [])
mailbox_delivers_example = mailbox_delivers "u1" (offered hello ∷ offered hello ∷ taken ∷ [])
