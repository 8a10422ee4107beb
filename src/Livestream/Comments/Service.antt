-- ===== src/Livestream/Comments/Service.antt =====
-- livestream-poc/server/internal/comments/service.go, and the type Comment of types.go.
-- A `*atomic.Int64` is reached only through its map, so a map from rooms to values stands for it.
-- The time and encoding/json's `Marshal` are arguments; `none` is a Go panic.
pub mod Validate
pub mod Counting
pub mod AddComment
use Prim.Native.String.{len}
use classic_cheese.Prelude.{
  ℕ, ◌≡◌, String, Bool, true, false, List, [], ◌∷◌, Option, none, some, ltb, if◌then◌else◌,
  String_discrete,
}
use classic_cheese.Prelude.Int.{ℤ, pos, ◌+ℤ◌, wrap64}
use classic_cheese.Prelude.Dict.{lookup, insert}
use classic_cheese.Prelude.Text.{is_empty, trim_space}
use classic_cheese.Prelude.Decimal.{itoa}
use classic_cheese.Livestream.Comments.Hub.{Hub, Event, new_hub, publish, ◌>>=◌}

-- The time stamp is an instant in nanoseconds.
pub record Comment : Type 0 where
  pub id : ℤ
  pub author : String
  pub text : String
  pub ts : ℕ

abbrev pub max_author_len : ℕ
max_author_len = 64

abbrev pub max_text_len : ℕ
max_text_len = 500

abbrev pub Counters : Type 0
Counters = List (String × ℤ)

pub record Service : Type 0 where
  pub hub : Hub
  pub seqs : Counters
  pub counters : Counters

unfoldable pub new_service : Service
new_service = record { hub = new_hub; seqs = []; counters = [] }

-- The counter is made when it is first asked for.
unfoldable pub make_counter : String → Option ℤ → Counters → Counters
make_counter room none m = insert String_discrete room (pos 0) m
make_counter room (some n) m = m

unfoldable pub counter_for : String → Counters → Counters
unfolding make_counter
counter_for room m = make_counter room (lookup String_discrete room m) m

abbrev pub or_zero : Option ℤ → ℤ
or_zero none = pos 0
or_zero (some n) = n

abbrev pub value_at : String → Counters → ℤ
value_at room m = or_zero (lookup String_discrete room m)

-- `s.counterFor(m, room).Add(1)`, with the new value.
unfoldable pub add_one : String → Counters → Counters × ℤ
unfolding counter_for
add_one room m =
    let made = counter_for room m in
    let next = wrap64 (value_at room made +ℤ pos 1) in (insert String_discrete room next made, next)

pub data AddError : Type 0 where
  video_id_required author_required text_required author_too_long text_too_long : AddError

pub data Result {ℓ} (A : Type ℓ) : Type ℓ where
  ok : A → Result A
  err : AddError → Result A

-- The trimmed fields of a comment.
pub record Fields : Type 0 where
  pub room : String
  pub author : String
  pub text : String

unfoldable pub check : Fields → Result Fields
check f =
    if is_empty f.room
    then err video_id_required
    else if is_empty f.author
    then err author_required
    else if is_empty f.text
    then err text_required
    else if ltb max_author_len (len f.author)
    then err author_too_long
    else if ltb max_text_len (len f.text)
    then err text_too_long
    else ok f

unfoldable pub trim : Fields → Fields
trim f = record { room = trim_space f.room; author = trim_space f.author; text = trim_space f.text }

unfoldable pub count_event : ℤ → Event
count_event n = record { name = "count"; payload = itoa n }

-- An encoding error keeps the comment from the subscribers, and is not reported.
unfoldable pub publish_comment : Option String → String → Hub → Option Hub
publish_comment none room hub = some hub
publish_comment (some json) room hub =
    publish room (record { name = "comment"; payload = json }) hub

unfoldable pub finish : Option (Service × Comment × ℤ) → Option (Service × Result (Comment × ℤ))
finish none = none
finish (some (s, c, count)) = some (s, ok (c, count))

module _ (marshal : Comment → Option String) where
  -- `AddComment` from the first counter on.
  unfoldable pub add_valid : ℕ → Fields → Service → Option (Service × Comment × ℤ)
  unfolding add_one publish_comment count_event
  add_valid now f s =
      let (seqs, id) = add_one f.room s.seqs in
      let c : Comment = record { id = id; author = f.author; text = f.text; ts = now } in
      do
        hub ← publish_comment (marshal c) f.room s.hub
        let (counters, count) = add_one f.room s.counters
        hub' ← publish f.room (count_event count) hub
        some (record { hub = hub'; seqs = seqs; counters = counters }, c, count)

  unfoldable pub add_checked : ℕ → Result Fields → Service → Option (Service × Result (Comment × ℤ))
  unfolding add_valid finish
  add_checked now (err e) s = some (s, err e)
  add_checked now (ok f) s = finish (add_valid now f s)

  unfoldable pub add_comment : ℕ → Fields → Service → Option (Service × Result (Comment × ℤ))
  unfolding add_checked check trim
  add_comment now f s = add_checked now (check (trim f)) s

-- `Count`, which makes the counter too.
unfoldable pub count : String → Service → Service × ℤ
unfolding counter_for
count room s =
    let made = counter_for room s.counters in (record s { counters = made }, value_at room made)
