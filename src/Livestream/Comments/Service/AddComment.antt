-- ===== src/Livestream/Comments/Service/AddComment.antt =====
-- `AddComment` on an otherwise idle service: service.go, lines 49 to 81.
use mathlib.Core.Option
use classic_cheese.Prelude.{
  ℕ, ◌≡◌, ◌≢◌, refl, ◌∙◌, String, Option, none, some, if◌then◌else◌, Bool-cases, inl, inr,
}
use classic_cheese.Prelude.Int.{ℤ, pos, ◌+ℤ◌, wrap64}
use classic_cheese.Prelude.Lists.{get_elem?, has}
use classic_cheese.Livestream.Comments.Hub.{Event, Subscriber, Hub, targets}
use classic_cheese.Livestream.Comments.Hub.Publish.{receive}
use classic_cheese.Livestream.Comments.Hub.Order.{IsValid}
use classic_cheese.Livestream.Comments.Hub.Fanout.{
  after_publish, publish_total, after_publish-IsValid, heap-after_publish,
}
use classic_cheese.Livestream.Comments.Service.{
  Comment, Service, Fields, ok, err, AddError, trim, value_at, add_one, count_event,
  publish_comment, finish, add_valid, add_checked, add_comment,
}
use classic_cheese.Livestream.Comments.Service.Validate.{
  IsAcceptable, without_spaces, Breaks, check_acceptable, check_broken,
}
use classic_cheese.Livestream.Comments.Service.Counting.{
  add_one-value, value_at-add_one_self, value_at-add_one_ne,
}

abbrev comment_event : String → Event
comment_event json = record { name = "comment"; payload = json }

abbrev hub_after_comment : Option String → String → Hub → Hub
hub_after_comment none room hub = hub
hub_after_comment (some json) room hub = after_publish room (comment_event json) hub

-- A mailbox of the room: first the comment, if it could be encoded, and then the count.
unfoldable pub hear : Option String → ℤ → Subscriber → Subscriber
hear none n s = receive (count_event n) s
hear (some json) n s = receive (count_event n) (receive (comment_event json) s)

publish_comment_lem :
    (o : Option String) (room : String) (hub : Hub)
    → IsValid hub
    → publish_comment o room hub ≡ some (hub_after_comment o room hub)
unfolding publish_comment
publish_comment_lem none room hub v = refl
publish_comment_lem (some json) room hub v = publish_total room (comment_event json) hub v

hub_after_comment-IsValid :
    (o : Option String) (room : String) (hub : Hub)
    → IsValid hub
    → IsValid (hub_after_comment o room hub)
hub_after_comment-IsValid none room hub v = v
hub_after_comment-IsValid (some json) room hub v =
    after_publish-IsValid room (comment_event json) hub v

rooms_after_comment :
    (o : Option String) (room : String) (hub : Hub)
    → (hub_after_comment o room hub).rooms ≡ hub.rooms
rooms_after_comment none room hub = refl
rooms_after_comment (some json) room hub = refl

abbrev hub_after : Option String → String → ℤ → Hub → Hub
hub_after o room n hub = after_publish room (count_event n) (hub_after_comment o room hub)

abbrev Heard : Hub → String → (Subscriber → Subscriber) → Hub → Type 0
Heard hub room f hub' =
    (p : ℕ)
    → get_elem? hub'.heap p ≡ (
        if has p (targets hub room)
        then Option.map f (get_elem? hub.heap p)
        else get_elem? hub.heap p)

hub_after-Heard :
    (o : Option String) (room : String) (n : ℤ) (hub : Hub)
    → IsValid hub
    → Heard hub room (hear o n) (hub_after o room n hub)
unfolding hear
hub_after-Heard none room n hub v p = heap-after_publish room (count_event n) hub p v
hub_after-Heard (some json) room n hub v p =
    heap-after_publish room (count_event n) hub' p
      (after_publish-IsValid room (comment_event json) hub v)
    ∙ elim (Bool-cases (has p (targets hub room))) [
      | inl e ↦ rw e (
          rw (heap-after_publish room (comment_event json) hub p v)
            (rw e (Option-map-map (get_elem? hub.heap p))))
      | inr e ↦ rw e (heap-after_publish room (comment_event json) hub p v ∙ rw e)
    ]
  where
    hub' : Hub
    hub' = after_publish room (comment_event json) hub

    Option-map-map :
        (o : Option Subscriber)
        → Option.map (receive (count_event n)) (Option.map (receive (comment_event json)) o)
          ≡ Option.map (λ s. receive (count_event n) (receive (comment_event json) s)) o
    Option-map-map none = refl
    Option-map-map (some s) = refl

module _ (marshal : Comment → Option String) (now : ℕ) where
  -- What an accepted comment does to the service.
  pub record Added (f : Fields) (s s' : Service) (c : Comment) (n : ℤ) : Type 0 where
    pub next_id : c.id ≡ wrap64 (value_at f.room s.seqs +ℤ pos 1)
    pub same_author : c.author ≡ f.author
    pub same_text : c.text ≡ f.text
    pub stamped : c.ts ≡ now
    pub next_count : n ≡ wrap64 (value_at f.room s.counters +ℤ pos 1)
    pub stored_id : value_at f.room s'.seqs ≡ c.id
    pub stored_count : value_at f.room s'.counters ≡ n
    pub others :
        (r : String)
        → f.room ≢ r
        → (value_at r s'.seqs ≡ value_at r s.seqs)
          × (value_at r s'.counters ≡ value_at r s.counters)
    pub in_order : IsValid s'.hub
    pub same_rooms : s'.hub.rooms ≡ s.hub.rooms
    pub heard : Heard s.hub f.room (hear (marshal c) n) s'.hub

  abbrev pub comment_of : Fields → Service → Comment
  comment_of f s = record {
    id = (add_one f.room s.seqs).1;
    author = f.author;
    text = f.text;
    ts = now;
  }

  abbrev pub service_after : Fields → Service → Service
  service_after f s = record {
    hub = hub_after (marshal (comment_of f s)) f.room (add_one f.room s.counters).1 s.hub;
    seqs = (add_one f.room s.seqs).0;
    counters = (add_one f.room s.counters).0;
  }

  pub add_valid_lem :
      (f : Fields) (s : Service)
      → IsValid s.hub
      → add_valid marshal now f s
        ≡ some (service_after f s, comment_of f s, (add_one f.room s.counters).1)
  unfolding add_valid
  add_valid_lem f s v = rw (publish_comment_lem (marshal (comment_of f s)) f.room s.hub v) (
      rw (
        publish_total f.room (count_event (add_one f.room s.counters).1) _
          (hub_after_comment-IsValid (marshal (comment_of f s)) f.room s.hub v)))

  pub service_after-Added :
      (f : Fields) (s : Service)
      → IsValid s.hub
      → Added f s (service_after f s) (comment_of f s) (add_one f.room s.counters).1
  service_after-Added f s v = record {
    next_id = add_one-value f.room s.seqs;
    same_author = refl;
    same_text = refl;
    stamped = refl;
    next_count = add_one-value f.room s.counters;
    stored_id = value_at-add_one_self f.room s.seqs;
    stored_count = value_at-add_one_self f.room s.counters;
    others = λ r other.
        (value_at-add_one_ne f.room r s.seqs other, value_at-add_one_ne f.room r s.counters other);
    in_order =
        after_publish-IsValid f.room _ _
          (hub_after_comment-IsValid (marshal (comment_of f s)) f.room s.hub v);
    same_rooms = rooms_after_comment (marshal (comment_of f s)) f.room s.hub;
    heard = hub_after-Heard (marshal (comment_of f s)) f.room _ s.hub v;
  }

  abbrev pub Accepts : Fields → Service → Type 0
  Accepts f s =
      (s' : Service) × (c : Comment) × (n : ℤ) × (add_comment marshal now f s
        ≡ some (s', ok (c, n)))
      × Added (without_spaces f) s s' c n

  -- Acceptable fields, after trimming, become a comment with the next id of the room and the next
  -- count; both counters of the room show them and no other counter changes; each mailbox of the
  -- room is offered the encoded comment, if it can be encoded, and then the count; no other mailbox
  -- and no registration changes, and the registry stays in order.
  pub add_comment_accepted :
      (f : Fields) (s : Service) → IsValid s.hub → IsAcceptable (without_spaces f) → Accepts f s
  unfolding add_comment add_checked finish trim
  add_comment_accepted f s v a = (
    service_after (without_spaces f) s,
    comment_of (without_spaces f) s,
    (add_one (without_spaces f).room s.counters).1,
    rw (check_acceptable (without_spaces f) a, add_checked)
        (rw (add_valid_lem (without_spaces f) s v)),
    service_after-Added (without_spaces f) s v,
  )

  -- A comment is refused with the first rule that its trimmed fields break, and changes nothing.
  pub add_comment_rejected :
      (f : Fields) (e : AddError) (s : Service)
      → Breaks (without_spaces f) e
      → add_comment marshal now f s ≡ some (s, err e)
  unfolding add_comment add_checked trim
  add_comment_rejected f e s b = rw (check_broken (without_spaces f) e b)
