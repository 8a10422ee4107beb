-- ===== src/Leaderboard/Rabbit/Examples.antt =====
-- A broker in place of RabbitMQ, on which two services of leaderboard-poc start before an event is
-- published. Every exchange is taken for a fanout, every queue for one that
-- lasts, and every queue gets every message.
use mathlib.Core.List.{Mem, mem-cons_self, mem-cons_of_mem}
use classic_cheese.Prelude.{
  ◌≡◌, refl, sym, ap, ◌∙◌, subst, String, String_discrete, Bool, true, false, List, [], ◌∷◌, ◌++◌,
  ite, if_pos, if_neg,
}
use classic_cheese.Prelude.Lists.{All}
use classic_cheese.Prelude.Int.{pos}
use classic_cheese.Leaderboard.Models.{ScoreEvent}
use classic_cheese.Leaderboard.Redis.{Result, value}
use classic_cheese.Leaderboard.Rabbit.{
  Broker, connect, dialed, channel_opened, declare_exchange, declare_and_bind_queue, bind_declared,
  bound_as, consume, consume_limited, consuming, start, start_connected, start_declared,
  start_bound, start_consuming, start_aggregator, start_notifier, publish, publish_score_event,
}
use classic_cheese.Leaderboard.Rabbit.Laws.{
  BrokerView, IsBroker, Grows, Ready, notifier, aggregator, queue_of, after_turns,
}
use classic_cheese.Leaderboard.Rabbit.Fanout.{HaveStarted, publish_score_event-All}

-- The fanouts, the queues that last, the queues of each exchange, what has come to each queue, and
-- what is on the wire.
record State : Type 0 where
  fanouts : String → Bool
  lasting : String → Bool
  bindings : String → List String
  bodies : String → List String
  sent : List (String × String)

abbrev with_name : String → (String → Bool) → String → Bool
with_name name f x = ite (String_discrete x name) true (f x)

abbrev with_queue : String → String → (String → List String) → String → List String
with_queue exchange queue b x = ite (String_discrete x exchange) (queue ∷ b x) (b x)

abbrev rabbit : Broker State
rabbit = record {
  dial = λ url s. (value 0, s);
  open_channel = λ conn s. (value 0, s);
  close_connection = λ conn s. s;
  exchange_declare = λ ch o s. (value tt, record s { fanouts = with_name o.name s.fanouts });
  queue_declare = λ ch o s. (value o.name, record s { lasting = with_name o.name s.lasting });
  queue_bind = λ ch queue key exchange no_wait s.
      (value tt, record s { bindings = with_queue exchange queue s.bindings });
  qos = λ ch count size global s. (value tt, s);
  consume_with = λ ch o s. (value 0, s);
  publish_with = λ ch exchange key mandatory immediate p s.
      (value tt, record s { sent = s.sent ++ (exchange, p.body) ∷ [] });
}

abbrev work : List (String × String) → State → State
work [] s = s
work ((exchange, body) ∷ rest) s = record s { bodies = λ q. s.bodies q ++ body ∷ []; sent = rest }

abbrev view : BrokerView State
view = record {
  is_fanout = λ x s. s.fanouts x;
  lasts = λ q s. s.lasting q;
  bound = λ x s. s.bindings x;
  received = λ q s. s.bodies q;
  wire = λ s. s.sent;
  handle = λ s. work s.sent s;
}

name_kept : (name x : String) (f : String → Bool) → f x ≡ true → with_name name f x ≡ true
name_kept name x f h = elim (String_discrete x name) [
  | yes e ↦ if_pos (String_discrete x name) e _ _
  | no e ↦ if_neg (String_discrete x name) e _ _ ∙ h
]

binding_kept :
    (exchange queue x q : String) (b : String → List String)
    → Mem q (b x)
    → Mem q (with_queue exchange queue b x)
binding_kept exchange queue x q b m = elim (String_discrete x exchange) [
  | yes e ↦
      subst (Mem q) (sym (if_pos (String_discrete x exchange) e (queue ∷ b x) (b x)))
        (mem-cons_of_mem queue m)
  | no e ↦ subst (Mem q) (sym (if_neg (String_discrete x exchange) e (queue ∷ b x) (b x))) m
]

-- A command that touches no fanout, no queue and no binding.
idle : (s : State) → Grows rabbit view s s
idle s = ((λ x h. h), (λ q h. h), λ x q h m. m)

work-handled :
    (exchange body : String) (rest : List (String × String)) (s : State)
    → s.sent ≡ (exchange, body) ∷ rest
    → Grows rabbit view s (work s.sent s)
      × ((work s.sent s).sent ≡ rest)
      × ((queue : String)
          → Ready rabbit view exchange queue s
          → (work s.sent s).bodies queue ≡ s.bodies queue ++ body ∷ [])
work-handled exchange body rest s h =
    rw h (((λ x k. k), (λ q k. k), λ x q k m. m), refl, λ queue ready. refl)

rabbit-IsBroker : IsBroker rabbit view
rabbit-IsBroker = record {
  dial_lem = λ url s. idle s;
  channel_lem = λ conn s. idle s;
  exchange_lem = λ ch o s. ((λ x h. name_kept o.name x s.fanouts h), (λ q h. h), λ x q h m. m);
  queue_lem = λ ch o s. ((λ x h. h), (λ q h. name_kept o.name q s.lasting h), λ x q h m. m);
  bind_lem = λ ch queue key exchange no_wait s.
      ((λ x h. h), (λ q h. h), λ x q h m. binding_kept exchange queue x q s.bindings m);
  qos_lem = λ ch count size global s. idle s;
  consume_lem = λ ch o s. idle s;
  exchange_declared = λ ch o s t kind durable auto internal h.
      ap (λ (r : Result (Unit {0}) × State). r.1.fanouts o.name) (sym h)
      ∙ if_pos (String_discrete o.name o.name) refl _ _;
  queue_declared = λ ch o name s t durable auto exclusive h.
      ap (λ (r : Result String × State). r.1.lasting o.name) (sym h)
      ∙ if_pos (String_discrete o.name o.name) refl _ _;
  bound_to = λ ch queue key exchange no_wait s t h.
      subst (λ (r : Result (Unit {0}) × State). Mem queue (r.1.bindings exchange)) h
        (subst (Mem queue)
          (sym (
            if_pos (String_discrete exchange exchange) refl (queue ∷ s.bindings exchange)
              (s.bindings exchange)))
          mem-cons_self);
  published = λ ch exchange key mandatory immediate p s t h. (
    subst (λ (r : Result (Unit {0}) × State). Grows rabbit view s r.1) h
        ((λ x k. k), (λ q k. k), λ x q k m. m),
    ap (λ (r : Result (Unit {0}) × State). r.1.sent) (sym h),
  );
  handled = work-handled;
}

abbrev nothing : State
nothing = record {
  fanouts = λ x. false;
  lasting = λ q. false;
  bindings = λ x. [];
  bodies = λ q. [];
  sent = [];
}

abbrev first : State
first = (start_notifier rabbit "amqp://localhost" "score-events" nothing).1

abbrev both : State
both = (start_aggregator rabbit "amqp://localhost" "score-events" first).1

started :
    HaveStarted rabbit view "amqp://localhost" "score-events"
      (notifier ∷ aggregator ∷ [])
      nothing
      both
unfolding start_notifier start_aggregator start start_connected connect dialed channel_opened
    start_declared declare_exchange start_bound declare_and_bind_queue bind_declared bound_as
    start_consuming consume consume_limited consuming
started = (nothing, 0, first, idle nothing, refl, (first, 0, both, idle first, refl, idle both))

abbrev event : ScoreEvent (Unit {0})
event = record {
  user_id = pos 7;
  region = "apac";
  period_type = "daily";
  period_key = "2026-09-07";
  score_delta = pos 5;
  timestamp = tt;
}

abbrev marshal : ScoreEvent (Unit {0}) → Result String
marshal e = value "{}"

publish_score_event-All_example :
    All
      (λ service.
        (earlier : List String) × (view.received (queue_of service) (
            after_turns rabbit view 1
              (publish_score_event rabbit marshal 0 "score-events" event both))
          ≡ earlier ++ "{}" ∷ []))
      (notifier ∷ aggregator ∷ [])
unfolding publish publish_score_event start_aggregator start_notifier
publish_score_event-All_example =
    publish_score_event-All rabbit view rabbit-IsBroker marshal "amqp://localhost" "score-events"
      "{}" 0 (notifier ∷ aggregator ∷ []) event nothing both started refl refl
