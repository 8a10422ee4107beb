-- ===== src/Leaderboard/Rabbit/Fanout.antt =====
-- leaderboard-poc/internal/rabbitmqclient/rabbitmqclient.go: an event that is published reaches the queue
-- of every service that has started.
use classic_cheese.Prelude.{
  ℕ, ◌≡◌, suc, refl, sym, ap, subst, String, true, false, List, [], ◌∷◌, ◌++◌,
}
use classic_cheese.Prelude.Lists.{length, All, All-map2}
use classic_cheese.Leaderboard.Redis.{Result, value, error}
use classic_cheese.Leaderboard.Rabbit.{
  Broker, QueueOptions, channel_opened, dialed, connect, declare_exchange, bound_as, bind_declared,
  declare_and_bind_queue, publish, consuming, consume_limited, consume, start_consuming,
  start_bound, start_declared, start_connected, start, start_aggregator, start_notifier,
  start_history_writer, aggregator_queue, notifier_queue, history_writer_queue, publish_marshalled,
  publish_score_event,
}
use classic_cheese.Leaderboard.Models.{ScoreEvent}
use classic_cheese.Leaderboard.Rabbit.Laws.{
  BrokerView, Service, aggregator, notifier, history_writer, queue_of, Grows, IsBroker, Ready,
  after_turns, Grows-trans, Ready-Grows, received-turns,
}

module _ {S : Type 0} (broker : Broker S) (v : BrokerView S) where
  -- If it succeeds the queue is ready, and nothing is undone.
  abbrev Starts : String → String → S → Result ℕ × S → Type 0
  Starts exchange queue s (value d, t) = Grows broker v s t × Ready broker v exchange queue t
  Starts exchange queue s (error e, t) = Unit

  consumed-Starts :
      (exchange queue : String) (s t : S) (out : Result ℕ × S)
      → Grows broker v t out.1
      → Grows broker v s t
      → Ready broker v exchange queue t
      → Starts exchange queue s (start_consuming broker (consuming broker queue out))
  unfolding start_consuming consuming
  consumed-Starts exchange queue s t (value d, u) g before ready =
      (Grows-trans broker v s t u before g, Ready-Grows broker v exchange queue t u g ready)
  consumed-Starts exchange queue s t (error e, u) g before ready = tt

  -- A queue that is declared to last.
  abbrev lasting : String → QueueOptions
  lasting name = record {
    name = name;
    durable = true;
    auto_delete = false;
    exclusive = false;
    no_wait = false;
  }

  -- The three consumers, in the order in which they come up.
  abbrev start_service : String → Service → String → S → Result ℕ × S
  start_service url aggregator exchange s = start_aggregator broker url exchange s
  start_service url notifier exchange s = start_notifier broker url exchange s
  start_service url history_writer exchange s = start_history_writer broker url exchange s

  -- The services have started one after the other; between the starts and after them anything may
  -- happen, a service that stops or a broker that restarts included, that undoes nothing that lasts.
  abbrev pub HaveStarted : String → String → List Service → S → S → Type 0
  HaveStarted url exchange [] s s' = Grows broker v s s'
  HaveStarted url exchange (service ∷ services) s s' =
      (u : S) × (d : ℕ) × (t : S) × Grows broker v s u
      × (start_service url service exchange u ≡ (value d, t))
      × HaveStarted url exchange services t s'

  module _ (laws : IsBroker broker v) where
    limited-Starts :
        (ch : ℕ) (exchange queue : String) (s t : S) (out : Result (Unit {0}) × S)
        → Grows broker v t out.1
        → Grows broker v s t
        → Ready broker v exchange queue t
        → Starts exchange queue s (start_consuming broker (consume_limited broker ch queue out))
    unfolding consume_limited start_consuming
    limited-Starts ch exchange queue s t (value done, u) g before ready =
        consumed-Starts exchange queue s u _ (laws.consume_lem ch _ u)
          (Grows-trans broker v s t u before g) (Ready-Grows broker v exchange queue t u g ready)
    limited-Starts ch exchange queue s t (error e, u) g before ready = tt

    bound-Starts :
        (ch prefetch : ℕ) (exchange queue q : String) (s t : S) (out : Result (Unit {0}) × S)
        → broker.queue_bind ch queue "" exchange false t ≡ out
        → Grows broker v s t
        → v.is_fanout exchange t ≡ true
        → v.lasts queue t ≡ true
        → Starts exchange queue s
            (start_bound broker ch queue prefetch (bound_as broker exchange queue q out))
    unfolding bound_as start_bound consume
    bound-Starts ch prefetch exchange queue q s t (value done, u) h before fanout lasts =
        let g : Grows broker v t u =
          subst (λ o. Grows broker v t o.1) h (laws.bind_lem ch queue "" exchange false t) in
        limited-Starts ch exchange queue s u (broker.qos ch prefetch 0 false u)
          (laws.qos_lem ch prefetch 0 false u) (Grows-trans broker v s t u before g)
          (g.0 exchange fanout, g.1 queue lasts, laws.bound_to ch queue "" exchange false t u h)
    bound-Starts ch prefetch exchange queue q s t (error e, u) h before fanout lasts = tt

    queue-Starts :
        (ch prefetch : ℕ) (exchange queue : String) (s t : S) (out : Result String × S)
        → broker.queue_declare ch (lasting queue) t ≡ out
        → Grows broker v s t
        → v.is_fanout exchange t ≡ true
        → Starts exchange queue s
            (start_bound broker ch queue prefetch (bind_declared broker ch exchange queue out))
    unfolding bind_declared start_bound
    queue-Starts ch prefetch exchange queue s t (value q, u) h before fanout =
        let g : Grows broker v t u =
          subst (λ o. Grows broker v t o.1) h (laws.queue_lem ch (lasting queue) t) in
        bound-Starts ch prefetch exchange queue q s u _ refl (Grows-trans broker v s t u before g)
          (g.0 exchange fanout) (laws.queue_declared ch (lasting queue) q t u refl refl refl h)
    queue-Starts ch prefetch exchange queue s t (error e, u) h before fanout = tt

    declared-Starts :
        (ch prefetch : ℕ) (exchange queue : String) (s t : S) (out : Result (Unit {0}) × S)
        → declare_exchange broker ch exchange t ≡ out
        → Grows broker v s t
        → Starts exchange queue s (start_declared broker ch exchange queue prefetch out)
    unfolding start_declared declare_exchange declare_and_bind_queue
    declared-Starts ch prefetch exchange queue s t (value done, u) h before =
        let g : Grows broker v t u =
          subst (λ o. Grows broker v t o.1) h (laws.exchange_lem ch _ t) in
        queue-Starts ch prefetch exchange queue s u _ refl (Grows-trans broker v s t u before g)
          (laws.exchange_declared ch _ t u refl refl refl refl h)
    declared-Starts ch prefetch exchange queue s t (error e, u) h before = tt

    channel-Starts :
        (conn prefetch : ℕ) (exchange queue : String) (s t : S) (out : Result ℕ × S)
        → Grows broker v t out.1
        → Grows broker v s t
        → Starts exchange queue s
            (start_connected broker exchange queue prefetch (channel_opened broker conn out))
    unfolding channel_opened start_connected
    channel-Starts conn prefetch exchange queue s t (value ch, u) g before =
        declared-Starts ch prefetch exchange queue s u _ refl (Grows-trans broker v s t u before g)
    channel-Starts conn prefetch exchange queue s t (error e, u) g before = tt

    dialed-Starts :
        (url : String) (prefetch : ℕ) (exchange queue : String) (s : S) (out : Result ℕ × S)
        → Grows broker v s out.1
        → Starts exchange queue s
            (start_connected broker exchange queue prefetch (dialed broker url out))
    unfolding dialed start_connected
    dialed-Starts url prefetch exchange queue s (value conn, t) g =
        channel-Starts conn prefetch exchange queue s t _ (laws.channel_lem conn t) g
    dialed-Starts url prefetch exchange queue s (error e, t) g = tt

    start-Starts :
        (url exchange queue : String) (prefetch : ℕ) (s : S)
        → Starts exchange queue s (start broker url exchange queue prefetch s)
    unfolding start connect
    start-Starts url exchange queue prefetch s =
        dialed-Starts url prefetch exchange queue s (broker.dial url s) (laws.dial_lem url s)

    service-Starts :
        (url exchange : String) (service : Service) (s : S)
        → Starts exchange (queue_of service) s (start_service url service exchange s)
    unfolding start_aggregator start_notifier start_history_writer
    service-Starts url exchange aggregator s = start-Starts url exchange aggregator_queue 10 s
    service-Starts url exchange notifier s = start-Starts url exchange notifier_queue 10 s
    service-Starts url exchange history_writer s =
        start-Starts url exchange history_writer_queue 10 s

    come_up :
        (url exchange : String) (services : List Service) (s s' : S)
        → HaveStarted url exchange services s s'
        → Grows broker v s s'
          × All (λ service. Ready broker v exchange (queue_of service) s') services
    come_up url exchange [] s s' h = (h, tt)
    come_up url exchange (service ∷ services) s s' (u, d, t, before, started, rest) =
        let (g, ready) =
          subst (Starts exchange (queue_of service) u) started
            (service-Starts url exchange service u) in
        let (later, others) = come_up url exchange services t s' rest in
        (
          Grows-trans broker v s u s' before (Grows-trans broker v u t s' g later),
          (Ready-Grows broker v exchange (queue_of service) t s' later ready, others),
        )

    -- Every service gets every event: once services have started, in whatever order, a score event
    -- that the API publishes comes to the queue of each of them as its last message when the broker
    -- has handled what was on the wire before it and the event itself, whether the service still
    -- runs or not. (If a fanout exchange hands messages to the queues that are bound to it, what is
    -- declared to last outlives the services and the broker, with its bindings, and messages on the
    -- wire get through, in order.)
    pub publish_score_event-All :
        {T : Type 0} (marshal : ScoreEvent T → Result String) (url exchange body : String) (ch : ℕ)
        (services : List Service) (event : ScoreEvent T) (s s' : S)
        → HaveStarted url exchange services s s'
        → marshal event ≡ value body
        → (publish broker ch exchange body s').0 ≡ value tt
        → All
            (λ service.
              (earlier : List String) × (v.received (queue_of service) (
                  after_turns broker v
                    (suc (length (v.wire s')))
                    (publish_score_event broker marshal ch exchange event s'))
                ≡ earlier ++ body ∷ []))
            services
    unfolding publish_score_event publish_marshalled publish
    publish_score_event-All marshal url exchange body ch services event s s' started written sent =
        let t = (publish broker ch exchange body s').1 in
        let (grows, on_wire) =
          laws.published ch exchange "" false false _ s' t (ap (λ r. (r, t)) sent) in
        let after : publish_score_event broker marshal ch exchange event s' ≡ t =
          ap (λ m. publish_marshalled broker ch exchange m s') written in
        let ready = (come_up url exchange services s s' started).1 in
        All-map2 services
          (λ service here other.
            subst
              (λ u.
                (earlier : List String) × (v.received (queue_of service)
                    (after_turns broker v (suc (length (v.wire s'))) u)
                  ≡ earlier ++ body ∷ []))
              (sym after)
              (received-turns broker v laws exchange body (queue_of service) (v.wire s') t on_wire
                (Ready-Grows broker v exchange (queue_of service) s' t grows here)))
          ready ready
