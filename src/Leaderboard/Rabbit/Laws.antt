-- ===== src/Leaderboard/Rabbit/Laws.antt =====
-- leaderboard-poc/internal/rabbitmqclient/rabbitmqclient.go: what RabbitMQ does with exchanges, queues
-- and messages, as laws over a view of its state.
use mathlib.Core.List.{Mem}
use classic_cheese.Prelude.{ℕ, zero, suc, ◌≡◌, String, Bool, true, false, List, [], ◌∷◌, ◌++◌}
use classic_cheese.Prelude.Lists.{length}
use classic_cheese.Leaderboard.Redis.{value}
use classic_cheese.Leaderboard.Rabbit.{
  Broker, ExchangeOptions, QueueOptions, ConsumeOptions, Publishing, aggregator_queue,
  notifier_queue, history_writer_queue,
}

-- Which exchanges are fanouts that take messages of clients and outlive a restart, which queues outlive
-- a restart and the consumers that use them, the queues that are bound to each exchange, the bodies
-- that have come to each queue so far, consumed or not, and the messages that are on their way to the
-- broker, the oldest first, each with its exchange. `handle` is the broker's turn: it takes the
-- oldest message off the wire.
pub record BrokerView (S : Type 0) : Type 0 where
  pub is_fanout : String → S → Bool
  pub lasts : String → S → Bool
  pub bound : String → S → List String
  pub received : String → S → List String
  pub wire : S → List (String × String)
  pub handle : S → S

pub data Service : Type 0 where
  aggregator : Service
  notifier : Service
  history_writer : Service

abbrev pub queue_of : Service → String
queue_of aggregator = aggregator_queue
queue_of notifier = notifier_queue
queue_of history_writer = history_writer_queue

module _ {S : Type 0} (broker : Broker S) (v : BrokerView S) where
  -- Such fanouts and such queues stay, and so do the bindings of such queues.
  abbrev pub Grows : S → S → Type 0
  Grows s t =
      ((exchange : String) → v.is_fanout exchange s ≡ true → v.is_fanout exchange t ≡ true)
      × ((queue : String) → v.lasts queue s ≡ true → v.lasts queue t ≡ true)
      × ((exchange queue : String)
          → v.lasts queue s ≡ true
          → Mem queue (v.bound exchange s)
          → Mem queue (v.bound exchange t))

  abbrev pub Ready : String → String → S → Type 0
  Ready exchange queue s =
      (v.is_fanout exchange s ≡ true) × (v.lasts queue s ≡ true) × Mem queue (v.bound exchange s)

  pub record IsBroker : Type 0 where
    pub dial_lem : (url : String) (s : S) → Grows s (broker.dial url s).1
    pub channel_lem : (conn : ℕ) (s : S) → Grows s (broker.open_channel conn s).1
    pub exchange_lem :
        (ch : ℕ) (o : ExchangeOptions) (s : S) → Grows s (broker.exchange_declare ch o s).1
    pub queue_lem : (ch : ℕ) (o : QueueOptions) (s : S) → Grows s (broker.queue_declare ch o s).1
    pub bind_lem :
        (ch : ℕ) (queue key exchange : String) (no_wait : Bool) (s : S)
        → Grows s (broker.queue_bind ch queue key exchange no_wait s).1
    pub qos_lem :
        (ch count size : ℕ) (global : Bool) (s : S) → Grows s (broker.qos ch count size global s).1
    pub consume_lem : (ch : ℕ) (o : ConsumeOptions) (s : S) → Grows s (broker.consume_with ch o s).1
    -- What exists with other options cannot be declared with these.
    pub exchange_declared :
        (ch : ℕ) (o : ExchangeOptions) (s t : S)
        → o.kind ≡ "fanout"
        → o.durable ≡ true
        → o.auto_deleted ≡ false
        → o.internal ≡ false
        → broker.exchange_declare ch o s ≡ (value tt, t)
        → v.is_fanout o.name t ≡ true
    pub queue_declared :
        (ch : ℕ) (o : QueueOptions) (name : String) (s t : S)
        → o.durable ≡ true
        → o.auto_delete ≡ false
        → o.exclusive ≡ false
        → broker.queue_declare ch o s ≡ (value name, t)
        → v.lasts o.name t ≡ true
    pub bound_to :
        (ch : ℕ) (queue key exchange : String) (no_wait : Bool) (s t : S)
        → broker.queue_bind ch queue key exchange no_wait s ≡ (value tt, t)
        → Mem queue (v.bound exchange t)
    -- Without confirms a publishing that succeeds is one that is on the wire.
    pub published :
        (ch : ℕ) (exchange key : String) (mandatory immediate : Bool) (p : Publishing) (s t : S)
        → broker.publish_with ch exchange key mandatory immediate p s ≡ (value tt, t)
        → Grows s t × (v.wire t ≡ v.wire s ++ (exchange, p.body) ∷ [])
    -- A fanout hands a message to each of its queues, whatever the key.
    pub handled :
        (exchange body : String) (rest : List (String × String)) (s : S)
        → v.wire s ≡ (exchange, body) ∷ rest
        → Grows s (v.handle s)
          × (v.wire (v.handle s) ≡ rest)
          × ((queue : String)
              → Ready exchange queue s
              → v.received queue (v.handle s) ≡ v.received queue s ++ body ∷ [])

  -- The broker's turns.
  abbrev pub after_turns : ℕ → S → S
  after_turns zero s = s
  after_turns (suc n) s = after_turns n (v.handle s)

  pub Grows-trans : (s t u : S) → Grows s t → Grows t u → Grows s u
  Grows-trans s t u (f, l, b) (f', l', b') =
      ((λ x k. f' x (f x k)), (λ q k. l' q (l q k)), λ x q k m. b' x q (l q k) (b x q k m))

  pub Ready-Grows :
      (exchange queue : String) (s t : S)
      → Grows s t
      → Ready exchange queue s
      → Ready exchange queue t
  Ready-Grows exchange queue s t (f, l, b) (fanout, lasts, m) =
      (f exchange fanout, l queue lasts, b exchange queue lasts m)

  -- A message on the wire comes to a queue as its last one, when its turn has come.
  pub received-turns :
      (laws : IsBroker) (exchange body queue : String) (ms : List (String × String)) (s : S)
      → v.wire s ≡ ms ++ (exchange, body) ∷ []
      → Ready exchange queue s
      → (earlier : List String) × (v.received queue (after_turns (suc (length ms)) s)
          ≡ earlier ++ body ∷ [])
  received-turns laws exchange body queue [] s h ready =
      let (grows, rest, gets) = laws.handled exchange body [] s h in
      (v.received queue s, gets queue ready)
  received-turns laws exchange body queue ((x, b) ∷ ms) s h ready =
      let (grows, rest, gets) = laws.handled x b (ms ++ (exchange, body) ∷ []) s h in
      received-turns laws exchange body queue ms (v.handle s) rest
        (Ready-Grows exchange queue s (v.handle s) grows ready)
