-- ===== src/Leaderboard/Rabbit.antt =====
-- leaderboard-poc/internal/rabbitmqclient/rabbitmqclient.go, and how the services start with it. The
-- broker is a record of the calls of the AMQP library; connections, channels and delivery channels are
-- numbers. `log.Fatalf` ends a process with its text.
pub mod Laws
pub mod Fanout
pub mod Examples
use classic_cheese.Prelude.{ℕ, String, Bool, true, false, [], ◌∷◌}
use classic_cheese.Prelude.Text.{concat}
use classic_cheese.Leaderboard.Models.{ScoreEvent}
use classic_cheese.Leaderboard.Redis.{Error, Result, value, error}
use classic_cheese.Leaderboard.Mysql.{wrap}

pub record ExchangeOptions : Type 0 where
  pub name : String
  pub kind : String
  pub durable : Bool
  pub auto_deleted : Bool
  pub internal : Bool
  pub no_wait : Bool

pub record QueueOptions : Type 0 where
  pub name : String
  pub durable : Bool
  pub auto_delete : Bool
  pub exclusive : Bool
  pub no_wait : Bool

pub record ConsumeOptions : Type 0 where
  pub queue : String
  pub consumer : String
  pub auto_ack : Bool
  pub exclusive : Bool
  pub no_local : Bool
  pub no_wait : Bool

pub record Publishing : Type 0 where
  pub content_type : String
  pub persistent : Bool
  pub body : String

pub record Broker (S : Type 0) : Type 0 where
  pub dial : String → S → Result ℕ × S
  pub open_channel : ℕ → S → Result ℕ × S
  pub close_connection : ℕ → S → S
  pub exchange_declare : ℕ → ExchangeOptions → S → Result (Unit {0}) × S
  pub queue_declare : ℕ → QueueOptions → S → Result String × S
  -- queue, key, exchange, no_wait
  pub queue_bind : ℕ → String → String → String → Bool → S → Result (Unit {0}) × S
  -- prefetch count, prefetch size, global
  pub qos : ℕ → ℕ → ℕ → Bool → S → Result (Unit {0}) × S
  pub consume_with : ℕ → ConsumeOptions → S → Result ℕ × S
  -- exchange, key, mandatory, immediate
  pub publish_with : ℕ → String → String → Bool → Bool → Publishing → S → Result (Unit {0}) × S

abbrev pub aggregator_queue : String
aggregator_queue = "aggregator-queue"

abbrev pub notifier_queue : String
notifier_queue = "notifier-queue"

abbrev pub history_writer_queue : String
history_writer_queue = "historywriter-queue"

module _ {S : Type 0} (broker : Broker S) where
  unfoldable pub channel_opened : ℕ → Result ℕ × S → Result (ℕ × ℕ) × S
  unfolding wrap
  channel_opened conn (value ch, s) = (value (conn, ch), s)
  channel_opened conn (error e, s) =
      (error (wrap "opening rabbitmq channel" e), broker.close_connection conn s)

  unfoldable pub dialed : String → Result ℕ × S → Result (ℕ × ℕ) × S
  unfolding channel_opened wrap concat
  dialed url (value conn, s) = channel_opened conn (broker.open_channel conn s)
  dialed url (error e, s) = (error (wrap (concat ("dialing rabbitmq at " ∷ url ∷ [])) e), s)

  unfoldable pub connect : String → S → Result (ℕ × ℕ) × S
  unfolding dialed
  connect url s = dialed url (broker.dial url s)

  unfoldable pub declare_exchange : ℕ → String → S → Result (Unit {0}) × S
  declare_exchange ch exchange s =
      broker.exchange_declare ch
        (record {
          name = exchange;
          kind = "fanout";
          durable = true;
          auto_deleted = false;
          internal = false;
          no_wait = false;
        })
        s

  unfoldable pub bound_as : String → String → String → Result (Unit {0}) × S → Result String × S
  unfolding wrap concat
  bound_as exchange queue_name q (value done, s) = (value q, s)
  bound_as exchange queue_name q (error e, s) =
      (error (wrap (concat ("binding queue " ∷ queue_name ∷ " to exchange " ∷ exchange ∷ [])) e), s)

  unfoldable pub bind_declared : ℕ → String → String → Result String × S → Result String × S
  unfolding bound_as wrap concat
  bind_declared ch exchange queue_name (value q, s) =
      bound_as exchange queue_name q (broker.queue_bind ch queue_name "" exchange false s)
  bind_declared ch exchange queue_name (error e, s) =
      (error (wrap (concat ("declaring queue " ∷ queue_name ∷ [])) e), s)

  unfoldable pub declare_and_bind_queue : ℕ → String → String → S → Result String × S
  unfolding bind_declared
  declare_and_bind_queue ch exchange queue_name s = bind_declared ch exchange queue_name (
      broker.queue_declare ch
        (record {
          name = queue_name;
          durable = true;
          auto_delete = false;
          exclusive = false;
          no_wait = false;
        })
        s)

  unfoldable pub publish : ℕ → String → String → S → Result (Unit {0}) × S
  publish ch exchange body s =
      broker.publish_with ch exchange "" false false
        (record { content_type = "application/json"; persistent = true; body = body }) s

  unfoldable pub consuming : String → Result ℕ × S → Result ℕ × S
  unfolding wrap concat
  consuming queue_name (value deliveries, s) = (value deliveries, s)
  consuming queue_name (error e, s) =
      (error (wrap (concat ("consuming from " ∷ queue_name ∷ [])) e), s)

  unfoldable pub consume_limited : ℕ → String → Result (Unit {0}) × S → Result ℕ × S
  unfolding consuming wrap concat
  consume_limited ch queue_name (value done, s) = consuming queue_name (
      broker.consume_with ch
        (record {
          queue = queue_name;
          consumer = "";
          auto_ack = false;
          exclusive = false;
          no_local = false;
          no_wait = false;
        })
        s)
  consume_limited ch queue_name (error e, s) =
      (error (wrap (concat ("setting QoS for " ∷ queue_name ∷ [])) e), s)

  unfoldable pub consume : ℕ → String → ℕ → S → Result ℕ × S
  unfolding consume_limited
  consume ch queue_name prefetch s =
      consume_limited ch queue_name (broker.qos ch prefetch 0 false s)

  -- What the three consumers do before their loops, for the channel of the deliveries.
  unfoldable pub start_consuming : Result ℕ × S → Result ℕ × S
  unfolding wrap
  start_consuming (value deliveries, s) = (value deliveries, s)
  start_consuming (error e, s) = (error (wrap "consuming" e), s)

  unfoldable pub start_bound : ℕ → String → ℕ → Result String × S → Result ℕ × S
  unfolding start_consuming consume wrap
  start_bound ch queue_name prefetch (value q, s) =
      start_consuming (consume ch queue_name prefetch s)
  start_bound ch queue_name prefetch (error e, s) = (error (wrap "declaring queue" e), s)

  unfoldable pub start_declared : ℕ → String → String → ℕ → Result (Unit {0}) × S → Result ℕ × S
  unfolding start_bound declare_and_bind_queue wrap
  start_declared ch exchange queue_name prefetch (value done, s) =
      start_bound ch queue_name prefetch (declare_and_bind_queue ch exchange queue_name s)
  start_declared ch exchange queue_name prefetch (error e, s) =
      (error (wrap "declaring exchange" e), s)

  unfoldable pub start_connected : String → String → ℕ → Result (ℕ × ℕ) × S → Result ℕ × S
  unfolding start_declared declare_exchange wrap
  start_connected exchange queue_name prefetch (value (conn, ch), s) =
      start_declared ch exchange queue_name prefetch (declare_exchange ch exchange s)
  start_connected exchange queue_name prefetch (error e, s) = (error (wrap "rabbitmq" e), s)

  unfoldable pub start : String → String → String → ℕ → S → Result ℕ × S
  unfolding start_connected connect
  start url exchange queue_name prefetch s =
      start_connected exchange queue_name prefetch (connect url s)

  unfoldable pub start_aggregator : String → String → S → Result ℕ × S
  unfolding start
  start_aggregator url exchange s = start url exchange aggregator_queue 10 s

  unfoldable pub start_notifier : String → String → S → Result ℕ × S
  unfolding start
  start_notifier url exchange s = start url exchange notifier_queue 10 s

  unfoldable pub start_history_writer : String → String → S → Result ℕ × S
  unfolding start
  start_history_writer url exchange s = start url exchange history_writer_queue 10 s

  -- What cmd/api does, for its connection and its channel.
  unfoldable pub api_declared : ℕ × ℕ → Result (Unit {0}) × S → Result (ℕ × ℕ) × S
  unfolding wrap
  api_declared conn_ch (value done, s) = (value conn_ch, s)
  api_declared conn_ch (error e, s) = (error (wrap "declaring exchange" e), s)

  unfoldable pub api_connected : String → Result (ℕ × ℕ) × S → Result (ℕ × ℕ) × S
  unfolding api_declared declare_exchange wrap
  api_connected exchange (value (conn, ch), s) =
      api_declared (conn, ch) (declare_exchange ch exchange s)
  api_connected exchange (error e, s) = (error (wrap "rabbitmq" e), s)

  unfoldable pub start_api : String → String → S → Result (ℕ × ℕ) × S
  unfolding api_connected connect
  start_api url exchange s = api_connected exchange (connect url s)

  -- `marshal` is json.Marshal; a failure is only logged.
  unfoldable pub publish_marshalled : ℕ → String → Result String → S → S
  unfolding publish
  publish_marshalled ch exchange (value body) s = (publish ch exchange body s).1
  publish_marshalled ch exchange (error e) s = s

  unfoldable pub publish_score_event :
      {T : Type 0} → (ScoreEvent T → Result String) → ℕ → String → ScoreEvent T → S → S
  unfolding publish_marshalled
  publish_score_event marshal ch exchange event s = publish_marshalled ch exchange (marshal event) s
