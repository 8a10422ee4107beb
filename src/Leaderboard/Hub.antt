-- ===== src/Leaderboard/Hub.antt =====
-- leaderboard-poc/cmd/api/hub.go: the WebSocket connections that watch each notification channel. A
-- connection is a number.
pub mod Loops
pub mod Broadcast
pub mod Examples
use classic_cheese.Prelude.{
  ℕ, ℕ_discrete, String, String_discrete, Bool, true, false, not, List, [], ◌∷◌, Option, none, some,
  map, if◌then◌else◌,
}
use classic_cheese.Prelude.Dict.{lookup, insert, erase}

abbrev pub Conns : Type 0
Conns = List (ℕ × Unit {0})

pub record Hub : Type 0 where
  pub conns : List (String × Conns)
  pub subscribing : List (String × Bool)

abbrev pub new_hub : Hub
new_hub = record { conns = []; subscribing = [] }

abbrev pub or_empty : Option Conns → Conns
or_empty none = []
or_empty (some set) = set

abbrev pub or_false : Option Bool → Bool
or_false none = false
or_false (some b) = b

-- `h.conns[channel]` and `h.subscribing[channel]`.
unfoldable pub watchers : String → Hub → Conns
watchers channel h = or_empty (lookup String_discrete channel h.conns)

unfoldable pub is_subscribing : String → Hub → Bool
is_subscribing channel h = or_false (lookup String_discrete channel h.subscribing)

unfoldable pub add_conn : String → ℕ → Hub → Hub
unfolding watchers
add_conn channel conn h = record h {
  conns = insert String_discrete channel (insert ℕ_discrete conn tt (watchers channel h)) h.conns;
}

unfoldable pub mark_subscribing : Bool → String → Hub → Hub
mark_subscribing false channel h = h
mark_subscribing true channel h = record h {
  subscribing = insert String_discrete channel true h.subscribing;
}

-- The hub after it, and whether `subscribeLoop` is started for the channel.
unfoldable pub register : String → ℕ → Hub → Hub × Bool
unfolding add_conn is_subscribing mark_subscribing
register channel conn h =
    let added = add_conn channel conn h in
    let needs_subscription = not (is_subscribing channel added) in
    (mark_subscribing needs_subscription channel added, needs_subscription)

unfoldable pub delete_conn : String → ℕ → Option Conns → Hub → Hub
delete_conn channel conn none h = h
delete_conn channel conn (some set) h = record h {
  conns = insert String_discrete channel (erase ℕ_discrete conn set) h.conns;
}

unfoldable pub unregister : String → ℕ → Hub → Hub
unfolding delete_conn
unregister channel conn h = delete_conn channel conn (lookup String_discrete channel h.conns) h

-- `fails` says for which connections the write returns an error; with the hub the connections that
-- are written to and those that are closed.
module _ (fails : ℕ → Bool) where
  unfoldable pub write_all : String → List ℕ → Hub → Hub
  unfolding unregister
  write_all channel [] h = h
  write_all channel (c ∷ cs) h =
      if fails c then write_all channel cs (unregister channel c h) else write_all channel cs h

  unfoldable pub broadcast : String → Hub → Hub
  unfolding write_all watchers
  broadcast channel h = write_all channel (map (λ c. c.0) (watchers channel h)) h

-- What happens to the hub, one after the other under its lock: a client comes or goes, or Redis
-- sends a message on a channel. `loops` lists the channels of the subscriptions that were started.
pub data Event : Type 0 where
  arrives : String → ℕ → Event
  leaves : String → ℕ → Event
  message_on : String → (ℕ → Bool) → Event

pub record World : Type 0 where
  pub hub : Hub
  pub loops : List String

unfoldable pub start_loop : String → Hub × Bool → List String → World
start_loop channel (h, false) loops = record { hub = h; loops = loops }
start_loop channel (h, true) loops = record { hub = h; loops = channel ∷ loops }

unfoldable pub happen : Event → World → World
unfolding start_loop register unregister broadcast
happen (arrives channel conn) w = start_loop channel (register channel conn w.hub) w.loops
happen (leaves channel conn) w = record w { hub = unregister channel conn w.hub }
happen (message_on channel fails) w = record w { hub = broadcast fails channel w.hub }

unfoldable pub happen_all : List Event → World → World
unfolding happen
happen_all [] w = w
happen_all (e ∷ es) w = happen_all es (happen e w)
