-- ===== src/Leaderboard/Api/Socket.antt =====
-- leaderboard-poc/cmd/api/handlers.go: GET /ws/leaderboard. `upgrade` is the connection, a number, that
-- the upgrade of the request gives, `none` if it fails. Between two reads of the handler other things
-- happen to the hub, so a round is a list of events and whether the read after them succeeds.
pub mod Session
pub mod Examples
use classic_cheese.Prelude.{ℕ, String, Bool, true, false, List, [], ◌∷◌, Option, none, some}
use classic_cheese.Leaderboard.Redis.{notification_channel}
use classic_cheese.Leaderboard.Hub.{Event, arrives, leaves, World, happen, happen_all}
use classic_cheese.Leaderboard.Api.Reads.{Query}

-- Where the handler is: it did not start, it still reads, or it has returned.
pub data Progress : Type 0 where
  refused : Progress
  reading : Progress
  returned : Progress

unfoldable pub channel_of : Query → String
unfolding notification_channel
channel_of q = notification_channel (q "scope") (q "region") (q "period_type") (q "period_key")

unfoldable pub read_on : String → ℕ → List (List Event × Bool) → World → Progress × World
unfolding happen happen_all
read_on channel conn [] w = (reading, w)
read_on channel conn ((others, true) ∷ rounds) w = read_on channel conn rounds (happen_all others w)
read_on channel conn ((others, false) ∷ rounds) w =
    (returned, happen (leaves channel conn) (happen_all others w))

unfoldable pub handle_web_socket :
    Query → Option ℕ → List (List Event × Bool) → World → Progress × World
unfolding channel_of read_on happen
handle_web_socket q none rounds w = (refused, w)
handle_web_socket q (some conn) rounds w =
    read_on (channel_of q) conn rounds (happen (arrives (channel_of q) conn) w)
