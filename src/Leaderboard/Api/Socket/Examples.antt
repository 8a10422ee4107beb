-- ===== src/Leaderboard/Api/Socket/Examples.antt =====
-- A WebSocket client of leaderboard-poc/cmd/api that comes, gets a message and goes.
use classic_cheese.Prelude.{ℕ, refl, Bool, true, false, List, [], ◌∷◌, some, ◌==◌}
use classic_cheese.Leaderboard.Hub.{Event, arrives, message_on}
use classic_cheese.Leaderboard.Hub.Loops.{start}
use classic_cheese.Leaderboard.Api.Reads.{Query}
use classic_cheese.Leaderboard.Api.Socket.{channel_of, handle_web_socket}
use classic_cheese.Leaderboard.Api.Socket.Session.{Watches, handle_web_socket-Watches}

abbrev query : Query
query name = "global"

abbrev second_fails : ℕ → Bool
second_fails c = c == 2

abbrev rounds : List (List Event × Bool)
rounds = (arrives "scores" 2 ∷ message_on "scores" second_fails ∷ [], true) ∷ ([], false) ∷ []

handle_web_socket-Watches_example :
    Watches (channel_of query) 1 (handle_web_socket query (some 1) rounds start)
handle_web_socket-Watches_example =
    handle_web_socket-Watches query 1 rounds start ((tt, (refl, tt)), (tt, tt))
