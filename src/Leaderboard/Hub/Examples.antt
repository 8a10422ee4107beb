-- ===== src/Leaderboard/Hub/Examples.antt =====
-- Two clients of one channel, of which the second cannot be written to (leaderboard-poc/cmd/api/hub.go).
use classic_cheese.Prelude.{◌≡◌, ◌≢◌, String, List, [], ◌∷◌, Bool, none, ◌==◌, ℕ}
use classic_cheese.Leaderboard.Hub.{Hub, Event, arrives, leaves, message_on, broadcast, happen_all}
use classic_cheese.Leaderboard.Hub.Loops.{start, loops_of, watched, one_if, happen_all-loops}
use classic_cheese.Leaderboard.Hub.Broadcast.{entry, broadcast-entry}

abbrev second_fails : ℕ → Bool
second_fails c = c == 2

abbrev history : List Event
history =
    arrives "notifications:regional:apac:daily:2026-09-07" 1
    ∷ arrives "notifications:regional:apac:daily:2026-09-07" 2
    ∷ message_on "notifications:regional:apac:daily:2026-09-07" second_fails
    ∷ leaves "notifications:regional:apac:daily:2026-09-07" 1
    ∷ []

happen_all-loops_example :
    loops_of "notifications:regional:apac:daily:2026-09-07" (happen_all history start).loops
    ≡ one_if (watched "notifications:regional:apac:daily:2026-09-07" history)
happen_all-loops_example = happen_all-loops history "notifications:regional:apac:daily:2026-09-07"

abbrev two_clients : Hub
two_clients = record { conns = ("scores", (1, tt) ∷ (2, tt) ∷ []) ∷ []; subscribing = [] }

broadcast-entry_example :
    (entry "scores" 2 (broadcast second_fails "scores" two_clients) ≡ none)
    × ((r : String)
        → "scores" ≢ r
        → entry r 2 (broadcast second_fails "scores" two_clients) ≡ entry r 2 two_clients)
broadcast-entry_example = broadcast-entry second_fails "scores" two_clients 2
