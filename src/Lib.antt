-- ===== src/Lib.antt =====
-- ClassicCheese: the comment rooms of a livestream server and the services of a leaderboard.
--
-- The repository holds two Go programs.
-- Livestream (livestream-poc/server): viewers open a stream of server-sent events for a room and post
-- comments to it. `Service` checks a comment, numbers it and publishes it through `Hub`, which offers
-- the event to the mailbox of each connection of the room; a full mailbox is told to close. A second
-- handler mints LiveKit tokens.
-- Leaderboard (leaderboard-poc): an API writes scores into Redis and events into RabbitMQ; the
-- aggregator merges the regions' leaderboards into a global one, the notifier announces changes of
-- rank, the history writer keeps the events in MySQL.
--
-- Which file models what:
--   Livestream/Comments/Hub        livestream-poc/server/internal/comments/hub.go: NewHub, Subscribe,
--                                  Unsubscribe, Publish, drop. Mailboxes lie on a heap; a connection
--                                  is its address. A send on a closed kill channel or a missing address
--                                  is the outcome `none`, a panic.
--   Livestream/Comments/Service    livestream-poc/server/internal/comments/service.go: counterFor,
--                                  AddComment, Count.
--   Livestream/Comments/Calls      the same AddComment cut at its locks: concurrent calls and
--                                  connections as a step relation.
--   Livestream/Comments/Handlers   livestream-poc/server/internal/comments/handlers.go: PostComment.
--   Livestream/Comments/Stream     the same file: Stream, its opening and its loop. What other handlers
--                                  do between its subscription and its count is an argument.
--   Livestream/Token               livestream-poc/server/internal/token/token.go: Handler.
--   Livestream/Config              livestream-poc/server/internal/config/config.go: Load, getEnv.
--   Livestream/Server              livestream-poc/server/main.go: main up to the routes, and cors; a handler
--                                  behind cors sets its headers on top of those of cors.
--   Leaderboard/Models             leaderboard-poc/internal/models/models.go: ScoreEvent, Notification,
--                                  SnapshotRow; Period: DailyKey, WeeklyKey, MonthlyKey and PeriodKey,
--                                  with the calendar of package time.
--   Leaderboard/Redis              leaderboard-poc/internal/redisclient/redisclient.go.
--   Leaderboard/Aggregator         leaderboard-poc/cmd/aggregator/main.go: activityTracker, runCycle.
--   Leaderboard/Notifier           leaderboard-poc/cmd/notifier/main.go: rankMemory, handleEvent.
--   Leaderboard/Api                leaderboard-poc/cmd/api/handlers.go: writeJSON, zToEntries,
--                                  parseIntDefault; Friends: friendsLeaderboard and the slices that are
--                                  cut from it; Reads: the handlers of top, rank and around; Update:
--                                  the handler of score updates; History: those of the history and of
--                                  the admin's snapshots; Socket: that of WebSockets. A panic is the
--                                  outcome `none`.
--   Leaderboard/Hub                leaderboard-poc/cmd/api/hub.go: Register, Unregister, broadcast, as
--                                  events one after the other; a broadcast is one event.
--   Leaderboard/Mysql              leaderboard-poc/internal/mysqlclient/mysqlclient.go: FriendIDs; Events: New,
--                                  InsertScoreEvent; Snapshots: InsertSnapshot, LatestSnapshot.
--   Leaderboard/Rabbit             leaderboard-poc/internal/rabbitmqclient/rabbitmqclient.go, and the start
--                                  of the services in their main functions.
--   Leaderboard/HistoryWriter      leaderboard-poc/cmd/historywriter/main.go: the loop over the
--                                  deliveries, on as many deliveries as it is given.
--   Leaderboard/Seed               leaderboard-poc/cmd/seed/main.go: createUsers, createFriendGraph,
--                                  postScoreEvents; fuel for the loop that picks friends.
--   Leaderboard/Global             the aggregator and the API together: what is merged and then served.
--   Leaderboard/Config             leaderboard-poc/internal/config/config.go: Load, getEnv, getEnvInt.
--   Leaderboard/Sorting, Score     the contract of sort.Slice; what is used of float64.
--   Http, Prelude                  replies of net/http; lists, maps, texts, 64-bit integers, strconv.
--
-- How it is written. State is passed on explicitly and a function returns its new state; an error is a
-- value. Go's int is an integer with its wrap-around at 64 bits written out (`wrap64`). A map is an
-- association list; where Go leaves the order of `range` open, the order is an argument. Redis is a
-- record of commands, each of which turns the state of the world, where other clients write too, into
-- a result and a new state, so the theorems hold whatever happens between two commands. Loops are
-- structural recursion over the list that they range over. The loop of the history writer recurses on
-- the number of deliveries; one for each message and for each failure of an insert is enough. The loop
-- that picks a user's friends recurses on fuel; with draws among which each user comes up within
-- `patience` of them, `patience` for each friend is enough.
--
-- Arguments instead of definitions: Redis, the AMQP library, the statements on each table of MySQL,
-- encoding/json, the LiveKit signing, UUIDs, the clock, float64 (comparison, conversions and
-- ParseFloat), the text of an error of Atoi, and sort.Slice, whose contract is that it permutes and
-- sorts. What a theorem needs of Redis, of RabbitMQ or of a table is a record of laws over a
-- view of the state, met by a small store in an Examples file.
--
-- Not modelled: logging, the router, the rest of the main functions of the leaderboard, and the front
-- end.
pub mod Prelude
pub mod Http
pub mod Livestream
pub mod Leaderboard
