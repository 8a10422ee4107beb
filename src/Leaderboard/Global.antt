-- ===== src/Leaderboard/Global.antt =====
-- The global leaderboard from leaderboard-poc/cmd/aggregator/main.go, which writes it, to
-- leaderboard-poc/cmd/api/handlers.go, which reads it.
pub mod Sets
pub mod Kept
pub mod Served
pub mod Examples
