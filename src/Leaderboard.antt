-- ===== src/Leaderboard.antt =====
-- The leaderboard services, leaderboard-poc.
pub mod Score
pub mod Sorting
pub mod Models
pub mod Redis
pub mod Aggregator
pub mod Notifier
pub mod HistoryWriter
pub mod Mysql
pub mod Rabbit
pub mod Config
pub mod Api
pub mod Hub
pub mod Seed
pub mod Global
pub mod Examples
