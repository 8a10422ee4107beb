-- ===== src/Livestream.antt =====
-- The livestream server (livestream-poc/server): comments, tokens, the configuration and the start.
pub mod Comments
pub mod Token
pub mod Config
pub mod Server
pub mod Examples
