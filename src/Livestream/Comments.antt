-- ===== src/Livestream/Comments.antt =====
-- Package comments: the room registry, the service on top of it and the HTTP handlers.
pub mod Hub
pub mod Service
pub mod Calls
pub mod Handlers
pub mod Stream
pub mod Examples
