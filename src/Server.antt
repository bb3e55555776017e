-- ===== src/Server.antt =====
-- The server: crates/kboard-server/src.
pub mod Limits
pub mod Rate
pub mod Room
pub mod State
pub mod Session
pub mod Batch
pub mod Logged
pub mod Durable
pub mod Reach
pub mod Relay
pub mod Loop
pub mod Auth
pub mod Unreadable
