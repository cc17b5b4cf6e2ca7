-- ===== src/Requests.antt =====
-- Pending approval requests and the single-flight hardware queue: crates/secrets/src/requests.rs and
-- its modules.
pub mod Types
pub mod Queue
pub mod Ops
pub mod Updates
pub mod Sound
pub mod Sweep
pub mod Over
pub mod Ended
pub mod Limits
pub mod Flight
pub mod Stale
pub mod Moves
pub mod Decrypts
