-- ===== src/Broker.antt =====
-- The secrets broker's shared state and its handlers: crates/secrets/src/server.rs, server/dispatch.rs
-- and the files under server/. Each function is what a thread does while it holds the lock.
pub mod State
pub mod Control
pub mod Capability
pub mod Approval
pub mod Dispatch
pub mod Lanes
pub mod Frame
pub mod Subscribers
pub mod Worker
pub mod System
pub mod Registered
pub mod Authority
pub mod Invariant
pub mod Finish
pub mod Queued
pub mod Settled
pub mod Safety
pub mod Lock
pub mod Epoch
pub mod Overtaken
pub mod Waits
pub mod Approved
pub mod Release
