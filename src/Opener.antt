-- ===== src/Opener.antt =====
-- The link opener: crates/forward/src/.
pub mod Url
pub mod Policy
pub mod Matches
pub mod Callback
pub mod Ports
pub mod Peers
pub mod Browser
pub mod Lines
pub mod Bridge
