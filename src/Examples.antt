-- ===== src/Examples.antt =====
-- The theorems at concrete inputs.
pub mod Data
pub mod Queues
pub mod Receipts
pub mod Sessions
pub mod Texts
pub mod Brokers
pub mod Stores
pub mod Openers
