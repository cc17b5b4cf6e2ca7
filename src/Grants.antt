-- ===== src/Grants.antt =====
-- Who is asking, and what they may see: crates/secrets/src/grants.rs and its modules.
pub mod Scope
pub mod Table
pub mod TableLaws
pub mod Refines
pub mod Registry
pub mod RegistryLaws
