-- ===== src/Protocol.antt =====
-- The broker's wire protocol: crates/proto/src/lib.rs, crates/secrets/src/proto/request.rs and
-- proto/response.rs.
pub mod Numbers
pub mod Codes
pub mod Request
pub mod Response
pub mod Reply
pub mod Events
