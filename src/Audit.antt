-- ===== src/Audit.antt =====
-- sdk/go/audit: the signed audit trail and its offline check.
pub mod Merkle
pub mod Event
pub mod Chain
