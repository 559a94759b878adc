-- ===== src/Actions.antt =====
-- The controlled-execution plane, services/agentnexus/internal/actions: the lifecycle's
-- transition table, the store, the outbox, and the service that composes them.
pub mod Lifecycle
pub mod Model
pub mod Store
pub mod Claims
pub mod World
pub mod Outbox
pub mod Audit
pub mod Steps
pub mod Request
pub mod Execute
pub mod Complete
pub mod Recover
pub mod Run
pub mod Safety
