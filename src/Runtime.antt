-- ===== src/Runtime.antt =====
-- The vendor-neutral runtime contract, sdk/go/runtime: the action lifecycle's states, the
-- verified principal, handles and formats, grants, requests and receipts, each with its
-- `Validate`. A validator returns the first error it meets, or `none`.
pub mod Format
pub mod Types
pub mod Grant
pub mod Receipt
pub mod Request
