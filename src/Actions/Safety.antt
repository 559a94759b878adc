-- ===== src/Actions/Safety.antt =====
-- How the service's operations are shown to keep the store's promises: which steps are quiet
-- (they leave the store alone and only draw identifiers), and what holds of a state that an
-- operation leaves behind. The operations themselves are in the modules below.
pub mod Receipts
pub mod Quiet
pub mod Kept
pub mod Ops
pub mod Publish
pub mod Ends
pub mod Starts
pub mod Runs
pub mod Needs
pub mod Approved
pub mod Silent
pub mod FailClosed
