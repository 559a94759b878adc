-- ===== src/Tests.antt =====
-- Tests and concrete instances of the theorems, on one wired service and one governed action.
mod Fixtures
mod Service
mod Stores
mod Parts
mod Replays
mod Approvals
mod Trail
mod Logins
mod Audits
mod Consoles
mod TaskRuns
mod Grants
