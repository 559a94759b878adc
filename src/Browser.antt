-- ===== src/Browser.antt =====
-- services/agentnexus/internal/browserauth: browser sessions, authorization codes, access tokens,
-- login attempts, and the limit on the rate of authorize calls.
pub mod Model
pub mod Sessions
pub mod Attempts
pub mod RateLimit
pub mod Service
