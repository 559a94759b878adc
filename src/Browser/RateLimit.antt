-- ===== src/Browser/RateLimit.antt =====
-- browserauth/authorize_rate_limiter.go: at most a number of authorize calls a minute, for each
-- enterprise, client and source. A window is named by the time at which it starts, where the code
-- has the Unix seconds of that time.
pub mod Windows
use agentnexus.Base.{
  ℕ, ◌+◌, ◌-◌, ◌%◌, String, Bool, true, false, not, ◌&&◌, ◌||◌, Option, none, some, List, [], ◌∷◌,
  ◌=ₛ◌, ◌==◌, ltb, leb, if◌then◌else◌,
}
use agentnexus.Errors.{
  Err, sentinel, invalid_browser_input, authorize_rate_limited, authorize_rate_unavailable,
}
use agentnexus.Runtime.Format.{codes, count, all_chars, is_hex}
use agentnexus.Runtime.Types.{Time}

abbrev pub default_authorize_rate_limit : ℕ
default_authorize_rate_limit = 120

abbrev pub max_authorize_rate_limit : ℕ
max_authorize_rate_limit = 10000

-- one minute, in nanoseconds
abbrev pub minute : ℕ
minute = 60_000_000_000

-- `authorizeRateKey`
pub record RateKey : Type 0 where
  pub enterprise_id : String
  pub client_id : String
  pub source_hash : String
  pub window_start : Time

abbrev pub same_key : RateKey → RateKey → Bool
same_key a b =
    a.enterprise_id =ₛ b.enterprise_id
    && a.client_id =ₛ b.client_id
    && a.source_hash =ₛ b.source_hash
    && a.window_start == b.window_start

abbrev pub Counts : Type 0
Counts = RateKey → ℕ

-- `ValidAuthorizeRateLimitPerMinute`
abbrev pub valid_rate_limit : ℕ → Bool
valid_rate_limit limit = leb 1 limit && leb limit max_authorize_rate_limit

-- `canonicalSHA256Hex`: 64 lower-case hexadecimal digits
unfoldable pub canonical_sha256_hex : String → Bool
unfolding count all_chars is_hex
canonical_sha256_hex value = count (codes value) == 64 && all_chars is_hex (codes value)

-- one call, with its context's error and the clock's reading
pub record RateCall : Type 0 where
  pub ctx : Option Err
  pub enterprise_id : String
  pub client_id : String
  pub source_hash : String
  pub now : Time

abbrev pub window_of : Time → Time
window_of now = now - now % minute

abbrev pub key_of : RateCall → RateKey
key_of c = record {
  enterprise_id = c.enterprise_id;
  client_id = c.client_id;
  source_hash = c.source_hash;
  window_start = window_of c.now;
}

-- the loop that deletes the counts of earlier windows
abbrev pub purged : Time → Counts → Counts
purged window counts k = if ltb k.window_start window then 0 else counts k

abbrev pub counted : RateKey → Counts → Counts
counted key counts k = if same_key key k then counts k + 1 else counts k

unfoldable pub admit : ℕ → RateCall → Counts → (ℕ × Option Err) × Counts
admit limit c counts =
    let kept = purged (window_of c.now) counts in
    if leb limit (kept (key_of c))
    then ((window_of c.now + minute - c.now, some (sentinel authorize_rate_limited)), kept)
    else ((0, none), counted (key_of c) kept)

abbrev pub refuses : Option Err → Bool
refuses none = false
refuses (some e) = true

-- `AllowAuthorize`: the time until the window ends, and the error
unfoldable pub allow_authorize : ℕ → RateCall → Counts → (ℕ × Option Err) × Counts
unfolding admit
allow_authorize limit c counts =
    if c.enterprise_id =ₛ "" || c.client_id =ₛ "" || not (canonical_sha256_hex c.source_hash)
    then ((0, some (sentinel invalid_browser_input)), counts)
    else if refuses c.ctx
    then ((0, some (sentinel authorize_rate_unavailable)), counts)
    else admit limit c counts
