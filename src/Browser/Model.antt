-- ===== src/Browser/Model.antt =====
-- browserauth/model.go and the constants of browserauth/service.go.
use agentnexus.Base.{ℕ, String, Option}
use agentnexus.Runtime.Types.{Time}

-- durations in nanoseconds
abbrev pub default_idle_timeout : ℕ
default_idle_timeout = 28_800_000_000_000

abbrev pub default_absolute_timeout : ℕ
default_absolute_timeout = 86_400_000_000_000

abbrev pub default_code_timeout : ℕ
default_code_timeout = 60_000_000_000

abbrev pub default_login_timeout : ℕ
default_login_timeout = 300_000_000_000

pub record BrowserSession : Type 0 where
  pub enterprise_id : String
  pub user_id : String
  pub created_at : Time
  pub last_seen_at : Time
  pub idle_expires_at : Time
  pub absolute_expires_at : Time

pub record LoginAttempt : Type 0 where
  pub enterprise_id : String
  pub client_id : String
  pub redirect_uri : String
  pub console_state : String
  pub console_nonce : String
  pub code_challenge : String
  pub upstream_nonce : String
  pub created_at : Time
  pub expires_at : Time

pub record StoredLoginAttempt : Type 0 where
  pub state_hash : String
  pub binding_hash : String
  pub browser_id_hash : String
  pub attempt : LoginAttempt

pub record StoredSession : Type 0 where
  pub id_hash : String
  pub enterprise_id : String
  pub user_id : String
  pub created_at : Time
  pub last_seen_at : Time
  pub idle_expires_at : Time
  pub absolute_expires_at : Time
  pub revoked_at : Option Time
  pub user_agent_hash : String

pub record StoredCode : Type 0 where
  pub code_hash : String
  pub enterprise_id : String
  pub user_id : String
  pub client_id : String
  pub redirect_uri : String
  pub nonce : String
  pub code_challenge : String
  pub created_at : Time
  pub expires_at : Time
  pub consumed_at : Option Time
  pub session_hash : String
  pub token_expires_at : Time

pub record StoredToken : Type 0 where
  pub token_hash : String
  pub session_hash : String
  pub enterprise_id : String
  pub user_id : String
  pub client_id : String
  pub audience : String
  pub created_at : Time
  pub expires_at : Time
  pub revoked_at : Option Time
  pub session_created_at : Time
  pub session_last_seen_at : Time
  pub session_idle_expires_at : Time
  pub session_absolute_expires_at : Time

pub record ExchangeRequest : Type 0 where
  pub code_hash : String
  pub verifier_digest : String
  pub client_id : String
  pub redirect_uri : String
  pub now : Time
  pub token_hash : String
  pub audience : String

pub record LoginAttemptLimits : Type 0 where
  pub per_browser : ℕ
  pub global : ℕ

-- `publicSession`
abbrev pub public_session : StoredSession → BrowserSession
public_session s = record {
  enterprise_id = s.enterprise_id;
  user_id = s.user_id;
  created_at = s.created_at;
  last_seen_at = s.last_seen_at;
  idle_expires_at = s.idle_expires_at;
  absolute_expires_at = s.absolute_expires_at;
}
