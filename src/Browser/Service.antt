-- ===== src/Browser/Service.antt =====
-- browserauth/service.go: the operations over the store. What the clock and the generator of
-- secrets answer are arguments, in the order in which the code asks. The decoded bytes of a
-- base64 text are written in hexadecimal, two characters a byte.
pub mod Answers
pub mod Errors
pub mod Codes
use Prim.Native.String
use agentnexus.Base.{
  ℕ, ℤ, pos, negsuc, ltb, ◌+◌, ◌-◌, ◌%◌, String, Bool, true, false, not, ◌&&◌, ◌||◌, Option, none,
  some, ◌=ₛ◌, ◌≠ₛ◌, ◌==◌, leb, if◌then◌else◌,
}
use agentnexus.Errors.{
  Err, Sentinel, sentinel, errors_is, record_not_found, invalid_binding, outstanding_limited,
  invalid_session, invalid_browser_grant, invalid_browser_input, invalid_login_attempt,
  session_unavailable, browser_grant_unavailable, login_attempt_unavailable, login_attempt_limited,
  invalid_access_token, access_token_unavailable, Result, ok, err,
}
use agentnexus.Runtime.Format.{codes, all_chars, between, is_digit}
use agentnexus.Runtime.Types.{Time}
use agentnexus.Browser.Model.{
  BrowserSession, LoginAttempt, StoredLoginAttempt, StoredSession, StoredCode, StoredToken,
  ExchangeRequest, LoginAttemptLimits, public_session, default_idle_timeout,
  default_absolute_timeout, default_code_timeout, default_login_timeout,
}
use agentnexus.Browser.Attempts.{AttemptStore, create_attempt, consume_attempt}
use agentnexus.Browser.Sessions.{
  BrowserStore, Call, TokenUse, user_exists, create_session as put_session, use_session,
  revoke_session as revoke_stored, revoke_and_get_session, create_code,
  exchange_code as exchange_stored, use_token, revoke_session_by_token,
}

-- SHA-256 in hexadecimal, and base64's raw URL encoding
pub record Secrets : Type 0 where
  pub hash_hex : String → String
  pub decode : String → Option String
  pub encode : String → String

abbrev pub max_client_id_length : ℕ
max_client_id_length = 256

abbrev pub max_redirect_uri_length : ℕ
max_redirect_uri_length = 2048

abbrev pub max_console_state_length : ℕ
max_console_state_length = 1024

abbrev pub max_nonce_length : ℕ
max_nonce_length = 512

-- `LoginAttemptLimits.valid`
abbrev pub valid_limits : LoginAttemptLimits → Bool
valid_limits l =
    leb 1 l.per_browser
    && leb l.per_browser 64
    && leb l.per_browser l.global
    && leb l.global 1_000_000

-- `validBounded`
unfoldable pub valid_bounded : String → ℕ → Bool
valid_bounded value max = not (value =ₛ "") && leb (String.len value) max

is_verifier_char : ℕ → Bool
unfolding is_digit
is_verifier_char c =
    between b'a' b'z' c
    || between b'A' b'Z' c
    || is_digit c
    || c == b'-'
    || c == b'.'
    || c == b'_'
    || c == b'~'

-- `validPKCEVerifier`
unfoldable pub valid_pkce_verifier : String → Bool
unfolding is_verifier_char
valid_pkce_verifier verifier =
    leb 43 (String.len verifier)
    && leb (String.len verifier) 128
    && all_chars is_verifier_char (codes verifier)

pub record CreateSessionInput : Type 0 where
  pub enterprise_id : String
  pub user_id : String
  pub user_agent : String

pub record IssueCodeInput : Type 0 where
  pub enterprise_id : String
  pub user_id : String
  pub browser_session_token : String
  pub client_id : String
  pub redirect_uri : String
  pub nonce : String
  pub code_challenge : String

pub record ExchangeCodeInput : Type 0 where
  pub code : String
  pub verifier : String
  pub client_id : String
  pub redirect_uri : String

pub record ExchangeResult : Type 0 where
  pub enterprise_id : String
  pub user_id : String
  pub nonce : String
  pub access_token : String
  pub access_token_expires_at : Time
  pub access_token_expires_in : ℤ

pub record CreateLoginAttemptInput : Type 0 where
  pub enterprise_id : String
  pub browser_id : String
  pub client_id : String
  pub redirect_uri : String
  pub console_state : String
  pub console_nonce : String
  pub code_challenge : String

-- the caller of an access token
pub record TokenCaller : Type 0 where
  pub client_id : String
  pub audience : String
  pub enterprise_id : String

-- `Time.Sub`
abbrev pub between_times : Time → Time → ℤ
between_times a b = if ltb a b then negsuc (b - a - 1) else pos (a - b)

-- the service's error for a store's: a missing record has its own
abbrev pub masked : Sentinel → Sentinel → Err → Err
masked missing down e = if errors_is e record_not_found then sentinel missing else sentinel down

-- the answer of a store's call, with its errors masked
abbrev pub answered : {A B S : Type 0} → Sentinel → Sentinel → (A → B) → Result A × S → Result B × S
answered missing down f (ok a, s) = (ok (f a), s)
answered missing down f (err e, s) = (err (masked missing down e), s)

module _ (d : Secrets) where
  abbrev pub decodes : (String → Bool) → String → Bool
  decodes fits value = elim (d.decode value) [
    | none ↦ false
    | some bytes ↦ fits bytes && d.encode bytes =ₛ value
  ]

  -- `validOpaqueSecret`, `validateGeneratedSecret` and `validS256Challenge` accept
  unfoldable pub valid_opaque_secret : String → Bool
  valid_opaque_secret value =
      decodes (λ bytes. String.len bytes == 64 && String.len value == 43) value

  unfoldable pub valid_generated_secret : String → Bool
  valid_generated_secret value = decodes (λ bytes. leb 64 (String.len bytes)) value

  unfoldable pub valid_s256_challenge : String → Bool
  valid_s256_challenge value = decodes (λ bytes. String.len bytes == 64) value

  abbrev pub new_session : CreateSessionInput → String → Time → StoredSession
  new_session input token now = record {
    id_hash = d.hash_hex token;
    enterprise_id = input.enterprise_id;
    user_id = input.user_id;
    created_at = now;
    last_seen_at = now;
    idle_expires_at = now + default_idle_timeout;
    absolute_expires_at = now + default_absolute_timeout;
    revoked_at = none;
    user_agent_hash = d.hash_hex input.user_agent;
  }

  open_with :
      Option Err → CreateSessionInput → Result String → Time → Call (String × BrowserSession)
  open_with ctx input (err e) now s = (err e, s)
  open_with ctx input (ok token) now s =
      if not (valid_generated_secret token)
      then (err (sentinel invalid_browser_input), s)
      else opened (put_session ctx (new_session input token now) s)
    where
      opened : Result (Unit {0}) × BrowserStore → Result (String × BrowserSession) × BrowserStore
      opened (ok u, s') = (ok (token, public_session (new_session input token now)), s')
      opened (err e, s') = (err e, s')

  bound_with :
      Option Err
      → CreateSessionInput
      → Result String
      → Time
      → Result Bool × BrowserStore
      → Result (String × BrowserSession) × BrowserStore
  bound_with ctx input secret now (ok true, s) = open_with ctx input secret now s
  bound_with ctx input secret now (ok false, s) = (err (sentinel invalid_binding), s)
  bound_with ctx input secret now (err e, s) = (err (sentinel invalid_binding), s)

  -- `Service.CreateSession`
  unfoldable pub create_session :
      Option Err → CreateSessionInput → Result String → Time → Call (String × BrowserSession)
  unfolding bound_with open_with
  create_session ctx input secret now s =
      if input.enterprise_id =ₛ "" || input.user_id =ₛ ""
      then (err (sentinel invalid_browser_input), s)
      else bound_with ctx input secret now (user_exists ctx input.enterprise_id input.user_id s)

  -- `Service.GetSession`
  unfoldable pub get_session : Option Err → String → Time → Call BrowserSession
  get_session ctx token now s =
      if token =ₛ ""
      then (err (sentinel invalid_session), s)
      else answered invalid_session session_unavailable public_session
          (use_session ctx (d.hash_hex token) now default_idle_timeout s)

  -- `Service.RevokeSession`
  unfoldable pub revoke_session : Option Err → String → Time → Call (Unit {0})
  revoke_session ctx token now s =
      if token =ₛ ""
      then (err (sentinel invalid_session), s)
      else answered invalid_session session_unavailable (λ u. u)
          (revoke_stored ctx (d.hash_hex token) now s)

  -- `Service.LogoutSession`
  unfoldable pub logout_session : Option Err → String → Time → Call BrowserSession
  logout_session ctx token now s =
      if not (valid_generated_secret token)
      then (err (sentinel invalid_session), s)
      else answered invalid_session session_unavailable public_session
          (revoke_and_get_session ctx (d.hash_hex token) now s)

  abbrev pub new_code : IssueCodeInput → String → Time → StoredCode
  new_code input code now = record {
    code_hash = d.hash_hex code;
    enterprise_id = input.enterprise_id;
    user_id = input.user_id;
    client_id = input.client_id;
    redirect_uri = input.redirect_uri;
    nonce = input.nonce;
    code_challenge = input.code_challenge;
    created_at = now;
    expires_at = now + default_code_timeout;
    consumed_at = none;
    session_hash = d.hash_hex input.browser_session_token;
    token_expires_at = 0;
  }

  unfoldable pub coded : String → Result (Unit {0}) × BrowserStore → Result String × BrowserStore
  coded code (ok u, s) = (ok code, s)
  coded code (err e, s) = (err e, s)

  unfoldable pub issue_with : Option Err → IssueCodeInput → Result String → Time → Call String
  issue_with ctx input (err e) now s = (err e, s)
  issue_with ctx input (ok code) now s =
      if not (valid_opaque_secret code)
      then (err (sentinel invalid_browser_input), s)
      else coded code (create_code ctx (new_code input code now) s)

  unfoldable pub issue_for :
      Option Err
      → IssueCodeInput
      → Result String
      → Time
      → Result StoredSession × BrowserStore
      → Result String × BrowserStore
  issue_for ctx input secret now (err e, s) = (err (sentinel invalid_binding), s)
  issue_for ctx input secret now (ok r, s) =
      if r.enterprise_id ≠ₛ input.enterprise_id || r.user_id ≠ₛ input.user_id
      then (err (sentinel invalid_binding), s)
      else issue_with ctx input secret now s

  abbrev pub issuable : IssueCodeInput → Bool
  issuable input =
      not (input.enterprise_id =ₛ "")
      && not (input.user_id =ₛ "")
      && valid_generated_secret input.browser_session_token
      && valid_bounded input.client_id max_client_id_length
      && valid_bounded input.redirect_uri max_redirect_uri_length
      && valid_bounded input.nonce max_nonce_length
      && valid_s256_challenge input.code_challenge

  -- `Service.IssueCode`, with the clock's two answers
  unfoldable pub issue_code :
      Option Err → IssueCodeInput → Time → Result String → Time → Call String
  issue_code ctx input seen secret now s =
      if not (issuable input)
      then (err (sentinel invalid_browser_input), s)
      else issue_for ctx input secret now
          (use_session ctx (d.hash_hex input.browser_session_token) seen default_idle_timeout s)

  abbrev pub exchange_result : String → Time → StoredCode → ExchangeResult
  exchange_result token after c = record {
    enterprise_id = c.enterprise_id;
    user_id = c.user_id;
    nonce = c.nonce;
    access_token = token;
    access_token_expires_at = c.token_expires_at;
    access_token_expires_in = between_times c.token_expires_at after;
  }

  abbrev pub exchangeable : ExchangeCodeInput → Bool
  exchangeable input =
      valid_opaque_secret input.code
      && valid_pkce_verifier input.verifier
      && valid_bounded input.client_id max_client_id_length
      && valid_bounded input.redirect_uri max_redirect_uri_length

  abbrev pub request_of : ExchangeCodeInput → String → Time → ExchangeRequest
  request_of input token now = record {
    code_hash = d.hash_hex input.code;
    verifier_digest = d.hash_hex input.verifier;
    client_id = input.client_id;
    redirect_uri = input.redirect_uri;
    now = now;
    token_hash = d.hash_hex token;
    audience = input.client_id;
  }

  unfoldable pub redeem_with :
      Option Err → ExchangeCodeInput → Result String → Time → Time → Call ExchangeResult
  redeem_with ctx input (err e) now after s = (err (sentinel browser_grant_unavailable), s)
  redeem_with ctx input (ok token) now after s =
      if not (valid_generated_secret token)
      then (err (sentinel browser_grant_unavailable), s)
      else answered invalid_browser_grant browser_grant_unavailable (exchange_result token after)
          (exchange_stored d.decode ctx (request_of input token now) s)

  -- `Service.ExchangeCode`, with the clock's two answers
  unfoldable pub exchange_code :
      Option Err → ExchangeCodeInput → Result String → Time → Time → Call ExchangeResult
  exchange_code ctx input secret now after s =
      if not (exchangeable input)
      then (err (sentinel invalid_browser_grant), s)
      else redeem_with ctx input secret now after s

  abbrev pub use_of : TokenCaller → Time → TokenUse
  use_of who now = record {
    client_id = who.client_id;
    audience = who.audience;
    enterprise_id = who.enterprise_id;
    now = now;
  }

  abbrev pub session_of : StoredToken → BrowserSession
  session_of t = record {
    enterprise_id = t.enterprise_id;
    user_id = t.user_id;
    created_at = t.session_created_at;
    last_seen_at = t.session_last_seen_at;
    idle_expires_at = t.session_idle_expires_at;
    absolute_expires_at = t.session_absolute_expires_at;
  }

  -- `Service.GetAccessTokenSession`
  unfoldable pub get_access_token_session :
      Option Err → String → TokenCaller → Time → Call BrowserSession
  get_access_token_session ctx token who now s =
      if not (valid_generated_secret token)
        || not (valid_bounded who.client_id max_client_id_length)
        || not (valid_bounded who.audience max_client_id_length)
        || who.enterprise_id =ₛ ""
      then (err (sentinel invalid_access_token), s)
      else answered invalid_access_token access_token_unavailable session_of
          (use_token ctx (d.hash_hex token) (use_of who now) s)

  -- `Service.LogoutAccessTokenSession`
  unfoldable pub logout_access_token_session :
      Option Err → String → TokenCaller → Time → Call BrowserSession
  logout_access_token_session ctx token who now s =
      if not (valid_generated_secret token)
      then (err (sentinel invalid_access_token), s)
      else answered invalid_access_token session_unavailable public_session
          (revoke_session_by_token ctx (d.hash_hex token) (use_of who now) s)

  abbrev pub second : ℕ
  second = 1_000_000_000

  abbrev pub new_attempt :
      CreateLoginAttemptInput → String → String → String → Time → StoredLoginAttempt
  new_attempt input state nonce binding now = record {
    state_hash = d.hash_hex state;
    binding_hash = d.hash_hex binding;
    browser_id_hash = d.hash_hex input.browser_id;
    attempt = record {
      enterprise_id = input.enterprise_id;
      client_id = input.client_id;
      redirect_uri = input.redirect_uri;
      console_state = input.console_state;
      console_nonce = input.console_nonce;
      code_challenge = input.code_challenge;
      upstream_nonce = nonce;
      created_at = now - now % second;
      expires_at = now - now % second + default_login_timeout;
    };
  }

  abbrev pub startable : LoginAttemptLimits → CreateLoginAttemptInput → Bool
  startable limits input =
      valid_limits limits
      && not (input.enterprise_id =ₛ "")
      && valid_opaque_secret input.browser_id
      && valid_bounded input.client_id max_client_id_length
      && valid_bounded input.redirect_uri max_redirect_uri_length
      && valid_bounded input.console_state max_console_state_length
      && valid_bounded input.console_nonce max_nonce_length
      && valid_s256_challenge input.code_challenge

  -- the three secrets, or the first error of their generator
  abbrev pub all_three :
      Result String → Result String → Result String → Result (String × String × String)
  all_three (err e) nonce binding = err e
  all_three (ok state) (err e) binding = err e
  all_three (ok state) (ok nonce) (err e) = err e
  all_three (ok state) (ok nonce) (ok binding) = ok (state, nonce, binding)

  abbrev pub Started : Type 0
  Started = Result (String × String × LoginAttempt) × AttemptStore

  unfoldable pub started :
      String → String → StoredLoginAttempt → Option Err × AttemptStore → Started
  started state binding a (none, s) = (ok (state, binding, a.attempt), s)
  started state binding a (some e, s) =
      if errors_is e outstanding_limited
      then (err (sentinel login_attempt_limited), s)
      else (err (sentinel login_attempt_unavailable), s)

  unfoldable pub start_with :
      (String → String → Bool)
      → LoginAttemptLimits
      → Option Err
      → CreateLoginAttemptInput
      → Result (String × String × String)
      → Time
      → AttemptStore
      → Started
  unfolding started
  start_with less limits ctx input (err e) now s = (err e, s)
  start_with less limits ctx input (ok (state, nonce, binding)) now s =
      if not (valid_opaque_secret state)
        || not (valid_opaque_secret nonce)
        || not (valid_opaque_secret binding)
      then (err (sentinel invalid_browser_input), s)
      else let a = new_attempt input state nonce binding now in
        started state binding a (create_attempt less ctx a limits s)

  -- `Service.CreateLoginAttempt`
  unfoldable pub create_login_attempt :
      (String → String → Bool)
      → LoginAttemptLimits
      → Option Err
      → CreateLoginAttemptInput
      → Result String
      → Result String
      → Result String
      → Time
      → AttemptStore
      → Started
  unfolding start_with
  create_login_attempt less limits ctx input state nonce binding now s =
      if not (startable limits input)
      then (err (sentinel invalid_browser_input), s)
      else start_with less limits ctx input (all_three state nonce binding) now s

  -- `Service.ConsumeLoginAttempt`
  unfoldable pub consume_login_attempt :
      Option Err → String → String → Time → AttemptStore → Result LoginAttempt × AttemptStore
  consume_login_attempt ctx state binding now s =
      if not (valid_opaque_secret state) || not (valid_opaque_secret binding)
      then (err (sentinel invalid_login_attempt), s)
      else answered invalid_login_attempt login_attempt_unavailable
          (λ (a : StoredLoginAttempt). a.attempt)
          (consume_attempt ctx (d.hash_hex state) (d.hash_hex binding) now s)
