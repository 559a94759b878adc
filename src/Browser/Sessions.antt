-- ===== src/Browser/Sessions.antt =====
-- browserauth/memory_store.go: the sessions, codes and access tokens of `MemoryStore`. `ctx.Err()`
-- is an argument; it is asked before the lock and under it, and either answer is returned at
-- once. `err` is the store's injected failure. The decoding of a PKCE challenge is a parameter.
pub mod Effects
pub mod Steps
pub mod Sound
pub mod Runs
use Prim.Native.String
use agentnexus.Base.{
  ℕ, ◌+◌, String, Bool, true, false, not, ◌&&◌, ◌||◌, Option, none, some, List, [], ◌=ₛ◌, ◌≠ₛ◌, ltb,
  if◌then◌else◌, Dict, lookup, insert,
}
use agentnexus.Errors.{
  Err, sentinel, record_not_found, invalid_binding, duplicate_record, Result, ok, err,
}
use agentnexus.Runtime.Types.{Time}
use agentnexus.Browser.Model.{
  StoredSession, StoredCode, StoredToken, ExchangeRequest, default_idle_timeout,
}

pub record BrowserStore : Type 0 where
  pub users : Dict Bool
  pub sessions : Dict StoredSession
  pub codes : Dict StoredCode
  pub tokens : Dict StoredToken
  pub err : Option Err

abbrev pub Call : Type 0 → Type 0
Call A = BrowserStore → Result A × BrowserStore

-- `bindingKey`
abbrev pub binding_key : String → String → String
binding_key enterprise_id user_id = String.◌++◌ enterprise_id (String.◌++◌ "\0" user_id)

abbrev pub is_there {ℓ} : {A : Type ℓ} → Option A → Bool
is_there none = false
is_there (some a) = true

-- the early returns on the context and on the store's failure
abbrev pub guarded : {A : Type 0} → Option Err → Call A → Call A
guarded (some e) f s = (err e, s)
guarded none f s = elim s.err [ none ↦ f s | some e ↦ (err e, s) ]

abbrev pub unrevoked : StoredSession → Bool
unrevoked r = not (is_there r.revoked_at)

-- neither the idle nor the absolute time has come
abbrev pub unexpired : StoredSession → Time → Bool
unexpired r now = ltb now r.idle_expires_at && ltb now r.absolute_expires_at

abbrev pub min_time : Time → Time → Time
min_time a b = if ltb a b then a else b

-- `AddEnterpriseUser` and `EnterpriseUserBindingExists`
unfoldable pub add_user : String → String → BrowserStore → BrowserStore
add_user enterprise_id user_id s = record s {
  users = insert (binding_key enterprise_id user_id) true s.users;
}

unfoldable pub user_exists : Option Err → String → String → Call Bool
user_exists ctx enterprise_id user_id =
    guarded ctx (λ s. (ok (is_there (lookup (binding_key enterprise_id user_id) s.users)), s))

-- `CreateSession`
unfoldable pub create_session : Option Err → StoredSession → Call (Unit {0})
create_session ctx r = guarded ctx (λ s.
    if not (is_there (lookup (binding_key r.enterprise_id r.user_id) s.users))
    then (err (sentinel invalid_binding), s)
    else if is_there (lookup r.id_hash s.sessions)
    then (err (sentinel duplicate_record), s)
    else (ok tt, record s { sessions = insert r.id_hash r s.sessions }))

-- a session that is seen now
abbrev pub seen_session : StoredSession → Time → ℕ → StoredSession
seen_session r now idle_timeout = record r {
  last_seen_at = now;
  idle_expires_at = min_time (now + idle_timeout) r.absolute_expires_at;
}

use_found : Option StoredSession → String → Time → ℕ → Call StoredSession
use_found none id_hash now idle_timeout s = (err (sentinel record_not_found), s)
use_found (some r) id_hash now idle_timeout s =
    if not (unrevoked r) || not (unexpired r now) then (err (sentinel record_not_found), s) else (
      ok (seen_session r now idle_timeout),
      record s { sessions = insert id_hash (seen_session r now idle_timeout) s.sessions },
    )

-- `UseSession`
unfoldable pub use_session : Option Err → String → Time → ℕ → Call StoredSession
unfolding use_found
use_session ctx id_hash now idle_timeout =
    guarded ctx (λ s. use_found (lookup id_hash s.sessions) id_hash now idle_timeout s)

abbrev pub revoked_session : StoredSession → Time → StoredSession
revoked_session r now = record r { revoked_at = some now }

revoke_found : Option StoredSession → String → Time → Call (Unit {0})
revoke_found none id_hash now s = (err (sentinel record_not_found), s)
revoke_found (some r) id_hash now s =
    if unrevoked r
    then (ok tt, record s { sessions = insert id_hash (revoked_session r now) s.sessions })
    else (ok tt, s)

-- `RevokeSession`
unfoldable pub revoke_session : Option Err → String → Time → Call (Unit {0})
unfolding revoke_found
revoke_session ctx id_hash now =
    guarded ctx (λ s. revoke_found (lookup id_hash s.sessions) id_hash now s)

revoke_live : Option StoredSession → String → Time → Call StoredSession
revoke_live none id_hash now s = (err (sentinel record_not_found), s)
revoke_live (some r) id_hash now s =
    if not (unrevoked r) || not (unexpired r now) then (err (sentinel record_not_found), s) else (
      ok (revoked_session r now),
      record s { sessions = insert id_hash (revoked_session r now) s.sessions },
    )

-- `RevokeAndGetSession`
unfoldable pub revoke_and_get_session : Option Err → String → Time → Call StoredSession
unfolding revoke_live
revoke_and_get_session ctx id_hash now =
    guarded ctx (λ s. revoke_live (lookup id_hash s.sessions) id_hash now s)

abbrev pub binds_code : Option StoredSession → StoredCode → Bool
binds_code none c = false
binds_code (some r) c = unrevoked r && r.enterprise_id =ₛ c.enterprise_id && r.user_id =ₛ c.user_id

-- `CreateAuthorizationCode`
unfoldable pub create_code : Option Err → StoredCode → Call (Unit {0})
create_code ctx c = guarded ctx (λ s.
    if not (is_there (lookup (binding_key c.enterprise_id c.user_id) s.users))
    then (err (sentinel invalid_binding), s)
    else if not (binds_code (lookup c.session_hash s.sessions) c)
    then (err (sentinel invalid_binding), s)
    else if is_there (lookup c.code_hash s.codes)
    then (err (sentinel duplicate_record), s)
    else (ok tt, record s { codes = insert c.code_hash c s.codes }))

abbrev pub redeemable : StoredCode → ExchangeRequest → Bool
redeemable c q =
    not (is_there c.consumed_at)
    && ltb q.now c.expires_at
    && c.client_id =ₛ q.client_id
    && c.redirect_uri =ₛ q.redirect_uri

abbrev pub consumed_code : StoredCode → Time → StoredCode
consumed_code c now = record c { consumed_at = some now }

-- the access token of an exchange
abbrev pub issued_token : StoredCode → ExchangeRequest → Time → StoredToken
issued_token c q expires_at = record {
  token_hash = q.token_hash;
  session_hash = c.session_hash;
  enterprise_id = c.enterprise_id;
  user_id = c.user_id;
  client_id = c.client_id;
  audience = q.audience;
  created_at = q.now;
  expires_at = expires_at;
  revoked_at = none;
  session_created_at = 0;
  session_last_seen_at = 0;
  session_idle_expires_at = 0;
  session_absolute_expires_at = 0;
}

-- base64's raw URL decoding, none where it fails
module _ (decode : String → Option String) where
  abbrev pub answers : StoredCode → ExchangeRequest → Bool
  answers c q = elim (decode c.code_challenge) [
    | none ↦ false
    | some challenge ↦ challenge =ₛ q.verifier_digest
  ]

  unfoldable pub exchange_session :
      Option StoredSession → StoredCode → ExchangeRequest → Call StoredCode
  exchange_session none c q s = (err (sentinel record_not_found), s)
  exchange_session (some r) c q s =
      if not (unrevoked r) || not (unexpired r q.now)
      then (err (sentinel record_not_found), s)
      else if not (ltb q.now r.absolute_expires_at) || q.token_hash =ₛ "" || q.audience =ₛ ""
      then (err (sentinel record_not_found), s)
      else if not (answers c q)
      then (err (sentinel record_not_found), s)
      else (
        ok (record (consumed_code c q.now) { token_expires_at = r.absolute_expires_at }),
        record s {
          codes = insert q.code_hash (consumed_code c q.now) s.codes;
          tokens = insert q.token_hash (issued_token c q r.absolute_expires_at) s.tokens;
        },
      )

  unfoldable pub exchange_found : Option StoredCode → ExchangeRequest → Call StoredCode
  unfolding exchange_session
  exchange_found none q s = (err (sentinel record_not_found), s)
  exchange_found (some c) q s =
      if not (redeemable c q)
      then (err (sentinel record_not_found), s)
      else if is_there (lookup q.token_hash s.tokens)
      then (err (sentinel duplicate_record), s)
      else exchange_session (lookup c.session_hash s.sessions) c q s

  -- `ExchangeAuthorizationCode`
  unfoldable pub exchange_code : Option Err → ExchangeRequest → Call StoredCode
  unfolding exchange_found
  exchange_code ctx q = guarded ctx (λ s. exchange_found (lookup q.code_hash s.codes) q s)

-- the caller of an access token, and the time of its use
pub record TokenUse : Type 0 where
  pub client_id : String
  pub audience : String
  pub enterprise_id : String
  pub now : Time

-- the tests on a token and its session that both uses share
abbrev pub token_fits : StoredToken → StoredSession → TokenUse → Bool
token_fits t r u =
    not (is_there t.revoked_at)
    && t.client_id =ₛ u.client_id
    && t.audience =ₛ u.audience
    && t.enterprise_id =ₛ u.enterprise_id
    && t.enterprise_id =ₛ r.enterprise_id
    && t.user_id =ₛ r.user_id
    && ltb u.now t.expires_at

abbrev pub token_answer : StoredToken → StoredSession → StoredToken
token_answer t r = record t {
  session_created_at = r.created_at;
  session_last_seen_at = r.last_seen_at;
  session_idle_expires_at = r.idle_expires_at;
  session_absolute_expires_at = r.absolute_expires_at;
}

use_token_session : Option StoredSession → StoredToken → TokenUse → Call StoredToken
use_token_session none t u s = (err (sentinel record_not_found), s)
use_token_session (some r) t u s =
    if not (token_fits t r u && unrevoked r && unexpired r u.now)
    then (err (sentinel record_not_found), s)
    else let r' = seen_session r u.now default_idle_timeout in
      (ok (token_answer t r'), record s { sessions = insert r.id_hash r' s.sessions })

use_token_found : Option StoredToken → TokenUse → Call StoredToken
unfolding use_token_session
use_token_found none u s = (err (sentinel record_not_found), s)
use_token_found (some t) u s = use_token_session (lookup t.session_hash s.sessions) t u s

-- `UseAccessToken`
unfoldable pub use_token : Option Err → String → TokenUse → Call StoredToken
unfolding use_token_found
use_token ctx token_hash u = guarded ctx (λ s. use_token_found (lookup token_hash s.tokens) u s)

revoke_token_session : Option StoredSession → StoredToken → TokenUse → Call StoredSession
revoke_token_session none t u s = (err (sentinel record_not_found), s)
revoke_token_session (some r) t u s =
    if not (token_fits t r u) || (unrevoked r && not (unexpired r u.now))
    then (err (sentinel record_not_found), s)
    else let r' = if unrevoked r then revoked_session r u.now else r in
      (ok r', record s { sessions = insert r.id_hash r' s.sessions })

revoke_token_found : Option StoredToken → TokenUse → Call StoredSession
unfolding revoke_token_session
revoke_token_found none u s = (err (sentinel record_not_found), s)
revoke_token_found (some t) u s = revoke_token_session (lookup t.session_hash s.sessions) t u s

-- `RevokeSessionByAccessToken`
unfoldable pub revoke_session_by_token : Option Err → String → TokenUse → Call StoredSession
unfolding revoke_token_found
revoke_session_by_token ctx token_hash u =
    guarded ctx (λ s. revoke_token_found (lookup token_hash s.tokens) u s)
