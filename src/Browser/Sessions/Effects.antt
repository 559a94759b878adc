-- ===== src/Browser/Sessions/Effects.antt =====
-- browserauth/memory_store.go: what each method writes, as one alternative: nothing, or exactly the
-- named rows, and then its conditions held.
use agentnexus.Base.{
  ℕ, String, true, false, Option, none, some, ◌≡◌, if◌then◌else◌, ◌=ₛ◌, arith, ◌⊎◌, lookup, insert,
}
use agentnexus.Errors.{Err, ok, is_ok}
use agentnexus.Runtime.Types.{Time}
use agentnexus.Browser.Model.{
  StoredSession, StoredCode, StoredToken, ExchangeRequest, default_idle_timeout,
}
use agentnexus.Browser.Sessions.{
  BrowserStore, unrevoked, unexpired, redeemable, answers, consumed_code, issued_token,
  seen_session, revoked_session, TokenUse, token_fits, create_session, use_session, revoke_session,
  revoke_and_get_session, create_code, exchange_code, use_token, revoke_session_by_token,
}

pub create_session_effect :
    (ctx : Option Err) (r : StoredSession) (s : BrowserStore)
    → ((create_session ctx r s).1 ≡ s)
      ⊎ ((lookup r.id_hash s.sessions ≡ none)
          × ((create_session ctx r s).1 ≡ record s { sessions = insert r.id_hash r s.sessions }))
unfolding create_session
create_session_effect ctx r s = ground arith

pub use_session_effect :
    (ctx : Option Err) (id : String) (now : Time) (idle_timeout : ℕ) (s : BrowserStore)
    → (((use_session ctx id now idle_timeout s).1 ≡ s)
        × (is_ok (use_session ctx id now idle_timeout s).0 ≡ false))
      ⊎ ((r : StoredSession) × (lookup id s.sessions ≡ some r)
          × (unrevoked r ≡ true)
          × (unexpired r now ≡ true)
          × ((use_session ctx id now idle_timeout s).1
              ≡ record s { sessions = insert id (seen_session r now idle_timeout) s.sessions }))
unfolding use_session
use_session_effect ctx id now idle_timeout s = ground arith

pub revoke_session_effect :
    (ctx : Option Err) (id : String) (now : Time) (s : BrowserStore)
    → ((revoke_session ctx id now s).1 ≡ s)
      ⊎ ((r : StoredSession) × (lookup id s.sessions ≡ some r)
          × (unrevoked r ≡ true)
          × ((revoke_session ctx id now s).1
              ≡ record s { sessions = insert id (revoked_session r now) s.sessions }))
unfolding revoke_session
revoke_session_effect ctx id now s = ground arith

pub revoke_and_get_session_effect :
    (ctx : Option Err) (id : String) (now : Time) (s : BrowserStore)
    → ((revoke_and_get_session ctx id now s).1 ≡ s)
      ⊎ ((r : StoredSession) × (lookup id s.sessions ≡ some r)
          × (unrevoked r ≡ true)
          × ((revoke_and_get_session ctx id now s).1
              ≡ record s { sessions = insert id (revoked_session r now) s.sessions }))
unfolding revoke_and_get_session
revoke_and_get_session_effect ctx id now s = ground arith

pub create_code_effect :
    (ctx : Option Err) (c : StoredCode) (s : BrowserStore)
    → (((create_code ctx c s).1 ≡ s) × (is_ok (create_code ctx c s).0 ≡ false))
      ⊎ ((r : StoredSession) × (lookup c.code_hash s.codes ≡ none)
          × (lookup c.session_hash s.sessions ≡ some r)
          × (unrevoked r ≡ true)
          × ((r.enterprise_id =ₛ c.enterprise_id) ≡ true)
          × ((r.user_id =ₛ c.user_id) ≡ true)
          × ((create_code ctx c s).1 ≡ record s { codes = insert c.code_hash c s.codes }))
unfolding create_code
create_code_effect ctx c s = ground arith

-- An exchange refuses and writes nothing, or the code was unconsumed, unexpired, of the same
-- client and redirect, and its challenge is answered; the session was live; and the code is
-- consumed together with the issue of a token that ends with the session.
pub exchange_code_effect :
    (decode : String → Option String) (ctx : Option Err) (q : ExchangeRequest) (s : BrowserStore)
    → let r' = exchange_code decode ctx q s in
      ((r'.1 ≡ s) × (is_ok r'.0 ≡ false))
      ⊎ ((c : StoredCode) × (r : StoredSession) × (lookup q.code_hash s.codes ≡ some c)
          × (redeemable c q ≡ true)
          × (lookup q.token_hash s.tokens ≡ none)
          × (lookup c.session_hash s.sessions ≡ some r)
          × (unrevoked r ≡ true)
          × (unexpired r q.now ≡ true)
          × (answers decode c q ≡ true)
          × (r' ≡ (
            ok (record (consumed_code c q.now) { token_expires_at = r.absolute_expires_at }),
            record s {
              codes = insert q.code_hash (consumed_code c q.now) s.codes;
              tokens = insert q.token_hash (issued_token c q r.absolute_expires_at) s.tokens;
            },
          )))
unfolding exchange_code
exchange_code_effect decode ctx q s = ground arith

pub use_token_effect :
    (ctx : Option Err) (token_hash : String) (u : TokenUse) (s : BrowserStore)
    → (((use_token ctx token_hash u s).1 ≡ s) × (is_ok (use_token ctx token_hash u s).0 ≡ false))
      ⊎ ((t : StoredToken) × (r : StoredSession) × (lookup token_hash s.tokens ≡ some t)
          × (lookup t.session_hash s.sessions ≡ some r)
          × (token_fits t r u ≡ true)
          × (unrevoked r ≡ true)
          × (unexpired r u.now ≡ true)
          × ((use_token ctx token_hash u s).1 ≡ record s {
            sessions = insert r.id_hash (seen_session r u.now default_idle_timeout) s.sessions;
          }))
unfolding use_token
use_token_effect ctx token_hash u s = ground arith

pub revoke_session_by_token_effect :
    (ctx : Option Err) (token_hash : String) (u : TokenUse) (s : BrowserStore)
    → ((revoke_session_by_token ctx token_hash u s).1 ≡ s)
      ⊎ ((t : StoredToken) × (r : StoredSession) × (lookup token_hash s.tokens ≡ some t)
          × (lookup t.session_hash s.sessions ≡ some r)
          × (token_fits t r u ≡ true)
          × ((revoke_session_by_token ctx token_hash u s).1 ≡ record s {
            sessions =
                insert r.id_hash (if unrevoked r then revoked_session r u.now else r) s.sessions;
          }))
unfolding revoke_session_by_token
revoke_session_by_token_effect ctx token_hash u s = ground arith
