-- ===== src/Browser/Service/Errors.antt =====
-- browserauth/service.go: the errors that the operations answer.
use agentnexus.Browser.Model.{StoredLoginAttempt, public_session, default_idle_timeout}
use agentnexus.Base.{
  ◌=ₛ◌, String, Bool, true, false, Option, ◌≡◌, refl, ap, subst, ◌∙◌, inl, inr, Bool-cases, not,
  ◌||◌, lookup, arith,
}
use agentnexus.Errors.{
  Err, Sentinel, sentinel, errors_is, record_not_found, duplicate_record, invalid_session,
  session_unavailable, invalid_browser_grant, browser_grant_unavailable, invalid_access_token,
  access_token_unavailable, invalid_login_attempt, login_attempt_unavailable, Result, ok, err,
  is_ok,
}
use agentnexus.Runtime.Types.{Time}
use agentnexus.Browser.Attempts.{AttemptStore}
use agentnexus.Browser.Sessions.{BrowserStore, is_there}
use agentnexus.Browser.Service.{
  Secrets, TokenCaller, ExchangeCodeInput, ExchangeResult, masked, exchange_result, request_of,
  exchangeable, session_of, use_of, valid_generated_secret, valid_opaque_secret, valid_bounded,
  max_client_id_length, answered, get_session, revoke_session, logout_session, exchange_code,
  redeem_with, get_access_token_session, logout_access_token_session, consume_login_attempt,
}
use agentnexus.Browser.Service.Answers.{
  failure, IsReal, live_session, live_token, ending_token, live_attempt, Answers, tested-Answers,
  gated-Answers, good_code, token_taken, use_session-Stores, revoke_session-Stores,
  revoke_and_get_session-Stores, use_token-Stores, revoke_session_by_token-Stores,
  consume_attempt-Stores, exchange_found-Stores, exchange_stored_cases,
}

-- below the exchange something failed: the generator of secrets, the context or the store, or the
-- new access token is taken
abbrev pub exchange_failed :
    Secrets → Option Err → ExchangeCodeInput → Result String → Time → BrowserStore → Bool
exchange_failed d fails input (err e) now s = true
exchange_failed d fails input (ok token) now s =
    not (valid_generated_secret d token)
    || is_there fails
    || token_taken s (lookup (d.hash_hex input.code) s.codes) (request_of d input token now)

abbrev pub exchange_good : Secrets → ExchangeCodeInput → Result String → Time → BrowserStore → Bool
exchange_good d input (err e) now s = false
exchange_good d input (ok token) now s =
    good_code d.decode s (lookup (d.hash_hex input.code) s.codes) (request_of d input token now)

masked_real :
    (missing down : Sentinel) (e : Err)
    → errors_is e record_not_found ≡ false
    → masked missing down e ≡ sentinel down
masked_real missing down e real = rw real refl

module _ {A B S : Type 0} (missing down : Sentinel) (f : B → A) where
  answered-err :
      (e x : Err) (r : Result B × S)
      → r.0 ≡ err e
      → masked missing down e ≡ x
      → (answered missing down f r).0 ≡ err x
  answered-err e x (ok b, s) h m = cc h
  answered-err e x (err e', s) h m = ground arith

  answered-is_ok :
      (r : Result B × S) → is_ok r.0 ≡ true → is_ok (answered missing down f r).0 ≡ true
  answered-is_ok (ok b, s) h = refl
  answered-is_ok (err e, s) h = cc h

redeem_with-Answers :
    (d : Secrets) (ctx : Option Err) (input : ExchangeCodeInput) (secret : Result String)
    (now after : Time) (s : BrowserStore)
    → IsReal (failure ctx s.err)
    → Answers invalid_browser_grant browser_grant_unavailable false
        (exchange_failed d (failure ctx s.err) input secret now s)
        (exchange_good d input secret now s)
        (redeem_with d ctx input secret now after s).0
unfolding redeem_with
redeem_with-Answers d ctx input (err x) now after s real = inr (inl (refl, refl, refl))
redeem_with-Answers d ctx input (ok token) now after s real =
    elim (Bool-cases (valid_generated_secret d token)) [
      | inr weak ↦ inr (inl (refl, rw weak refl, rw weak refl))
      | inl strong ↦ elim (exchange_stored_cases d.decode (request_of d input token now) s ctx) [
        | inl (e, fails, answer) ↦
            let down =
              masked_real invalid_browser_grant browser_grant_unavailable e
                (subst IsReal fails real) in
            inr (
              inl (
                refl,
                rw (strong, fails) refl,
                rw strong (
                    answered-err invalid_browser_grant browser_grant_unavailable
                      (exchange_result d token after) e _ _ answer down),
              ))
        | inr (works, same) ↦
            elim (exchange_found-Stores d.decode (request_of d input token now) s
              (lookup (d.hash_hex input.code) s.codes)) [
                | inl (taken, answer) ↦ inr (
                    inl (
                      refl,
                      rw (strong, works) taken,
                      rw strong (
                          answered-err invalid_browser_grant browser_grant_unavailable
                            (exchange_result d token after) (sentinel duplicate_record) _ _
                            (ap (λ x. x.0) same ∙ answer) refl),
                    ))
                | inr (inl (free, bad, answer)) ↦ inr (
                    inr (
                      inl (
                        refl,
                        rw (strong, works) free,
                        bad,
                        rw strong (
                            answered-err invalid_browser_grant browser_grant_unavailable
                              (exchange_result d token after) (sentinel record_not_found) _ _
                              (ap (λ x. x.0) same ∙ answer) refl),
                      )))
                | inr (inr (free, good, answer)) ↦ inr (
                    inr (
                      inr (
                        refl,
                        rw (strong, works) free,
                        good,
                        rw strong (
                            answered-is_ok invalid_browser_grant browser_grant_unavailable
                              (exchange_result d token after) _
                              (ap (λ x. is_ok x.0) same ∙ answer)),
                      )))
              ]
      ]
    ]

-- Which error answers what in GetSession, RevokeSession, LogoutSession, ExchangeCode,
-- GetAccessTokenSession, LogoutAccessTokenSession and ConsumeLoginAttempt, where no failure of a
-- context or a store passes for a missing record. Each answers its own error for a missing record
-- exactly where its arguments are malformed, or nothing failed below and the session, code, token
-- or attempt is not good: it is missing, not live any more, or does not match the request (a
-- plain revocation only asks that the session is stored, and a logout by token lets a revoked one
-- pass). It answers its own error for a failure exactly where the arguments are well-formed and
-- the context or the store failed, or, for an exchange, the generator of secrets, or the new token
-- of a code that can be redeemed is taken. And in every other case it succeeds.
pub masked_errors :
    (d : Secrets) (ctx : Option Err) (s : BrowserStore) (attempts : AttemptStore)
    (token state binding : String) (input : ExchangeCodeInput) (secret : Result String)
    (who : TokenCaller) (now after : Time)
    → IsReal (failure ctx s.err)
    → IsReal (failure ctx attempts.err)
    → let down = is_there (failure ctx s.err) in
      let weak = not (valid_generated_secret d token) in
      let session = lookup (d.hash_hex token) s.sessions in
      let access = lookup (d.hash_hex token) s.tokens in
      Answers invalid_session session_unavailable
        (token =ₛ "")
        down
        (live_session session now)
        (get_session d ctx token now s).0
      × Answers invalid_session session_unavailable
          (token =ₛ "")
          down
          (is_there session)
          (revoke_session d ctx token now s).0
      × Answers invalid_session session_unavailable weak down
          (live_session session now)
          (logout_session d ctx token now s).0
      × Answers invalid_browser_grant browser_grant_unavailable
          (not (exchangeable d input))
          (exchange_failed d (failure ctx s.err) input secret now s)
          (exchange_good d input secret now s)
          (exchange_code d ctx input secret now after s).0
      × Answers invalid_access_token access_token_unavailable
          (weak
            || not (valid_bounded who.client_id max_client_id_length)
            || not (valid_bounded who.audience max_client_id_length)
            || who.enterprise_id =ₛ "")
          down
          (live_token s access (use_of d who now))
          (get_access_token_session d ctx token who now s).0
      × Answers invalid_access_token session_unavailable weak down
          (ending_token s access (use_of d who now))
          (logout_access_token_session d ctx token who now s).0
      × Answers invalid_login_attempt login_attempt_unavailable
          (not (valid_opaque_secret d state) || not (valid_opaque_secret d binding))
          (is_there (failure ctx attempts.err))
          (live_attempt (lookup (d.hash_hex state) attempts.attempts) (d.hash_hex binding) now)
          (consume_login_attempt d ctx state binding now attempts).0
unfolding get_session revoke_session logout_session exchange_code get_access_token_session
    logout_access_token_session consume_login_attempt
masked_errors d ctx s attempts token state binding input secret who now after real real' = (
  tested-Answers invalid_session session_unavailable public_session s _ _ _ _ real
      (use_session-Stores ctx (d.hash_hex token) now default_idle_timeout s),
  tested-Answers invalid_session session_unavailable (λ (u : Unit {0}). u) s _ _ _ _ real
      (revoke_session-Stores ctx (d.hash_hex token) now s),
  tested-Answers invalid_session session_unavailable public_session s _ _ _ _ real
      (revoke_and_get_session-Stores ctx (d.hash_hex token) now s),
  gated-Answers invalid_browser_grant browser_grant_unavailable (λ (a : ExchangeResult). a) s _ _ _
      _ (redeem_with-Answers d ctx input secret now after s real),
  tested-Answers invalid_access_token access_token_unavailable (session_of d) s _ _ _ _ real
      (use_token-Stores ctx (d.hash_hex token) (use_of d who now) s),
  tested-Answers invalid_access_token session_unavailable public_session s _ _ _ _ real
      (revoke_session_by_token-Stores ctx (d.hash_hex token) (use_of d who now) s),
  tested-Answers invalid_login_attempt login_attempt_unavailable
      (λ (a : StoredLoginAttempt). a.attempt) attempts _ _ _ _ real'
      (consume_attempt-Stores ctx (d.hash_hex state) (d.hash_hex binding) now attempts),
)
