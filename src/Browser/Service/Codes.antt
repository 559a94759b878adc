-- ===== src/Browser/Service/Codes.antt =====
-- browserauth/service.go: an authorization code, from its issue to its exchange.
use agentnexus.Base.{
  ◌+◌, ◌<◌, String, true, false, Option, none, some, List, [], ◌∷◌, ◌≡◌, refl, sym, ◌∙◌, ap, subst,
  arith, inl, inr, ◌=ₛ◌, eq_iff, lookup, lookup-insert, str_eq_refl,
}
use agentnexus.Errors.{
  invalid_browser_grant, browser_grant_unavailable, Err, Result, ok, err, is_ok,
}
use agentnexus.Runtime.Types.{Time}
use agentnexus.Browser.Model.{StoredSession, StoredCode, default_idle_timeout, default_code_timeout}
use agentnexus.Browser.Sessions.{
  BrowserStore, unrevoked, unexpired, redeemable, answers, consumed_code, use_session, create_code,
  exchange_code as exchange_stored,
}
use agentnexus.Browser.Sessions.Effects.{create_code_effect, exchange_code_effect}
use agentnexus.Browser.Sessions.Sound.{Sound, Spent}
use agentnexus.Browser.Sessions.Runs.{
  StoreCall, see_session, issue_code as code_issued, store_exec, store_run, store_run-Sound,
}
use agentnexus.Browser.Service.{
  Secrets, IssueCodeInput, ExchangeCodeInput, ExchangeResult, issue_code, issue_for, issue_with,
  coded, exchange_code, redeem_with, answered, exchange_result, request_of, new_code,
}

module _ (d : Secrets) where
  -- The calls of the store that an issue that succeeds makes.
  issue_calls : Option Err → IssueCodeInput → Time → String → Time → List StoreCall
  issue_calls ctx input seen code now =
      see_session ctx (d.hash_hex input.browser_session_token) seen default_idle_timeout
      ∷ code_issued ctx (new_code d input code now)
      ∷ []

  issued_lem :
      (ctx : Option Err) (input : IssueCodeInput) (seen now : Time) (secret : Result String)
      (s : BrowserStore) (code : String)
      → (issue_code d ctx input seen secret now s).0 ≡ ok code
      → let s₁ =
          (use_session ctx
            (d.hash_hex input.browser_session_token)
            seen
            default_idle_timeout
            s).1 in
        ((issue_code d ctx input seen secret now s).1
          ≡ (create_code ctx (new_code d input code now) s₁).1)
        × (is_ok (create_code ctx (new_code d input code now) s₁).0 ≡ true)
  unfolding issue_code issue_for issue_with coded
  issued_lem ctx input seen now secret s code h = ground arith

  issued_row :
      (ctx : Option Err) (c : StoredCode) (s : BrowserStore)
      → is_ok (create_code ctx c s).0 ≡ true
      → lookup c.code_hash (create_code ctx c s).1.codes ≡ some c
  issued_row ctx c s done = elim (create_code_effect ctx c s) [
    | inl (_, refused) ↦ absurd (ground arith)
    | inr (_, _, _, _, _, _, written) ↦
        ap (λ (x : BrowserStore). lookup c.code_hash x.codes) written
        ∙ rw (lookup-insert c.code_hash c.code_hash c s.codes, str_eq_refl c.code_hash) refl
  ]

  answered_lem :
      (token : String) (after : Time) (result : ExchangeResult)
      (r : Result StoredCode × BrowserStore)
      → (answered invalid_browser_grant browser_grant_unavailable
          (exchange_result d token after)
          r).0
        ≡ ok result
      → (c : StoredCode) × (r.0 ≡ ok c) × (result ≡ exchange_result d token after c)
  answered_lem token after result (ok c, s) h = (c, refl, cc h)
  answered_lem token after result (err e, s) h = cc h

  past_tests :
      (ctx : Option Err) (input : ExchangeCodeInput) (secret : Result String) (now after : Time)
      (s : BrowserStore) (result : ExchangeResult)
      → (exchange_code d ctx input secret now after s).0 ≡ ok result
      → (token : String) × ((answered invalid_browser_grant browser_grant_unavailable
            (exchange_result d token after)
            (exchange_stored d.decode ctx (request_of d input token now) s)).0
          ≡ ok result)
  unfolding exchange_code redeem_with
  past_tests ctx input (err e) now after s result h = absurd (ground arith)
  past_tests ctx input (ok token) now after s result h = (token, ground arith)

  redeemed_lem :
      (ctx : Option Err) (input : ExchangeCodeInput) (secret : Result String) (now after : Time)
      (s : BrowserStore) (result : ExchangeResult)
      → (exchange_code d ctx input secret now after s).0 ≡ ok result
      → (token : String) × (c : StoredCode) × ((exchange_stored d.decode ctx
            (request_of d input token now)
            s).0
          ≡ ok c)
        × (result ≡ exchange_result d token after c)
  redeemed_lem ctx input secret now after s result h =
      let (token, done) = past_tests ctx input secret now after s result h in
      let (c, given, same) =
        answered_lem token after result
          (exchange_stored d.decode ctx (request_of d input token now) s) done in
      (token, c, given, same)

  answers_lem :
      (o : Option String) (digest : String)
      → (elim o [ none ↦ false | some challenge ↦ challenge =ₛ digest ]) ≡ true
      → o ≡ some digest
  answers_lem none digest h = cc h
  answers_lem (some challenge) digest h = ap some ((eq_iff challenge digest).0 h)

  -- what an exchange of the code of an issue is bound to
  pub record Bound (input : IssueCodeInput) (issued : Time) (q : ExchangeCodeInput) (now : Time)
      (s : BrowserStore) (result : ExchangeResult) : Type 0 where
    pub enterprise_id : result.enterprise_id ≡ input.enterprise_id
    pub user_id : result.user_id ≡ input.user_id
    pub nonce : result.nonce ≡ input.nonce
    pub client_id : q.client_id ≡ input.client_id
    pub redirect_uri : q.redirect_uri ≡ input.redirect_uri
    pub in_time : now < issued + default_code_timeout
    pub verifier : d.decode input.code_challenge ≡ some (d.hash_hex q.verifier)
    pub session : StoredSession
    pub of_browser : lookup (d.hash_hex input.browser_session_token) s.sessions ≡ some session
    pub live : unrevoked session ≡ true
    pub unexpired_yet : unexpired session now ≡ true
    pub ends_with_it : result.access_token_expires_at ≡ session.absolute_expires_at

  -- what the tests of an exchange leave, on the row that they found
  Bound-row :
      (input : IssueCodeInput) (issued : Time) (code : String) (q : ExchangeCodeInput)
      (token : String) (now after : Time) (s : BrowserStore) (row : StoredCode) (r : StoredSession)
      → Spent (new_code d input code issued) row
      → redeemable row (request_of d q token now) ≡ true
      → lookup row.session_hash s.sessions ≡ some r
      → unrevoked r ≡ true
      → unexpired r now ≡ true
      → answers d.decode row (request_of d q token now) ≡ true
      → Bound input issued q now s (
          exchange_result d token after
            (record (consumed_code row now) { token_expires_at = r.absolute_expires_at }))
  Bound-row input issued code q token now after s row r spent may session live fresh proven =
      record {
        enterprise_id = spent.enterprise_id;
        user_id = spent.user_id;
        nonce = spent.nonce;
        client_id = ground (arith, eq_iff row.client_id q.client_id, spent.client_id);
        redirect_uri = ground (arith, eq_iff row.redirect_uri q.redirect_uri, spent.redirect_uri);
        in_time = ground (arith, spent.expires_at);
        verifier =
            ap d.decode (sym spent.code_challenge)
            ∙ answers_lem (d.decode row.code_challenge) (d.hash_hex q.verifier) proven;
        session = r;
        of_browser = ap (λ k. lookup k s.sessions) (sym spent.session_hash) ∙ session;
        live = live;
        unexpired_yet = fresh;
        ends_with_it = refl;
      }

  Bound-of :
      (ctx : Option Err) (input : IssueCodeInput) (issued : Time) (code : String)
      (q : ExchangeCodeInput) (token : String) (now after : Time) (s : BrowserStore)
      (row c : StoredCode)
      → lookup (d.hash_hex q.code) s.codes ≡ some row
      → Spent (new_code d input code issued) row
      → (exchange_stored d.decode ctx (request_of d q token now) s).0 ≡ ok c
      → Bound input issued q now s (exchange_result d token after c)
  Bound-of ctx input issued code q token now after s row c found spent given =
      elim (exchange_code_effect d.decode ctx (request_of d q token now) s) [
        | inl (_, refused) ↦ absurd (ground arith)
        | inr (row', r, found', may, unissued, session, live, fresh, proven, written) ↦
            let both : some row ≡ some row' = sym found ∙ found' in
            let same : row ≡ row' = cc both in
            let answer : ok c
                ≡ ok
                    (record (consumed_code row' now) { token_expires_at = r.absolute_expires_at }) =
              sym given ∙ ap (λ o. o.0) written in
            let given_row : c
                ≡ record (consumed_code row' now) { token_expires_at = r.absolute_expires_at } =
              cc answer in
            subst (λ x. Bound input issued q now s (exchange_result d token after x))
              (sym given_row)
              (Bound-row input issued code q token now after s row' r
                (subst (Spent (new_code d input code issued)) same spent) may session live fresh
                proven)
      ]

  issue_run :
      (ctx : Option Err) (input : IssueCodeInput) (seen : Time) (code : String) (now : Time)
      (s : BrowserStore)
      → store_run d.decode (issue_calls ctx input seen code now) s
        ≡ (create_code ctx
            (new_code d input code now)
            (use_session ctx
              (d.hash_hex input.browser_session_token)
              seen
              default_idle_timeout
              s).1).1
  unfolding store_run store_exec issue_calls
  issue_run ctx input seen code now s = refl

  exchange_after :
      (ctx : Option Err) (input : IssueCodeInput) (issued : Time) (code : String)
      (cs : List StoreCall) (q : ExchangeCodeInput) (secret : Result String) (now after : Time)
      (result : ExchangeResult) (s : BrowserStore)
      → Sound s
      → lookup (d.hash_hex code) s.codes ≡ some (new_code d input code issued)
      → q.code ≡ code
      → (exchange_code d ctx q secret now after (store_run d.decode cs s)).0 ≡ ok result
      → Bound input issued q now (store_run d.decode cs s) result
  exchange_after ctx input issued code cs q secret now after result s sound row same done =
      let s' = store_run d.decode cs s in
      let (_, ages) = store_run-Sound d.decode cs s sound in
      let (later, found, spent) =
        ages.codes.row (d.hash_hex code) (new_code d input code issued) row in
      let (token, c, given, answer) = redeemed_lem ctx q secret now after s' result done in
      let found' = ap (λ k. lookup (d.hash_hex k) s'.codes) same ∙ found in
      subst (λ x. Bound input issued q now s' x) (sym answer)
        (Bound-of ctx input issued code q token now after s' later c found' spent given)

  -- A code that is issued for a browser session and exchanged later, after any calls of the store
  -- in between: the exchange answers the user of that session, as the issue was asked to, with
  -- the issue's nonce; it was asked by the same client with the same redirect, within 60 seconds
  -- of the issue, and with a verifier whose digest is the issue's challenge; the session is still
  -- live; and the access token ends with it.
  pub exchange_code-Bound :
      (ctx ctx' : Option Err) (input : IssueCodeInput) (seen issued : Time)
      (secret secret' : Result String) (s : BrowserStore) (code : String) (cs : List StoreCall)
      (q : ExchangeCodeInput) (now after : Time) (result : ExchangeResult)
      → Sound s
      → (issue_code d ctx input seen secret issued s).0 ≡ ok code
      → q.code ≡ code
      → (exchange_code d ctx' q secret' now after
          (store_run d.decode cs (issue_code d ctx input seen secret issued s).1)).0
        ≡ ok result
      → Bound input issued q now
          (store_run d.decode cs (issue_code d ctx input seen secret issued s).1)
          result
  exchange_code-Bound ctx ctx' input seen issued secret secret' s code cs q now after result sound
        made same done =
      let (after_issue, coded_ok) = issued_lem ctx input seen issued secret s code made in
      let s₁ =
        (use_session ctx (d.hash_hex input.browser_session_token) seen default_idle_timeout s).1 in
      let row = issued_row ctx (new_code d input code issued) s₁ coded_ok in
      let state = after_issue ∙ sym (issue_run ctx input seen code issued s) in
      let (sound', _) = store_run-Sound d.decode (issue_calls ctx input seen code issued) s sound in
      exchange_after ctx' input issued code cs q secret' now after result
        (issue_code d ctx input seen secret issued s).1 (subst Sound (sym state) sound')
        (ap (λ (x : BrowserStore). lookup (d.hash_hex code) x.codes) after_issue ∙ row) same done
