-- ===== src/Browser/Sessions/Runs.antt =====
-- Any sequence of calls of browserauth/memory_store.go, as the services and the logout paths make
-- them: sessions, codes and access tokens over time.
use agentnexus.Base.{
  ◌⊎◌, eq_iff, ◌=ₛ◌, ◌≢◌, Bool-cases, ℕ, String, true, false, Option, some, List, [], ◌∷◌, ◌≡◌,
  refl, sym, ◌∙◌, ap, subst, arith, inl, inr, lookup, lookup-insert, str_eq_refl,
}
use agentnexus.Errors.{Err, is_ok}
use agentnexus.Runtime.Types.{Time}
use agentnexus.Browser.Model.{StoredSession, StoredCode, StoredToken, ExchangeRequest}
use agentnexus.Browser.Sessions.{
  BrowserStore, TokenUse, unrevoked, redeemable, consumed_code, add_user, create_session,
  use_session, revoke_session, revoke_and_get_session, create_code, exchange_code, use_token,
  revoke_session_by_token,
}
use agentnexus.Browser.Sessions.Effects.{use_session_effect, exchange_code_effect, use_token_effect}
use agentnexus.Browser.Sessions.Steps.{
  Aged, Step, enrolled, create_session-Step, use_session-Step, revoke_session-Step,
  revoke_and_get_session-Step, create_code-Step, exchange_code-Step, use_token-Step,
  revoke_session_by_token-Step,
}
use agentnexus.Browser.Sessions.Sound.{
  Sound, Ages, Spent, Ages-refl, Ages-trans, Step-Ages, Step-Sound,
}

-- One call of the store, with its context's error if it has one.
pub data StoreCall : Type 0 where
  enrol : (enterprise_id user_id : String) → StoreCall
  open_session : (ctx : Option Err) (r : StoredSession) → StoreCall
  see_session : (ctx : Option Err) (id_hash : String) (now : Time) (idle_timeout : ℕ) → StoreCall
  end_session log_out : (ctx : Option Err) (id_hash : String) (now : Time) → StoreCall
  issue_code : (ctx : Option Err) (c : StoredCode) → StoreCall
  redeem_code : (ctx : Option Err) (q : ExchangeRequest) → StoreCall
  see_token end_by_token : (ctx : Option Err) (token_hash : String) (u : TokenUse) → StoreCall

true_not_false : true ≡ false → ⊥
true_not_false h = cc h

module _ (decode : String → Option String) where
  unfoldable pub store_exec : StoreCall → BrowserStore → BrowserStore
  store_exec (enrol e u) s = add_user e u s
  store_exec (open_session ctx r) s = (create_session ctx r s).1
  store_exec (see_session ctx id now timeout) s = (use_session ctx id now timeout s).1
  store_exec (end_session ctx id now) s = (revoke_session ctx id now s).1
  store_exec (log_out ctx id now) s = (revoke_and_get_session ctx id now s).1
  store_exec (issue_code ctx c) s = (create_code ctx c s).1
  store_exec (redeem_code ctx q) s = (exchange_code decode ctx q s).1
  store_exec (see_token ctx h u) s = (use_token ctx h u s).1
  store_exec (end_by_token ctx h u) s = (revoke_session_by_token ctx h u s).1

  unfoldable pub store_run : List StoreCall → BrowserStore → BrowserStore
  unfolding store_exec
  store_run [] s = s
  store_run (c ∷ cs) s = store_run cs (store_exec c s)

  -- Every method of the store, on a sound state, takes one of the changes that the abstract store
  -- allows: nothing, a new user, session or code, a session that ages, or a code redeemed for a
  -- token.
  pub store_exec-Step : (c : StoreCall) (s : BrowserStore) → Sound s → Step s (store_exec c s)
  unfolding store_exec add_user
  store_exec-Step (enrol e u) s h = enrolled _
  store_exec-Step (open_session ctx r) s h = create_session-Step ctx r s
  store_exec-Step (see_session ctx id now timeout) s h = use_session-Step ctx id now timeout s
  store_exec-Step (end_session ctx id now) s h = revoke_session-Step ctx id now s
  store_exec-Step (log_out ctx id now) s h = revoke_and_get_session-Step ctx id now s
  store_exec-Step (issue_code ctx c) s h = create_code-Step ctx c s
  store_exec-Step (redeem_code ctx q) s h = exchange_code-Step decode ctx q s
  store_exec-Step (see_token ctx t u) s h = use_token-Step ctx t u s h.keyed
  store_exec-Step (end_by_token ctx t u) s h = revoke_session_by_token-Step ctx t u s h.keyed

  -- Over any sequence of calls from a sound state the state stays sound: every session stands
  -- under its own hash, every code belongs to a stored session's user, and every access token
  -- belongs to a stored session's user and ends with that session. And nothing is lost or taken
  -- back: a session keeps its owner and its absolute end, a revoked one stays revoked, a consumed
  -- code stays consumed, and a token never changes.
  pub store_run-Sound :
      (cs : List StoreCall) (s : BrowserStore)
      → Sound s
      → Sound (store_run cs s) × Ages s (store_run cs s)
  unfolding store_run
  store_run-Sound [] s h = (h, Ages-refl s)
  store_run-Sound (c ∷ cs) s h =
      let st = store_exec-Step c s h in
      let (sound, ages) = store_run-Sound cs (store_exec c s) (Step-Sound st h) in
      (sound, Ages-trans (Step-Ages st) ages)

  refused_session :
      (ctx : Option Err) (id : String) (now : Time) (timeout : ℕ) (s : BrowserStore)
      (r : StoredSession)
      → lookup id s.sessions ≡ some r
      → unrevoked r ≡ false
      → ((use_session ctx id now timeout s).1 ≡ s)
        × (is_ok (use_session ctx id now timeout s).0 ≡ false)
  refused_session ctx id now timeout s r found dead =
      elim (use_session_effect ctx id now timeout s) [
        | inl both ↦ both
        | inr (r', at, live, _, _) ↦ absurd (ground arith)
      ]

  refused_token :
      (ctx : Option Err) (token_hash : String) (u : TokenUse) (s : BrowserStore) (t : StoredToken)
      (r : StoredSession)
      → lookup token_hash s.tokens ≡ some t
      → lookup t.session_hash s.sessions ≡ some r
      → unrevoked r ≡ false
      → ((use_token ctx token_hash u s).1 ≡ s) × (is_ok (use_token ctx token_hash u s).0 ≡ false)
  refused_token ctx token_hash u s t r token found dead =
      elim (use_token_effect ctx token_hash u s) [
        | inl both ↦ both
        | inr (t', r', at, session, _, live, _, _) ↦
            let both : some t' ≡ some t = sym at ∙ token in
            let same : t' ≡ t = cc both in
            let here : lookup t.session_hash s.sessions ≡ some r' =
              subst (λ (x : StoredToken). lookup x.session_hash s.sessions ≡ some r') same
                session in
            absurd (ground arith)
      ]

  stays_revoked :
      (a b : StoredSession) (at : Time) → Aged a b → a.revoked_at ≡ some at → unrevoked b ≡ false
  stays_revoked a b at aged h = ground arith

  -- a token of a revoked session is refused, or it is another session's
  dead_token :
      (ctx : Option Err) (token_hash : String) (u : TokenUse) (s : BrowserStore) (id : String)
      (r : StoredSession)
      → lookup id s.sessions ≡ some r
      → unrevoked r ≡ false
      → (((use_token ctx token_hash u s).1 ≡ s) × (is_ok (use_token ctx token_hash u s).0 ≡ false))
        ⊎ ((t : StoredToken) × (lookup token_hash s.tokens ≡ some t) × (t.session_hash ≢ id))
  dead_token ctx token_hash u s id r found dead = elim (use_token_effect ctx token_hash u s) [
    | inl both ↦ inl both
    | inr (t, _, at, _, _, _, _, _) ↦ elim (Bool-cases (t.session_hash =ₛ id)) [
      | inl same ↦
          let here = ap (λ k. lookup k s.sessions) ((eq_iff t.session_hash id).0 same) ∙ found in
          inl (refused_token ctx token_hash u s t r at here dead)
      | inr other ↦ inr (
        t,
        at,
        λ (e : t.session_hash ≡ id). true_not_false (sym ((eq_iff t.session_hash id).1 e) ∙ other),
      )
    ]
  ]

  -- A session that is revoked in a sound state is never used again. After any calls, a use of it
  -- is refused and writes nothing; and a use of an access token is refused and writes nothing,
  -- unless the token is stored for another session.
  pub revoked_for_good :
      (cs : List StoreCall) (s : BrowserStore) (id : String) (r : StoredSession) (at : Time)
      (ctx : Option Err) (now : Time) (timeout : ℕ) (token_hash : String) (u : TokenUse)
      → Sound s
      → lookup id s.sessions ≡ some r
      → r.revoked_at ≡ some at
      → let s' = store_run cs s in
        ((use_session ctx id now timeout s').1 ≡ s')
        × (is_ok (use_session ctx id now timeout s').0 ≡ false)
        × ((((use_token ctx token_hash u s').1 ≡ s')
              × (is_ok (use_token ctx token_hash u s').0 ≡ false))
            ⊎ ((t : StoredToken) × (lookup token_hash s'.tokens ≡ some t) × (t.session_hash ≢ id)))
  revoked_for_good cs s id r at ctx now timeout token_hash u h found dead =
      let (_, ages) = store_run-Sound cs s h in
      let (r', later, aged) = ages.sessions.row id r found in
      let over = stays_revoked r r' at aged dead in
      let (kept, stop) = refused_session ctx id now timeout (store_run cs s) r' later over in
      (kept, stop, dead_token ctx token_hash u (store_run cs s) id r' later over)

  refused_code :
      (ctx : Option Err) (q : ExchangeRequest) (s : BrowserStore) (c : StoredCode) (at : Time)
      → lookup q.code_hash s.codes ≡ some c
      → c.consumed_at ≡ some at
      → ((exchange_code decode ctx q s).1 ≡ s) × (is_ok (exchange_code decode ctx q s).0 ≡ false)
  refused_code ctx q s c at found spent = elim (exchange_code_effect decode ctx q s) [
    | inl both ↦ both
    | inr (c', r, at', may, _, _, _, _, _, _) ↦ absurd (clash c' at' may)
  ]
    where
      clash : (c' : StoredCode) → lookup q.code_hash s.codes ≡ some c' → redeemable c' q ≡ true → ⊥
      clash c' at' may = ground arith

  stays_consumed :
      (a b : StoredCode) (at : Time) → Spent a b → a.consumed_at ≡ some at → b.consumed_at ≡ some at
  stays_consumed a b at spent h = ground arith

  -- An authorization code is redeemed at most once: after an exchange that succeeded, and any
  -- further calls, another exchange of the same code is refused and writes nothing.
  pub redeemed_once :
      (cs : List StoreCall) (ctx ctx' : Option Err) (q q' : ExchangeRequest) (s : BrowserStore)
      → Sound s
      → is_ok (exchange_code decode ctx q s).0 ≡ true
      → q'.code_hash ≡ q.code_hash
      → let s' = store_run cs (exchange_code decode ctx q s).1 in
        ((exchange_code decode ctx' q' s').1 ≡ s')
        × (is_ok (exchange_code decode ctx' q' s').0 ≡ false)
  redeemed_once cs ctx ctx' q q' s h done same = elim (exchange_code_effect decode ctx q s) [
    | inl (_, refused) ↦ absurd (ground arith)
    | inr (c, r, _, _, _, _, _, _, _, written) ↦
        let s₁ = (exchange_code decode ctx q s).1 in
        let spent : lookup q.code_hash s₁.codes ≡ some (consumed_code c q.now) =
          ap (λ o. lookup q.code_hash o.1.codes) written
          ∙ rw (
            lookup-insert q.code_hash q.code_hash (consumed_code c q.now) s.codes,
            str_eq_refl q.code_hash,
          ) in
        let sound = Step-Sound (exchange_code-Step decode ctx q s) h in
        let (_, ages) = store_run-Sound cs s₁ sound in
        let (c', later, still) = ages.codes.row q.code_hash (consumed_code c q.now) spent in
        refused_code ctx' q' (store_run cs s₁) c' q.now
          (subst (λ k. lookup k (store_run cs s₁).codes ≡ some c') (sym same) later)
          (stays_consumed (consumed_code c q.now) c' q.now still refl)
  ]
