-- ===== src/Browser/Service/Answers.antt =====
-- browserauth/memory_store.go, as service.go sees it: which failure or record gives which answer.
use agentnexus.Browser.Model.{
  StoredSession, StoredCode, StoredToken, StoredLoginAttempt, ExchangeRequest,
}
use agentnexus.Base.{
  ℕ, ◌=ₛ◌, String, Bool, true, false, Option, none, some, ◌≡◌, refl, ◌⊎◌, inl, inr, if◌then◌else◌,
  Bool-cases, not, ◌||◌, ◌&&◌, lookup, arith, ltb,
}
use agentnexus.Errors.{
  Err, Sentinel, sentinel, errors_is, record_not_found, duplicate_record, Result, ok, err, is_ok,
}
use agentnexus.Runtime.Types.{Time}
use agentnexus.Browser.Attempts.{AttemptStore, consume_attempt}
use agentnexus.Browser.Sessions.{
  BrowserStore, TokenUse, exchange_session, exchange_found, is_there, unrevoked, unexpired,
  token_fits, redeemable, answers, use_session, revoke_session as revoke_stored,
  revoke_and_get_session, exchange_code as exchange_stored, use_token, revoke_session_by_token,
}
use agentnexus.Browser.Service.{answered}

-- the failure that a call of a store meets: its context's, or else the store's
abbrev pub failure : Option Err → Option Err → Option Err
failure (some e) own = some e
failure none own = own

-- no failure passes for a missing record
abbrev pub IsReal : Option Err → Type 0
IsReal none = Unit
IsReal (some e) = errors_is e record_not_found ≡ false

-- which records an operation finds good
abbrev pub live_session : Option StoredSession → Time → Bool
live_session none now = false
live_session (some r) now = unrevoked r && unexpired r now

abbrev pub live_token : BrowserStore → Option StoredToken → TokenUse → Bool
live_token s none u = false
live_token s (some t) u = elim (lookup t.session_hash s.sessions) [
  | none ↦ false
  | some r ↦ token_fits t r u && unrevoked r && unexpired r u.now
]

-- a token ends its session also where the session is revoked already
abbrev pub ending_token : BrowserStore → Option StoredToken → TokenUse → Bool
ending_token s none u = false
ending_token s (some t) u = elim (lookup t.session_hash s.sessions) [
  | none ↦ false
  | some r ↦ token_fits t r u && (not (unrevoked r) || unexpired r u.now)
]

abbrev pub live_attempt : Option StoredLoginAttempt → String → Time → Bool
live_attempt none binding_hash now = false
live_attempt (some a) binding_hash now =
    a.binding_hash =ₛ binding_hash && ltb now a.attempt.expires_at

-- What an operation answers: the first error where the arguments are bad, or the record is not
-- good; the second where something below failed; else no error.
abbrev pub Answers : {A : Type 0} → Sentinel → Sentinel → Bool → Bool → Bool → Result A → Type 0
Answers missing down bad failed good r =
    ((bad ≡ true) × (r ≡ err (sentinel missing)))
    ⊎ ((bad ≡ false) × (failed ≡ true) × (r ≡ err (sentinel down)))
    ⊎ ((bad ≡ false) × (failed ≡ false) × (good ≡ false) × (r ≡ err (sentinel missing)))
    ⊎ ((bad ≡ false) × (failed ≡ false) × (good ≡ true) × (is_ok r ≡ true))

-- what a call of a store answers
abbrev Stores : {B : Type 0} → Option Err → Bool → Result B → Type 0
Stores fails good r =
    ((e : Err) × (fails ≡ some e) × (r ≡ err e))
    ⊎ ((fails ≡ none) × (good ≡ false) × (r ≡ err (sentinel record_not_found)))
    ⊎ ((fails ≡ none) × (good ≡ true) × (is_ok r ≡ true))

pub use_session-Stores :
    (ctx : Option Err) (id : String) (now : Time) (timeout : ℕ) (s : BrowserStore)
    → Stores
        (failure ctx s.err)
        (live_session (lookup id s.sessions) now)
        (use_session ctx id now timeout s).0
unfolding use_session
use_session-Stores ctx id now timeout s = ground arith

pub revoke_session-Stores :
    (ctx : Option Err) (id : String) (now : Time) (s : BrowserStore)
    → Stores (failure ctx s.err) (is_there (lookup id s.sessions)) (revoke_stored ctx id now s).0
unfolding revoke_stored
revoke_session-Stores ctx id now s = ground arith

pub revoke_and_get_session-Stores :
    (ctx : Option Err) (id : String) (now : Time) (s : BrowserStore)
    → Stores
        (failure ctx s.err)
        (live_session (lookup id s.sessions) now)
        (revoke_and_get_session ctx id now s).0
unfolding revoke_and_get_session
revoke_and_get_session-Stores ctx id now s = ground arith

pub use_token-Stores :
    (ctx : Option Err) (h : String) (u : TokenUse) (s : BrowserStore)
    → Stores (failure ctx s.err) (live_token s (lookup h s.tokens) u) (use_token ctx h u s).0
unfolding use_token
use_token-Stores ctx h u s = ground arith

pub revoke_session_by_token-Stores :
    (ctx : Option Err) (h : String) (u : TokenUse) (s : BrowserStore)
    → Stores
        (failure ctx s.err)
        (ending_token s (lookup h s.tokens) u)
        (revoke_session_by_token ctx h u s).0
unfolding revoke_session_by_token
revoke_session_by_token-Stores ctx h u s = ground arith

pub consume_attempt-Stores :
    (ctx : Option Err) (state binding : String) (now : Time) (s : AttemptStore)
    → Stores
        (failure ctx s.err)
        (live_attempt (lookup state s.attempts) binding now)
        (consume_attempt ctx state binding now s).0
unfolding consume_attempt
consume_attempt-Stores ctx state binding now s = ground arith

module _ {A B S : Type 0} (missing down : Sentinel) (f : B → A) (s : S) where
  answered-Answers :
      (fails : Option Err) (good : Bool) (r : Result B × S)
      → IsReal fails
      → Stores fails good r.0
      → Answers missing down false (is_there fails) good (answered missing down f r).0
  answered-Answers none good (ok b, s') real h = ground arith
  answered-Answers none good (err x, s') real h = ground arith
  answered-Answers (some e) good (ok b, s') real h = ground arith
  answered-Answers (some e) good (err x, s') real h = ground arith

  -- the shape of the operations: a test of the arguments, then a call of the store
  pub tested-Answers :
      (bad : Bool) (fails : Option Err) (good : Bool) (r : Result B × S)
      → IsReal fails
      → Stores fails good r.0
      → Answers missing down bad
          (is_there fails)
          good
          (if bad then (err (sentinel missing), s) else answered missing down f r).0
  tested-Answers true fails good r real h = inl (refl, refl)
  tested-Answers false fails good r real h = answered-Answers fails good r real h

  pub gated-Answers :
      (bad failed good : Bool) (r : Result A × S)
      → Answers missing down false failed good r.0
      → Answers missing down bad failed good (if bad then (err (sentinel missing), s) else r).0
  gated-Answers true failed good r h = inl (refl, refl)
  gated-Answers false failed good r h = h

-- the code can be redeemed, and its session is live
abbrev pub good_code :
    (String → Option String) → BrowserStore → Option StoredCode → ExchangeRequest → Bool
good_code decode s none q = false
good_code decode s (some c) q =
    redeemable c q
    && live_session (lookup c.session_hash s.sessions) q.now
    && not (q.token_hash =ₛ "")
    && not (q.audience =ₛ "")
    && answers decode c q

-- the code can be redeemed, but its new access token is stored already
abbrev pub token_taken : BrowserStore → Option StoredCode → ExchangeRequest → Bool
token_taken s none q = false
token_taken s (some c) q = redeemable c q && is_there (lookup q.token_hash s.tokens)

module _ (decode : String → Option String) (q : ExchangeRequest) (s : BrowserStore) where
  exchange_session-Stores :
      (o : Option StoredSession) (c : StoredCode)
      → let good =
          live_session o q.now
          && not (q.token_hash =ₛ "")
          && not (q.audience =ₛ "")
          && answers decode c q in
        let r = (exchange_session decode o c q s).0 in
        ((good ≡ false) × (r ≡ err (sentinel record_not_found)))
        ⊎ ((good ≡ true) × (is_ok r ≡ true))
  unfolding exchange_session
  exchange_session-Stores o c = ground arith

  pub exchange_found-Stores :
      (o : Option StoredCode)
      → let r = (exchange_found decode o q s).0 in
        ((token_taken s o q ≡ true) × (r ≡ err (sentinel duplicate_record)))
        ⊎ ((token_taken s o q ≡ false)
            × (good_code decode s o q ≡ false)
            × (r ≡ err (sentinel record_not_found)))
        ⊎ ((token_taken s o q ≡ false) × (good_code decode s o q ≡ true) × (is_ok r ≡ true))
  unfolding exchange_found
  exchange_found-Stores none = inr (inl (refl, refl, refl))
  exchange_found-Stores (some c) = elim (Bool-cases (redeemable c q)) [
    | inl may ↦ elim (Bool-cases (is_there (lookup q.token_hash s.tokens))) [
      | inl there ↦ inl (rw (may, there) refl, rw (may, there) refl)
      | inr free ↦ elim (exchange_session-Stores (lookup c.session_hash s.sessions) c) [
        | inl both ↦ inr (inl (rw (may, free) refl, rw may both.0, rw (may, free) both.1))
        | inr both ↦ inr (inr (rw (may, free) refl, rw may both.0, rw (may, free) both.1))
      ]
    ]
    | inr spent ↦ inr (inl (rw spent refl, rw spent refl, rw spent refl))
  ]

  pub exchange_stored_cases :
      (ctx : Option Err)
      → ((e : Err) × (failure ctx s.err ≡ some e) × ((exchange_stored decode ctx q s).0 ≡ err e))
        ⊎ ((failure ctx s.err ≡ none)
            × (exchange_stored decode ctx q s
                ≡ exchange_found decode (lookup q.code_hash s.codes) q s))
  unfolding exchange_stored
  exchange_stored_cases ctx = ground arith
