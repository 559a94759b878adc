-- ===== src/Browser/Sessions/Steps.antt =====
-- browserauth/memory_store.go as a step relation: the only ways in which the users, sessions, codes
-- and tokens change, and that every method takes one of them.
use agentnexus.Base.{
  ℕ, String, Bool, true, Option, none, some, ◌≡◌, sym, subst, ap, ◌∙◌, if◌then◌else◌, arith, ◌⊎◌,
  inl, inr, Dict, lookup, insert, eq_iff,
}
use agentnexus.Errors.{Err}
use agentnexus.Runtime.Types.{Time}
use agentnexus.Browser.Sessions.Effects.{
  create_session_effect, use_session_effect, revoke_session_effect, revoke_and_get_session_effect,
  create_code_effect, exchange_code_effect, use_token_effect, revoke_session_by_token_effect,
}
use agentnexus.Browser.Model.{StoredSession, StoredCode, ExchangeRequest, default_idle_timeout}
use agentnexus.Browser.Sessions.{
  BrowserStore, unrevoked, redeemable, consumed_code, issued_token, seen_session, revoked_session,
  TokenUse, create_session, use_session, revoke_session, revoke_and_get_session, create_code,
  exchange_code, use_token, revoke_session_by_token,
}

-- A later state of a session: its owner and its absolute end are the same, and it is not
-- unrevoked, nor revoked again.
pub record Aged (a b : StoredSession) : Type 0 where
  pub id_hash : b.id_hash ≡ a.id_hash
  pub enterprise_id : b.enterprise_id ≡ a.enterprise_id
  pub user_id : b.user_id ≡ a.user_id
  pub created_at : b.created_at ≡ a.created_at
  pub absolute_expires_at : b.absolute_expires_at ≡ a.absolute_expires_at
  pub revoked_at : (a.revoked_at ≡ none) ⊎ (b.revoked_at ≡ a.revoked_at)

-- The code belongs to the session's user.
pub record BelongsTo (c : StoredCode) (r : StoredSession) : Type 0 where
  pub enterprise_id : c.enterprise_id ≡ r.enterprise_id
  pub user_id : c.user_id ≡ r.user_id

-- One change of the store.
pub data Step : BrowserStore → BrowserStore → Type 0 where
  idle : {s : BrowserStore} → Step s s
  enrolled : {s : BrowserStore} (users : Dict Bool) → Step s (record s { users = users })
  opened :
      {s : BrowserStore} (r : StoredSession)
      → lookup r.id_hash s.sessions ≡ none
      → Step s (record s { sessions = insert r.id_hash r s.sessions })
  moved :
      {s : BrowserStore} (key : String) (r r' : StoredSession)
      → lookup key s.sessions ≡ some r
      → Aged r r'
      → Step s (record s { sessions = insert key r' s.sessions })
  coded :
      {s : BrowserStore} (c : StoredCode) (r : StoredSession)
      → lookup c.code_hash s.codes ≡ none
      → lookup c.session_hash s.sessions ≡ some r
      → BelongsTo c r
      → Step s (record s { codes = insert c.code_hash c s.codes })
  redeemed :
      {s : BrowserStore} (q : ExchangeRequest) (c : StoredCode) (r : StoredSession)
      → lookup q.code_hash s.codes ≡ some c
      → c.consumed_at ≡ none
      → lookup q.token_hash s.tokens ≡ none
      → lookup c.session_hash s.sessions ≡ some r
      → Step s (record s {
        codes = insert q.code_hash (consumed_code c q.now) s.codes;
        tokens = insert q.token_hash (issued_token c q r.absolute_expires_at) s.tokens;
      })

Step_of_eq : {s s' s'' : BrowserStore} → s'' ≡ s' → Step s s' → Step s s''
Step_of_eq {s} e st = subst (λ r. Step s r) (sym e) st

-- Every stored session stands under its own hash.
pub record Keyed (s : BrowserStore) : Type 0 where
  pub session :
      (key : String) (r : StoredSession) → lookup key s.sessions ≡ some r → r.id_hash ≡ key

Aged-seen :
    (r : StoredSession) (now : Time) (idle_timeout : ℕ) → Aged r (seen_session r now idle_timeout)
Aged-seen r now idle_timeout = ground arith

Aged-revoked :
    (r : StoredSession) (now : Time) → unrevoked r ≡ true → Aged r (revoked_session r now)
Aged-revoked r now h = ground arith

Aged-ended :
    (r : StoredSession) (now : Time) → Aged r (if unrevoked r then revoked_session r now else r)
Aged-ended r now = ground arith

own_row :
    (s : BrowserStore)
    → Keyed s
    → (key : String) (r : StoredSession) → lookup key s.sessions ≡ some r
    → lookup r.id_hash s.sessions ≡ some r
own_row s keyed key r found = ap (λ k. lookup k s.sessions) (keyed.session key r found) ∙ found

pub create_session-Step :
    (ctx : Option Err) (r : StoredSession) (s : BrowserStore) → Step s (create_session ctx r s).1
create_session-Step ctx r s = elim (create_session_effect ctx r s) [
  | inl same ↦ Step_of_eq same idle
  | inr (unused, written) ↦ Step_of_eq written (opened r unused)
]

pub use_session-Step :
    (ctx : Option Err) (id : String) (now : Time) (idle_timeout : ℕ) (s : BrowserStore)
    → Step s (use_session ctx id now idle_timeout s).1
use_session-Step ctx id now idle_timeout s = elim (use_session_effect ctx id now idle_timeout s) [
  | inl (same, _) ↦ Step_of_eq same idle
  | inr (r, found, _, _, written) ↦
      Step_of_eq written (moved id r _ found (Aged-seen r now idle_timeout))
]

pub revoke_session-Step :
    (ctx : Option Err) (id : String) (now : Time) (s : BrowserStore)
    → Step s (revoke_session ctx id now s).1
revoke_session-Step ctx id now s = elim (revoke_session_effect ctx id now s) [
  | inl same ↦ Step_of_eq same idle
  | inr (r, found, live, written) ↦
      Step_of_eq written (moved id r _ found (Aged-revoked r now live))
]

pub revoke_and_get_session-Step :
    (ctx : Option Err) (id : String) (now : Time) (s : BrowserStore)
    → Step s (revoke_and_get_session ctx id now s).1
revoke_and_get_session-Step ctx id now s = elim (revoke_and_get_session_effect ctx id now s) [
  | inl same ↦ Step_of_eq same idle
  | inr (r, found, live, written) ↦
      Step_of_eq written (moved id r _ found (Aged-revoked r now live))
]

pub create_code-Step :
    (ctx : Option Err) (c : StoredCode) (s : BrowserStore) → Step s (create_code ctx c s).1
create_code-Step ctx c s = elim (create_code_effect ctx c s) [
  | inl (same, _) ↦ Step_of_eq same idle
  | inr (r, unused, found, _, enterprise, user, written) ↦ Step_of_eq written (
      coded c r unused found (record {
        enterprise_id = sym ((eq_iff _ _).0 enterprise);
        user_id = sym ((eq_iff _ _).0 user);
      }))
]

unconsumed_of :
    (c : StoredCode) (q : ExchangeRequest) → redeemable c q ≡ true → c.consumed_at ≡ none
unconsumed_of c q h = ground arith

pub exchange_code-Step :
    (decode : String → Option String) (ctx : Option Err) (q : ExchangeRequest) (s : BrowserStore)
    → Step s (exchange_code decode ctx q s).1
exchange_code-Step decode ctx q s = elim (exchange_code_effect decode ctx q s) [
  | inl (same, _) ↦ Step_of_eq same idle
  | inr (c, r, coded_row, may, unissued, session, _, _, _, written) ↦
      Step_of_eq (ap (λ o. o.1) written)
        (redeemed q c r coded_row (unconsumed_of c q may) unissued session)
]

pub use_token-Step :
    (ctx : Option Err) (token_hash : String) (u : TokenUse) (s : BrowserStore)
    → Keyed s
    → Step s (use_token ctx token_hash u s).1
use_token-Step ctx token_hash u s keyed = elim (use_token_effect ctx token_hash u s) [
  | inl (same, _) ↦ Step_of_eq same idle
  | inr (t, r, _, found, _, _, _, written) ↦
      let own : lookup r.id_hash s.sessions ≡ some r = own_row s keyed t.session_hash r found in
      Step_of_eq written (moved r.id_hash r _ own (Aged-seen r u.now default_idle_timeout))
]

pub revoke_session_by_token-Step :
    (ctx : Option Err) (token_hash : String) (u : TokenUse) (s : BrowserStore)
    → Keyed s
    → Step s (revoke_session_by_token ctx token_hash u s).1
revoke_session_by_token-Step ctx token_hash u s keyed =
    elim (revoke_session_by_token_effect ctx token_hash u s) [
      | inl same ↦ Step_of_eq same idle
      | inr (t, r, _, found, _, written) ↦
          let own : lookup r.id_hash s.sessions ≡ some r = own_row s keyed t.session_hash r found in
          Step_of_eq written (moved r.id_hash r _ own (Aged-ended r u.now))
    ]
