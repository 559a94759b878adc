-- ===== src/Browser/Sessions/Sound.antt =====
-- What holds of every state of browserauth/memory_store.go, and what no change takes back.
use agentnexus.Base.{
  String, none, some, ◌≡◌, refl, sym, ◌∙◌, ap, subst, arith, ◌⊎◌, inl, inr, Dict, lookup, insert,
}
use agentnexus.Base.Grows.{
  Grows, Grows-refl, Grows-trans, Grows-written, Grows-added, written_or_old,
}
use agentnexus.Browser.Model.{StoredSession, StoredCode, StoredToken, ExchangeRequest}
use agentnexus.Browser.Sessions.{BrowserStore, consumed_code, issued_token}
use agentnexus.Browser.Sessions.Steps.{
  Aged, BelongsTo, Keyed, Step, idle, enrolled, opened, moved, coded, redeemed,
}

-- A later state of a code: the same code, and a consumed one stays consumed.
pub record Spent (a b : StoredCode) : Type 0 where
  pub enterprise_id : b.enterprise_id ≡ a.enterprise_id
  pub user_id : b.user_id ≡ a.user_id
  pub session_hash : b.session_hash ≡ a.session_hash
  pub client_id : b.client_id ≡ a.client_id
  pub redirect_uri : b.redirect_uri ≡ a.redirect_uri
  pub nonce : b.nonce ≡ a.nonce
  pub code_challenge : b.code_challenge ≡ a.code_challenge
  pub expires_at : b.expires_at ≡ a.expires_at
  pub consumed_at : (a.consumed_at ≡ none) ⊎ (b.consumed_at ≡ a.consumed_at)

-- Nothing that the first store holds is lost in the second, or taken back.
pub record Ages (s s' : BrowserStore) : Type 0 where
  pub sessions : Grows Aged s.sessions s'.sessions
  pub codes : Grows Spent s.codes s'.codes
  pub tokens : Grows (λ (a b : StoredToken). a ≡ b) s.tokens s'.tokens

Aged-refl : (a : StoredSession) → Aged a a
Aged-refl a = ground arith

Aged-trans : (a b c : StoredSession) → Aged a b → Aged b c → Aged a c
Aged-trans a b c p q = ground arith

Spent-refl : (a : StoredCode) → Spent a a
Spent-refl a = ground arith

Spent-trans : (a b c : StoredCode) → Spent a b → Spent b c → Spent a c
Spent-trans a b c p q = ground arith

pub Ages-refl : (s : BrowserStore) → Ages s s
Ages-refl s = record {
  sessions = Grows-refl Aged-refl s.sessions;
  codes = Grows-refl Spent-refl s.codes;
  tokens = Grows-refl (λ t. refl) s.tokens;
}

pub Ages-trans : {s s' s'' : BrowserStore} → Ages s s' → Ages s' s'' → Ages s s''
Ages-trans p q = record {
  sessions = Grows-trans Aged-trans p.sessions q.sessions;
  codes = Grows-trans Spent-trans p.codes q.codes;
  tokens = Grows-trans (λ a b c e e'. e ∙ e') p.tokens q.tokens;
}

Spent-consumed :
    (q : ExchangeRequest) (c : StoredCode) → c.consumed_at ≡ none → Spent c (consumed_code c q.now)
Spent-consumed q c h = ground arith

pub Step-Ages : {s s' : BrowserStore} → Step s s' → Ages s s'
Step-Ages {s} idle = Ages-refl s
Step-Ages {s} (enrolled users) = record {
  sessions = Grows-refl Aged-refl s.sessions;
  codes = Grows-refl Spent-refl s.codes;
  tokens = Grows-refl (λ t. refl) s.tokens;
}
Step-Ages {s} (opened r unused) = record {
  sessions = Grows-added Aged Aged-refl s.sessions r.id_hash r unused;
  codes = Grows-refl Spent-refl s.codes;
  tokens = Grows-refl (λ t. refl) s.tokens;
}
Step-Ages {s} (moved key r r' found aged) = record {
  sessions = Grows-written Aged Aged-refl s.sessions key r r' found aged;
  codes = Grows-refl Spent-refl s.codes;
  tokens = Grows-refl (λ t. refl) s.tokens;
}
Step-Ages {s} (coded c r unused session belongs) = record {
  sessions = Grows-refl Aged-refl s.sessions;
  codes = Grows-added Spent Spent-refl s.codes c.code_hash c unused;
  tokens = Grows-refl (λ t. refl) s.tokens;
}
Step-Ages {s} (redeemed q c r found unconsumed unissued session) = record {
  sessions = Grows-refl Aged-refl s.sessions;
  codes =
      Grows-written Spent Spent-refl s.codes q.code_hash c (consumed_code c q.now) found
        (Spent-consumed q c unconsumed);
  tokens =
      Grows-added _ (λ t. refl) s.tokens q.token_hash (issued_token c q r.absolute_expires_at)
        unissued;
}

-- The token belongs to the session's user and ends with the session.
pub record EndsWith (t : StoredToken) (r : StoredSession) : Type 0 where
  pub enterprise_id : t.enterprise_id ≡ r.enterprise_id
  pub user_id : t.user_id ≡ r.user_id
  pub expires_at : t.expires_at ≡ r.absolute_expires_at

-- Every session stands under its own hash, and every code and token belongs to a stored session.
pub record Sound (s : BrowserStore) : Type 0 where
  pub keyed : Keyed s
  pub code :
      (key : String) (c : StoredCode)
      → lookup key s.codes ≡ some c
      → (r : StoredSession) × (lookup c.session_hash s.sessions ≡ some r) × BelongsTo c r
  pub token :
      (key : String) (t : StoredToken)
      → lookup key s.tokens ≡ some t
      → (r : StoredSession) × (lookup t.session_hash s.sessions ≡ some r) × EndsWith t r

BelongsTo-aged :
    (c : StoredCode) (r r' : StoredSession) → Aged r r' → BelongsTo c r → BelongsTo c r'
BelongsTo-aged c r r' aged b = ground arith

EndsWith-aged : (t : StoredToken) (r r' : StoredSession) → Aged r r' → EndsWith t r → EndsWith t r'
EndsWith-aged t r r' aged b = ground arith

module _ {s : BrowserStore} (h : Sound s) (sessions : Dict StoredSession)
    (aged : Grows Aged s.sessions sessions) where
  code_still :
      (key : String) (c : StoredCode)
      → lookup key s.codes ≡ some c
      → (r : StoredSession) × (lookup c.session_hash sessions ≡ some r) × BelongsTo c r
  code_still key c found =
      let (r, at, belongs) = h.code key c found in
      let (r', at', older) = aged.row c.session_hash r at in
      (r', at', BelongsTo-aged c r r' older belongs)

  token_still :
      (key : String) (t : StoredToken)
      → lookup key s.tokens ≡ some t
      → (r : StoredSession) × (lookup t.session_hash sessions ≡ some r) × EndsWith t r
  token_still key t found =
      let (r, at, ends) = h.token key t found in
      let (r', at', older) = aged.row t.session_hash r at in
      (r', at', EndsWith-aged t r r' older ends)

Keyed-written :
    (s : BrowserStore) (key : String) (r : StoredSession)
    → Keyed s
    → r.id_hash ≡ key
    → Keyed (record s { sessions = insert key r s.sessions })
Keyed-written s key r h own = record {
  session = λ k a found. elim (written_or_old key k r a s.sessions found) [
    | inl (same, row) ↦ sym (ap (λ (x : StoredSession). x.id_hash) row) ∙ own ∙ same
    | inr old ↦ h.session k a old
  ];
}

pub Step-Sound : {s s' : BrowserStore} → Step s s' → Sound s → Sound s'
Step-Sound idle h = h
Step-Sound (enrolled users) h = record {
  keyed = record { session = h.keyed.session };
  code = h.code;
  token = h.token;
}
Step-Sound {s} (opened r unused) h =
    let aged = Grows-added Aged Aged-refl s.sessions r.id_hash r unused in
    record {
      keyed = Keyed-written s r.id_hash r h.keyed refl;
      code = code_still h _ aged;
      token = token_still h _ aged;
    }
Step-Sound {s} (moved key r r' found older) h =
    let aged = Grows-written Aged Aged-refl s.sessions key r r' found older in
    record {
      keyed = Keyed-written s key r' h.keyed (older.id_hash ∙ h.keyed.session key r found);
      code = code_still h _ aged;
      token = token_still h _ aged;
    }
Step-Sound {s} (coded c r unused session belongs) h = record {
  keyed = record { session = h.keyed.session };
  code = λ key d found. elim (written_or_old c.code_hash key c d s.codes found) [
    | inl (_, row) ↦
        subst
          (λ (x : StoredCode).
            (r : StoredSession) × (lookup x.session_hash s.sessions ≡ some r) × BelongsTo x r)
          row (r, session, belongs)
    | inr old ↦ h.code key d old
  ];
  token = h.token;
}
Step-Sound {s} (redeemed q c r found unconsumed unissued session) h =
    let (r', at, belongs) = h.code q.code_hash c found in
    let both : some r' ≡ some r = sym at ∙ session in
    let same : r' ≡ r = cc both in
    let mine : BelongsTo c r = subst (λ x. BelongsTo c x) same belongs in
    record {
      keyed = record { session = h.keyed.session };
      code = λ key d after.
          elim (written_or_old q.code_hash key (consumed_code c q.now) d s.codes after) [
            | inl (_, row) ↦
                subst
                  (λ (x : StoredCode).
                    (r : StoredSession) × (lookup x.session_hash s.sessions ≡ some r)
                    × BelongsTo x r)
                  row
                  (
                    r,
                    session,
                    record { enterprise_id = mine.enterprise_id; user_id = mine.user_id },
                  )
            | inr old ↦ h.code key d old
          ];
      token = λ key t after.
          elim (written_or_old q.token_hash key (issued_token c q r.absolute_expires_at) t s.tokens
            after) [
              | inl (_, row) ↦
                  subst
                    (λ (x : StoredToken).
                      (r : StoredSession) × (lookup x.session_hash s.sessions ≡ some r)
                      × EndsWith x r)
                    row
                    (
                      r,
                      session,
                      record {
                        enterprise_id = mine.enterprise_id;
                        user_id = mine.user_id;
                        expires_at = refl;
                      },
                    )
              | inr old ↦ h.token key t old
            ];
    }
