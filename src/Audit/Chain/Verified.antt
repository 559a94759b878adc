-- ===== src/Audit/Chain/Verified.antt =====
-- sdk/go/audit/verify.go: an audit trail is accepted exactly where every event, at its position,
-- carries what a signed link must carry.
use agentnexus.Base.{
  subst, str_eq_refl, ℕ, String, true, false, Option, none, some, ◌≡◌, refl, sym, arith, eq_iff,
  length,
}
use agentnexus.Errors.{Result, ok, err}
use agentnexus.Audit.Event.{
  Event, is_zero, signature_algorithm_ed25519, SigningKey, KeyResolver, Crypto, canonical,
  event_hash_of, has_raw_payload, asserts_outcome, verify_key_material,
}
use agentnexus.Audit.Chain.{
  is_revoked, verifies, verify_signature, verify_key, verify_hash, verify_event,
}

module _ (c : Crypto) (keys : KeyResolver) where
  -- The event is signed, with Ed25519, by a registered key that is not revoked.
  pub record Signed (e : Event) : Type 0 where
    pub key : SigningKey
    pub registered : keys e.signature.key_id ≡ some key
    pub unrevoked : is_revoked key.status ≡ false
    pub key_algorithm : key.algorithm ≡ signature_algorithm_ed25519
    pub key_size : length key.public_key ≡ 32
    pub text : String
    pub signs : canonical c e ≡ ok text
    pub valid : verifies c key text (c.decode_base64 e.signature.value) ≡ true

  -- A link at a position: of the tenant, with the position's number, the hash before it and its
  -- own hash, without raw payload or outcome, and signed.
  pub record Link (tenant : String) (want_seq : ℕ) (prev_hash : String) (e : Event) : Type 0 where
    pub algorithm : e.signature.algorithm ≡ signature_algorithm_ed25519
    pub same_tenant : e.tenant_ref ≡ tenant
    pub in_sequence : e.tenant_seq ≡ want_seq
    pub no_payload : has_raw_payload e ≡ false
    pub no_outcome : asserts_outcome c.to_lower e ≡ false
    pub linked : e.prev_hash ≡ prev_hash
    pub hashed : event_hash_of c e ≡ ok e.event_hash
    pub signed : Signed e

  verify_signature-valid :
      (key : SigningKey) (e : Event) (o : Result String)
      → verify_signature c key e o ≡ none
      → (text : String) × (o ≡ ok text)
        × (verifies c key text (c.decode_base64 e.signature.value) ≡ true)
  unfolding verify_signature
  verify_signature-valid key e (err x) h = cc h
  verify_signature-valid key e (ok text) h = (text, refl, ground arith)

  usable :
      (key : SigningKey)
      → verify_key_material key ≡ none
      → (key.algorithm ≡ signature_algorithm_ed25519) × (length key.public_key ≡ 32)
  unfolding verify_key_material
  usable key h = ground (arith, eq_iff key.algorithm signature_algorithm_ed25519)

  past_key :
      (key : SigningKey) (e : Event)
      → verify_key c (some key) e ≡ none
      → (is_revoked key.status ≡ false)
        × (verify_key_material key ≡ none)
        × (verify_signature c key e (canonical c e) ≡ none)
  unfolding verify_key
  past_key key e h = ground arith

  good_material :
      (key : SigningKey)
      → key.algorithm ≡ signature_algorithm_ed25519
      → length key.public_key ≡ 32
      → verify_key_material key ≡ none
  unfolding verify_key_material
  good_material key algorithm size =
      ground (arith, eq_iff key.algorithm signature_algorithm_ed25519)

  good_signature :
      (key : SigningKey) (e : Event) (text : String)
      → canonical c e ≡ ok text
      → verifies c key text (c.decode_base64 e.signature.value) ≡ true
      → verify_signature c key e (canonical c e) ≡ none
  unfolding verify_signature
  good_signature key e text signs valid =
      subst (λ o. verify_signature c key e o ≡ none) (sym signs) (rw valid refl)

  good_hash :
      (e : Event)
      → event_hash_of c e ≡ ok e.event_hash
      → verify_key c (keys e.signature.key_id) e ≡ none
      → verify_hash c keys e (event_hash_of c e) ≡ none
  unfolding verify_hash
  good_hash e hashed key =
      subst (λ o. verify_hash c keys e o ≡ none) (sym hashed) (rw (str_eq_refl e.event_hash) key)

  no_key : (e : Event) → verify_key c none e ≡ none → ⊥
  unfolding verify_key
  no_key e h = cc h

  verify_key-Signed :
      (o : Option SigningKey) (e : Event)
      → keys e.signature.key_id ≡ o
      → verify_key c o e ≡ none
      → Signed e
  verify_key-Signed none e at h = absurd (no_key e h)
  verify_key-Signed (some key) e at h =
      let (fresh, material, signature) = past_key key e h in
      let (algorithm, size) = usable key material in
      let (text, signs, valid) = verify_signature-valid key e (canonical c e) signature in
      record {
        key = key;
        registered = at;
        unrevoked = fresh;
        key_algorithm = algorithm;
        key_size = size;
        text = text;
        signs = signs;
        valid = valid;
      }

  verify_hash-Signed :
      (o : Result String) (e : Event)
      → verify_hash c keys e o ≡ none
      → (o ≡ ok e.event_hash) × (verify_key c (keys e.signature.key_id) e ≡ none)
  unfolding verify_hash
  verify_hash-Signed (err x) e h = cc h
  verify_hash-Signed (ok hash) e h = ground (arith, eq_iff hash e.event_hash)

  past_event :
      (want : ℕ) (tenant prev : String) (e : Event)
      → verify_event c keys want tenant prev e ≡ none
      → (e.signature.algorithm ≡ signature_algorithm_ed25519)
        × (e.tenant_ref ≡ tenant)
        × (e.tenant_seq ≡ want)
        × (has_raw_payload e ≡ false)
        × (asserts_outcome c.to_lower e ≡ false)
        × (e.prev_hash ≡ prev)
        × (verify_hash c keys e (event_hash_of c e) ≡ none)
  unfolding verify_event
  past_event want tenant prev e h = ground (
    arith,
    eq_iff e.signature.algorithm signature_algorithm_ed25519,
    eq_iff e.tenant_ref tenant,
    eq_iff e.prev_hash prev,
  )

  pub verify_event-Link :
      (want : ℕ) (tenant prev : String) (e : Event)
      → verify_event c keys want tenant prev e ≡ none
      → Link tenant want prev e
  verify_event-Link want tenant prev e h =
      let (algorithm, same, seq, payload, no_outcome, linked, hash) =
        past_event want tenant prev e h in
      let (hashed, key) = verify_hash-Signed (event_hash_of c e) e hash in
      record {
        algorithm = algorithm;
        same_tenant = same;
        in_sequence = seq;
        no_payload = payload;
        no_outcome = no_outcome;
        linked = linked;
        hashed = hashed;
        signed = verify_key-Signed (keys e.signature.key_id) e refl key;
      }

  Signed-verify_key : (e : Event) → Signed e → verify_key c (keys e.signature.key_id) e ≡ none
  unfolding verify_key
  Signed-verify_key e h =
      let material : verify_key_material h.key ≡ none =
        good_material h.key h.key_algorithm h.key_size in
      let signature = good_signature h.key e h.text h.signs h.valid in
      subst (λ o. verify_key c o e ≡ none) (sym h.registered)
        (go h.key h.unrevoked material signature)
    where
      go :
          (key : SigningKey)
          → is_revoked key.status ≡ false
          → verify_key_material key ≡ none
          → verify_signature c key e (canonical c e) ≡ none
          → verify_key c (some key) e ≡ none
      go key fresh material signature = ground arith

  pub Link-verify_event :
      (want : ℕ) (tenant prev : String) (e : Event)
      → Link tenant want prev e
      → verify_event c keys want tenant prev e ≡ none
  unfolding verify_event
  Link-verify_event want tenant prev e h =
      let hash = good_hash e h.hashed (Signed-verify_key e h.signed) in
      let signed : is_zero e.signature ≡ false = rw h.algorithm refl in
      ground (
        arith,
        eq_iff e.signature.algorithm signature_algorithm_ed25519,
        eq_iff e.tenant_ref tenant,
        eq_iff e.prev_hash prev,
      )
