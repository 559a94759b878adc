-- ===== src/Audit/Chain.antt =====
-- sdk/go/audit/verify.go and sign.go: the check of one tenant's whole audit trail, and the signer.
pub mod Verified
pub mod Positions
pub mod Tamper
pub mod Extend
use agentnexus.Base.{
  ℕ, ◌+◌, String, Bool, true, false, not, Option, none, some, List, [], ◌∷◌, ◌=ₛ◌, ◌≠ₛ◌, ◌==◌,
  length, if◌then◌else◌,
}
use agentnexus.Errors.{
  Err, sentinel, plain, joined, unsigned_event, bad_algorithm, unknown_key, revoked_key,
  bad_signature, hash_mismatch, chain_broken, sequence_broken, tenant_splice, raw_payload,
  outcome_assertion, malformed_audit, Result, ok, err,
}
use agentnexus.Audit.Event.{
  Event, EventSignature, is_zero, signature_algorithm_ed25519, SigningKey, KeyStatus, key_active,
  key_revoked, other_status, KeyResolver, Crypto, canonical, event_hash_of, has_raw_payload,
  asserts_outcome, verify_key_material,
}

abbrev pub is_revoked : KeyStatus → Bool
is_revoked key_active = false
is_revoked key_revoked = true
is_revoked (other_status status) = false

module _ (c : Crypto) where
  abbrev pub verifies : SigningKey → String → Option (List ℕ) → Bool
  verifies key text none = false
  verifies key text (some bytes) = c.verify_ed25519 key.public_key text bytes

  -- the ninth check
  unfoldable pub verify_signature : SigningKey → Event → Result String → Option Err
  verify_signature key e (err x) = some (joined (sentinel malformed_audit) x)
  verify_signature key e (ok text) =
      if verifies key text (c.decode_base64 e.signature.value)
      then none
      else some (sentinel bad_signature)

  -- the eighth check
  unfoldable pub verify_key : Option SigningKey → Event → Option Err
  verify_key none e = some (sentinel unknown_key)
  verify_key (some key) e =
      if is_revoked key.status
      then some (sentinel revoked_key)
      else elim (verify_key_material key) [
        | some x ↦ some x
        | none ↦ verify_signature key e (canonical c e)
      ]

  -- the seventh check
  unfoldable pub verify_hash : KeyResolver → Event → Result String → Option Err
  verify_hash keys e (err x) = some (joined (sentinel malformed_audit) x)
  verify_hash keys e (ok hash) =
      if hash ≠ₛ e.event_hash
      then some (sentinel hash_mismatch)
      else verify_key (keys e.signature.key_id) e

  -- `verifyEvent`
  unfoldable pub verify_event : KeyResolver → ℕ → String → String → Event → Option Err
  verify_event keys want_seq tenant prev_hash e =
      if is_zero e.signature
      then some (sentinel unsigned_event)
      else if e.signature.algorithm ≠ₛ signature_algorithm_ed25519
      then some (sentinel bad_algorithm)
      else if e.tenant_ref ≠ₛ tenant
      then some (sentinel tenant_splice)
      else if not (e.tenant_seq == want_seq)
      then some (sentinel sequence_broken)
      else if has_raw_payload e
      then some (sentinel raw_payload)
      else if asserts_outcome c.to_lower e
      then some (sentinel outcome_assertion)
      else if e.prev_hash ≠ₛ prev_hash
      then some (sentinel chain_broken)
      else verify_hash keys e (event_hash_of c e)

  -- the loop of `VerifyChain`
  unfoldable pub verify_from : KeyResolver → ℕ → String → String → List Event → Option Err
  verify_from keys want_seq tenant prev_hash [] = none
  verify_from keys want_seq tenant prev_hash (e ∷ es) =
      let rest = verify_from keys (want_seq + 1) tenant e.event_hash es in
      elim (verify_event keys want_seq tenant prev_hash e) [
        | some x ↦ some (joined (plain "audit event") x)
        | none ↦ rest
      ]

  -- `VerifyChain`; a resolver that is nil is none
  unfoldable pub verify_chain : List Event → Option KeyResolver → Option Err
  verify_chain events none = some (joined (sentinel malformed_audit) (plain "no key resolver"))
  verify_chain [] (some keys) = none
  verify_chain (e ∷ es) (some keys) =
      if e.tenant_ref =ₛ ""
      then some (joined (sentinel malformed_audit) (plain "empty tenant ref"))
      else verify_from keys 1 e.tenant_ref "" (e ∷ es)

  abbrev pub signed_event : Event → String → List ℕ → String → Event
  signed_event e key_id bytes hash = record e {
    event_hash = hash;
    signature = record {
      algorithm = signature_algorithm_ed25519;
      key_id = key_id;
      value = c.encode_base64 bytes;
    };
  }

  abbrev sign_text :
      Event → String → (String → List ℕ) → Result String → Result String → Result Event
  sign_text e key_id sign (err x) hash = err x
  sign_text e key_id sign (ok text) (err x) = err x
  sign_text e key_id sign (ok text) (ok hash) = ok (signed_event e key_id (sign text) hash)

  -- `SignEd25519`; the signing with a private key of so many bytes is a parameter
  unfoldable pub sign_ed25519 : Event → String → ℕ → (String → List ℕ) → Result Event
  sign_ed25519 e key_id key_bytes sign =
      if key_id =ₛ ""
      then err (plain "audit signer requires a key id")
      else if not (key_bytes == 64)
      then err (plain "audit signer requires exactly ed25519.PrivateKeySize bytes of key material")
      else sign_text e key_id sign (canonical c e) (event_hash_of c e)
