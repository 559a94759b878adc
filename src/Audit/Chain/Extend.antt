-- ===== src/Audit/Chain/Extend.antt =====
-- sdk/go/audit/sign.go: what the signer makes is accepted at the end of a trail.
use agentnexus.Base.{
  ℕ, ◌+◌, String, true, false, none, some, List, [], ◌∷◌, ◌++◌, ◌≡◌, refl, sym, subst, arith,
  length,
}
use agentnexus.Errors.{Result, ok, err}
use agentnexus.Audit.Event.{
  Event, KeyResolver, SigningKey, Crypto, canonical, event_hash_of, has_raw_payload,
  asserts_outcome, signature_algorithm_ed25519,
}
use agentnexus.Audit.Chain.{verify_chain, sign_ed25519, sign_text, signed_event, is_revoked}
use agentnexus.Audit.Chain.Verified.{Link}
use agentnexus.Audit.Chain.Positions.{Links, verify_chain-Links, Links-verify_chain}
use agentnexus.Audit.Chain.Tamper.{last_hash}

module _ (c : Crypto) where
  sign_text-ok :
      (e e' : Event) (key_id : String) (sign : String → List ℕ) (o p : Result String)
      → sign_text c e key_id sign o p ≡ ok e'
      → (text hash : String) × (o ≡ ok text)
        × (p ≡ ok hash)
        × (e' ≡ signed_event c e key_id (sign text) hash)
  sign_text-ok e e' key_id sign (err x) p h = cc h
  sign_text-ok e e' key_id sign (ok text) (err x) h = cc h
  sign_text-ok e e' key_id sign (ok text) (ok hash) h = (text, hash, refl, refl, cc h)

  past_guards :
      (e e' : Event) (key_id : String) (key_bytes : ℕ) (sign : String → List ℕ)
      → sign_ed25519 c e key_id key_bytes sign ≡ ok e'
      → sign_text c e key_id sign (canonical c e) (event_hash_of c e) ≡ ok e'
  unfolding sign_ed25519
  past_guards e e' key_id key_bytes sign h = ground arith

  module _ (keys : KeyResolver) where
    Links-append :
        (want : ℕ) (tenant prev : String) (es : List Event) (e : Event)
        → Links c keys want tenant prev es
        → Link c keys tenant (want + length es) (last_hash prev es) e
        → Links c keys want tenant prev (es ++ e ∷ [])
    Links-append want tenant prev [] e h link =
        (subst (λ n. Link c keys tenant n prev e) (omega arith) link, tt)
    Links-append want tenant prev (x ∷ es) e (first, rest) link = (
      first,
      Links-append (want + 1) tenant x.event_hash es e rest
          (subst (λ n. Link c keys tenant n (last_hash x.event_hash es) e) (omega arith) link),
    )

    -- An event that the signer signs with a registered, unrevoked Ed25519 key extends an accepted
    -- trail to an accepted trail, if it is of the trail's tenant, has the next number, has the
    -- trail's last hash as its previous hash, and carries no raw payload and no outcome. base64
    -- decodes the signatures that it encoded, and a signature of the key's signer is valid.
    pub sign_ed25519-extends :
        (x e e' : Event) (xs : List Event) (key : SigningKey) (key_id : String) (key_bytes : ℕ)
        (sign : String → List ℕ)
        → ((text : String) → c.decode_base64 (c.encode_base64 (sign text)) ≡ some (sign text))
        → ((text : String) → c.verify_ed25519 key.public_key text (sign text) ≡ true)
        → keys key_id ≡ some key
        → is_revoked key.status ≡ false
        → key.algorithm ≡ signature_algorithm_ed25519
        → length key.public_key ≡ 32
        → verify_chain c (x ∷ xs) (some keys) ≡ none
        → e.tenant_ref ≡ x.tenant_ref
        → e.tenant_seq ≡ 1 + length (x ∷ xs)
        → e.prev_hash ≡ last_hash "" (x ∷ xs)
        → has_raw_payload e ≡ false
        → asserts_outcome c.to_lower e ≡ false
        → sign_ed25519 c e key_id key_bytes sign ≡ ok e'
        → verify_chain c (x ∷ xs ++ e' ∷ []) (some keys) ≡ none
    unfolding has_raw_payload asserts_outcome event_hash_of
    sign_ed25519-extends x e e' xs key key_id key_bytes sign decodes signs registered fresh
          algorithm size h same number prev payload no_outcome done =
        let (text, hash, pre, hashed, made) =
          sign_text-ok e e' key_id sign (canonical c e) (event_hash_of c e)
            (past_guards e e' key_id key_bytes sign done) in
        let (named, links) = verify_chain-Links c keys x xs h in
        let link : Link c keys x.tenant_ref (1 + length (x ∷ xs)) (last_hash "" (x ∷ xs))
            (signed_event c e key_id (sign text) hash) =
          record {
            algorithm = refl;
            same_tenant = same;
            in_sequence = number;
            no_payload = payload;
            no_outcome = no_outcome;
            linked = prev;
            hashed = hashed;
            signed = record {
              key = key;
              registered = registered;
              unrevoked = fresh;
              key_algorithm = algorithm;
              key_size = size;
              text = text;
              signs = pre;
              valid = rw (decodes text) (signs text);
            };
          } in
        Links-verify_chain c keys x (xs ++ e' ∷ []) named (
          Links-append 1 x.tenant_ref "" (x ∷ xs) e' links (
            subst (Link c keys x.tenant_ref (1 + length (x ∷ xs)) (last_hash "" (x ∷ xs)))
              (sym made) link))
