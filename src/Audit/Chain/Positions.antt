-- ===== src/Audit/Chain/Positions.antt =====
-- sdk/go/audit/verify.go: what every event of an accepted audit trail carries at its position.
use agentnexus.Base.{
  ℕ, zero, suc, ◌+◌, String, true, false, sym, ◌∙◌, Option, none, some, List, [], ◌∷◌, ◌≡◌, ◌≢◌,
  refl, subst, arith, ◌↔◌, ◌=ₛ◌, str_eq_ne, eq_iff, get_elem?,
}
use agentnexus.Errors.{Err, plain, joined}
use agentnexus.Audit.Event.{Event, KeyResolver, Crypto}
use agentnexus.Audit.Chain.{verify_event, verify_from, verify_chain}
use agentnexus.Audit.Chain.Verified.{Link, verify_event-Link, Link-verify_event}

-- the hash before a position
abbrev pub hash_before : String → List Event → ℕ → String
hash_before prev es zero = prev
hash_before prev [] (suc i) = prev
hash_before prev (e ∷ es) (suc i) = hash_before e.event_hash es i

module _ (c : Crypto) (keys : KeyResolver) where
  -- links from a position on, each after the hash of the one before
  abbrev pub Links : ℕ → String → String → List Event → Type 0
  Links want tenant prev [] = Unit
  Links want tenant prev (e ∷ es) =
      Link c keys tenant want prev e × Links (want + 1) tenant e.event_hash es

  pub verify_from-Links :
      (want : ℕ) (tenant prev : String) (es : List Event)
      → verify_from c keys want tenant prev es ≡ none
      → Links want tenant prev es
  unfolding verify_from
  verify_from-Links want tenant prev [] h = tt
  verify_from-Links want tenant prev (e ∷ es) h =
      let (first, rest) =
        both (verify_event c keys want tenant prev e)
          (verify_from c keys (want + 1) tenant e.event_hash es) h in
      (
        verify_event-Link c keys want tenant prev e first,
        verify_from-Links (want + 1) tenant e.event_hash es rest,
      )
    where
      both :
          (o p : Option Err)
          → elim o [ some x ↦ some (joined (plain "audit event") x) | none ↦ p ] ≡ none
          → (o ≡ none) × (p ≡ none)
      both none p h = (refl, h)
      both (some x) p h = cc h

  pub Links-verify_from :
      (want : ℕ) (tenant prev : String) (es : List Event)
      → Links want tenant prev es
      → verify_from c keys want tenant prev es ≡ none
  unfolding verify_from
  Links-verify_from want tenant prev [] h = refl
  Links-verify_from want tenant prev (e ∷ es) (first, rest) =
      rw (Link-verify_event c keys want tenant prev e first, verify_from)
        (Links-verify_from (want + 1) tenant e.event_hash es rest)

  true_not_false : true ≡ false → ⊥
  true_not_false h = cc h

  pub verify_chain-Links :
      (e : Event) (es : List Event)
      → verify_chain c (e ∷ es) (some keys) ≡ none
      → (e.tenant_ref ≢ "") × Links 1 e.tenant_ref "" (e ∷ es)
  unfolding verify_chain
  verify_chain-Links e es h =
      let (named, run) : (e.tenant_ref =ₛ "" ≡ false)
          × (verify_from c keys 1 e.tenant_ref "" (e ∷ es) ≡ none) =
        ground arith in
      (
        λ (p : e.tenant_ref ≡ ""). true_not_false (sym ((eq_iff e.tenant_ref "").1 p) ∙ named),
        verify_from-Links 1 e.tenant_ref "" (e ∷ es) run,
      )

  pub Links-verify_chain :
      (e : Event) (es : List Event)
      → e.tenant_ref ≢ ""
      → Links 1 e.tenant_ref "" (e ∷ es)
      → verify_chain c (e ∷ es) (some keys) ≡ none
  unfolding verify_chain
  Links-verify_chain e es named links =
      rw (str_eq_ne e.tenant_ref "" named) (Links-verify_from 1 e.tenant_ref "" (e ∷ es) links)

  AtEach : ℕ → String → String → List Event → Type 0
  AtEach want tenant prev es =
      (i : ℕ) (e : Event)
      → get_elem? es i ≡ some e
      → Link c keys tenant (want + i) (hash_before prev es i) e

  there :
      (tenant : String) (want n : ℕ) (prev : String) (x e : Event)
      → want ≡ n
      → x ≡ e
      → Link c keys tenant want prev x
      → Link c keys tenant n prev e
  there tenant want n prev x e number same link =
      subst (λ k. Link c keys tenant k prev e) number
        (subst (Link c keys tenant want prev) same link)

  Links-AtEach :
      (want : ℕ) (tenant prev : String) (es : List Event)
      → Links want tenant prev es
      → AtEach want tenant prev es
  unfolding AtEach
  Links-AtEach want tenant prev [] h i e at = cc at
  Links-AtEach want tenant prev (x ∷ es) (first, rest) zero e at =
      there tenant want (want + 0) prev x e (omega arith) (cc at) first
  Links-AtEach want tenant prev (x ∷ es) (first, rest) (suc i) e at =
      there tenant (want + 1 + i) (want + suc i) (hash_before x.event_hash es i) e e (omega arith)
        refl (Links-AtEach (want + 1) tenant x.event_hash es rest i e at)

  AtEach-Links :
      (want : ℕ) (tenant prev : String) (es : List Event)
      → AtEach want tenant prev es
      → Links want tenant prev es
  unfolding AtEach
  AtEach-Links want tenant prev [] h = tt
  AtEach-Links want tenant prev (x ∷ es) h = (
    there tenant (want + 0) want prev x x (omega arith) refl (h zero x refl),
    AtEach-Links (want + 1) tenant x.event_hash es (λ i e at.
        there tenant (want + suc i) (want + 1 + i) (hash_before x.event_hash es i) e e (omega arith)
          refl (h (suc i) e at)),
  )

  -- A trail of at least one event is accepted exactly where its first event names a tenant and
  -- every event, at its position, is that tenant's, has the position's number counted from 1,
  -- has the hash of the event before it (the first one: none) as its previous hash and the hash
  -- of its own pre-image as its own, carries no raw payload and no outcome, and has a valid
  -- Ed25519 signature by a registered key that is not revoked.
  pub verify_chain_iff :
      (first : Event) (es : List Event)
      → (verify_chain c (first ∷ es) (some keys) ≡ none) ↔ (
          (first.tenant_ref ≢ "")
          × ((i : ℕ) (e : Event)
              → get_elem? (first ∷ es) i ≡ some e
              → Link c keys first.tenant_ref (1 + i) (hash_before "" (first ∷ es) i) e))
  unfolding AtEach
  verify_chain_iff first es = (
    λ h.
        let (named, links) = verify_chain-Links first es h in
        (named, Links-AtEach 1 first.tenant_ref "" (first ∷ es) links),
    λ (named, each).
        Links-verify_chain first es named (AtEach-Links 1 first.tenant_ref "" (first ∷ es) each),
  )
