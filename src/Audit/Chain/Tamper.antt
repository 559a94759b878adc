-- ===== src/Audit/Chain/Tamper.antt =====
-- sdk/go/audit/verify.go: what an accepted audit trail rules out.
use agentnexus.Base.{
  ℕ, zero, suc, ◌+◌, String, none, some, List, [], ◌∷◌, ◌≡◌, refl, sym, ◌∙◌, ap, arith, map, length,
  get_elem?,
}
use agentnexus.Errors.{ok}
use agentnexus.Audit.Event.{Event, KeyResolver, Crypto, pre_image, event_hash_of}
use agentnexus.Audit.Chain.{verify_chain}
use agentnexus.Audit.Chain.Positions.{Links, verify_chain-Links}

-- the hash that the trail ends with
abbrev pub last_hash : String → List Event → String
last_hash prev [] = prev
last_hash prev (e ∷ es) = last_hash e.event_hash es

module _ (c : Crypto) where
  -- No two events at the same position have the same hash and different contents.
  Distinct : List Event → List Event → Type 0
  Distinct xs ys =
      (i : ℕ) (a b : Event)
      → get_elem? xs i ≡ some a
      → get_elem? ys i ≡ some b
      → event_hash_of c a ≡ event_hash_of c b
      → pre_image a ≡ pre_image b

  same_hashes :
      (a b : Event)
      → event_hash_of c a ≡ ok a.event_hash
      → event_hash_of c b ≡ ok b.event_hash
      → a.event_hash ≡ b.event_hash
      → event_hash_of c a ≡ event_hash_of c b
  same_hashes a b p q same = p ∙ ap ok same ∙ sym q

  same_below :
      (keys keys' : KeyResolver) (want : ℕ) (tenant tenant' prev prev' : String)
      (xs ys : List Event)
      → Links c keys want tenant prev xs
      → Links c keys' want tenant' prev' ys
      → length xs ≡ length ys
      → last_hash prev xs ≡ last_hash prev' ys
      → Distinct xs ys
      → (map pre_image xs ≡ map pre_image ys) × (prev ≡ prev')
  unfolding Distinct
  same_below keys keys' want tenant tenant' prev prev' [] [] h h' long last apart = (refl, last)
  same_below keys keys' want tenant tenant' prev prev' [] (y ∷ ys) h h' long last apart =
      absurd (omega arith)
  same_below keys keys' want tenant tenant' prev prev' (x ∷ xs) [] h h' long last apart =
      absurd (omega arith)
  same_below keys keys' want tenant tenant' prev prev' (x ∷ xs) (y ∷ ys) (first, rest)
        (first', rest') long last apart =
      let (tails, hashes) =
        same_below keys keys' (want + 1) tenant tenant' x.event_hash y.event_hash xs ys rest rest'
          (omega arith) last (λ i. apart (suc i)) in
      let heads = apart zero x y refl refl (same_hashes x y first.hashed first'.hashed hashes) in
      (
        ap (λ e. e ∷ map pre_image xs) heads ∙ ap (λ es. pre_image y ∷ es) tails,
        sym first.linked ∙ ap (λ (e : Event). e.prev_hash) heads ∙ first'.linked,
      )

  -- Two accepted trails of the same length that end with the same hash have the same events, up
  -- to the signatures and to fractions of a microsecond, if no two of their events at the same
  -- position have one hash for different contents: nothing can be changed, exchanged or reordered
  -- below a hash that is known.
  pub same_end :
      (keys keys' : KeyResolver) (x y : Event) (xs ys : List Event)
      → ((i : ℕ) (a b : Event)
          → get_elem? (x ∷ xs) i ≡ some a
          → get_elem? (y ∷ ys) i ≡ some b
          → event_hash_of c a ≡ event_hash_of c b
          → pre_image a ≡ pre_image b)
      → verify_chain c (x ∷ xs) (some keys) ≡ none
      → verify_chain c (y ∷ ys) (some keys') ≡ none
      → length xs ≡ length ys
      → last_hash "" (x ∷ xs) ≡ last_hash "" (y ∷ ys)
      → map pre_image (x ∷ xs) ≡ map pre_image (y ∷ ys)
  unfolding Distinct
  same_end keys keys' x y xs ys apart h h' long last =
      let (_, links) = verify_chain-Links c keys x xs h in
      let (_, links') = verify_chain-Links c keys' y ys h' in
      (same_below keys keys' 1 x.tenant_ref y.tenant_ref "" "" (x ∷ xs) (y ∷ ys) links links'
        (omega arith) last apart).0
