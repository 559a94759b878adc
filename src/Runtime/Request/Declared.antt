-- ===== src/Runtime/Request/Declared.antt =====
-- sdk/go/runtime/action.go: what a request that `ActionRequest.Validate` accepts has promised.
use agentnexus.Base.{
  ◌≤◌, String, Bool, true, false, not, Option, none, some, List, [], ◌∷◌, ◌≡◌, refl, arith, All,
  Bool-cases, inl, inr, ◌⊎◌, ◌=ₛ◌, eq_iff,
}
use Prim.Native.String.{len}
use mathlib.Core.List.{Memᴰ}
use mathlib.Core.List.Memᴰ.{head, tail}
use agentnexus.Errors.{Err}
use agentnexus.Runtime.Types.{◌otherwise◌, reject, in_field}
use agentnexus.Runtime.Receipt.{Codec}
use agentnexus.Runtime.Request.{
  PostconditionSpec, VerificationNeed, ActionRequest, validate_need, validate_needs,
  validate_request, validate_risk_binding, validate_idempotency_key, seen, declared,
}

both_none : (a b : Option Err) → (a otherwise b) ≡ none → (a ≡ none) × (b ≡ none)
both_none none b h = (refl, h)
both_none (some e) b h = cc h

passed : (b : Bool) (field : String) → reject b field ≡ none → b ≡ false
passed true field h = cc h
passed false field h = refl

-- The verification need names one of the postconditions.
abbrev pub IsDeclared : List PostconditionSpec → VerificationNeed → Type 0
IsDeclared posts n =
    (p : PostconditionSpec) × Memᴰ p posts × (p.postcondition_id ≡ n.postcondition_id)

abbrev Known : List PostconditionSpec → List String → String → Type 0
Known posts ids id =
    (seen id ids ≡ true) ⊎ ((p : PostconditionSpec) × Memᴰ p posts × (p.postcondition_id ≡ id))

later :
    (p : PostconditionSpec) (ps : List PostconditionSpec) (ids : List String) (id : String)
    → Known ps (p.postcondition_id ∷ ids) id
    → Known (p ∷ ps) ids id
later p ps ids id (inr (q, m, e)) = inr (q, tail m, e)
later p ps ids id (inl s) = elim (Bool-cases (p.postcondition_id =ₛ id)) [
  | inl eq ↦ inr (p, head refl, (eq_iff _ _).0 eq)
  | inr ne ↦ inl (ground arith)
]

seen-declared :
    (posts : List PostconditionSpec) (ids : List String) (id : String)
    → seen id (declared posts ids) ≡ true
    → Known posts ids id
seen-declared [] ids id h = inl h
seen-declared (p ∷ ps) ids id h =
    later p ps ids id (seen-declared ps (p.postcondition_id ∷ ids) id h)

unseen :
    (posts : List PostconditionSpec) (id : String)
    → Known posts [] id
    → (p : PostconditionSpec) × Memᴰ p posts × (p.postcondition_id ≡ id)
unseen posts id (inl h) = cc h
unseen posts id (inr k) = k

needs_declared :
    (posts : List PostconditionSpec) (ids : List String) (ns : List VerificationNeed)
    → validate_needs (declared posts []) ids ns ≡ none
    → All (IsDeclared posts) ns
unfolding validate_needs
needs_declared posts ids [] h = tt
needs_declared posts ids (n ∷ ns) h =
    let (_, h₁) = both_none (in_field "verification_needs" (validate_need n)) _ h in
    let (_, h₂) = both_none (reject (seen n.need_id ids) "verification_needs") _ h₁ in
    let (here, rest) =
      both_none (reject (not (seen n.postcondition_id (declared posts []))) "verification_needs") _
        h₂ in
    let shown : seen n.postcondition_id (declared posts []) ≡ true =
      ground (arith, passed _ _ here) in
    (
      unseen posts n.postcondition_id (seen-declared posts [] n.postcondition_id shown),
      needs_declared posts (n.need_id ∷ ids) ns rest,
    )

checked :
    (c : Codec) (r : ActionRequest)
    → validate_request c r ≡ none
    → ((c.hash_parameters r.parameters =ₛ r.parameter_hash) ≡ true)
      × (validate_risk_binding r ≡ none)
      × (validate_idempotency_key r.idempotency_key ≡ none)
      × (validate_needs (declared r.postconditions []) [] r.verification_needs ≡ none)
unfolding validate_request
checked c r h = ground arith

risk_bound :
    (r : ActionRequest)
    → validate_risk_binding r ≡ none
    → ((r.risk_decision.capability =ₛ r.capability) ≡ true)
      × ((r.risk_decision.parameter_hash =ₛ r.parameter_hash) ≡ true)
      × ((r.risk_decision.business_context_ref =ₛ r.business_context_ref) ≡ true)
risk_bound r h = ground arith

key_length : (key : String) → validate_idempotency_key key ≡ none → (16 ≤ len key) × (len key ≤ 128)
unfolding validate_idempotency_key
key_length key h = ground arith

-- A request that the contract accepts carries the hash of its own parameters, a risk decision
-- for exactly its operation, an idempotency key of 16 to 128 bytes, and verification needs that
-- each name one of its own postconditions.
pub validate_request_binds :
    (c : Codec) (r : ActionRequest)
    → validate_request c r ≡ none
    → (c.hash_parameters r.parameters ≡ r.parameter_hash)
      × (r.risk_decision.capability ≡ r.capability)
      × (r.risk_decision.parameter_hash ≡ r.parameter_hash)
      × (r.risk_decision.business_context_ref ≡ r.business_context_ref)
      × (16 ≤ len r.idempotency_key)
      × (len r.idempotency_key ≤ 128)
      × All (IsDeclared r.postconditions) r.verification_needs
validate_request_binds c r h =
    let (hashed, risk, key, needs) = checked c r h in
    let (capability, parameters, context) = risk_bound r risk in
    let (short, long) = key_length r.idempotency_key key in
    (
      (eq_iff _ _).0 hashed,
      (eq_iff _ _).0 capability,
      (eq_iff _ _).0 parameters,
      (eq_iff _ _).0 context,
      short,
      long,
      needs_declared r.postconditions [] r.verification_needs needs,
    )
