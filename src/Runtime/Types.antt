-- ===== src/Runtime/Types.antt =====
-- sdk/go/runtime/action.go and context.go: the frozen vocabularies and the verified principal.
-- A Go string type with frozen values has one constructor for each value and `other` for the
-- rest; times are nanoseconds after Go's zero time, which is 0.
use agentnexus.Base.{
  ◌≡◌, arith, eq_iff, ℕ, String, Bool, true, false, not, Option, none, some, ltb, ◌==◌, ◌=ₛ◌, ◌&&◌,
}
use agentnexus.Errors.{Err, plain}
use agentnexus.Runtime.Format.{require_non_empty}

abbrev pub Time : Type 0
Time = ℕ

abbrev pub is_zero : Time → Bool
is_zero t = t == 0

pub data ActionStatus : Type 0 where
  requested awaiting_approval granted dispatched executing succeeded failed : ActionStatus
  result_unknown reconciling compensating human_takeover : ActionStatus
  other : String → ActionStatus

-- `ActionStatus.Valid`
abbrev pub status_valid : ActionStatus → Bool
status_valid (other text) = false
status_valid _ = true

-- `==` on statuses, by their position in the frozen order
abbrev rank : ActionStatus → ℕ
rank requested = 0
rank awaiting_approval = 1
rank granted = 2
rank dispatched = 3
rank executing = 4
rank succeeded = 5
rank failed = 6
rank result_unknown = 7
rank reconciling = 8
rank compensating = 9
rank human_takeover = 10
rank (other text) = 11

abbrev other_eq : ActionStatus → ActionStatus → Bool
other_eq (other s) (other t) = s =ₛ t
other_eq _ _ = true

abbrev pub same_status : ActionStatus → ActionStatus → Bool
same_status s t = rank s == rank t && other_eq s t

pub same_status-eq : (s t : ActionStatus) → same_status s t ≡ true → s ≡ t
same_status-eq (other s) (other t) h = ground (arith, eq_iff s t)
same_status-eq s t h = ground arith

pub data TrustClass : Type 0 where
  first_party certified_third_party untrusted : TrustClass
  other_class : String → TrustClass

-- `TrustClass.Valid`
abbrev pub trust_valid : TrustClass → Bool
trust_valid (other_class text) = false
trust_valid _ = true

pub record PrincipalContext : Type 0 where
  pub tenant_ref : String
  pub principal_ref : String
  pub agent_client_ref : String
  pub agent_release_ref : String
  pub trust_class : TrustClass
  pub org_snapshot_ref : String
  pub verified_at : Time
  pub expires_at : Time

-- The early returns of a validator: the first error, or the next check.
infixr 3 ◌otherwise◌
abbrev pub ◌otherwise◌ : Option Err → Option Err → Option Err
none otherwise rest = rest
some e otherwise rest = some e

abbrev pub reject : Bool → String → Option Err
reject true field = some (plain field)
reject false field = none

-- `fieldErrorf(field, "%v", err)`: the text of an error under a field's name
abbrev pub in_field : String → Option Err → Option Err
in_field field none = none
in_field field (some e) = some (plain field)

-- `PrincipalContext.Validate`
unfoldable pub validate_principal : PrincipalContext → Option Err
unfolding require_non_empty
validate_principal p =
    require_non_empty "tenant_ref" p.tenant_ref
    otherwise require_non_empty "principal_ref" p.principal_ref
    otherwise require_non_empty "agent_client_ref" p.agent_client_ref
    otherwise require_non_empty "agent_release_ref" p.agent_release_ref
    otherwise reject (not (trust_valid p.trust_class)) "trust_class"
    otherwise require_non_empty "org_snapshot_ref" p.org_snapshot_ref
    otherwise reject (is_zero p.verified_at) "verified_at"
    otherwise reject (is_zero p.expires_at) "expires_at"
    otherwise reject (not (ltb p.verified_at p.expires_at)) "expires_at"
