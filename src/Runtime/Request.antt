-- ===== src/Runtime/Request.antt =====
-- sdk/go/runtime/action.go: the action request and its validation.
pub mod Declared
use Prim.Native.String.{len}
use agentnexus.Base.{
  ℤ, pos, negsuc, String, Bool, true, false, not, ◌||◌, Option, none, some, List, [], ◌∷◌, any, ltb,
  ◌=ₛ◌, ◌≠ₛ◌,
}
use agentnexus.Errors.{Err}
use agentnexus.Runtime.Format.{
  validate_handle, validate_sha256_ref, validate_capability, require_non_empty,
}
use agentnexus.Runtime.Types.{Time, is_zero, ◌otherwise◌, reject, in_field}
use agentnexus.Runtime.Grant.{
  RiskDecision, validate_risk_decision, ApprovalPlanRef, validate_approval_plan_ref,
}
use agentnexus.Runtime.Receipt.{Codec, is_json_object}

pub record Precondition : Type 0 where
  pub kind : String
  pub reference : String
  pub expected : String

pub record PostconditionSpec : Type 0 where
  pub postcondition_id : String
  pub kind : String
  pub reference : String
  pub expected : String

pub record VerificationNeed : Type 0 where
  pub need_id : String
  pub postcondition_id : String
  pub data_class : String

pub record Constraints : Type 0 where
  pub max_results : ℤ
  pub allowed_fields : List String
  pub prohibited_uses : List String

pub record ActionRequest : Type 0 where
  pub request_id : String
  pub trace_id : String
  pub business_context_ref : String
  pub capability : String
  pub parameters : String
  pub parameter_hash : String
  pub purpose : String
  pub constraints : Option Constraints
  pub risk_decision : RiskDecision
  pub approval_plan_ref : Option ApprovalPlanRef
  pub idempotency_key : String
  pub preconditions : List Precondition
  pub postconditions : List PostconditionSpec
  pub verification_needs : List VerificationNeed
  pub expires_at : Time
  pub expected_receipt_schema : String
  pub compensation_ref : String

-- `Precondition.Validate`, `PostconditionSpec.Validate` and `VerificationNeed.Validate`
unfoldable pub validate_precondition : Precondition → Option Err
validate_precondition p = reject (p.kind =ₛ "" || p.reference =ₛ "") "precondition"

unfoldable pub validate_postcondition : PostconditionSpec → Option Err
validate_postcondition p =
    require_non_empty "postcondition_id" p.postcondition_id
    otherwise require_non_empty "kind" p.kind
    otherwise require_non_empty "reference" p.reference

unfoldable pub validate_need : VerificationNeed → Option Err
validate_need n =
    require_non_empty "need_id" n.need_id
    otherwise require_non_empty "postcondition_id" n.postcondition_id
    otherwise require_non_empty "data_class" n.data_class

abbrev negative : ℤ → Bool
negative (negsuc n) = true
negative (pos n) = false

abbrev validate_constraints : Option Constraints → Option Err
validate_constraints none = none
validate_constraints (some c) =
    in_field "constraints" (reject (negative c.max_results) "max_results")

abbrev validate_plan : Codec → Option ApprovalPlanRef → Option Err
validate_plan c none = none
validate_plan c (some p) = in_field "approval_plan_ref" (validate_approval_plan_ref c.equal_fold p)

unfoldable pub validate_request_id : String → Option Err
validate_request_id id =
    reject (id =ₛ "") "request_id" otherwise reject (ltb 128 (len id)) "request_id"

unfoldable pub validate_idempotency_key : String → Option Err
validate_idempotency_key key =
    reject (key =ₛ "") "idempotency_key"
    otherwise reject (ltb (len key) 16 || ltb 128 (len key)) "idempotency_key"

-- the loops of `ActionRequest.Validate`; a set of seen ids is the list of them
unfoldable pub validate_preconditions : List Precondition → Option Err
validate_preconditions [] = none
validate_preconditions (p ∷ ps) =
    in_field "preconditions" (validate_precondition p) otherwise validate_preconditions ps

abbrev pub seen : String → List String → Bool
seen id ids = any (λ i. i =ₛ id) ids

unfoldable pub validate_postconditions : List String → List PostconditionSpec → Option Err
validate_postconditions ids [] = none
validate_postconditions ids (p ∷ ps) =
    in_field "postconditions" (validate_postcondition p)
    otherwise reject (seen p.postcondition_id ids) "postconditions"
    otherwise validate_postconditions (p.postcondition_id ∷ ids) ps

abbrev pub declared : List PostconditionSpec → List String → List String
declared [] ids = ids
declared (p ∷ ps) ids = declared ps (p.postcondition_id ∷ ids)

unfoldable pub validate_needs : List String → List String → List VerificationNeed → Option Err
validate_needs posts ids [] = none
validate_needs posts ids (n ∷ ns) =
    in_field "verification_needs" (validate_need n)
    otherwise reject (seen n.need_id ids) "verification_needs"
    otherwise reject (not (seen n.postcondition_id posts)) "verification_needs"
    otherwise validate_needs posts (n.need_id ∷ ids) ns

-- the exact operation binding between the request and its signed risk decision
abbrev pub validate_risk_binding : ActionRequest → Option Err
validate_risk_binding r =
    in_field "risk_decision" (validate_risk_decision r.risk_decision)
    otherwise reject (r.risk_decision.capability ≠ₛ r.capability) "risk_decision"
    otherwise reject (r.risk_decision.parameter_hash ≠ₛ r.parameter_hash) "risk_decision"
    otherwise reject (r.risk_decision.business_context_ref ≠ₛ r.business_context_ref)
        "risk_decision"

-- `ActionRequest.Validate`
unfoldable pub validate_request : Codec → ActionRequest → Option Err
validate_request c r =
    validate_request_id r.request_id
    otherwise reject (r.business_context_ref =ₛ "") "business_context_ref"
    otherwise in_field "business_context_ref" (validate_handle r.business_context_ref "wc_")
    otherwise validate_capability r.capability
    otherwise reject (r.parameters =ₛ "") "parameters"
    otherwise reject (not (is_json_object c r.parameters)) "parameters"
    otherwise reject (r.parameter_hash =ₛ "") "parameter_hash"
    otherwise in_field "parameter_hash" (validate_sha256_ref r.parameter_hash)
    otherwise reject (c.hash_parameters r.parameters ≠ₛ r.parameter_hash) "parameter_hash"
    otherwise require_non_empty "purpose" r.purpose
    otherwise validate_constraints r.constraints
    otherwise validate_risk_binding r
    otherwise validate_plan c r.approval_plan_ref
    otherwise validate_idempotency_key r.idempotency_key
    otherwise validate_preconditions r.preconditions
    otherwise validate_postconditions [] r.postconditions
    otherwise validate_needs (declared r.postconditions []) [] r.verification_needs
    otherwise reject (is_zero r.expires_at) "expires_at"
    otherwise require_non_empty "expected_receipt_schema" r.expected_receipt_schema
