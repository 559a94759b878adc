-- ===== src/Runtime/Grant.antt =====
-- sdk/go/runtime/approval.go: signatures, risk decisions, approval plans and one-use grants.
use agentnexus.Base.{String, Bool, true, false, not, ◌&&◌, Option, List, ltb, ◌=ₛ◌, ◌≠ₛ◌}
use agentnexus.Errors.{Err}
use agentnexus.Runtime.Format.{
  validate_handle, validate_sha256_ref, validate_capability, require_non_empty,
}
use agentnexus.Runtime.Types.{Time, is_zero, ◌otherwise◌, reject, in_field}

pub record Signature : Type 0 where
  pub algorithm : String
  pub key_id : String
  pub value : String

-- `Signature.Validate`
unfoldable pub validate_signature : Signature → Option Err
validate_signature s =
    reject (s.algorithm =ₛ "" && s.key_id =ₛ "" && s.value =ₛ "") "signature"
    otherwise reject (s.algorithm =ₛ "") "algorithm"
    otherwise reject (s.algorithm ≠ₛ "ed25519") "algorithm"
    otherwise reject (s.key_id =ₛ "") "key_id"
    otherwise reject (s.value =ₛ "") "value"

pub data RiskLevel : Type 0 where
  low medium high : RiskLevel
  other_level : String → RiskLevel

abbrev pub risk_valid : RiskLevel → Bool
risk_valid (other_level text) = false
risk_valid _ = true

pub record RiskDecision : Type 0 where
  pub decision_id : String
  pub authority : String
  pub risk_level : RiskLevel
  pub reasons : List String
  pub capability : String
  pub parameter_hash : String
  pub business_context_ref : String
  pub issued_at : Time
  pub expires_at : Time
  pub signature : Signature

-- `RiskDecision.Validate`
unfoldable pub validate_risk_decision : RiskDecision → Option Err
validate_risk_decision d =
    require_non_empty "decision_id" d.decision_id
    otherwise require_non_empty "authority" d.authority
    otherwise reject (not (risk_valid d.risk_level)) "risk_level"
    otherwise validate_capability d.capability
    otherwise reject (d.parameter_hash =ₛ "") "parameter_hash"
    otherwise in_field "parameter_hash" (validate_sha256_ref d.parameter_hash)
    otherwise reject (d.business_context_ref =ₛ "") "business_context_ref"
    otherwise in_field "business_context_ref" (validate_handle d.business_context_ref "wc_")
    otherwise reject (is_zero d.issued_at) "issued_at"
    otherwise reject (is_zero d.expires_at) "expires_at"
    otherwise reject (not (ltb d.issued_at d.expires_at)) "expires_at"
    otherwise validate_signature d.signature

pub record ApprovalPlanRef : Type 0 where
  pub plan_ref : String
  pub plan_hash : String
  pub authority : String

-- `ApprovalPlanRef.Validate`; `equal_fold` is `strings.EqualFold`
unfoldable pub validate_approval_plan_ref : (String → String → Bool) → ApprovalPlanRef → Option Err
validate_approval_plan_ref equal_fold p =
    in_field "plan_ref" (validate_handle p.plan_ref "apl_")
    otherwise reject (p.plan_hash =ₛ "") "plan_hash"
    otherwise in_field "plan_hash" (validate_sha256_ref p.plan_hash)
    otherwise require_non_empty "authority" p.authority
    otherwise reject (equal_fold p.authority "agentnexus") "authority"

pub data ApprovalDecision : Type 0 where
  approved denied narrowed : ApprovalDecision
  other_decision : String → ApprovalDecision

pub record StepGrant : Type 0 where
  pub grant_ref : String
  pub business_context_ref : String
  pub capability : String
  pub parameter_hash : String
  pub one_use : Bool
  pub issued_at : Time
  pub expires_at : Time

-- `StepGrant.Validate`
unfoldable pub validate_step_grant : StepGrant → Option Err
validate_step_grant g =
    in_field "grant_ref" (validate_handle g.grant_ref "grant_")
    otherwise reject (g.business_context_ref =ₛ "") "business_context_ref"
    otherwise in_field "business_context_ref" (validate_handle g.business_context_ref "wc_")
    otherwise validate_capability g.capability
    otherwise reject (g.parameter_hash =ₛ "") "parameter_hash"
    otherwise in_field "parameter_hash" (validate_sha256_ref g.parameter_hash)
    otherwise reject (not g.one_use) "one_use"
    otherwise reject (is_zero g.issued_at) "issued_at"
    otherwise reject (is_zero g.expires_at) "expires_at"
    otherwise reject (not (ltb g.issued_at g.expires_at)) "expires_at"
