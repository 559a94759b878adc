-- ===== src/Actions/Model.antt =====
-- model.go: the durable rows of the action plane, and the shapes of its ports.
use agentnexus.Base.{
  ℕ, String, Bool, false, ◌||◌, Option, none, some, List, [], ◌∷◌, ◌=ₛ◌, if◌then◌else◌,
}
use agentnexus.Runtime.Types.{Time, ActionStatus}
use agentnexus.Runtime.Grant.{RiskLevel, ApprovalDecision}
use agentnexus.Runtime.Receipt.{ActionReceipt}
use agentnexus.Runtime.Request.{PostconditionSpec, VerificationNeed}

pub record Action : Type 0 where
  pub tenant_ref : String
  pub action_ref : String
  pub status : ActionStatus
  pub business_context_ref : String
  pub capability : String
  pub parameter_hash : String
  pub idempotency_key : String
  pub risk_authority : String
  pub risk_level : RiskLevel
  pub approval_plan_ref : String
  pub grant_ref : String
  pub approval_evidence_ref : String
  pub receipt_ref : String
  pub compensation_ref : String
  pub compensation_of : String
  pub expected_receipt_schema : String
  pub postconditions : List PostconditionSpec
  pub verification_needs : List VerificationNeed
  pub expires_at : Time
  pub audit_ref_id : String
  pub failure_reason : String
  pub created_at : Time
  pub updated_at : Time

-- Go's zero value, which a read of a missing map key gives
abbrev pub zero_action : Action
zero_action = record {
  tenant_ref = "";
  action_ref = "";
  status = ActionStatus.other "";
  business_context_ref = "";
  capability = "";
  parameter_hash = "";
  idempotency_key = "";
  risk_authority = "";
  risk_level = RiskLevel.other_level "";
  approval_plan_ref = "";
  grant_ref = "";
  approval_evidence_ref = "";
  receipt_ref = "";
  compensation_ref = "";
  compensation_of = "";
  expected_receipt_schema = "";
  postconditions = [];
  verification_needs = [];
  expires_at = 0;
  audit_ref_id = "";
  failure_reason = "";
  created_at = 0;
  updated_at = 0;
}

-- `hasPostcondition` and `verificationNeed`
unfoldable pub has_postcondition : String → List PostconditionSpec → Bool
has_postcondition id [] = false
has_postcondition id (p ∷ ps) = p.postcondition_id =ₛ id || has_postcondition id ps

unfoldable pub verification_need : String → List VerificationNeed → Option VerificationNeed
verification_need id [] = none
verification_need id (n ∷ ns) = if n.need_id =ₛ id then some n else verification_need id ns

pub record Grant : Type 0 where
  pub tenant_ref : String
  pub grant_ref : String
  pub action_ref : String
  pub business_context_ref : String
  pub capability : String
  pub parameter_hash : String
  pub one_use : Bool
  pub issued_at : Time
  pub expires_at : Time
  pub consumed_at : Time

pub data DispatchKind : Type 0 where
  execute compensate : DispatchKind

-- `Attempts` only counts up from 0
pub record Dispatch : Type 0 where
  pub tenant_ref : String
  pub dispatch_ref : String
  pub action_ref : String
  pub capability : String
  pub parameter_hash : String
  pub grant_ref : String
  pub kind : DispatchKind
  pub published : Bool
  pub attempts : ℕ
  pub created_at : Time
  pub published_at : Time
  pub next_attempt_at : Time
  pub last_error : String
  pub dead_lettered_at : Time

pub record DispatchOutcome : Type 0 where
  pub published : Bool
  pub next_attempt_at : Time
  pub last_error : String
  pub dead_letter : Bool

-- `Result` of model.go, one result that a connector reports
pub record ConnectorResult : Type 0 where
  pub tenant_ref : String
  pub result_id : String
  pub action_ref : String
  pub receipt : ActionReceipt

pub record ConsumedEvidence : Type 0 where
  pub approval_ref : String
  pub plan_ref : String
  pub capability : String
  pub parameter_hash : String
  pub decision : ApprovalDecision

-- One row of the action lineage. `details` keeps the texts of the map that the code passes.
pub record AuditEvent : Type 0 where
  pub tenant_ref : String
  pub principal_ref : String
  pub action : String
  pub action_ref : String
  pub status_from : ActionStatus
  pub status_to : ActionStatus
  pub details : List (String × String)
  pub capability : String
  pub parameter_hash : String
  pub grant_ref : String
  pub approval_evidence_ref : String
  pub receipt_ref : String
  pub risk_authority : String
  pub agent_client_ref : String
  pub agent_release_ref : String
  pub org_snapshot_ref : String
