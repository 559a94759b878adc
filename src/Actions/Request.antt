-- ===== src/Actions/Request.antt =====
-- service.go, `RequestAction`: one logical action for each tenant and idempotency key.
pub mod Replay
use agentnexus.Base.{String, Bool, Option, none, some, [], ◌∷◌, if◌then◌else◌}
use agentnexus.Errors.{
  Err, sentinel, joined, unavailable, caller_untrusted, idempotency_conflict, not_found, errors_is,
  Result, ok, err,
}
use agentnexus.Runtime.Format.{validate_handle}
use agentnexus.Runtime.Types.{
  Time, ActionStatus, requested, awaiting_approval, PrincipalContext, TrustClass, untrusted,
}
use agentnexus.Runtime.Grant.{ApprovalPlanRef}
use agentnexus.Runtime.Request.{ActionRequest, validate_request}
use agentnexus.Actions.Model.{Action, zero_action}
use agentnexus.Actions.Store.{get_by_idempotency_key, put_requested, same_operation}
use agentnexus.Actions.World.{Deps, M, ◌>>=◌, ◌>>◌, lift, reads, stop_on, now, new_id}
use agentnexus.Actions.Audit.{AuditBinding, append_audit, on_err}
use agentnexus.Actions.Steps.{begin, as_invalid, report}

abbrev pub trusted : TrustClass → Option Err
trusted untrusted = some (sentinel caller_untrusted)
trusted _ = none

-- the status and the plan of a new action
abbrev pub first_status : Option ApprovalPlanRef → ActionStatus
first_status none = requested
first_status (some plan) = awaiting_approval

abbrev pub plan_of : Option ApprovalPlanRef → String
plan_of none = ""
plan_of (some plan) = plan.plan_ref

abbrev pub valid_ref : String → Option Err
valid_ref ref = elim (validate_handle ref "act_") [
  | none ↦ none
  | some e ↦ some (sentinel unavailable)
]

abbrev request_binding : ActionRequest → AuditBinding
request_binding req = record {
  capability = req.capability;
  parameter_hash = req.parameter_hash;
  grant_ref = "";
  approval_evidence_ref = "";
  receipt_ref = "";
  risk_authority = req.risk_decision.authority;
}

-- the action that `RequestAction` puts
abbrev pub requested_action : PrincipalContext → ActionRequest → String → String → Time → Action
requested_action p req action_ref audit_ref at = record zero_action {
  tenant_ref = p.tenant_ref;
  action_ref = action_ref;
  status = first_status req.approval_plan_ref;
  business_context_ref = req.business_context_ref;
  capability = req.capability;
  parameter_hash = req.parameter_hash;
  idempotency_key = req.idempotency_key;
  risk_authority = req.risk_decision.authority;
  risk_level = req.risk_decision.risk_level;
  approval_plan_ref = plan_of req.approval_plan_ref;
  compensation_ref = req.compensation_ref;
  expected_receipt_schema = req.expected_receipt_schema;
  postconditions = req.postconditions;
  verification_needs = req.verification_needs;
  expires_at = req.expires_at;
  audit_ref_id = audit_ref;
  created_at = at;
  updated_at = at;
}

put_err : Err → Err
put_err e =
    if errors_is e idempotency_conflict
    then sentinel idempotency_conflict
    else joined (sentinel unavailable) e

-- `PutRequested` and the mapping of its errors
unfoldable pub put_action : Action → M (Action × Bool)
unfolding put_err
put_action a w = let (r, s) = put_requested a w.store in (on_err put_err r, record w { store = s })

unfoldable pub create_action : Deps → PrincipalContext → ActionRequest → M Action
unfolding put_action
create_action d p req = do
  at ← now d
  action_ref ← new_id d "act_"
  stop_on (valid_ref action_ref)
  audit_ref ← append_audit p (request_binding req) (
      report "action.requested" action_ref (ActionStatus.other "")
        (first_status req.approval_plan_ref)
        (("capability", req.capability) ∷ ("parameter_hash", req.parameter_hash) ∷ []))
  stored ← put_action (requested_action p req action_ref audit_ref at)
  lift (ok stored.0)

-- the three branches of the idempotent pre-check
unfoldable pub answer : Deps → PrincipalContext → ActionRequest → Result Action → M Action
unfolding create_action
answer d p req (ok existing) = lift (
    if same_operation existing req.capability req.parameter_hash req.business_context_ref
    then ok existing
    else err (sentinel idempotency_conflict))
answer d p req (err e) =
    let create = create_action d p req in
    if errors_is e not_found then create else lift (err (joined (sentinel unavailable) e))

-- `RequestAction`
unfoldable pub request_action : Deps → Option Err → PrincipalContext → ActionRequest → M Action
unfolding answer
request_action d ctx p req = do
  begin d ctx p
  stop_on (as_invalid (validate_request d.codec req))
  stop_on (trusted p.trust_class)
  existing ← reads (λ w. ok (get_by_idempotency_key p.tenant_ref req.idempotency_key w.store))
  answer d p req existing
