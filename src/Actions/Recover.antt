-- ===== src/Actions/Recover.antt =====
-- service.go, `HumanTakeover` and `Cancel`; compensate.go: the ways out of the ordinary life.
use Prim.Native.String
use agentnexus.Base.{
  String, Bool, true, false, not, ◌||◌, ◌&&◌, Option, none, some, [], ◌∷◌, ◌=ₛ◌, if◌then◌else◌,
}
use agentnexus.Errors.{
  Err, sentinel, joined, unavailable, not_found, forbidden_transition, compensation_undeclared,
  errors_is, Result, ok, err,
}
use agentnexus.Runtime.Types.{
  Time, ActionStatus, requested, awaiting_approval, granted, dispatched, executing, failed,
  result_unknown, reconciling, compensating, human_takeover, PrincipalContext,
}
use agentnexus.Actions.Lifecycle.{can_transition, compensable}
use agentnexus.Actions.Model.{Action, zero_action}
use agentnexus.Actions.Store.{get_by_idempotency_key, put_requested, transition}
use agentnexus.Actions.World.{Deps, M, ◌>>=◌, ◌>>◌, lift, reads, stop_on, now, new_id}
use agentnexus.Actions.Audit.{AuditBinding, binding_of, append_audit}
use agentnexus.Actions.Request.{valid_ref}
use agentnexus.Actions.Steps.{begin, find, on_store, forbid_unless, report, audited_transition}

-- `HumanTakeover`
unfoldable pub take_over : Deps → Option Err → PrincipalContext → String → String → M Action
take_over d ctx p action_ref reason = do
  begin d ctx p
  a ← find p action_ref
  stop_on (forbid_unless (can_transition a.status human_takeover))
  audited_transition d p (binding_of a) a.action_ref a.status human_takeover "action.human_takeover"
      reason

pub data Cancellation : Type 0 where
  clean escalated refused : Cancellation

-- the switch of `Cancel`
abbrev pub cancellation : ActionStatus → Cancellation
cancellation requested = clean
cancellation awaiting_approval = clean
cancellation granted = clean
cancellation dispatched = escalated
cancellation executing = escalated
cancellation result_unknown = escalated
cancellation reconciling = escalated
cancellation _ = refused

unfoldable pub cancel_as : Cancellation → Deps → PrincipalContext → Action → M Action
cancel_as clean d p a =
    audited_transition d p (binding_of a) a.action_ref a.status failed "action.cancelled"
      "cancelled before dispatch"
cancel_as escalated d p a =
    audited_transition d p (binding_of a) a.action_ref a.status human_takeover "action.cancelled"
      "cancelled after dispatch; escalated to human takeover"
cancel_as refused d p a = lift (err (sentinel forbidden_transition))

-- `Cancel`
unfoldable pub cancel : Deps → Option Err → PrincipalContext → String → M Action
unfolding cancel_as
cancel d ctx p action_ref = do
  begin d ctx p
  a ← find p action_ref
  cancel_as (cancellation a.status) d p a

abbrev pub is_compensating : ActionStatus → Bool
is_compensating compensating = true
is_compensating _ = false

abbrev declares : String → Option Err
declares compensation_ref =
    if compensation_ref =ₛ "" then some (sentinel compensation_undeclared) else none

abbrev pub compensation_key : Action → String
compensation_key a = String.◌++◌ "cmp:" a.action_ref

abbrev compensation_binding : Action → AuditBinding
compensation_binding a = record {
  capability = a.compensation_ref;
  parameter_hash = "";
  grant_ref = "";
  approval_evidence_ref = "";
  receipt_ref = "";
  risk_authority = a.risk_authority;
}

-- the new governed action of `Compensate`
abbrev pub compensation_action : PrincipalContext → Action → String → String → Time → Action
compensation_action p a ref audit_ref at = record zero_action {
  tenant_ref = p.tenant_ref;
  action_ref = ref;
  status = requested;
  business_context_ref = a.business_context_ref;
  capability = a.compensation_ref;
  parameter_hash = a.parameter_hash;
  idempotency_key = compensation_key a;
  risk_authority = a.risk_authority;
  risk_level = a.risk_level;
  compensation_of = a.action_ref;
  expected_receipt_schema = a.expected_receipt_schema;
  expires_at = a.expires_at;
  audit_ref_id = audit_ref;
  created_at = at;
  updated_at = at;
}

-- the original action moves to compensating, once the compensation is there
unfoldable pub mark_compensating : PrincipalContext → Action → String → Time → M Action
mark_compensating p a ref at =
    append_audit p (binding_of a) (
      report "action.compensating" a.action_ref a.status compensating
        (("compensation_ref", ref) ∷ []))
    >> on_store
        (transition p.tenant_ref a.action_ref a.status compensating "compensation initiated" at)

unfoldable pub create_compensation : Deps → PrincipalContext → Action → M Action
unfolding mark_compensating
create_compensation d p a = do
  at ← now d
  ref ← new_id d "act_"
  stop_on (valid_ref ref)
  audit_ref ← append_audit p (compensation_binding a) (
      report "action.requested" ref (ActionStatus.other "") requested
        (("capability", a.compensation_ref) ∷ ("compensation_of", a.action_ref) ∷ []))
  stored ← on_store (put_requested (compensation_action p a ref audit_ref at))
  if stored.1 && not (is_compensating a.status)
      then (mark_compensating p a ref at >> lift (ok stored.0))
      else lift (ok stored.0)

-- an earlier compensation is answered again; only a missing one is created
unfoldable pub compensate_with : Deps → PrincipalContext → Action → Result Action → M Action
unfolding create_compensation
compensate_with d p a (ok existing) = lift (ok existing)
compensate_with d p a (err e) =
    let create = create_compensation d p a in
    if errors_is e not_found then create else lift (err (joined (sentinel unavailable) e))

-- `Compensate`
unfoldable pub compensate : Deps → Option Err → PrincipalContext → String → M Action
unfolding compensate_with
compensate d ctx p action_ref = do
  begin d ctx p
  a ← find p action_ref
  stop_on (declares a.compensation_ref)
  stop_on (forbid_unless (compensable a.status || is_compensating a.status))
  existing ← reads (λ w. ok (get_by_idempotency_key p.tenant_ref (compensation_key a) w.store))
  compensate_with d p a existing
