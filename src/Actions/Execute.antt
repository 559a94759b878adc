-- ===== src/Actions/Execute.antt =====
-- service.go, `Grant`, `Dispatch` and `MarkExecuting`: the way to the side effect.
use agentnexus.Base.{
  pos, String, Bool, true, false, not, ◌||◌, Option, none, some, [], ◌∷◌, ◌≠ₛ◌, if◌then◌else◌,
}
use agentnexus.Errors.{
  Err, sentinel, joined, unavailable, approval_required, evidence_rejected, evidence_consumed,
  not_found, forbidden_transition, blind_retry_forbidden, errors_is, Result, ok, err,
}
use agentnexus.Runtime.Types.{
  Time, ActionStatus, requested, awaiting_approval, granted, dispatched, executing, result_unknown,
  reconciling, PrincipalContext,
}
use agentnexus.Runtime.Grant.{ApprovalDecision, approved, StepGrant}
use agentnexus.Tickets.{ActionGrantInput, mint_action_grant, max_action_grant_ttl}
use agentnexus.Actions.Model.{Action, Grant, Dispatch, DispatchKind, ConsumedEvidence}
use agentnexus.Actions.Store
use agentnexus.Actions.World.{
  Deps, M, ◌>>=◌, ◌>>◌, lift, stop_on, now, new_id, consume_approval_evidence,
}
use agentnexus.Actions.Outbox.{publish_dispatched}
use agentnexus.Actions.Audit.{
  AuditBinding, binding_of, append_audit, on_err, verify_decision_provider,
}
use agentnexus.Actions.Steps.{begin, find, on_store, forbid_unless, report, simple_transition}

-- `Grant` starts from these two statuses
abbrev pub may_grant : ActionStatus → Bool
may_grant requested = true
may_grant awaiting_approval = true
may_grant _ = false

abbrev pub awaits : ActionStatus → Bool
awaits awaiting_approval = true
awaits _ = false

abbrev pub is_approved : ApprovalDecision → Bool
is_approved approved = true
is_approved _ = false

unfoldable pub evidence_err : Err → Err
evidence_err e =
    if errors_is e evidence_consumed
    then sentinel evidence_consumed
    else if errors_is e evidence_rejected || errors_is e not_found
    then sentinel evidence_rejected
    else joined (sentinel unavailable) e

unfoldable pub consume_evidence : PrincipalContext → Action → M ConsumedEvidence
unfolding evidence_err
consume_evidence p a w =
    let (r, c) = consume_approval_evidence p.tenant_ref a.approval_plan_ref w.evidence in
    (on_err evidence_err r, record w { evidence = c })

-- the approved decision must name this action's operation, and be an approval
abbrev pub binds_operation : Action → ConsumedEvidence → Result String
binds_operation a e =
    if e.capability ≠ₛ a.capability
      || e.parameter_hash ≠ₛ a.parameter_hash
      || not (is_approved e.decision)
    then err (sentinel evidence_rejected)
    else ok e.approval_ref

-- the approval evidence of `Grant`, empty where none is needed
unfoldable pub approval : Deps → PrincipalContext → Action → M String
unfolding consume_evidence
approval d p a =
    if awaits a.status
    then (if d.evidence_wired
        then (consume_evidence p a >>= λ e. lift (binds_operation a e))
        else lift (err (sentinel approval_required)))
    else lift (ok "")

abbrev pub grant_input : Action → String → ActionGrantInput
grant_input a grant_ref = record {
  grant_ref = grant_ref;
  business_context_ref = a.business_context_ref;
  capability = a.capability;
  parameter_hash = a.parameter_hash;
  ttl = pos max_action_grant_ttl;
}

-- the grant row that `Grant` stores
abbrev pub grant_row : PrincipalContext → String → Action → String → StepGrant → Grant
grant_row p action_ref a grant_ref minted = record {
  tenant_ref = p.tenant_ref;
  grant_ref = grant_ref;
  action_ref = action_ref;
  business_context_ref = a.business_context_ref;
  capability = a.capability;
  parameter_hash = a.parameter_hash;
  one_use = true;
  issued_at = minted.issued_at;
  expires_at = minted.expires_at;
  consumed_at = 0;
}

-- `Grant` after the trust gate
unfoldable pub mint_and_grant : Deps → PrincipalContext → String → Action → M Action
unfolding approval
mint_and_grant d p action_ref a = do
  at ← now d
  evidence ← approval d p a
  grant_ref ← new_id d "grant_"
  minted ←
      lift (on_err (joined (sentinel unavailable)) (mint_action_grant (grant_input a grant_ref) at))
  let binding : AuditBinding = record (binding_of a) {
    grant_ref = grant_ref;
    approval_evidence_ref = evidence;
  }
  append_audit p binding
      (report "action.granted" action_ref a.status granted (("grant_ref", grant_ref) ∷ []))
  on_store (
      Store.grant (record a { approval_evidence_ref = evidence })
        (grant_row p action_ref a grant_ref minted))

-- `Grant`
unfoldable pub grant_action : Deps → Option Err → PrincipalContext → String → M Action
unfolding mint_and_grant
grant_action d ctx p action_ref = do
  begin d ctx p
  a ← find p action_ref
  stop_on (forbid_unless (may_grant a.status))
  stop_on (verify_decision_provider d p a.capability a.parameter_hash)
  mint_and_grant d p action_ref a

-- the guard of `Dispatch` on the status
unfoldable pub dispatch_guard : ActionStatus → Option Err
dispatch_guard granted = none
dispatch_guard dispatched = some (sentinel blind_retry_forbidden)
dispatch_guard executing = some (sentinel blind_retry_forbidden)
dispatch_guard result_unknown = some (sentinel blind_retry_forbidden)
dispatch_guard reconciling = some (sentinel blind_retry_forbidden)
dispatch_guard _ = some (sentinel forbidden_transition)

-- the outbox row that `Dispatch` writes
abbrev pub dispatch_row : PrincipalContext → String → Action → String → Time → Dispatch
dispatch_row p action_ref a dispatch_ref at = record {
  tenant_ref = p.tenant_ref;
  dispatch_ref = dispatch_ref;
  action_ref = action_ref;
  capability = a.capability;
  parameter_hash = a.parameter_hash;
  grant_ref = a.grant_ref;
  kind = DispatchKind.execute;
  published = false;
  attempts = 0;
  created_at = at;
  published_at = 0;
  next_attempt_at = 0;
  last_error = "";
  dead_lettered_at = 0;
}

-- `Dispatch`
unfoldable pub dispatch_action : Deps → Option Err → PrincipalContext → String → M Action
unfolding dispatch_guard
dispatch_action d ctx p action_ref = do
  begin d ctx p
  a ← find p action_ref
  stop_on (dispatch_guard a.status)
  at ← now d
  dispatch_ref ← new_id d "dsp_"
  append_audit p (binding_of a) (
      report "action.dispatched" action_ref granted dispatched
        (("grant_ref", a.grant_ref) ∷ ("dispatch_ref", dispatch_ref) ∷ []))
  done ←
      on_store
        (Store.dispatch p.tenant_ref action_ref (dispatch_row p action_ref a dispatch_ref at) at)
  λ w. (ok done, publish_dispatched d p.tenant_ref dispatch_ref w)

-- `MarkExecuting`
unfoldable pub mark_executing : Deps → Option Err → PrincipalContext → String → M Action
mark_executing d ctx p action_ref =
    simple_transition d ctx p action_ref dispatched executing "action.executing" ""
