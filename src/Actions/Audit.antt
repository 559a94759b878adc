-- ===== src/Actions/Audit.antt =====
-- service.go: the mandatory action lineage, the caller trust gate, and the checks of a receipt.
use agentnexus.Base.{String, ◌||◌, Option, none, some, List, ◌≠ₛ◌, ◌=ₛ◌, if◌then◌else◌}
use agentnexus.Errors.{
  Err, sentinel, plain, joined, unavailable, caller_untrusted, receipt_rejected, not_found,
  forbidden_transition, evidence_consumed, idempotency_conflict, errors_is, Result, ok, err,
}
use agentnexus.Runtime.Types.{
  ActionStatus, PrincipalContext, TrustClass, first_party, certified_third_party,
}
use agentnexus.Runtime.Receipt.{ActionReceipt, validate_receipt}
use agentnexus.Actions.Lifecycle.{terminal_receipt_status}
use agentnexus.Actions.Model.{Action, AuditEvent}
use agentnexus.Actions.World.{Deps, M, append_action_audit}

-- `auditBinding`
pub record AuditBinding : Type 0 where
  pub capability : String
  pub parameter_hash : String
  pub grant_ref : String
  pub approval_evidence_ref : String
  pub receipt_ref : String
  pub risk_authority : String

-- `bindingOf`
abbrev pub binding_of : Action → AuditBinding
binding_of a = record {
  capability = a.capability;
  parameter_hash = a.parameter_hash;
  grant_ref = a.grant_ref;
  approval_evidence_ref = a.approval_evidence_ref;
  receipt_ref = a.receipt_ref;
  risk_authority = a.risk_authority;
}

-- What one transition reports: its name, the action, the two statuses and the details.
pub record Report : Type 0 where
  pub action : String
  pub action_ref : String
  pub status_from : ActionStatus
  pub status_to : ActionStatus
  pub details : List (String × String)

-- the event that `appendAudit` builds
abbrev pub audit_event : PrincipalContext → AuditBinding → Report → AuditEvent
audit_event p b r = record {
  tenant_ref = p.tenant_ref;
  principal_ref = p.principal_ref;
  action = r.action;
  action_ref = r.action_ref;
  status_from = r.status_from;
  status_to = r.status_to;
  details = r.details;
  capability = b.capability;
  parameter_hash = b.parameter_hash;
  grant_ref = b.grant_ref;
  approval_evidence_ref = b.approval_evidence_ref;
  receipt_ref = b.receipt_ref;
  risk_authority = b.risk_authority;
  agent_client_ref = p.agent_client_ref;
  agent_release_ref = p.agent_release_ref;
  org_snapshot_ref = p.org_snapshot_ref;
}

abbrev audit_failed : Err
audit_failed = joined (sentinel unavailable) (plain "action audit append failed")

abbrev appended : Result String → Result String
appended (err e) = err (joined audit_failed e)
appended (ok ref) = if ref =ₛ "" then err audit_failed else ok ref

-- `appendAudit`
unfoldable pub append_audit : PrincipalContext → AuditBinding → Report → M String
append_audit p b r w =
    let (answer, sink) = append_action_audit (audit_event p b r) w.audit in
    (appended answer, record w { audit = sink })

abbrev asked : Option Err → Option Err
asked none = none
asked (some e) = some (joined (sentinel caller_untrusted) e)

abbrev no_providers : Err
no_providers =
    joined (sentinel caller_untrusted)
      (plain "certified third-party action requires the wired decision-provider verification")

gate :
    TrustClass
    → Option (String → PrincipalContext → String → String → Option Err)
    → PrincipalContext
    → String
    → String
    → Option Err
gate first_party providers p capability parameter_hash = none
gate certified_third_party none p capability parameter_hash = some no_providers
gate certified_third_party (some verify) p capability parameter_hash =
    asked (verify p.tenant_ref p capability parameter_hash)
gate _ providers p capability parameter_hash = some (sentinel caller_untrusted)

-- `verifyDecisionProvider`
unfoldable pub verify_decision_provider : Deps → PrincipalContext → String → String → Option Err
unfolding gate
verify_decision_provider d p capability parameter_hash =
    gate p.trust_class d.providers p capability parameter_hash

abbrev rejected : String → Err
rejected text = joined (sentinel receipt_rejected) (plain text)

unfoldable pub verified_by :
    Option (String → ActionReceipt → Option Err)
    → String
    → ActionReceipt
    → ActionStatus
    → Result ActionStatus
verified_by none tenant_ref r to = err (rejected "no receipt verifier wired")
verified_by (some verify) tenant_ref r to = elim (verify tenant_ref r) [
  | none ↦ ok to
  | some e ↦ err (joined (sentinel receipt_rejected) e)
]

-- `verifyReceipt`
unfoldable pub verify_receipt : Deps → String → Action → ActionReceipt → Result ActionStatus
unfolding verified_by
verify_receipt d tenant_ref a r = elim (validate_receipt d.codec r) [
  | some e ↦ err (joined (sentinel receipt_rejected) e)
  | none ↦
      if r.action_ref ≠ₛ a.action_ref
        || r.parameter_hash ≠ₛ a.parameter_hash
        || r.capability ≠ₛ a.capability
      then err (rejected "receipt does not bind the exact action operation")
      else if r.receipt_schema ≠ₛ a.expected_receipt_schema
      then err (rejected "receipt schema does not match the declared expected receipt schema")
      else elim (terminal_receipt_status r.status) [
        | none ↦ err (rejected "only a technical succeeded/failed receipt completes an action")
        | some to ↦ verified_by d.receipts tenant_ref r to
      ]
]

-- `mapGetErr` and `mapTransitionErr`
abbrev pub map_get_err : Err → Err
map_get_err e =
    if errors_is e not_found then sentinel not_found else joined (sentinel unavailable) e

abbrev pub map_transition_err : Err → Err
map_transition_err e =
    if errors_is e forbidden_transition
    then sentinel forbidden_transition
    else if errors_is e evidence_consumed
    then sentinel evidence_consumed
    else if errors_is e idempotency_conflict
    then sentinel idempotency_conflict
    else if errors_is e not_found
    then sentinel not_found
    else joined (sentinel unavailable) e

abbrev pub on_err {ℓ} : {A : Type ℓ} → (Err → Err) → Result A → Result A
on_err f (ok a) = ok a
on_err f (err e) = err (f e)
