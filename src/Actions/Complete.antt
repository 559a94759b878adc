-- ===== src/Actions/Complete.antt =====
-- service.go, `IngestReceipt` and `MarkResultUnknown`; reconcile.go: how an action ends.
use Prim.Native.String
use agentnexus.Base.{String, Bool, true, false, Option, none, some, [], ◌∷◌, ◌=ₛ◌, if◌then◌else◌}
use agentnexus.Errors.{
  Err, sentinel, plain, joined, invalid_input, forbidden_transition, receipt_rejected, ok, err,
}
use agentnexus.Runtime.Types.{
  ActionStatus, dispatched, executing, succeeded, failed, result_unknown, reconciling,
  PrincipalContext,
}
use agentnexus.Runtime.Receipt.{ActionReceipt}
use agentnexus.Actions.Lifecycle.{terminal_receipt_status}
use agentnexus.Actions.Model.{Action, ConnectorResult}
use agentnexus.Actions.Store.{ingest_result, result_applied}
use agentnexus.Actions.World.{Deps, M, ◌>>=◌, ◌>>◌, lift, reads, stop_on, now}
use agentnexus.Actions.Audit.{AuditBinding, binding_of, append_audit, verify_receipt}
use agentnexus.Actions.Steps.{
  begin, find, on_store, forbid_unless, report, audited_transition, simple_transition,
}

-- the audit of a completion and the store's inbox write, `completeFromReceipt`
unfoldable pub complete_from_receipt :
    Deps → PrincipalContext → String → ActionReceipt → ActionStatus → Action → M Action
complete_from_receipt d p result_id receipt to a = do
  let binding : AuditBinding = record (binding_of a) { receipt_ref = receipt.receipt_ref }
  append_audit p binding (
      report "action.completed" a.action_ref a.status to
        (("receipt_ref", receipt.receipt_ref) ∷ ("result_id", result_id) ∷ []))
  at ← now d
  let result : ConnectorResult = record {
    tenant_ref = p.tenant_ref;
    result_id = result_id;
    action_ref = receipt.action_ref;
    receipt = receipt;
  }
  applied ← on_store (ingest_result result to at)
  lift (ok applied.0)

-- an action that is terminal already: a duplicate of an applied result, or a refusal
unfoldable pub redelivered : PrincipalContext → String → Action → M Action
redelivered p result_id a = reads (λ w.
    if result_applied p.tenant_ref result_id w.store
    then ok a
    else err (sentinel forbidden_transition))

-- the switch of `IngestReceipt` on the action's status
unfoldable pub settle_receipt :
    ActionStatus
    → Deps
    → PrincipalContext
    → String
    → ActionReceipt
    → ActionStatus
    → Action
    → M Action
unfolding complete_from_receipt redelivered
settle_receipt executing d p result_id receipt to a =
    complete_from_receipt d p result_id receipt to a
settle_receipt dispatched d p result_id receipt to a =
    complete_from_receipt d p result_id receipt to a
settle_receipt succeeded d p result_id receipt to a = redelivered p result_id a
settle_receipt failed d p result_id receipt to a = redelivered p result_id a
settle_receipt _ d p result_id receipt to a = lift (err (sentinel forbidden_transition))

abbrev needs_result_id : String → Option Err
needs_result_id result_id =
    if result_id =ₛ ""
    then some (joined (sentinel invalid_input) (plain "connector result id is required"))
    else none

-- `IngestReceipt`
unfoldable pub ingest_receipt :
    Deps → Option Err → PrincipalContext → String → ActionReceipt → M Action
unfolding settle_receipt
ingest_receipt d ctx p result_id receipt = do
  begin d ctx p
  stop_on (needs_result_id result_id)
  a ← find p receipt.action_ref
  to ← lift (verify_receipt d p.tenant_ref a receipt)
  settle_receipt a.status d p result_id receipt to a

abbrev pub in_flight : ActionStatus → Bool
in_flight executing = true
in_flight dispatched = true
in_flight _ = false

-- `MarkResultUnknown`
unfoldable pub mark_result_unknown : Deps → Option Err → PrincipalContext → String → M Action
mark_result_unknown d ctx p action_ref = do
  begin d ctx p
  a ← find p action_ref
  stop_on (forbid_unless (in_flight a.status))
  audited_transition d p (binding_of a) a.action_ref a.status result_unknown "action.result_unknown"
      "connector timeout after possible execution"

-- `BeginReconciliation`
unfoldable pub begin_reconciliation : Deps → Option Err → PrincipalContext → String → M Action
begin_reconciliation d ctx p action_ref =
    simple_transition d ctx p action_ref result_unknown reconciling "action.reconciling"
      "reconciliation started"

abbrev resolves : ActionStatus → Option Err
resolves outcome = elim (terminal_receipt_status outcome) [
  | some to ↦ none
  | none ↦ some (
      joined (sentinel invalid_input) (plain "reconciliation resolves only to a technical outcome"))
]

abbrev is_reconciling : ActionStatus → Bool
is_reconciling reconciling = true
is_reconciling _ = false

abbrev attests : ActionStatus → Option Err
attests succeeded = none
attests _ = some (
    joined (sentinel receipt_rejected)
      (plain "recovered receipt does not attest a succeeded execution"))

-- the succeeded branch of `ResolveReconciliation`
unfoldable pub resolve_succeeded :
    Deps → PrincipalContext → String → Action → Option ActionReceipt → M Action
resolve_succeeded d p action_ref a none = lift (
    err (
      joined (sentinel receipt_rejected)
        (plain "a succeeded reconciliation requires the recovered execution receipt")))
resolve_succeeded d p action_ref a (some receipt) = do
  to ← lift (verify_receipt d p.tenant_ref a receipt)
  stop_on (attests to)
  let binding : AuditBinding = record (binding_of a) { receipt_ref = receipt.receipt_ref }
  append_audit p binding (
      report "action.reconciled" action_ref reconciling succeeded
        (("receipt_ref", receipt.receipt_ref) ∷ []))
  at ← now d
  let result : ConnectorResult = record {
    tenant_ref = p.tenant_ref;
    result_id = String.◌++◌ "reconcile:" action_ref;
    action_ref = action_ref;
    receipt = receipt;
  }
  resolved ← on_store (ingest_result result succeeded at)
  lift (ok resolved.0)

-- the two outcomes of `ResolveReconciliation`
unfoldable pub resolve :
    ActionStatus → Deps → PrincipalContext → String → Action → Option ActionReceipt → M Action
unfolding resolve_succeeded
resolve succeeded d p action_ref a receipt = resolve_succeeded d p action_ref a receipt
resolve _ d p action_ref a receipt =
    audited_transition d p (binding_of a) action_ref reconciling failed "action.reconciled"
      "reconciliation determined a failed technical result"

-- `ResolveReconciliation`
unfoldable pub resolve_reconciliation :
    Deps → Option Err → PrincipalContext → String → ActionStatus → Option ActionReceipt → M Action
unfolding resolve
resolve_reconciliation d ctx p action_ref outcome receipt = do
  begin d ctx p
  stop_on (resolves outcome)
  a ← find p action_ref
  stop_on (forbid_unless (is_reconciling a.status))
  resolve outcome d p action_ref a receipt
