-- ===== src/Actions/Steps.antt =====
-- service.go: the steps that the service's operations share, from the entry guards to the
-- audited transition.
use agentnexus.Base.{String, Bool, true, false, Option, none, some, List, [], ◌∷◌}
use agentnexus.Errors.{Err, sentinel, joined, invalid_input, forbidden_transition, Result}
use agentnexus.Runtime.Types.{ActionStatus, PrincipalContext, validate_principal, same_status}
use agentnexus.Runtime.Receipt.{ActionReceipt}
use agentnexus.Actions.Lifecycle.{can_transition}
use agentnexus.Actions.Model.{Action}
use agentnexus.Actions.Store.{MemoryStore, get_action, get_receipt, transition}
use agentnexus.Actions.World.{Deps, M, ◌>>=◌, ◌>>◌, reads, stop_on, guard, now}
use agentnexus.Actions.Audit.{
  AuditBinding, binding_of, Report, append_audit, map_get_err, map_transition_err, on_err,
}

abbrev pub as_invalid : Option Err → Option Err
as_invalid none = none
as_invalid (some e) = some (joined (sentinel invalid_input) e)

-- the first lines of every operation: `guard` and `principal.Validate`
unfoldable pub begin : Deps → Option Err → PrincipalContext → M (Unit {0})
begin d ctx p = stop_on (guard d ctx) >> stop_on (as_invalid (validate_principal p))

-- `GetAction` of the store, for the caller's tenant
unfoldable pub find : PrincipalContext → String → M Action
find p action_ref = reads (λ w. on_err map_get_err (get_action p.tenant_ref action_ref w.store))

-- a call of the store whose errors go through `mapTransitionErr`
unfoldable pub on_store : {A : Type 0} → (MemoryStore → Result A × MemoryStore) → M A
on_store f w = let (r, s) = f w.store in (on_err map_transition_err r, record w { store = s })

abbrev pub forbid_unless : Bool → Option Err
forbid_unless true = none
forbid_unless false = some (sentinel forbidden_transition)

abbrev pub report : String → String → ActionStatus → ActionStatus → List (String × String) → Report
report action action_ref from to details = record {
  action = action;
  action_ref = action_ref;
  status_from = from;
  status_to = to;
  details = details;
}

-- `Service.transition`
unfoldable pub audited_transition :
    Deps
    → PrincipalContext
    → AuditBinding
    → String
    → ActionStatus
    → ActionStatus
    → String
    → String
    → M Action
audited_transition d p binding action_ref from to audit_action reason = do
  stop_on (forbid_unless (can_transition from to))
  append_audit p binding (report audit_action action_ref from to (("reason", reason) ∷ []))
  at ← now d
  on_store (transition p.tenant_ref action_ref from to reason at)

-- `simpleTransition`
unfoldable pub simple_transition :
    Deps
    → Option Err
    → PrincipalContext
    → String
    → ActionStatus
    → ActionStatus
    → String
    → String
    → M Action
unfolding audited_transition
simple_transition d ctx p action_ref from to audit_action reason = do
  begin d ctx p
  a ← find p action_ref
  stop_on (forbid_unless (same_status a.status from))
  audited_transition d p (binding_of a) action_ref from to audit_action reason

-- `Service.GetAction` and `Service.GetReceipt`
unfoldable pub action_view : Deps → Option Err → PrincipalContext → String → M Action
action_view d ctx p action_ref = begin d ctx p >> find p action_ref

unfoldable pub receipt_view : Deps → Option Err → PrincipalContext → String → M ActionReceipt
receipt_view d ctx p receipt_ref =
    begin d ctx p >> reads (λ w. on_err map_get_err (get_receipt p.tenant_ref receipt_ref w.store))
