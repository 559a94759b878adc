-- ===== src/Actions/Store.antt =====
-- model.go, MemoryStore: the rows behind one mutex, and the operations that move an action.
-- Each method runs under the mutex, so it is one step from a store to a store.
pub mod Effects
pub mod Evolves
pub mod Backing
pub mod Backed
pub mod Once
use Prim.Native.String
use agentnexus.Base.{
  String, Bool, true, false, not, ◌||◌, Option, none, some, ◌≠ₛ◌, if◌then◌else◌, Dict, lookup,
  insert, [],
}
use agentnexus.Errors.{
  Err, sentinel, joined, errors_is, not_found, idempotency_conflict, forbidden_transition,
  evidence_consumed, action_grant_consumed, Result, ok, err,
}
use agentnexus.Runtime.Types.{Time, is_zero, ActionStatus, granted, dispatched, same_status}
use agentnexus.Runtime.Grant.{StepGrant}
use agentnexus.Runtime.Receipt.{ActionReceipt}
use agentnexus.Tickets.{consume_action_grant}
use agentnexus.Actions.Lifecycle.{can_transition}
use agentnexus.Actions.Model.{Action, zero_action, Grant, Dispatch, ConnectorResult}

-- `storeKey`
unfoldable pub store_key : String → String → String
store_key tenant_ref ref = String.◌++◌ tenant_ref (String.◌++◌ "\0" ref)

pub record MemoryStore : Type 0 where
  pub actions : Dict Action
  pub by_idem : Dict String
  pub grants : Dict Grant
  pub dispatches : Dict Dispatch
  pub claimed : Dict Bool
  pub inbox : Dict Bool
  pub receipts : Dict ActionReceipt

-- `NewMemoryStore`
abbrev pub new_memory_store : MemoryStore
new_memory_store = record {
  actions = [];
  by_idem = [];
  grants = [];
  dispatches = [];
  claimed = [];
  inbox = [];
  receipts = [];
}

-- `m[k]` of a `map[string]bool`, false where the key is missing
abbrev pub flag : Option Bool → Bool
flag none = false
flag (some b) = b

abbrev pub or_zero : Option Action → Action
or_zero none = zero_action
or_zero (some a) = a

-- the operation that an idempotency key binds
unfoldable pub same_operation : Action → String → String → String → Bool
same_operation a capability parameter_hash business_context_ref = not (
    a.capability ≠ₛ capability
    || a.parameter_hash ≠ₛ parameter_hash
    || a.business_context_ref ≠ₛ business_context_ref)

replay : Action → Action → MemoryStore → Result (Action × Bool) × MemoryStore
unfolding same_operation
replay existing a s =
    if same_operation existing a.capability a.parameter_hash a.business_context_ref
    then (ok (existing, false), s)
    else (err (sentinel idempotency_conflict), s)

put_new : String → Action → MemoryStore → Result (Action × Bool) × MemoryStore
put_new idem_key a s = (
  ok (a, true),
  record s {
    actions = insert (store_key a.tenant_ref a.action_ref) a s.actions;
    by_idem = insert idem_key a.action_ref s.by_idem;
  },
)

put_indexed : Option String → String → Action → MemoryStore → Result (Action × Bool) × MemoryStore
unfolding replay put_new
put_indexed none idem_key a s = put_new idem_key a s
put_indexed (some ref) idem_key a s =
    replay (or_zero (lookup (store_key a.tenant_ref ref) s.actions)) a s

-- `PutRequested`
unfoldable pub put_requested : Action → MemoryStore → Result (Action × Bool) × MemoryStore
unfolding put_indexed
put_requested a s =
    let idem_key = store_key a.tenant_ref a.idempotency_key in
    put_indexed (lookup idem_key s.by_idem) idem_key a s

abbrev or_not_found {ℓ} : {A : Type ℓ} → Option A → Result A
or_not_found none = err (sentinel not_found)
or_not_found (some a) = ok a

-- `GetAction`
unfoldable pub get_action : String → String → MemoryStore → Result Action
get_action tenant_ref action_ref s =
    or_not_found (lookup (store_key tenant_ref action_ref) s.actions)

abbrev indexed : Option String → String → MemoryStore → Result Action
indexed none tenant_ref s = err (sentinel not_found)
indexed (some ref) tenant_ref s = ok (or_zero (lookup (store_key tenant_ref ref) s.actions))

-- `GetByIdempotencyKey`
unfoldable pub get_by_idempotency_key : String → String → MemoryStore → Result Action
get_by_idempotency_key tenant_ref key s =
    indexed (lookup (store_key tenant_ref key) s.by_idem) tenant_ref s

abbrev pub is_set : Option Grant → Bool
is_set none = false
is_set (some g) = true

-- the action that `Grant` writes
abbrev pub granted_action : Action → Action → Grant → Action
granted_action stored a g = record stored {
  status = granted;
  grant_ref = g.grant_ref;
  approval_evidence_ref = a.approval_evidence_ref;
  updated_at = g.issued_at;
}

grant_found : Option Action → String → Action → Grant → MemoryStore → Result Action × MemoryStore
grant_found none key a g s = (err (sentinel not_found), s)
grant_found (some stored) key a g s =
    if not (can_transition stored.status granted)
    then (err (sentinel forbidden_transition), s)
    else if is_set (lookup key s.grants)
    then (err (sentinel evidence_consumed), s)
    else (
      ok (granted_action stored a g),
      record s {
        actions = insert key (granted_action stored a g) s.actions;
        grants = insert key g s.grants;
      },
    )

-- `Grant`
unfoldable pub grant : Action → Grant → MemoryStore → Result Action × MemoryStore
unfolding grant_found
grant a g s =
    let key = store_key a.tenant_ref a.action_ref in grant_found (lookup key s.actions) key a g s

-- the contract's view of a stored grant
abbrev pub step_grant : Grant → StepGrant
step_grant g = record {
  grant_ref = g.grant_ref;
  business_context_ref = g.business_context_ref;
  capability = g.capability;
  parameter_hash = g.parameter_hash;
  one_use = g.one_use;
  issued_at = g.issued_at;
  expires_at = g.expires_at;
}

abbrev consume_err : Err → Err
consume_err e =
    if errors_is e action_grant_consumed
    then sentinel evidence_consumed
    else joined (sentinel forbidden_transition) e

abbrev pub dispatched_action : Action → Time → Action
dispatched_action stored at = record stored { status = dispatched; updated_at = at }

abbrev pub consumed_grant : Grant → Time → Grant
consumed_grant g at = record g { consumed_at = at }

dispatch_consumed :
    Option Err
    → Grant
    → Action
    → String
    → String
    → Dispatch
    → Time
    → MemoryStore
    → Result Action × MemoryStore
dispatch_consumed (some e) g stored key row d at s = (err (consume_err e), s)
dispatch_consumed none g stored key row d at s = (
  ok (dispatched_action stored at),
  record s {
    actions = insert key (dispatched_action stored at) s.actions;
    grants = insert key (consumed_grant g at) s.grants;
    dispatches = insert row d s.dispatches;
  },
)

dispatch_granted :
    Option Grant
    → Action
    → String
    → String
    → Dispatch
    → Time
    → MemoryStore
    → Result Action × MemoryStore
unfolding dispatch_consumed
dispatch_granted none stored key row d at s = (err (sentinel not_found), s)
dispatch_granted (some g) stored key row d at s =
    dispatch_consumed (consume_action_grant (step_grant g) at (not (is_zero g.consumed_at))) g
      stored key row d at s

dispatch_found :
    Option Action → String → String → Dispatch → Time → MemoryStore → Result Action × MemoryStore
unfolding dispatch_granted
dispatch_found none key row d at s = (err (sentinel not_found), s)
dispatch_found (some stored) key row d at s =
    if not (can_transition stored.status dispatched)
    then (err (sentinel forbidden_transition), s)
    else dispatch_granted (lookup key s.grants) stored key row d at s

-- `Dispatch`
unfoldable pub dispatch :
    String → String → Dispatch → Time → MemoryStore → Result Action × MemoryStore
unfolding dispatch_found
dispatch tenant_ref action_ref d at s =
    let key = store_key tenant_ref action_ref in
    dispatch_found (lookup key s.actions) key (store_key tenant_ref d.dispatch_ref) d at s

abbrev pub moved_action : Action → ActionStatus → String → Time → Action
moved_action stored to reason at = record stored {
  status = to;
  failure_reason = if reason ≠ₛ "" then reason else stored.failure_reason;
  updated_at = at;
}

transition_found :
    Option Action
    → String
    → ActionStatus
    → ActionStatus
    → String
    → Time
    → MemoryStore
    → Result Action × MemoryStore
transition_found none key from to reason at s = (err (sentinel not_found), s)
transition_found (some stored) key from to reason at s =
    if not (same_status stored.status from)
    then (err (sentinel forbidden_transition), s)
    else if not (can_transition from to)
    then (err (sentinel forbidden_transition), s)
    else (
      ok (moved_action stored to reason at),
      record s { actions = insert key (moved_action stored to reason at) s.actions },
    )

-- `Transition`
unfoldable pub transition :
    String
    → String
    → ActionStatus
    → ActionStatus
    → String
    → Time
    → MemoryStore
    → Result Action × MemoryStore
unfolding transition_found
transition tenant_ref action_ref from to reason at s =
    let key = store_key tenant_ref action_ref in
    transition_found (lookup key s.actions) key from to reason at s

abbrev pub settled_action : Action → ActionStatus → String → Time → Action
settled_action stored to receipt_ref at = record stored {
  status = to;
  receipt_ref = receipt_ref;
  updated_at = at;
}

ingest_found :
    Option Action
    → String
    → String
    → ConnectorResult
    → ActionStatus
    → Time
    → MemoryStore
    → Result (Action × Bool) × MemoryStore
ingest_found none inbox_key key r to at s = (err (sentinel not_found), s)
ingest_found (some stored) inbox_key key r to at s =
    if not (can_transition stored.status to) then (err (sentinel forbidden_transition), s) else (
      ok (settled_action stored to r.receipt.receipt_ref at, true),
      record s {
        actions = insert key (settled_action stored to r.receipt.receipt_ref at) s.actions;
        inbox = insert inbox_key true s.inbox;
        receipts = insert (store_key r.tenant_ref r.receipt.receipt_ref) r.receipt s.receipts;
      },
    )

-- `IngestResult`
unfoldable pub ingest_result :
    ConnectorResult → ActionStatus → Time → MemoryStore → Result (Action × Bool) × MemoryStore
unfolding ingest_found
ingest_result r to at s =
    let inbox_key = store_key r.tenant_ref r.result_id in
    let key = store_key r.tenant_ref r.action_ref in
    if flag (lookup inbox_key s.inbox)
    then (ok (or_zero (lookup key s.actions), false), s)
    else ingest_found (lookup key s.actions) inbox_key key r to at s

-- `ResultApplied`
unfoldable pub result_applied : String → String → MemoryStore → Bool
result_applied tenant_ref result_id s = flag (lookup (store_key tenant_ref result_id) s.inbox)

-- `GetReceipt`
unfoldable pub get_receipt : String → String → MemoryStore → Result ActionReceipt
get_receipt tenant_ref receipt_ref s =
    or_not_found (lookup (store_key tenant_ref receipt_ref) s.receipts)
