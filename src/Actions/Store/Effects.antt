-- ===== src/Actions/Store/Effects.antt =====
-- What each store operation of model.go does to the rows, as one alternative: the store is left
-- as it was, or the operation's conditions held and exactly the named rows are written.
use agentnexus.Base.{String, true, false, none, some, ◌≡◌, ◌⊎◌, lookup, insert, arith, ◌<◌}
use agentnexus.Errors.{ok, is_ok}
use agentnexus.Runtime.Types.{Time, ActionStatus, same_status, granted, dispatched}
use agentnexus.Tickets.{consume_action_grant}
use agentnexus.Actions.Lifecycle.{can_transition}
use agentnexus.Actions.Model.{Action, Grant, Dispatch, ConnectorResult}
use agentnexus.Actions.Store.{
  store_key, MemoryStore, put_requested, grant, granted_action, dispatch, dispatched_action,
  consumed_grant, transition, moved_action, ingest_result, settled_action, flag,
}

-- `Grant` refuses and writes nothing, or the stored action had an edge to granted and no grant
-- yet, and exactly the action's row and its grant are written.
pub grant_effect :
    (a : Action) (g : Grant) (s : MemoryStore)
    → let key = store_key a.tenant_ref a.action_ref in
      (((grant a g s).1 ≡ s) × (is_ok (grant a g s).0 ≡ false))
      ⊎ ((stored : Action) × (lookup key s.actions ≡ some stored)
          × (can_transition stored.status granted ≡ true)
          × (lookup key s.grants ≡ none)
          × (grant a g s ≡ (
            ok (granted_action stored a g),
            record s {
              actions = insert key (granted_action stored a g) s.actions;
              grants = insert key g s.grants;
            },
          )))
unfolding grant
grant_effect a g s = ground arith

-- `Dispatch` refuses and writes nothing, or the stored action had an edge to dispatched and an
-- unconsumed, unexpired one-use grant, which it consumes while it writes the outbox row.
pub dispatch_effect :
    (tenant_ref action_ref : String) (d : Dispatch) (at : Time) (s : MemoryStore)
    → let key = store_key tenant_ref action_ref in
      let r = dispatch tenant_ref action_ref d at s in
      ((r.1 ≡ s) × (is_ok r.0 ≡ false))
      ⊎ ((stored : Action) × (g : Grant) × (lookup key s.actions ≡ some stored)
          × (lookup key s.grants ≡ some g)
          × (can_transition stored.status dispatched ≡ true)
          × (g.one_use ≡ true)
          × (g.consumed_at ≡ 0)
          × (at < g.expires_at)
          × (dispatch tenant_ref action_ref d at s ≡ (
            ok (dispatched_action stored at),
            record s {
              actions = insert key (dispatched_action stored at) s.actions;
              grants = insert key (consumed_grant g at) s.grants;
              dispatches = insert (store_key tenant_ref d.dispatch_ref) d s.dispatches;
            },
          )))
unfolding dispatch consume_action_grant
dispatch_effect tenant_ref action_ref d at s = ground arith

-- `Transition` refuses and writes nothing, or the stored action was at `from`, the edge is
-- allowed, and exactly the action's row is written.
pub transition_effect :
    (tenant_ref action_ref : String) (from to : ActionStatus) (reason : String) (at : Time)
    (s : MemoryStore)
    → let key = store_key tenant_ref action_ref in
      let r = transition tenant_ref action_ref from to reason at s in
      ((r.1 ≡ s) × (is_ok r.0 ≡ false))
      ⊎ ((stored : Action) × (lookup key s.actions ≡ some stored)
          × (same_status stored.status from ≡ true)
          × (can_transition from to ≡ true)
          × (r ≡ (
            ok (moved_action stored to reason at),
            record s { actions = insert key (moved_action stored to reason at) s.actions },
          )))
unfolding transition
transition_effect tenant_ref action_ref from to reason at s = ground arith

-- `IngestResult` refuses, or answers a result that is in the inbox already, and writes nothing;
-- or the edge is allowed, and the action's row, the inbox and the receipt are written.
pub ingest_result_effect :
    (r : ConnectorResult) (to : ActionStatus) (at : Time) (s : MemoryStore)
    → let key = store_key r.tenant_ref r.action_ref in
      let inbox_key = store_key r.tenant_ref r.result_id in
      ((ingest_result r to at s).1 ≡ s)
      ⊎ ((stored : Action) × (lookup key s.actions ≡ some stored)
          × (can_transition stored.status to ≡ true)
          × (flag (lookup inbox_key s.inbox) ≡ false)
          × (ingest_result r to at s ≡ (
            ok (settled_action stored to r.receipt.receipt_ref at, true),
            record s {
              actions = insert key (settled_action stored to r.receipt.receipt_ref at) s.actions;
              inbox = insert inbox_key true s.inbox;
              receipts = insert (store_key r.tenant_ref r.receipt.receipt_ref) r.receipt s.receipts;
            },
          )))
unfolding ingest_result
ingest_result_effect r to at s = ground arith

-- `PutRequested` answers or refuses a key that is indexed already and writes nothing; or the key
-- was free, and the action's row and the index are written.
pub put_requested_effect :
    (a : Action) (s : MemoryStore)
    → let idem_key = store_key a.tenant_ref a.idempotency_key in
      ((put_requested a s).1 ≡ s)
      ⊎ ((lookup idem_key s.by_idem ≡ none)
          × (put_requested a s ≡ (
            ok (a, true),
            record s {
              actions = insert (store_key a.tenant_ref a.action_ref) a s.actions;
              by_idem = insert idem_key a.action_ref s.by_idem;
            },
          )))
unfolding put_requested
put_requested_effect a s = ground arith
