-- ===== src/Actions/Safety/Runs.antt =====
-- Any sequence of calls, from any state whose actions are backed: the life cycle and the grants
-- of all actions, as service.go and model.go keep them together.
use agentnexus.Base.{ℕ, ◌<◌, String, Option, none, some, List, [], ◌∷◌}
use agentnexus.Actions.Store.Evolves.{Evolves-refl}
use agentnexus.Base.Grows.{Grows-refl}
use agentnexus.Actions.Store.Backing.{GrantKept-refl}
use agentnexus.Actions.Store.Backed.{IsBacked}
use agentnexus.Actions.World.{World, Deps}
use agentnexus.Actions.Run.{
  Call, request_call, grant_call, dispatch_call, executing_call, unknown_call, reconcile_call,
  cancel_call, compensate_call, receipt_call, resolve_call, takeover_call, republish_call,
  seed_call, revoke_call, exec, run, creates_for,
}
use agentnexus.Actions.Safety.Kept.{Kept, Kept-same, Kept_trans, Unmoved-start}
use agentnexus.Actions.Safety.Ops.{grant_action-Kept}
use agentnexus.Actions.Safety.Publish.{dispatch_action-Kept, republish-Kept}
use agentnexus.Actions.Safety.Ends.{
  ingest_receipt-Kept, mark_executing-Kept, begin_reconciliation-Kept, mark_result_unknown-Kept,
  resolve_reconciliation-Kept, take_over-Kept, cancel-Kept,
}
use agentnexus.Actions.Safety.Starts.{IsFresh, request_action-Kept, compensate-Kept}

abbrev pub IsFreshCall : Deps → Option String → World → Type 0
IsFreshCall d none w = Unit
IsFreshCall d (some t) w = IsFresh d t w.env.minted w.store

-- What the identifier generator promises along a run: when an action is created, its identifier
-- is not one of a stored action.
abbrev pub IsFreshRun : Deps → List Call → World → Type 0
IsFreshRun d [] w = Unit
IsFreshRun d (c ∷ cs) w = IsFreshCall d (creates_for c) w × IsFreshRun d cs (exec d c w)

exec-Kept :
    (d : Deps) (c : Call) (w : World)
    → ((i : ℕ) → 0 < d.clock i)
    → IsFreshCall d (creates_for c) w
    → IsBacked w.store
    → Kept w.store (exec d c w)
unfolding exec
exec-Kept d (request_call ctx p req) w clock fresh h =
    request_action-Kept h d p ctx req w fresh (Unmoved-start w)
exec-Kept d (grant_call ctx p ref) w clock fresh h =
    grant_action-Kept h d ctx p ref w (Unmoved-start w)
exec-Kept d (dispatch_call ctx p ref) w clock fresh h =
    dispatch_action-Kept h d ctx p ref w clock (Unmoved-start w)
exec-Kept d (executing_call ctx p ref) w clock fresh h =
    mark_executing-Kept h d ctx p ref w (Unmoved-start w)
exec-Kept d (unknown_call ctx p ref) w clock fresh h =
    mark_result_unknown-Kept h d ctx p ref w (Unmoved-start w)
exec-Kept d (reconcile_call ctx p ref) w clock fresh h =
    begin_reconciliation-Kept h d ctx p ref w (Unmoved-start w)
exec-Kept d (cancel_call ctx p ref) w clock fresh h = cancel-Kept h d ctx p ref w (Unmoved-start w)
exec-Kept d (compensate_call ctx p ref) w clock fresh h =
    compensate-Kept h d p ctx ref w fresh (Unmoved-start w)
exec-Kept d (receipt_call ctx p id r) w clock fresh h =
    ingest_receipt-Kept h d ctx p id r w (Unmoved-start w)
exec-Kept d (resolve_call ctx p ref outcome r) w clock fresh h =
    resolve_reconciliation-Kept h d ctx p ref outcome r w (Unmoved-start w)
exec-Kept d (takeover_call ctx p ref reason) w clock fresh h =
    take_over-Kept h d ctx p ref reason w (Unmoved-start w)
exec-Kept d (republish_call ctx t) w clock fresh h = republish-Kept d ctx t w (Kept-same w h)
exec-Kept d (seed_call t e) w clock fresh h = record {
  evolves = Evolves-refl w.store.actions;
  backed = h;
  grants = Grows-refl GrantKept-refl w.store.grants;
}
exec-Kept d (revoke_call t plan) w clock fresh h = record {
  evolves = Evolves-refl w.store.actions;
  backed = h;
  grants = Grows-refl GrantKept-refl w.store.grants;
}

-- Whatever calls a service receives, with a set clock, from a state in which every action is
-- backed, and with identifiers that are not in use. No stored action is lost or replaced by
-- another operation, and each has moved along allowed edges only. No stored grant is lost or
-- rebound, and one that is consumed stays so, at the same time. And every action is backed still:
-- it has no grant before `granted`; in `granted` it has an unconsumed one-use grant for its exact
-- operation; in `dispatched`, `executing`, `succeeded`, `result_unknown` and `reconciling` that
-- grant is consumed; in any other status a grant that is there is one-use and for its exact
-- operation.
pub run-Kept :
    (d : Deps) (cs : List Call) (w : World)
    → ((i : ℕ) → 0 < d.clock i)
    → IsFreshRun d cs w
    → IsBacked w.store
    → Kept w.store (run d cs w)
unfolding run
run-Kept d [] w clock fresh h = Kept-same w h
run-Kept d (c ∷ cs) w clock fresh h =
    let here = exec-Kept d c w clock fresh.0 h in
    Kept_trans here (run-Kept d cs (exec d c w) clock fresh.1 here.backed)
