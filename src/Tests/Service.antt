-- ===== src/Tests/Service.antt =====
-- The service on one action, from its request to its receipt.
use agentnexus.Base.{ℕ, ◌<◌, none, some, [], ◌∷◌, refl, arith, lookup}
use agentnexus.Errors.{plain}
use agentnexus.Actions.Store.{new_memory_store}
use agentnexus.Actions.Store.Backed.{IsBacked}
use agentnexus.Actions.World.{World}
use agentnexus.Actions.Run.{request_call, grant_call, dispatch_call, exec, run}
use agentnexus.Actions.Safety.Kept.{Kept}
use agentnexus.Actions.Safety.Runs.{IsFreshRun, run-Kept}
use agentnexus.Actions.Safety.Publish.{SameRows}
use agentnexus.Actions.Safety.FailClosed.{exec_without_audit}
use agentnexus.Actions.Safety.Needs.{
  CompletedBy, ingest_receipt_needs, GrantedBy, grant_action_needs,
}
use agentnexus.Actions.Execute.{grant_action}
use agentnexus.Actions.Complete.{ingest_receipt}
use agentnexus.Tests.Fixtures.{
  service, alice, order, order_ref, receipt, start, prepared, completed,
}

nothing_stored : IsBacked new_memory_store
unfolding lookup
nothing_stored = record { row = λ key a h. cc h; unused = λ key h. refl; keyed = λ key a h. cc h }

ticking-pos : (i : ℕ) → 0 < service.clock i
ticking-pos i = omega arith

completed-IsFreshRun : IsFreshRun service completed start
unfolding lookup
completed-IsFreshRun = (λ i h. refl, (tt, (tt, (tt, (tt, tt)))))

run-Kept_example : Kept start.store (run service completed start)
run-Kept_example = run-Kept service completed start ticking-pos completed-IsFreshRun nothing_stored

-- the state after the first two calls of prepared, when the audit sink fails
abbrev deaf : World
deaf =
    let w =
      run service (request_call none alice order ∷ grant_call none alice order_ref ∷ []) start in
    record w { audit = record w.audit { fail = some (plain "sink down") } }

exec_without_audit_example :
    SameRows deaf.store (exec service (dispatch_call none alice order_ref) deaf).store
exec_without_audit_example =
    exec_without_audit service (dispatch_call none alice order_ref) deaf (plain "sink down") refl

abbrev in_progress : World
in_progress = run service prepared start

ingest_receipt_needs_example :
    CompletedBy service alice receipt in_progress.store
      (ingest_receipt service none alice "result-1" receipt in_progress).1
ingest_receipt_needs_example =
    ingest_receipt_needs service none alice "result-1" receipt in_progress

abbrev requested_once : World
requested_once = run service (request_call none alice order ∷ []) start

grant_action_needs_example :
    GrantedBy service alice order_ref requested_once.store
      (grant_action service none alice order_ref requested_once).1
grant_action_needs_example = grant_action_needs service none alice order_ref requested_once
