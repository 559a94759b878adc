-- ===== src/Actions/Run.antt =====
-- The calls that a service receives, in any order: service.go, compensate.go, reconcile.go and
-- outbox.go as one executable machine. Seeding and revoking evidence stand for the approval
-- transport, which writes the evidence store that model.go's consumer reads.
use agentnexus.Base.{String, Option, none, some, List, [], ◌∷◌}
use agentnexus.Errors.{Err}
use agentnexus.Runtime.Types.{ActionStatus, PrincipalContext}
use agentnexus.Runtime.Receipt.{ActionReceipt}
use agentnexus.Runtime.Request.{ActionRequest}
use agentnexus.Actions.Model.{ConsumedEvidence}
use agentnexus.Actions.World.{World, EvidenceStore, Deps, seed, revoke}
use agentnexus.Actions.Request.{request_action}
use agentnexus.Actions.Execute.{grant_action, dispatch_action, mark_executing}
use agentnexus.Actions.Complete.{
  ingest_receipt, mark_result_unknown, begin_reconciliation, resolve_reconciliation,
}
use agentnexus.Actions.Recover.{take_over, cancel, compensate}
use agentnexus.Actions.Outbox.{republish_pending}

-- One call, with its context's error if it has one.
pub data Call : Type 0 where
  request_call : (ctx : Option Err) (p : PrincipalContext) (req : ActionRequest) → Call
  grant_call dispatch_call executing_call unknown_call reconcile_call cancel_call compensate_call :
      (ctx : Option Err) (p : PrincipalContext) (action_ref : String) → Call
  receipt_call :
      (ctx : Option Err) (p : PrincipalContext) (result_id : String) (receipt : ActionReceipt)
      → Call
  resolve_call :
      (ctx : Option Err) (p : PrincipalContext) (action_ref : String) (outcome : ActionStatus)
      (receipt : Option ActionReceipt)
      → Call
  takeover_call : (ctx : Option Err) (p : PrincipalContext) (action_ref reason : String) → Call
  republish_call : (ctx : Option Err) (tenant_ref : String) → Call
  seed_call : (tenant_ref : String) (evidence : ConsumedEvidence) → Call
  revoke_call : (tenant_ref plan_ref : String) → Call

abbrev evidence_now : EvidenceStore → World → World
evidence_now c w = record w { evidence = c }

-- the state after one call
unfoldable pub exec : Deps → Call → World → World
exec d (request_call ctx p req) w = (request_action d ctx p req w).1
exec d (grant_call ctx p ref) w = (grant_action d ctx p ref w).1
exec d (dispatch_call ctx p ref) w = (dispatch_action d ctx p ref w).1
exec d (executing_call ctx p ref) w = (mark_executing d ctx p ref w).1
exec d (unknown_call ctx p ref) w = (mark_result_unknown d ctx p ref w).1
exec d (reconcile_call ctx p ref) w = (begin_reconciliation d ctx p ref w).1
exec d (cancel_call ctx p ref) w = (cancel d ctx p ref w).1
exec d (compensate_call ctx p ref) w = (compensate d ctx p ref w).1
exec d (receipt_call ctx p id receipt) w = (ingest_receipt d ctx p id receipt w).1
exec d (resolve_call ctx p ref outcome receipt) w =
    (resolve_reconciliation d ctx p ref outcome receipt w).1
exec d (takeover_call ctx p ref reason) w = (take_over d ctx p ref reason w).1
exec d (republish_call ctx t) w = (republish_pending d ctx t w).1
exec d (seed_call t e) w = evidence_now (seed t e w.evidence) w
exec d (revoke_call t plan) w = evidence_now (revoke t plan w.evidence) w

-- the state after calls one by one
unfoldable pub run : Deps → List Call → World → World
unfolding exec
run d [] w = w
run d (c ∷ cs) w = run d cs (exec d c w)

-- whose tenant a call that creates an action writes to
abbrev pub creates_for : Call → Option String
creates_for (request_call ctx p req) = some p.tenant_ref
creates_for (compensate_call ctx p ref) = some p.tenant_ref
creates_for _ = none
