-- ===== src/Actions/Safety/FailClosed.antt =====
-- service.go: with a failing audit sink no call has an effect on actions and grants.
use agentnexus.Base.{String, Option, some, ◌≡◌, refl, Option-cases, inl, inr}
use agentnexus.Errors.{Err}
use agentnexus.Runtime.Types.{ActionStatus, PrincipalContext}
use agentnexus.Actions.World.{World, Deps, guard}
use agentnexus.Actions.Steps.{simple_transition}
use agentnexus.Actions.Request.{request_action}
use agentnexus.Actions.Execute.{grant_action, dispatch_action, mark_executing}
use agentnexus.Actions.Complete.{
  ingest_receipt, mark_result_unknown, begin_reconciliation, resolve_reconciliation,
}
use agentnexus.Actions.Recover.{take_over, cancel, cancellation, compensate}
use agentnexus.Actions.Outbox.{republish_pending}
use agentnexus.Actions.Run.{
  Call, request_call, grant_call, dispatch_call, executing_call, unknown_call, reconcile_call,
  cancel_call, compensate_call, receipt_call, resolve_call, takeover_call, republish_call,
  seed_call, revoke_call, exec,
}
use agentnexus.Actions.Safety.Quiet.{
  Quiet-lift, Quiet-reads, Quiet-stop_on, Quiet-now, Quiet-new_id, Quiet-begin, Quiet-find,
}
use agentnexus.Actions.Safety.Publish.{SameRows, republish_with-rows}
use agentnexus.Actions.Safety.Silent.{
  Blocked, after, unheard, rows_of_eq, transition_blocked, answer_blocked, mint_blocked,
  settle_blocked, resolve_blocked, cancel_as_blocked, compensate_with_blocked,
}

module _ {x : Err} (d : Deps) (ctx : Option Err) (p : PrincipalContext) (w : World)
    (k : Blocked w.store x w) where
  simple_blocked :
      (ref : String) (from to : ActionStatus) (name reason : String)
      → SameRows w.store (simple_transition d ctx p ref from to name reason w).1.store
  unfolding simple_transition
  simple_blocked ref from to name reason = after _ _ w (Quiet-begin d ctx p) k λ _ w₁ _ k₁.
      after _ _ w₁ (Quiet-find p ref) k₁ λ _ w₂ _ k₂.
        after _ _ w₂ (Quiet-stop_on _) k₂ λ _ w₃ _ k₃. transition_blocked d ctx p w₃ k₃ _ _ _ _ _ _

republish_blocked :
    (d : Deps) (ctx : Option Err) (t : String) (w : World)
    → SameRows w.store (republish_pending d ctx t w).1.store
unfolding republish_pending
republish_blocked d ctx t w = elim (Option-cases (guard d ctx)) [
  | inl e ↦ rw (e, republish_pending) (republish_with-rows d.publisher d t w)
  | inr (y, e) ↦ rw (e, republish_pending) (rows_of_eq w.store w.store refl)
]

-- While the audit sink fails, no call changes an action or a grant.
pub exec_without_audit :
    (d : Deps) (c : Call) (w : World) (x : Err)
    → w.audit.fail ≡ some x
    → SameRows w.store (exec d c w).store
unfolding exec request_action grant_action dispatch_action mark_executing ingest_receipt
    mark_result_unknown begin_reconciliation resolve_reconciliation take_over cancel compensate
exec_without_audit d c w x fails = go c
  where
    k : Blocked w.store x w
    k = record { store = refl; fail = fails }

    go : (c : Call) → SameRows w.store (exec d c w).store
    go (request_call ctx p req) = after _ _ w (Quiet-begin d ctx p) k λ _ w₁ _ k₁.
        after _ _ w₁ (Quiet-stop_on _) k₁ λ _ w₂ _ k₂.
          after _ _ w₂ (Quiet-stop_on _) k₂ λ _ w₃ _ k₃.
            after _ _ w₃ (Quiet-reads _) k₃
              λ existing w₄ _ k₄. answer_blocked d ctx p w₄ k₄ req existing
    go (grant_call ctx p ref) = after _ _ w (Quiet-begin d ctx p) k λ _ w₁ _ k₁.
        after _ _ w₁ (Quiet-find p ref) k₁ λ a w₂ _ k₂.
          after _ _ w₂ (Quiet-stop_on _) k₂ λ _ w₃ _ k₃.
            after _ _ w₃ (Quiet-stop_on _) k₃ λ _ w₄ _ k₄. mint_blocked d ctx p w₄ k₄ ref a
    go (dispatch_call ctx p ref) = after _ _ w (Quiet-begin d ctx p) k λ _ w₁ _ k₁.
        after _ _ w₁ (Quiet-find p ref) k₁ λ a w₂ _ k₂.
          after _ _ w₂ (Quiet-stop_on _) k₂ λ _ w₃ _ k₃.
            after _ _ w₃ (Quiet-now d) k₃ λ at w₄ _ k₄.
              after _ _ w₄ (Quiet-new_id d "dsp_") k₄ λ _ w₅ _ k₅. unheard p _ _ _ w₅ k₅
    go (executing_call ctx p ref) = simple_blocked d ctx p w k _ _ _ _ _
    go (reconcile_call ctx p ref) = simple_blocked d ctx p w k _ _ _ _ _
    go (unknown_call ctx p ref) = after _ _ w (Quiet-begin d ctx p) k λ _ w₁ _ k₁.
        after _ _ w₁ (Quiet-find p ref) k₁ λ _ w₂ _ k₂.
          after _ _ w₂ (Quiet-stop_on _) k₂
            λ _ w₃ _ k₃. transition_blocked d ctx p w₃ k₃ _ _ _ _ _ _
    go (takeover_call ctx p ref reason) = after _ _ w (Quiet-begin d ctx p) k λ _ w₁ _ k₁.
        after _ _ w₁ (Quiet-find p ref) k₁ λ _ w₂ _ k₂.
          after _ _ w₂ (Quiet-stop_on _) k₂
            λ _ w₃ _ k₃. transition_blocked d ctx p w₃ k₃ _ _ _ _ _ _
    go (cancel_call ctx p ref) = after _ _ w (Quiet-begin d ctx p) k λ _ w₁ _ k₁.
        after _ _ w₁ (Quiet-find p ref) k₁
          λ a w₂ _ k₂. cancel_as_blocked d ctx p w₂ k₂ (cancellation a.status) a
    go (compensate_call ctx p ref) = after _ _ w (Quiet-begin d ctx p) k λ _ w₁ _ k₁.
        after _ _ w₁ (Quiet-find p ref) k₁ λ a w₂ _ k₂.
          after _ _ w₂ (Quiet-stop_on _) k₂ λ _ w₃ _ k₃.
            after _ _ w₃ (Quiet-stop_on _) k₃ λ _ w₄ _ k₄.
              after _ _ w₄ (Quiet-reads _) k₄
                λ existing w₅ _ k₅. compensate_with_blocked d ctx p w₅ k₅ a existing
    go (receipt_call ctx p id r) = after _ _ w (Quiet-begin d ctx p) k λ _ w₁ _ k₁.
        after _ _ w₁ (Quiet-stop_on _) k₁ λ _ w₂ _ k₂. after _ _ w₂ (Quiet-find p _) k₂ λ a w₃ _ k₃.
          after _ _ w₃ (Quiet-lift _) k₃
            λ to w₄ _ k₄. settle_blocked d ctx p w₄ k₄ a.status id r to a
    go (resolve_call ctx p ref outcome r) = after _ _ w (Quiet-begin d ctx p) k λ _ w₁ _ k₁.
        after _ _ w₁ (Quiet-stop_on _) k₁ λ _ w₂ _ k₂.
          after _ _ w₂ (Quiet-find p ref) k₂ λ a w₃ _ k₃.
            after _ _ w₃ (Quiet-stop_on _) k₃
              λ _ w₄ _ k₄. resolve_blocked d ctx p w₄ k₄ outcome ref a r
    go (republish_call ctx t) = republish_blocked d ctx t w
    go (seed_call t e) = rows_of_eq w.store w.store refl
    go (revoke_call t plan) = rows_of_eq w.store w.store refl
