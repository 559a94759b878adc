-- ===== src/Actions/Safety/Ends.antt =====
-- The ends of a life, service.go and reconcile.go: receipts, unknown results, reconciliation,
-- take-over and cancellation keep the store.
use agentnexus.Base.{ℕ, String, true, Option, none, some, ◌≡◌, refl, arith}
use agentnexus.Errors.{Err, ok}
use agentnexus.Runtime.Types.{
  ActionStatus, dispatched, executing, succeeded, failed, PrincipalContext,
}
use agentnexus.Runtime.Receipt.{ActionReceipt}
use agentnexus.Actions.Model.{Action}
use agentnexus.Actions.Lifecycle.{terminal_receipt_status}
use agentnexus.Actions.Store.{MemoryStore}
use agentnexus.Actions.Store.Evolves.{ingest_result-Evolves}
use agentnexus.Actions.Store.Backing.{settles}
use agentnexus.Actions.Store.Backed.{IsBacked, ingest_result-Holds}
use agentnexus.Actions.World.{World, Deps}
use agentnexus.Actions.Audit.{verify_receipt}
use agentnexus.Actions.Safety.Receipts.{verify_receipt-Accepted}
use agentnexus.Actions.Execute.{mark_executing}
use agentnexus.Actions.Complete.{
  complete_from_receipt, redelivered, settle_receipt, ingest_receipt, mark_result_unknown,
  begin_reconciliation, resolve_succeeded, resolve, resolve_reconciliation,
}
use agentnexus.Actions.Recover.{
  Cancellation, clean, escalated, refused, take_over, cancel, cancel_as, cancellation,
}
use agentnexus.Actions.Safety.Quiet.{
  Quiet-lift, Quiet-stop_on, Quiet-now, Quiet-append_audit, Quiet-begin, Quiet-find,
}
use agentnexus.Actions.Safety.Kept.{Kept, Unmoved, Kept_unmoved, quiet_then, kept_then, stored}
use agentnexus.Actions.Safety.Ops.{audited_transition-Kept, simple_transition-Kept}

terminal_settles : (t to : ActionStatus) → terminal_receipt_status t ≡ some to → settles to ≡ true
unfolding terminal_receipt_status
terminal_settles t to h = ground arith

verified-settles :
    (d : Deps) (p : PrincipalContext) (a : Action) (r : ActionReceipt) (to : ActionStatus)
    → verify_receipt d p.tenant_ref a r ≡ ok to
    → settles to ≡ true
verified-settles d p a r to h =
    terminal_settles r.status to (verify_receipt-Accepted d p.tenant_ref a r to h).status

module _ {s : MemoryStore} (h : IsBacked s) {n : ℕ} where
  complete_from_receipt-Kept :
      (d : Deps) (p : PrincipalContext) (id : String) (r : ActionReceipt) (to : ActionStatus)
      (a : Action) (w : World)
      → settles to ≡ true
      → Unmoved s n w
      → Kept s (complete_from_receipt d p id r to a w).1
  unfolding complete_from_receipt
  complete_from_receipt-Kept d p id r to a w plain u =
      quiet_then h _ _ w (Quiet-append_audit _ _ _) u λ _ w₁ _ u₁.
        quiet_then h _ _ w₁ (Quiet-now d) u₁ λ at w₂ _ u₂.
          kept_then _ _ w₂
            (stored h _ w₂ u₂ (ingest_result-Evolves _ to at s)
              (ingest_result-Holds _ to at s plain h))
            (λ applied w₃ k. k)

  settle_receipt-Kept :
      (t : ActionStatus) (d : Deps) (p : PrincipalContext) (id : String) (r : ActionReceipt)
      (to : ActionStatus) (a : Action) (w : World)
      → settles to ≡ true
      → Unmoved s n w
      → Kept s (settle_receipt t d p id r to a w).1
  unfolding settle_receipt redelivered
  settle_receipt-Kept executing d p id r to a w plain u =
      complete_from_receipt-Kept d p id r to a w plain u
  settle_receipt-Kept dispatched d p id r to a w plain u =
      complete_from_receipt-Kept d p id r to a w plain u
  settle_receipt-Kept succeeded d p id r to a w plain u = Kept_unmoved h u
  settle_receipt-Kept failed d p id r to a w plain u = Kept_unmoved h u
  settle_receipt-Kept _ d p id r to a w plain u = Kept_unmoved h u

  pub ingest_receipt-Kept :
      (d : Deps) (ctx : Option Err) (p : PrincipalContext) (id : String) (r : ActionReceipt)
      (w : World)
      → Unmoved s n w
      → Kept s (ingest_receipt d ctx p id r w).1
  unfolding ingest_receipt
  ingest_receipt-Kept d ctx p id r w u = quiet_then h _ _ w (Quiet-begin d ctx p) u λ _ w₁ _ u₁.
      quiet_then h _ _ w₁ (Quiet-stop_on _) u₁ λ _ w₂ _ u₂.
        quiet_then h _ _ w₂ (Quiet-find p r.action_ref) u₂ λ a w₃ _ u₃.
          quiet_then h _ _ w₃ (Quiet-lift _) u₃ λ to w₄ e u₄.
            settle_receipt-Kept a.status d p id r to a w₄ (verified-settles d p a r to e) u₄

  pub mark_executing-Kept :
      (d : Deps) (ctx : Option Err) (p : PrincipalContext) (ref : String) (w : World)
      → Unmoved s n w
      → Kept s (mark_executing d ctx p ref w).1
  unfolding mark_executing
  mark_executing-Kept d ctx p ref w u = simple_transition-Kept h d ctx p ref _ _ _ _ w refl u

  pub begin_reconciliation-Kept :
      (d : Deps) (ctx : Option Err) (p : PrincipalContext) (ref : String) (w : World)
      → Unmoved s n w
      → Kept s (begin_reconciliation d ctx p ref w).1
  unfolding begin_reconciliation
  begin_reconciliation-Kept d ctx p ref w u = simple_transition-Kept h d ctx p ref _ _ _ _ w refl u

  pub mark_result_unknown-Kept :
      (d : Deps) (ctx : Option Err) (p : PrincipalContext) (ref : String) (w : World)
      → Unmoved s n w
      → Kept s (mark_result_unknown d ctx p ref w).1
  unfolding mark_result_unknown
  mark_result_unknown-Kept d ctx p ref w u = quiet_then h _ _ w (Quiet-begin d ctx p) u λ _ w₁ _ u₁.
      quiet_then h _ _ w₁ (Quiet-find p ref) u₁ λ a w₂ _ u₂.
        quiet_then h _ _ w₂ (Quiet-stop_on _) u₂
          λ _ w₃ _ u₃. audited_transition-Kept h d p _ _ _ _ _ _ w₃ refl u₃

  resolve_succeeded-Kept :
      (d : Deps) (p : PrincipalContext) (ref : String) (a : Action) (o : Option ActionReceipt)
      (w : World)
      → Unmoved s n w
      → Kept s (resolve_succeeded d p ref a o w).1
  unfolding resolve_succeeded
  resolve_succeeded-Kept d p ref a none w u = Kept_unmoved h u
  resolve_succeeded-Kept d p ref a (some r) w u = quiet_then h _ _ w (Quiet-lift _) u λ to w₁ _ u₁.
      quiet_then h _ _ w₁ (Quiet-stop_on _) u₁ λ _ w₂ _ u₂.
        quiet_then h _ _ w₂ (Quiet-append_audit _ _ _) u₂ λ _ w₃ _ u₃.
          quiet_then h _ _ w₃ (Quiet-now d) u₃ λ at w₄ _ u₄.
            kept_then _ _ w₄
              (stored h _ w₄ u₄ (ingest_result-Evolves _ succeeded at s)
                (ingest_result-Holds _ succeeded at s refl h))
              (λ applied w₅ k. k)

  resolve-Kept :
      (t : ActionStatus) (d : Deps) (p : PrincipalContext) (ref : String) (a : Action)
      (o : Option ActionReceipt) (w : World)
      → Unmoved s n w
      → Kept s (resolve t d p ref a o w).1
  unfolding resolve
  resolve-Kept succeeded d p ref a o w u = resolve_succeeded-Kept d p ref a o w u
  resolve-Kept _ d p ref a o w u = audited_transition-Kept h d p _ _ _ _ _ _ w refl u

  pub resolve_reconciliation-Kept :
      (d : Deps) (ctx : Option Err) (p : PrincipalContext) (ref : String) (outcome : ActionStatus)
      (o : Option ActionReceipt) (w : World)
      → Unmoved s n w
      → Kept s (resolve_reconciliation d ctx p ref outcome o w).1
  unfolding resolve_reconciliation
  resolve_reconciliation-Kept d ctx p ref outcome o w u =
      quiet_then h _ _ w (Quiet-begin d ctx p) u λ _ w₁ _ u₁.
        quiet_then h _ _ w₁ (Quiet-stop_on _) u₁ λ _ w₂ _ u₂.
          quiet_then h _ _ w₂ (Quiet-find p ref) u₂ λ a w₃ _ u₃.
            quiet_then h _ _ w₃ (Quiet-stop_on _) u₃
              λ _ w₄ _ u₄. resolve-Kept outcome d p ref a o w₄ u₄

  pub take_over-Kept :
      (d : Deps) (ctx : Option Err) (p : PrincipalContext) (ref reason : String) (w : World)
      → Unmoved s n w
      → Kept s (take_over d ctx p ref reason w).1
  unfolding take_over
  take_over-Kept d ctx p ref reason w u = quiet_then h _ _ w (Quiet-begin d ctx p) u λ _ w₁ _ u₁.
      quiet_then h _ _ w₁ (Quiet-find p ref) u₁ λ a w₂ _ u₂.
        quiet_then h _ _ w₂ (Quiet-stop_on _) u₂
          λ _ w₃ _ u₃. audited_transition-Kept h d p _ _ _ _ _ _ w₃ refl u₃

  cancel_as-Kept :
      (c : Cancellation) (d : Deps) (p : PrincipalContext) (a : Action) (w : World)
      → Unmoved s n w
      → Kept s (cancel_as c d p a w).1
  unfolding cancel_as
  cancel_as-Kept clean d p a w u = audited_transition-Kept h d p _ _ _ _ _ _ w refl u
  cancel_as-Kept escalated d p a w u = audited_transition-Kept h d p _ _ _ _ _ _ w refl u
  cancel_as-Kept refused d p a w u = Kept_unmoved h u

  pub cancel-Kept :
      (d : Deps) (ctx : Option Err) (p : PrincipalContext) (ref : String) (w : World)
      → Unmoved s n w
      → Kept s (cancel d ctx p ref w).1
  unfolding cancel
  cancel-Kept d ctx p ref w u = quiet_then h _ _ w (Quiet-begin d ctx p) u λ _ w₁ _ u₁.
      quiet_then h _ _ w₁ (Quiet-find p ref) u₁
        λ a w₂ _ u₂. cancel_as-Kept (cancellation a.status) d p a w₂ u₂
