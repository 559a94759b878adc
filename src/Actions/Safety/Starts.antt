-- ===== src/Actions/Safety/Starts.antt =====
-- The operations that create an action, `RequestAction` and `Compensate`, keep the store if no
-- identifier that is still to be drawn is in use.
use agentnexus.Base.{
  ℕ, ◌≤◌, String, Option, none, some, ◌≡◌, refl, sym, subst, Bool-cases, ◌⊎◌, inl, inr, lookup, not,
  ◌&&◌,
}
use agentnexus.Errors.{Err, errors_is, not_found, Result, ok, err}
use agentnexus.Runtime.Types.{Time, requested, awaiting_approval, compensating, PrincipalContext}
use agentnexus.Runtime.Grant.{ApprovalPlanRef}
use agentnexus.Runtime.Request.{ActionRequest}
use agentnexus.Actions.Model.{Action}
use agentnexus.Actions.Store.{store_key, MemoryStore}
use agentnexus.Actions.Store.Evolves.{put_requested-Evolves, transition-Evolves}
use agentnexus.Actions.Store.Backed.{IsBacked, put_requested-Holds, transition-Holds}
use agentnexus.Actions.World.{World, Deps, new_id}
use agentnexus.Actions.Request.{
  request_action, answer, create_action, put_action, first_status, requested_action,
}
use agentnexus.Actions.Recover.{
  compensate, compensate_with, create_compensation, mark_compensating, compensation_action,
  is_compensating,
}
use agentnexus.Actions.Safety.Quiet.{
  Quiet-reads, Quiet-stop_on, Quiet-now, Quiet-new_id, Quiet-append_audit, Quiet-begin, Quiet-find,
}
use agentnexus.Actions.Safety.Kept.{
  Kept, Kept_trans, Unmoved, Unmoved-start, Kept_unmoved, quiet_then, kept_then, stored,
}

-- No action is stored under an identifier that is still to be drawn.
abbrev pub IsFresh : Deps → String → ℕ → MemoryStore → Type 0
IsFresh d tenant_ref n s =
    (i : ℕ) → n ≤ i → lookup (store_key tenant_ref (d.new_id i "act_")) s.actions ≡ none

drawn :
    (d : Deps) (w : World) (ref : String)
    → (new_id d "act_" w).0 ≡ ok ref
    → d.new_id w.env.minted "act_" ≡ ref
unfolding new_id
drawn d w ref h = cc h

first_waits :
    (o : Option ApprovalPlanRef)
    → (first_status o ≡ requested) ⊎ (first_status o ≡ awaiting_approval)
first_waits none = inl refl
first_waits (some plan) = inr refl

module _ {s : MemoryStore} (h : IsBacked s) {n : ℕ} (d : Deps) (p : PrincipalContext) where
  put_action-Kept :
      (a : Action) (w : World)
      → lookup (store_key a.tenant_ref a.action_ref) s.actions ≡ none
      → (a.status ≡ requested) ⊎ (a.status ≡ awaiting_approval)
      → Unmoved s n w
      → Kept s (put_action a w).1
  unfolding put_action
  put_action-Kept a w fresh waits u =
      subst (λ (r : MemoryStore). Kept s (put_action a (record w { store = r })).1) (sym u.store)
        (record {
          evolves = put_requested-Evolves a s fresh;
          backed = (put_requested-Holds a s fresh waits h).backed;
          grants = (put_requested-Holds a s fresh waits h).grants;
        })

  create_action-Kept :
      (req : ActionRequest) (w : World)
      → IsFresh d p.tenant_ref n s
      → Unmoved s n w
      → Kept s (create_action d p req w).1
  unfolding create_action
  create_action-Kept req w fresh u = quiet_then h _ _ w (Quiet-now d) u λ at w₁ _ u₁.
      quiet_then h _ _ w₁ (Quiet-new_id d "act_") u₁ λ ref w₂ e u₂.
        quiet_then h _ _ w₂ (Quiet-stop_on _) u₂ λ _ w₃ _ u₃.
          quiet_then h _ _ w₃ (Quiet-append_audit _ _ _) u₃ λ audit_ref w₄ _ u₄.
            kept_then _ _ w₄
              (put_action-Kept (requested_action p req ref audit_ref at) w₄
                (subst (λ r. lookup (store_key p.tenant_ref r) s.actions ≡ none) (drawn d w₁ ref e)
                  (fresh w₁.env.minted u₁.drawn))
                (first_waits req.approval_plan_ref) u₄)
              (λ done w₅ k. k)

  answer-Kept :
      (req : ActionRequest) (r : Result Action) (w : World)
      → IsFresh d p.tenant_ref n s
      → Unmoved s n w
      → Kept s (answer d p req r w).1
  unfolding answer
  answer-Kept req (ok existing) w fresh u = Kept_unmoved h u
  answer-Kept req (err x) w fresh u = elim (Bool-cases (errors_is x not_found)) [
    | inl e ↦ rw (e, answer) (create_action-Kept req w fresh u)
    | inr e ↦ rw (e, answer) (Kept_unmoved h u)
  ]

  pub request_action-Kept :
      (ctx : Option Err) (req : ActionRequest) (w : World)
      → IsFresh d p.tenant_ref n s
      → Unmoved s n w
      → Kept s (request_action d ctx p req w).1
  unfolding request_action
  request_action-Kept ctx req w fresh u = quiet_then h _ _ w (Quiet-begin d ctx p) u λ _ w₁ _ u₁.
      quiet_then h _ _ w₁ (Quiet-stop_on _) u₁ λ _ w₂ _ u₂.
        quiet_then h _ _ w₂ (Quiet-stop_on _) u₂ λ _ w₃ _ u₃.
          quiet_then h _ _ w₃ (Quiet-reads _) u₃
            λ existing w₄ _ u₄. answer-Kept req existing w₄ fresh u₄

  mark_compensating-Kept :
      (a : Action) (ref : String) (at : Time) (w : World)
      → Unmoved s n w
      → Kept s (mark_compensating p a ref at w).1
  unfolding mark_compensating
  mark_compensating-Kept a ref at w u = quiet_then h _ _ w (Quiet-append_audit _ _ _) u λ _ w₁ _ u₁.
      stored h _ w₁ u₁ (transition-Evolves _ _ _ compensating _ at s)
        (transition-Holds _ _ _ compensating _ at s refl h)

module _ {s : MemoryStore} (h : IsBacked s) {n : ℕ} (d : Deps) (p : PrincipalContext) where
  create_compensation-Kept :
      (a : Action) (w : World)
      → IsFresh d p.tenant_ref n s
      → Unmoved s n w
      → Kept s (create_compensation d p a w).1
  unfolding create_compensation
  create_compensation-Kept a w fresh u = quiet_then h _ _ w (Quiet-now d) u λ at w₁ _ u₁.
      quiet_then h _ _ w₁ (Quiet-new_id d "act_") u₁ λ ref w₂ e u₂.
        quiet_then h _ _ w₂ (Quiet-stop_on _) u₂ λ _ w₃ _ u₃.
          quiet_then h _ _ w₃ (Quiet-append_audit _ _ _) u₃ λ audit_ref w₄ _ u₄.
            let unused : lookup (store_key p.tenant_ref ref) s.actions ≡ none =
              subst (λ r. lookup (store_key p.tenant_ref r) s.actions ≡ none) (drawn d w₁ ref e)
                (fresh w₁.env.minted u₁.drawn) in
            let created = compensation_action p a ref audit_ref at in
            kept_then _ _ w₄
              (stored h _ w₄ u₄ (put_requested-Evolves created s unused)
                (put_requested-Holds created s unused (inl refl) h))
              (λ done w₅ k. elim (Bool-cases (done.1 && not (is_compensating a.status))) [
                | inl yes_mark ↦ rw yes_mark (
                    kept_then _ _ w₅
                      (Kept_trans k
                        (mark_compensating-Kept k.backed d p a ref at w₅ (Unmoved-start w₅)))
                      (λ _ w₆ k'. k'))
                | inr no_mark ↦ rw no_mark k
              ])

  compensate_with-Kept :
      (a : Action) (r : Result Action) (w : World)
      → IsFresh d p.tenant_ref n s
      → Unmoved s n w
      → Kept s (compensate_with d p a r w).1
  unfolding compensate_with
  compensate_with-Kept a (ok existing) w fresh u = Kept_unmoved h u
  compensate_with-Kept a (err x) w fresh u = elim (Bool-cases (errors_is x not_found)) [
    | inl e ↦ rw (e, compensate_with) (create_compensation-Kept a w fresh u)
    | inr e ↦ rw (e, compensate_with) (Kept_unmoved h u)
  ]

  pub compensate-Kept :
      (ctx : Option Err) (ref : String) (w : World)
      → IsFresh d p.tenant_ref n s
      → Unmoved s n w
      → Kept s (compensate d ctx p ref w).1
  unfolding compensate
  compensate-Kept ctx ref w fresh u = quiet_then h _ _ w (Quiet-begin d ctx p) u λ _ w₁ _ u₁.
      quiet_then h _ _ w₁ (Quiet-find p ref) u₁ λ a w₂ _ u₂.
        quiet_then h _ _ w₂ (Quiet-stop_on _) u₂ λ _ w₃ _ u₃.
          quiet_then h _ _ w₃ (Quiet-stop_on _) u₃ λ _ w₄ _ u₄.
            quiet_then h _ _ w₄ (Quiet-reads _) u₄
              λ existing w₅ _ u₅. compensate_with-Kept a existing w₅ fresh u₅
