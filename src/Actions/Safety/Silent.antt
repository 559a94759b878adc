-- ===== src/Actions/Safety/Silent.antt =====
-- service.go, `appendAudit`: the audit precedes every write, so a sink that fails stops them all.
use agentnexus.Base.{String, Option, none, some, ◌≡◌, refl, arith, Bool-cases, inl, inr}
use agentnexus.Errors.{Err, errors_is, not_found, Result, ok, err}
use agentnexus.Runtime.Types.{
  ActionStatus, dispatched, executing, succeeded, failed, PrincipalContext,
}
use agentnexus.Runtime.Receipt.{ActionReceipt}
use agentnexus.Runtime.Request.{ActionRequest}
use agentnexus.Actions.Model.{Action}
use agentnexus.Actions.Store.{MemoryStore}
use agentnexus.Actions.World.{World, Deps, M, ◌>>=◌, carry_on, append_action_audit}
use agentnexus.Actions.Audit.{AuditBinding, Report, append_audit}
use agentnexus.Actions.Steps.{audited_transition}
use agentnexus.Actions.Request.{answer, create_action}
use agentnexus.Actions.Execute.{mint_and_grant}
use agentnexus.Actions.Complete.{
  complete_from_receipt, redelivered, settle_receipt, resolve_succeeded, resolve,
}
use agentnexus.Actions.Recover.{
  Cancellation, clean, escalated, refused, cancel_as, compensate_with, create_compensation,
}
use agentnexus.Actions.Safety.Quiet.{
  IsQuiet, Quiet, Quiet-lift, Quiet-stop_on, Quiet-now, Quiet-new_id, Quiet-append_audit,
  Quiet-approval,
}
use agentnexus.Actions.Safety.Publish.{SameRows}

-- The store is the one that the operation found, and the audit sink fails.
pub record Blocked (s : MemoryStore) (x : Err) (w : World) : Type 0 where
  pub store : w.store ≡ s
  pub fail : w.audit.fail ≡ some x

Blocked-quiet :
    {s : MemoryStore} {x : Err} {w w' : World} → Blocked s x w → IsQuiet w w' → Blocked s x w'
Blocked-quiet b q = ground arith

pub rows_of_eq : (s s' : MemoryStore) → s' ≡ s → SameRows s s'
rows_of_eq s s' e = ground arith

append_fails :
    (p : PrincipalContext) (b : AuditBinding) (r : Report) (w : World) (x : Err) (ref : String)
    → w.audit.fail ≡ some x
    → (append_audit p b r w).0 ≡ ok ref
    → ⊥
unfolding append_audit append_action_audit
append_fails p b r w x ref fails h = ground arith

module _ {s : MemoryStore} {x : Err} where
  at_rest : {w : World} → Blocked s x w → SameRows s w.store
  at_rest {w} b = rows_of_eq s w.store b.store

  module _ {A B : Type 0} (m : M A) (f : A → M B) (w : World) where
    pub after :
        Quiet m
        → Blocked s x w
        → ((a : A) (w' : World) → (m w).0 ≡ ok a → Blocked s x w' → SameRows s (f a w').1.store)
        → SameRows s ((m >>= f) w).1.store
    unfolding ◌>>=◌
    after q b rest = go (m w).0 refl
      where
        still : Blocked s x (m w).1
        still = Blocked-quiet b (q.at w)

        go : (r : Result A) → (m w).0 ≡ r → SameRows s (carry_on r f (m w).1).1.store
        go (ok a) e = rest a (m w).1 e still
        go (err y) e = at_rest still

  pub unheard :
      {B : Type 0} (p : PrincipalContext) (b : AuditBinding) (r : Report) (f : String → M B)
      (w : World)
      → Blocked s x w
      → SameRows s ((append_audit p b r >>= f) w).1.store
  unheard p b r f w k =
      after (append_audit p b r) f w (Quiet-append_audit p b r) k
        λ ref w' e _. absurd (append_fails p b r w x ref k.fail e)

  module _ (d : Deps) (ctx : Option Err) (p : PrincipalContext) (w : World)
      (k : Blocked s x w) where
    pub transition_blocked :
        (b : AuditBinding) (ref : String) (from to : ActionStatus) (name reason : String)
        → SameRows s (audited_transition d p b ref from to name reason w).1.store
    unfolding audited_transition
    transition_blocked b ref from to name reason =
        after _ _ w (Quiet-stop_on _) k λ _ w₁ _ k₁. unheard p _ _ _ w₁ k₁

    pub create_action_blocked : (req : ActionRequest) → SameRows s (create_action d p req w).1.store
    unfolding create_action
    create_action_blocked req = after _ _ w (Quiet-now d) k λ _ w₁ _ k₁.
        after _ _ w₁ (Quiet-new_id d "act_") k₁
          λ _ w₂ _ k₂. after _ _ w₂ (Quiet-stop_on _) k₂ λ _ w₃ _ k₃. unheard p _ _ _ w₃ k₃

    pub answer_blocked :
        (req : ActionRequest) (r : Result Action) → SameRows s (answer d p req r w).1.store
    unfolding answer
    answer_blocked req (ok existing) = at_rest k
    answer_blocked req (err y) = elim (Bool-cases (errors_is y not_found)) [
      | inl e ↦ rw (e, answer) (create_action_blocked req)
      | inr e ↦ rw (e, answer) (at_rest k)
    ]

    pub mint_blocked : (ref : String) (a : Action) → SameRows s (mint_and_grant d p ref a w).1.store
    unfolding mint_and_grant
    mint_blocked ref a = after _ _ w (Quiet-now d) k λ _ w₁ _ k₁.
        after _ _ w₁ (Quiet-approval d p a) k₁ λ _ w₂ _ k₂.
          after _ _ w₂ (Quiet-new_id d "grant_") k₂
            λ _ w₃ _ k₃. after _ _ w₃ (Quiet-lift _) k₃ λ _ w₄ _ k₄. unheard p _ _ _ w₄ k₄

    pub settle_blocked :
        (t : ActionStatus) (id : String) (r : ActionReceipt) (to : ActionStatus) (a : Action)
        → SameRows s (settle_receipt t d p id r to a w).1.store
    unfolding settle_receipt redelivered complete_from_receipt
    settle_blocked executing id r to a = unheard p _ _ _ w k
    settle_blocked dispatched id r to a = unheard p _ _ _ w k
    settle_blocked succeeded id r to a = at_rest k
    settle_blocked failed id r to a = at_rest k
    settle_blocked _ id r to a = at_rest k

    resolve_succeeded_blocked :
        (ref : String) (a : Action) (o : Option ActionReceipt)
        → SameRows s (resolve_succeeded d p ref a o w).1.store
    unfolding resolve_succeeded
    resolve_succeeded_blocked ref a none = at_rest k
    resolve_succeeded_blocked ref a (some r) =
        after _ _ w (Quiet-lift _) k
          λ _ w₁ _ k₁. after _ _ w₁ (Quiet-stop_on _) k₁ λ _ w₂ _ k₂. unheard p _ _ _ w₂ k₂

    pub resolve_blocked :
        (t : ActionStatus) (ref : String) (a : Action) (o : Option ActionReceipt)
        → SameRows s (resolve t d p ref a o w).1.store
    unfolding resolve
    resolve_blocked succeeded ref a o = resolve_succeeded_blocked ref a o
    resolve_blocked _ ref a o = transition_blocked _ _ _ _ _ _

    pub cancel_as_blocked :
        (c : Cancellation) (a : Action) → SameRows s (cancel_as c d p a w).1.store
    unfolding cancel_as
    cancel_as_blocked clean a = transition_blocked _ _ _ _ _ _
    cancel_as_blocked escalated a = transition_blocked _ _ _ _ _ _
    cancel_as_blocked refused a = at_rest k

    pub compensate_with_blocked :
        (a : Action) (r : Result Action) → SameRows s (compensate_with d p a r w).1.store
    unfolding compensate_with create_compensation
    compensate_with_blocked a (ok existing) = at_rest k
    compensate_with_blocked a (err y) = elim (Bool-cases (errors_is y not_found)) [
      | inr e ↦ rw (e, compensate_with) (at_rest k)
      | inl e ↦
          rw (e, compensate_with, create_compensation)
            (after _ _ w (Quiet-now d) k λ _ w₁ _ k₁.
              after _ _ w₁ (Quiet-new_id d "act_") k₁
                λ _ w₂ _ k₂. after _ _ w₂ (Quiet-stop_on _) k₂ λ _ w₃ _ k₃. unheard p _ _ _ w₃ k₃)
    ]
