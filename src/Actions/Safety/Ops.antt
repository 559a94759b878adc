-- ===== src/Actions/Safety/Ops.antt =====
-- Every operation of service.go, compensate.go and reconcile.go, from a state whose store is
-- backed: each keeps every stored action, moves it along allowed edges only, and leaves every
-- action backed by its grant.
use agentnexus.Base.{
  ℕ, ◌<◌, String, true, Option, some, ◌≡◌, refl, sym, ◌∙◌, ap, subst, arith, lookup,
}
use agentnexus.Errors.{Err, ok}
use agentnexus.Runtime.Types.{Time, ActionStatus, PrincipalContext}
use agentnexus.Runtime.Grant.{StepGrant}
use agentnexus.Actions.Model.{Action}
use agentnexus.Actions.Store
use agentnexus.Actions.Store.{store_key, MemoryStore, get_action}
use agentnexus.Actions.Store.Evolves.{transition-Evolves, grant-Evolves}
use agentnexus.Actions.Store.Backing.{Binds, settles}
use agentnexus.Actions.Store.Backed.{IsBacked, transition-Holds, grant-Holds}
use agentnexus.Actions.World.{World, Deps, now}
use agentnexus.Actions.Audit.{AuditBinding}
use agentnexus.Actions.Steps.{find, audited_transition, simple_transition}
use agentnexus.Actions.Execute.{grant_action, mint_and_grant, grant_row}
use agentnexus.Actions.Safety.Quiet.{
  Quiet-lift, Quiet-stop_on, Quiet-now, Quiet-new_id, Quiet-append_audit, Quiet-begin, Quiet-find,
  Quiet-approval,
}
use agentnexus.Actions.Safety.Kept.{Kept, Unmoved, quiet_then, stored}

pub find-eq :
    (p : PrincipalContext) (ref : String) (w : World) (a : Action)
    → (find p ref w).0 ≡ ok a
    → lookup (store_key p.tenant_ref ref) w.store.actions ≡ some a
unfolding find get_action
find-eq p ref w a h = ground arith

pub now-pos :
    (d : Deps) (w : World) (at : Time) → ((n : ℕ) → 0 < d.clock n) → (now d w).0 ≡ ok at → 0 < at
unfolding now
now-pos d w at clock h = ground (arith, clock w.env.ticks)

-- the grant that the service stores is bound to the action that it read
bound :
    (s : MemoryStore) (h : IsBacked s) (p : PrincipalContext) (ref : String) (a : Action)
    (evidence grant_ref : String) (m : StepGrant)
    → lookup (store_key p.tenant_ref ref) s.actions ≡ some a
    → (row : Action) → lookup (store_key a.tenant_ref a.action_ref) s.actions ≡ some row
    → Binds
        (Store.granted_action row
          (record a { approval_evidence_ref = evidence })
          (grant_row p ref a grant_ref m))
        (grant_row p ref a grant_ref m)
bound s h p ref a evidence grant_ref m found row at_own =
    let same : some a ≡ some row =
      sym found ∙ ap (λ k. lookup k s.actions) (h.keyed _ a found) ∙ at_own in
    let eq : a ≡ row = cc same in
    subst
      (λ (r : Action).
        Binds
          (Store.granted_action r (record a { approval_evidence_ref = evidence })
            (grant_row p ref a grant_ref m))
          (grant_row p ref a grant_ref m))
      eq (ground arith)

module _ {s : MemoryStore} (h : IsBacked s) {n : ℕ} where
  pub audited_transition-Kept :
      (d : Deps) (p : PrincipalContext) (b : AuditBinding) (ref : String) (from to : ActionStatus)
      (name reason : String) (w : World)
      → settles to ≡ true
      → Unmoved s n w
      → Kept s (audited_transition d p b ref from to name reason w).1
  unfolding audited_transition
  audited_transition-Kept d p b ref from to name reason w plain u =
      quiet_then h _ _ w (Quiet-stop_on _) u λ _ w₁ _ u₁.
        quiet_then h _ _ w₁ (Quiet-append_audit _ _ _) u₁ λ _ w₂ _ u₂.
          quiet_then h _ _ w₂ (Quiet-now d) u₂ λ at w₃ _ u₃.
            stored h _ w₃ u₃ (transition-Evolves p.tenant_ref ref from to reason at s)
              (transition-Holds p.tenant_ref ref from to reason at s plain h)

  pub simple_transition-Kept :
      (d : Deps) (ctx : Option Err) (p : PrincipalContext) (ref : String) (from to : ActionStatus)
      (name reason : String) (w : World)
      → settles to ≡ true
      → Unmoved s n w
      → Kept s (simple_transition d ctx p ref from to name reason w).1
  unfolding simple_transition
  simple_transition-Kept d ctx p ref from to name reason w plain u =
      quiet_then h _ _ w (Quiet-begin d ctx p) u λ _ w₁ _ u₁.
        quiet_then h _ _ w₁ (Quiet-find p ref) u₁ λ a w₂ _ u₂.
          quiet_then h _ _ w₂ (Quiet-stop_on _) u₂
            λ _ w₃ _ u₃. audited_transition-Kept d p _ ref from to name reason w₃ plain u₃

  mint_and_grant-Kept :
      (d : Deps) (p : PrincipalContext) (ref : String) (a : Action) (w : World)
      → lookup (store_key p.tenant_ref ref) s.actions ≡ some a
      → Unmoved s n w
      → Kept s (mint_and_grant d p ref a w).1
  unfolding mint_and_grant
  mint_and_grant-Kept d p ref a w found u = quiet_then h _ _ w (Quiet-now d) u λ at w₁ _ u₁.
      quiet_then h _ _ w₁ (Quiet-approval d p a) u₁ λ evidence w₂ _ u₂.
        quiet_then h _ _ w₂ (Quiet-new_id d "grant_") u₂ λ grant_ref w₃ _ u₃.
          quiet_then h _ _ w₃ (Quiet-lift _) u₃ λ minted w₄ _ u₄.
            quiet_then h _ _ w₄ (Quiet-append_audit _ _ _) u₄ λ _ w₅ _ u₅.
              stored h _ w₅ u₅ (grant-Evolves _ _ s)
                (grant-Holds _ _ s (bound s h p ref a evidence grant_ref minted found) refl h)

  pub grant_action-Kept :
      (d : Deps) (ctx : Option Err) (p : PrincipalContext) (ref : String) (w : World)
      → Unmoved s n w
      → Kept s (grant_action d ctx p ref w).1
  unfolding grant_action
  grant_action-Kept d ctx p ref w u = quiet_then h _ _ w (Quiet-begin d ctx p) u λ _ w₁ _ u₁.
      quiet_then h _ _ w₁ (Quiet-find p ref) u₁ λ a w₂ e u₂.
        quiet_then h _ _ w₂ (Quiet-stop_on _) u₂ λ _ w₃ _ u₃.
          quiet_then h _ _ w₃ (Quiet-stop_on _) u₃ λ _ w₄ _ u₄.
            mint_and_grant-Kept d p ref a w₄
              (subst (λ (r : MemoryStore). lookup (store_key p.tenant_ref ref) r.actions ≡ some a)
                u₁.store (find-eq p ref w₁ a e))
              u₄
