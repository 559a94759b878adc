-- ===== src/Actions/Safety/Needs.antt =====
-- service.go: what must have held when an operation has written to the store.
use agentnexus.Base.{
  ℕ, String, Bool, true, false, Option, none, some, ◌≡◌, refl, subst, ◌⊎◌, inl, inr, lookup,
}
use agentnexus.Errors.{Err, Result, ok, err}
use agentnexus.Runtime.Types.{
  ActionStatus, dispatched, executing, succeeded, failed, PrincipalContext,
}
use agentnexus.Runtime.Receipt.{ActionReceipt}
use agentnexus.Actions.Model.{Action}
use agentnexus.Actions.Store.{store_key, MemoryStore}
use agentnexus.Actions.World.{World, Deps, M, ◌>>=◌, carry_on, stop_on}
use agentnexus.Actions.Audit.{verify_decision_provider}
use agentnexus.Actions.Steps.{forbid_unless}
use agentnexus.Actions.Execute.{grant_action, may_grant}
use agentnexus.Actions.Complete.{ingest_receipt, settle_receipt, redelivered, in_flight}
use agentnexus.Actions.Safety.Receipts.{Accepted, verify_receipt-Accepted}
use agentnexus.Actions.Safety.Quiet.{Quiet, Quiet-lift, Quiet-stop_on, Quiet-begin, Quiet-find}
use agentnexus.Actions.Safety.Kept.{Unmoved, Unmoved-quiet, Unmoved-start}
use agentnexus.Actions.Safety.Ops.{find-eq}

-- a quiet step, then a rest that ends in P, where a stop there does too
module _ {s : MemoryStore} {n : ℕ} (P : World → Type 0)
    (stop : (w : World) → Unmoved s n w → P w) where
  module _ {A B : Type 0} (m : M A) (f : A → M B) (w : World) where
    quiet_to :
        Quiet m
        → Unmoved s n w
        → ((a : A) (w' : World) → (m w).0 ≡ ok a → Unmoved s n w' → P (f a w').1)
        → P ((m >>= f) w).1
    unfolding ◌>>=◌
    quiet_to q u rest = go (m w).0 refl
      where
        moved : Unmoved s n (m w).1
        moved = Unmoved-quiet u (q.at w)

        go : (r : Result A) → (m w).0 ≡ r → P (carry_on r f (m w).1).1
        go (ok a) e = rest a (m w).1 e moved
        go (err x) e = stop (m w).1 moved

stopped : (e : Option Err) (w : World) → (stop_on e w).0 ≡ ok tt → e ≡ none
stopped none w h = refl
stopped (some x) w h = cc h

allowed : (b : Bool) → forbid_unless b ≡ none → b ≡ true
allowed true h = refl
allowed false h = cc h

-- The store is as it was, or the receipt completes the stored action that it names: the action
-- is in flight and the receipt is accepted for it.
abbrev pub CompletedBy : Deps → PrincipalContext → ActionReceipt → MemoryStore → World → Type 0
CompletedBy d p r s w' =
    (w'.store ≡ s)
    ⊎ ((a : Action) × (to : ActionStatus) × (lookup (store_key p.tenant_ref r.action_ref) s.actions
          ≡ some a)
        × (in_flight a.status ≡ true)
        × Accepted d p.tenant_ref a r to)

module _ (d : Deps) (p : PrincipalContext) (id : String) (r : ActionReceipt) (s : MemoryStore) where
  settled :
      (a : Action) (t to : ActionStatus) (w : World)
      → w.store ≡ s
      → lookup (store_key p.tenant_ref r.action_ref) s.actions ≡ some a
      → a.status ≡ t
      → Accepted d p.tenant_ref a r to
      → CompletedBy d p r s (settle_receipt t d p id r to a w).1
  unfolding settle_receipt redelivered
  settled a executing to w same found at accepted = inr (a, to, found, rw at refl, accepted)
  settled a dispatched to w same found at accepted = inr (a, to, found, rw at refl, accepted)
  settled a succeeded to w same found at accepted = inl same
  settled a failed to w same found at accepted = inl same
  settled a _ to w same found at accepted = inl same

-- `IngestReceipt` writes to the store only for an action that is executing or dispatched, and
-- only on a receipt that is valid, names the action's exact operation and declared schema,
-- attests a terminal status, and was accepted by a receipt verifier that is wired.
pub ingest_receipt_needs :
    (d : Deps) (ctx : Option Err) (p : PrincipalContext) (id : String) (r : ActionReceipt)
    (w : World)
    → CompletedBy d p r w.store (ingest_receipt d ctx p id r w).1
unfolding ingest_receipt
ingest_receipt_needs d ctx p id r w =
    let P = CompletedBy d p r w.store in
    let stop : (w' : World) → Unmoved w.store w.env.minted w' → P w' = λ w' u. inl u.store in
    quiet_to P stop _ _ w (Quiet-begin d ctx p) (Unmoved-start w) λ _ w₁ _ u₁.
      quiet_to P stop _ _ w₁ (Quiet-stop_on _) u₁ λ _ w₂ _ u₂.
        quiet_to P stop _ _ w₂ (Quiet-find p r.action_ref) u₂ λ a w₃ e u₃.
          quiet_to P stop _ _ w₃ (Quiet-lift _) u₃ λ to w₄ v u₄.
            settled d p id r w.store a a.status to w₄ u₄.store
              (subst
                (λ (q : MemoryStore).
                  lookup (store_key p.tenant_ref r.action_ref) q.actions ≡ some a)
                u₂.store (find-eq p r.action_ref w₂ a e))
              refl (verify_receipt-Accepted d p.tenant_ref a r to v)

-- The store is as it was, or the caller was trusted with the operation of an action that waited.
abbrev pub GrantedBy : Deps → PrincipalContext → String → MemoryStore → World → Type 0
GrantedBy d p ref s w' =
    (w'.store ≡ s)
    ⊎ ((a : Action) × (lookup (store_key p.tenant_ref ref) s.actions ≡ some a)
        × (may_grant a.status ≡ true)
        × (verify_decision_provider d p a.capability a.parameter_hash ≡ none))

-- `Grant` writes to the store only for an action that waits for its grant, and only for a caller
-- whom the trust gate lets through for the action's exact operation.
pub grant_action_needs :
    (d : Deps) (ctx : Option Err) (p : PrincipalContext) (ref : String) (w : World)
    → GrantedBy d p ref w.store (grant_action d ctx p ref w).1
unfolding grant_action
grant_action_needs d ctx p ref w =
    let P = GrantedBy d p ref w.store in
    let stop : (w' : World) → Unmoved w.store w.env.minted w' → P w' = λ w' u. inl u.store in
    quiet_to P stop _ _ w (Quiet-begin d ctx p) (Unmoved-start w) λ _ w₁ _ u₁.
      quiet_to P stop _ _ w₁ (Quiet-find p ref) u₁ λ a w₂ e u₂.
        quiet_to P stop _ _ w₂ (Quiet-stop_on _) u₂ λ _ w₃ wait u₃.
          quiet_to P stop _ _ w₃ (Quiet-stop_on _) u₃ λ _ w₄ trust u₄. inr (
            a,
            subst (λ (q : MemoryStore). lookup (store_key p.tenant_ref ref) q.actions ≡ some a)
                u₁.store (find-eq p ref w₁ a e),
            allowed _ (stopped _ w₂ wait),
            stopped _ w₃ trust,
          )
