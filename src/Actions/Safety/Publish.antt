-- ===== src/Actions/Safety/Publish.antt =====
-- The outbox side: claims and deliveries write neither actions nor grants, so a dispatch stays
-- what the store made of it, whether its publish succeeds or not.
use agentnexus.Base.{
  ℕ, zero, suc, ◌+◌, ◌<◌, String, Option, none, some, List, [], ◌∷◌, ◌≡◌, sym, subst, arith,
  Option-cases, inl, inr,
}
use agentnexus.Base.Grows.{Grows}
use agentnexus.Actions.Store.Backing.{GrantKept}
use agentnexus.Errors.{Err}
use agentnexus.Runtime.Types.{Time, PrincipalContext}
use agentnexus.Actions.Model.{Dispatch}
use agentnexus.Actions.Store.{MemoryStore}
use agentnexus.Actions.Store.Evolves.{Evolves, dispatch-Evolves}
use agentnexus.Actions.Store.Backed.{Backed, IsBacked, dispatch-Holds}
use agentnexus.Actions.Claims.{
  Deliverer, settle, acquire_next_dispatch, claim_dispatch, drain, claim_pending_dispatches,
}
use agentnexus.Actions.World.{World, Env, Deps, DispatchMessage, guard}
use agentnexus.Actions.Outbox.{
  publish_dispatched, publish_claimed, republish_with, counted, deliver, republish_pending,
}
use agentnexus.Actions.Execute.{dispatch_action}
use agentnexus.Actions.Safety.Quiet.{
  Quiet-stop_on, Quiet-now, Quiet-new_id, Quiet-append_audit, Quiet-begin, Quiet-find,
}
use agentnexus.Actions.Safety.Kept.{Kept, Unmoved, quiet_then, kept_then, stored}
use agentnexus.Actions.Safety.Ops.{now-pos}

pub record SameRows (s s' : MemoryStore) : Type 0 where
  pub actions : s'.actions ≡ s.actions
  pub grants : s'.grants ≡ s.grants

trans_rows :
    {s₀ s₁ s₂ s₃ : MemoryStore} → SameRows s₀ s₁ → SameRows s₁ s₂ → SameRows s₂ s₃ → SameRows s₀ s₃
trans_rows p q r = ground arith

module _ {W : Type 0} (run : Deliverer W) where
  settle-rows :
      (t r : String) (at : Time) (d : Dispatch) (s : MemoryStore) (w : W)
      → SameRows s (settle run t r at d s w).0
  unfolding settle
  settle-rows t r at d s w = ground arith

  claim_dispatch-rows :
      (t r : String) (at : Time) (s : MemoryStore) (w : W)
      → SameRows s (claim_dispatch (some run) t r at s w).1
  unfolding claim_dispatch
  claim_dispatch-rows t r at s w = ground arith

acquire_next-rows :
    (t : String) (at : Time) (visited : List String) (s : MemoryStore)
    → SameRows s (acquire_next_dispatch t at visited s).1
unfolding acquire_next_dispatch
acquire_next-rows t at visited s = ground arith

module _ {W : Type 0} (run : Deliverer W) where
  drain-rows :
      (t : String) (at : Time) (left : ℕ) (visited : List String) (claimed : ℕ) (s : MemoryStore)
      (w : W)
      → SameRows s (drain run t at left visited claimed s w).1
  unfolding drain
  drain-rows t at zero visited claimed s w = ground arith
  drain-rows t at (suc left) visited claimed s w =
      elim (Option-cases (acquire_next_dispatch t at visited s).0) [
        | inl e ↦ rw (e, drain) (acquire_next-rows t at visited s)
        | inr (d, e) ↦
            let s₁ = (acquire_next_dispatch t at visited s).1 in
            let after = settle run t d.dispatch_ref at d s₁ w in
            rw (e, drain)
              (trans_rows (acquire_next-rows t at visited s)
                (settle-rows run t d.dispatch_ref at d s₁ w)
                (drain-rows t at left (d.dispatch_ref ∷ visited) (claimed + 1) after.0 after.1))
      ]

publish_claimed-rows :
    (o : Option (ℕ → DispatchMessage → Option String)) (d : Deps) (t r : String) (w : World)
    → SameRows w.store (publish_claimed o d t r w).store
unfolding publish_claimed
publish_claimed-rows none d t r w = ground arith
publish_claimed-rows (some publish) d t r w =
    claim_dispatch-rows (deliver publish d) t r (d.clock w.env.ticks) w.store
      (record w.env { ticks = w.env.ticks + 1 })

-- The publish of a committed dispatch changes no action and no grant, whatever the transport
-- answers.
pub publish-rows :
    (d : Deps) (t r : String) (w : World) → SameRows w.store (publish_dispatched d t r w).store
unfolding publish_dispatched
publish-rows d t r w = publish_claimed-rows d.publisher d t r w

IsBacked-rows : (s s' : MemoryStore) → IsBacked s → SameRows s s' → IsBacked s'
IsBacked-rows s s' h rows =
    subst (λ a. Backed a s'.grants) (sym rows.actions)
      (subst (λ g. Backed s.actions g) (sym rows.grants) h)

Kept-published :
    {s : MemoryStore} (d : Deps) (t r : String) (w : World)
    → Kept s w
    → Kept s (publish_dispatched d t r w)
Kept-published {s} d t r w k =
    let rows = publish-rows d t r w in
    record {
      evolves = subst (λ a. Evolves s.actions a) (sym rows.actions) k.evolves;
      backed = IsBacked-rows _ _ k.backed rows;
      grants = subst (λ g. Grows GrantKept s.grants g) (sym rows.grants) k.grants;
    }

module _ {s : MemoryStore} (h : IsBacked s) {n : ℕ} where
  pub dispatch_action-Kept :
      (d : Deps) (ctx : Option Err) (p : PrincipalContext) (ref : String) (w : World)
      → ((i : ℕ) → 0 < d.clock i)
      → Unmoved s n w
      → Kept s (dispatch_action d ctx p ref w).1
  unfolding dispatch_action
  dispatch_action-Kept d ctx p ref w clock u =
      quiet_then h _ _ w (Quiet-begin d ctx p) u λ _ w₁ _ u₁.
        quiet_then h _ _ w₁ (Quiet-find p ref) u₁ λ a w₂ _ u₂.
          quiet_then h _ _ w₂ (Quiet-stop_on _) u₂ λ _ w₃ _ u₃.
            quiet_then h _ _ w₃ (Quiet-now d) u₃ λ at w₄ e u₄.
              quiet_then h _ _ w₄ (Quiet-new_id d "dsp_") u₄ λ row w₅ _ u₅.
                quiet_then h _ _ w₅ (Quiet-append_audit _ _ _) u₅ λ _ w₆ _ u₆.
                  kept_then _ _ w₆
                    (stored h _ w₆ u₆ (dispatch-Evolves _ _ _ _ s)
                      (dispatch-Holds _ _ _ _ s (now-pos d w₃ at clock e) h))
                    (λ done w₇ k. Kept-published d p.tenant_ref row w₇ k)

pub republish_with-rows :
    (o : Option (ℕ → DispatchMessage → Option String)) (d : Deps) (t : String) (w : World)
    → SameRows w.store (republish_with o d t w).1.store
unfolding republish_with claim_pending_dispatches
republish_with-rows none d t w = ground arith
republish_with-rows (some publish) d t w =
    let started : Env = record w.env { ticks = w.env.ticks + 1 } in
    drain-rows (counted publish d) t (d.clock w.env.ticks) 1000 [] 0 w.store (started, 0)

pub republish-Kept :
    {s : MemoryStore} (d : Deps) (ctx : Option Err) (t : String) (w : World)
    → Kept s w
    → Kept s (republish_pending d ctx t w).1
unfolding republish_pending
republish-Kept {s} d ctx t w k = elim (Option-cases (guard d ctx)) [
  | inl e ↦
      let rows = republish_with-rows d.publisher d t w in
      rw (e, republish_pending)
        (record {
          evolves = subst (λ a. Evolves s.actions a) (sym rows.actions) k.evolves;
          backed = IsBacked-rows _ _ k.backed rows;
          grants = subst (λ g. Grows GrantKept s.grants g) (sym rows.grants) k.grants;
        })
  | inr (x, e) ↦ rw (e, republish_pending) k
]
