-- ===== src/Actions/Request/Replay.antt =====
-- service.go, `RequestAction` under an idempotency key that is taken.
use agentnexus.Base.{Bool, true, false, Option, none, some, ◌≡◌, refl, sym, subst, if◌then◌else◌}
use agentnexus.Errors.{Err, sentinel, idempotency_conflict, Result, ok, err}
use agentnexus.Runtime.Types.{PrincipalContext}
use agentnexus.Runtime.Request.{ActionRequest}
use agentnexus.Actions.Model.{Action}
use agentnexus.Actions.Store.{get_by_idempotency_key, same_operation}
use agentnexus.Actions.World.{World, Deps, M, ◌>>=◌, ◌>>◌, stop_on, reads}
use agentnexus.Actions.Steps.{begin}
use agentnexus.Actions.Request.{request_action, answer}

-- The call leaves everything as it was, and an action that it answers is the stored one, which
-- the request names again.
pub record Replayed (req : ActionRequest) (existing : Action) (w : World)
    (r : Result Action × World) : Type 0 where
  pub unchanged : r.1 ≡ w
  pub answers :
      (a : Action)
      → r.0 ≡ ok a
      → (a ≡ existing)
        × (same_operation existing req.capability req.parameter_hash req.business_context_ref
            ≡ true)

module _ (req : ActionRequest) (existing : Action) (w : World) where
  refused : (x : Err) → Replayed req existing w (err x, w)
  refused x = record { unchanged = refl; answers = λ a h. cc h }

  stop_to :
      (e : Option Err) (f : Unit {0} → M Action)
      → Replayed req existing w (f tt w)
      → Replayed req existing w ((stop_on e >>= f) w)
  unfolding ◌>>=◌
  stop_to none f rest = rest
  stop_to (some x) f rest = refused x

  both_to :
      (e e' : Option Err) (f : Unit {0} → M Action)
      → Replayed req existing w (f tt w)
      → Replayed req existing w (((stop_on e >> stop_on e') >>= f) w)
  unfolding ◌>>=◌
  both_to none none f rest = rest
  both_to none (some x) f rest = refused x
  both_to (some x) e' f rest = refused x

  answered :
      (b : Bool)
      → same_operation existing req.capability req.parameter_hash req.business_context_ref ≡ b
      → Replayed req existing w (if b then ok existing else err (sentinel idempotency_conflict), w)
  answered true same = record { unchanged = refl; answers = λ a h. (cc h, same) }
  answered false same = refused (sentinel idempotency_conflict)

read :
    (d : Deps) (p : PrincipalContext) (req : ActionRequest) (w : World) (existing : Action)
    → get_by_idempotency_key p.tenant_ref req.idempotency_key w.store ≡ ok existing
    → Replayed req existing w (
        (reads (λ w'. ok (get_by_idempotency_key p.tenant_ref req.idempotency_key w'.store))
            >>= λ o. answer d p req o)
          w)
unfolding ◌>>=◌ answer
read d p req w existing stored =
    subst (λ r. Replayed req existing w (answer d p req r w)) (sym stored)
      (answered req existing w
        (same_operation existing req.capability req.parameter_hash req.business_context_ref) refl)

-- A request under a key that the tenant has used writes nothing, audits nothing and draws no
-- identifier, and if it answers an action, that is the stored action, whose capability,
-- parameters and context the request repeats.
pub request_action-Replayed :
    (d : Deps) (ctx : Option Err) (p : PrincipalContext) (req : ActionRequest) (w : World)
    (existing : Action)
    → get_by_idempotency_key p.tenant_ref req.idempotency_key w.store ≡ ok existing
    → Replayed req existing w (request_action d ctx p req w)
unfolding request_action begin
request_action-Replayed d ctx p req w existing stored =
    both_to req existing w _ _ _
      (stop_to req existing w _ _ (stop_to req existing w _ _ (read d p req w existing stored)))
