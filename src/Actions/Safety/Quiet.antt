-- ===== src/Actions/Safety/Quiet.antt =====
-- The steps of service.go that leave the store as it is.
use agentnexus.Base.{
  ◌≤◌, String, Bool, true, false, Option, none, some, ◌≡◌, arith, Bool-cases, inl, inr,
  if◌then◌else◌,
}
use agentnexus.Errors.{Err, sentinel, approval_required, Result, ok, err}
use agentnexus.Runtime.Types.{PrincipalContext}
use agentnexus.Actions.Model.{Action}
use agentnexus.Actions.World.{
  World, Deps, M, ◌>>=◌, carry_on, lift, reads, stop_on, now, new_id, append_action_audit,
}
use agentnexus.Actions.Audit.{AuditBinding, Report, append_audit}
use agentnexus.Actions.Steps.{begin, find}
use agentnexus.Actions.Execute.{binds_operation, approval, consume_evidence, awaits}

-- The store is as it was, no identifier is drawn again, and the audit sink fails as it did.
pub record IsQuiet (w w' : World) : Type 0 where
  pub store : w'.store ≡ w.store
  pub minted : w.env.minted ≤ w'.env.minted
  pub fail : w'.audit.fail ≡ w.audit.fail

pub record Quiet {A : Type 0} (m : M A) : Type 0 where
  pub at : (w : World) → IsQuiet w (m w).1

pub Quiet-lift : {A : Type 0} (r : Result A) → Quiet (lift r)
Quiet-lift r = record { at = λ w. ground arith }

pub Quiet-reads : {A : Type 0} (f : World → Result A) → Quiet (reads f)
Quiet-reads f = record { at = λ w. ground arith }

stop_on-IsQuiet : (e : Option Err) (w : World) → IsQuiet w (stop_on e w).1
stop_on-IsQuiet none w = ground arith
stop_on-IsQuiet (some e) w = ground arith

pub Quiet-stop_on : (e : Option Err) → Quiet (stop_on e)
Quiet-stop_on e = record { at = stop_on-IsQuiet e }

pub Quiet-now : (d : Deps) → Quiet (now d)
unfolding now
Quiet-now d = record { at = λ w. ground arith }

pub Quiet-new_id : (d : Deps) (prefix : String) → Quiet (new_id d prefix)
unfolding new_id
Quiet-new_id d prefix = record { at = λ w. ground arith }

pub Quiet-append_audit :
    (p : PrincipalContext) (b : AuditBinding) (r : Report) → Quiet (append_audit p b r)
unfolding append_audit append_action_audit
Quiet-append_audit p b r = record { at = λ w. ground arith }

module _ {A B : Type 0} (m : M A) (f : A → M B) (qm : Quiet m) (qf : (a : A) → Quiet (f a)) where
  bind-IsQuiet : (w : World) → IsQuiet w ((m >>= f) w).1
  unfolding ◌>>=◌
  bind-IsQuiet w = go (m w).0 (m w).1 (qm.at w)
    where
      go : (r : Result A) (w' : World) → IsQuiet w w' → IsQuiet w (carry_on r f w').1
      go (ok a) w' q = ground (arith, (qf a).at w')
      go (err e) w' q = q

  pub Quiet-bind : Quiet (m >>= f)
  Quiet-bind = record { at = bind-IsQuiet }

pub Quiet-begin : (d : Deps) (ctx : Option Err) (p : PrincipalContext) → Quiet (begin d ctx p)
unfolding begin
Quiet-begin d ctx p = Quiet-bind _ _ (Quiet-stop_on _) (λ _. Quiet-stop_on _)

pub Quiet-find : (p : PrincipalContext) (ref : String) → Quiet (find p ref)
unfolding find
Quiet-find p ref = Quiet-reads _

Quiet-consume_evidence : (p : PrincipalContext) (a : Action) → Quiet (consume_evidence p a)
unfolding consume_evidence
Quiet-consume_evidence p a = record { at = λ w. ground arith }

pub Quiet-approval : (d : Deps) (p : PrincipalContext) (a : Action) → Quiet (approval d p a)
unfolding approval
Quiet-approval d p a = elim (Bool-cases (awaits a.status)) [
  | inl wait ↦ rw wait (wired d.evidence_wired)
  | inr free ↦ rw free (Quiet-lift _)
]
  where
    wired :
        (b : Bool)
        → Quiet (
            if b
            then (consume_evidence p a >>= λ e. lift (binds_operation a e))
            else lift (err (sentinel approval_required)))
    wired true = Quiet-bind _ _ (Quiet-consume_evidence p a) (λ e. Quiet-lift _)
    wired false = Quiet-lift _
