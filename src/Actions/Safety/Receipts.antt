-- ===== src/Actions/Safety/Receipts.antt =====
-- service.go, `verifyReceipt`: what an accepted receipt has been checked for.
use agentnexus.Base.{String, true, Option, none, some, ◌≡◌, refl, ◌∙◌, arith, ◌=ₛ◌, eq_iff, ap}
use agentnexus.Errors.{Err, sentinel, joined, receipt_rejected, ok, err}
use agentnexus.Runtime.Types.{ActionStatus}
use agentnexus.Runtime.Receipt.{ActionReceipt, validate_receipt}
use agentnexus.Actions.Lifecycle.{terminal_receipt_status}
use agentnexus.Actions.Model.{Action}
use agentnexus.Actions.World.{Deps}
use agentnexus.Actions.Audit.{verify_receipt, verified_by}

-- a verifier is wired and has accepted the receipt
abbrev pub Accepts : Option (String → ActionReceipt → Option Err) → String → ActionReceipt → Type 0
Accepts none tenant_ref r = ⊥
Accepts (some verify) tenant_ref r = verify tenant_ref r ≡ none

pub record Accepted (d : Deps) (tenant_ref : String) (a : Action) (r : ActionReceipt)
    (to : ActionStatus) : Type 0 where
  pub valid : validate_receipt d.codec r ≡ none
  pub action_ref : r.action_ref ≡ a.action_ref
  pub parameter_hash : r.parameter_hash ≡ a.parameter_hash
  pub capability : r.capability ≡ a.capability
  pub schema : r.receipt_schema ≡ a.expected_receipt_schema
  pub status : terminal_receipt_status r.status ≡ some to
  pub verified : Accepts d.receipts tenant_ref r

verified_by_lem :
    (o : Option (String → ActionReceipt → Option Err)) (tenant_ref : String) (r : ActionReceipt)
    (t to : ActionStatus)
    → verified_by o tenant_ref r t ≡ ok to
    → (t ≡ to) × Accepts o tenant_ref r
unfolding verified_by
verified_by_lem none tenant_ref r t to h = cc h
verified_by_lem (some verify) tenant_ref r t to h = go (verify tenant_ref r) refl h
  where
    go :
        (x : Option Err)
        → verify tenant_ref r ≡ x
        → (elim x [ none ↦ ok t | some e ↦ err (joined (sentinel receipt_rejected) e) ]) ≡ ok to
        → (t ≡ to) × (verify tenant_ref r ≡ none)
    go none x e = (cc e, x)
    go (some y) x e = cc e

-- what the branches of `verifyReceipt` tested
checks :
    (d : Deps) (tenant_ref : String) (a : Action) (r : ActionReceipt) (to : ActionStatus)
    → verify_receipt d tenant_ref a r ≡ ok to
    → (validate_receipt d.codec r ≡ none)
      × ((r.action_ref =ₛ a.action_ref) ≡ true)
      × ((r.parameter_hash =ₛ a.parameter_hash) ≡ true)
      × ((r.capability =ₛ a.capability) ≡ true)
      × ((r.receipt_schema =ₛ a.expected_receipt_schema) ≡ true)
      × ((t : ActionStatus) × (terminal_receipt_status r.status ≡ some t)
          × (verified_by d.receipts tenant_ref r t ≡ ok to))
unfolding verify_receipt
checks d tenant_ref a r to h = ground arith

-- A receipt that `verifyReceipt` accepts is valid, names the action's exact operation and its
-- declared schema, attests a terminal status, which is the one answered, and was accepted by a
-- verifier that is wired.
pub verify_receipt-Accepted :
    (d : Deps) (tenant_ref : String) (a : Action) (r : ActionReceipt) (to : ActionStatus)
    → verify_receipt d tenant_ref a r ≡ ok to
    → Accepted d tenant_ref a r to
verify_receipt-Accepted d tenant_ref a r to h =
    let (valid, ref, hash, capability, schema, terminal) = checks d tenant_ref a r to h in
    let (t, at, by) = terminal in
    let (same, accepts) = verified_by_lem d.receipts tenant_ref r t to by in
    record {
      valid = valid;
      action_ref = (eq_iff _ _).0 ref;
      parameter_hash = (eq_iff _ _).0 hash;
      capability = (eq_iff _ _).0 capability;
      schema = (eq_iff _ _).0 schema;
      status = at ∙ ap some same;
      verified = accepts;
    }
