-- ===== src/Actions/Safety/Approved.antt =====
-- service.go, `Grant`: what the approval evidence of a waiting action has been checked for.
use agentnexus.Base.{
  String, Bool, true, false, some, ◌≡◌, refl, sym, subst, if◌then◌else◌, arith, lookup, insert,
  lookup-insert, str_eq_refl, ◌=ₛ◌, eq_iff,
}
use agentnexus.Errors.{sentinel, approval_required, Result, ok, err}
use agentnexus.Runtime.Types.{PrincipalContext}
use agentnexus.Runtime.Grant.{approved}
use agentnexus.Actions.Model.{Action, ConsumedEvidence}
use agentnexus.Actions.Store.{store_key, flag}
use agentnexus.Actions.World.{
  World, EvidenceStore, Deps, M, ◌>>=◌, carry_on, lift, consume_approval_evidence,
}
use agentnexus.Actions.Audit.{on_err}
use agentnexus.Actions.Execute.{awaits, evidence_err, consume_evidence, binds_operation, approval}

consumed_of :
    (tenant_ref plan_ref : String) (c c' : EvidenceStore) (e : ConsumedEvidence)
    → consume_approval_evidence tenant_ref plan_ref c ≡ (ok e, c')
    → let key = store_key tenant_ref plan_ref in
      (lookup key c.records ≡ some e)
      × (flag (lookup key c.revoked) ≡ false)
      × (flag (lookup key c.consumed) ≡ false)
      × (flag (lookup key c'.consumed) ≡ true)
unfolding consume_approval_evidence
consumed_of tenant_ref plan_ref c c' e h =
    let key = store_key tenant_ref plan_ref in
    let own : lookup key (insert key true c.consumed) ≡ some true =
      rw (lookup-insert key key true c.consumed, str_eq_refl key) in
    ground (arith, own)

binds_lem :
    (a : Action) (e : ConsumedEvidence) (ref : String)
    → binds_operation a e ≡ ok ref
    → ((e.capability =ₛ a.capability) ≡ true)
      × ((e.parameter_hash =ₛ a.parameter_hash) ≡ true)
      × (e.decision ≡ approved)
      × (e.approval_ref ≡ ref)
binds_lem a e ref h = ground arith

-- What a record of the evidence store must be to approve an action.
pub record Approves (a : Action) (key ref : String) (c c' : EvidenceStore) (e : ConsumedEvidence)
    : Type 0 where
  pub found : lookup key c.records ≡ some e
  pub standing : flag (lookup key c.revoked) ≡ false
  pub unused : flag (lookup key c.consumed) ≡ false
  pub used : flag (lookup key c'.consumed) ≡ true
  pub capability : e.capability ≡ a.capability
  pub parameter_hash : e.parameter_hash ≡ a.parameter_hash
  pub decision : e.decision ≡ approved
  pub reference : e.approval_ref ≡ ref

module _ (p : PrincipalContext) (a : Action) (w : World) (ref : String) where
  abbrev Approved : EvidenceStore → Type 0
  Approved c' =
      (e : ConsumedEvidence) × Approves a (store_key p.tenant_ref a.approval_plan_ref) ref
        w.evidence c' e

  answered :
      (r : Result ConsumedEvidence × EvidenceStore)
      → consume_approval_evidence p.tenant_ref a.approval_plan_ref w.evidence ≡ r
      → let m = carry_on (on_err evidence_err r.0) (λ e. lift (binds_operation a e)) in
        let end = m (record w { evidence = r.1 }) in end.0 ≡ ok ref → Approved end.1.evidence
  answered (err x, c') from h = cc h
  answered (ok e, c') from h =
      let (found, standing, unused, used) = consumed_of _ _ w.evidence c' e from in
      let (capability, hash, decision, same) = binds_lem a e ref h in
      (
        e,
        record {
          found = found;
          standing = standing;
          unused = unused;
          used = used;
          capability = (eq_iff _ _).0 capability;
          parameter_hash = (eq_iff _ _).0 hash;
          decision = decision;
          reference = same;
        },
      )

  wired :
      (b : Bool)
      → let m =
          if b
          then (consume_evidence p a >>= λ e. lift (binds_operation a e))
          else lift (err (sentinel approval_required)) in
        (m w).0 ≡ ok ref → Approved (m w).1.evidence
  unfolding consume_evidence ◌>>=◌
  wired false h = cc h
  wired true h =
      answered (consume_approval_evidence p.tenant_ref a.approval_plan_ref w.evidence) refl h

-- For an action that awaits approval, the approval step of `Grant` answers an evidence reference
-- only from a record of the action's plan that is not revoked, was not consumed before and is
-- consumed now, and that approves the action's exact capability and parameters.
pub approval-Approves :
    (d : Deps) (p : PrincipalContext) (a : Action) (w : World) (ref : String)
    → awaits a.status ≡ true
    → (approval d p a w).0 ≡ ok ref
    → (e : ConsumedEvidence) × Approves a
        (store_key p.tenant_ref a.approval_plan_ref)
        ref
        w.evidence
        (approval d p a w).1.evidence
        e
unfolding approval
approval-Approves d p a w ref waits h =
    let step : M String =
      if d.evidence_wired
      then (consume_evidence p a >>= λ e. lift (binds_operation a e))
      else lift (err (sentinel approval_required)) in
    let same : approval d p a ≡ step = rw (waits, approval) refl in
    subst (λ (m : M String). (m w).0 ≡ ok ref → Approved p a w ref (m w).1.evidence) (sym same)
      (wired p a w ref d.evidence_wired) h
