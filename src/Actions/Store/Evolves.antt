-- ===== src/Actions/Store/Evolves.antt =====
-- How a stored action may change: it keeps its identity and its operation, and moves along the
-- allowed edges only. Every store operation of model.go keeps to that.
use agentnexus.Base.{
  String, true, none, some, ◌≡◌, sym, ◌∙◌, ap, subst, inl, inr, Dict, lookup, insert, lookup-insert,
  arith, eq_iff, Bool-cases, ◌=ₛ◌,
}
use agentnexus.Runtime.Types.{Time, ActionStatus, same_status-eq}
use agentnexus.Actions.Lifecycle.{can_transition}
use agentnexus.Actions.Lifecycle.Paths.{◌⟶*◌, here, next}
use agentnexus.Actions.Model.{Action, Grant, Dispatch, ConnectorResult}
use agentnexus.Actions.Store.{
  store_key, MemoryStore, put_requested, grant, dispatch, transition, ingest_result,
}
use agentnexus.Actions.Store.Effects.{
  put_requested_effect, grant_effect, dispatch_effect, transition_effect, ingest_result_effect,
}

-- The fields that no operation may change.
pub record SameOperation (a b : Action) : Type 0 where
  pub tenant_ref : b.tenant_ref ≡ a.tenant_ref
  pub action_ref : b.action_ref ≡ a.action_ref
  pub capability : b.capability ≡ a.capability
  pub parameter_hash : b.parameter_hash ≡ a.parameter_hash
  pub business_context_ref : b.business_context_ref ≡ a.business_context_ref
  pub idempotency_key : b.idempotency_key ≡ a.idempotency_key
  pub approval_plan_ref : b.approval_plan_ref ≡ a.approval_plan_ref
  pub compensation_of : b.compensation_of ≡ a.compensation_of
  pub expected_receipt_schema : b.expected_receipt_schema ≡ a.expected_receipt_schema

SameOperation-trans : {a b c : Action} → SameOperation a b → SameOperation b c → SameOperation a c
SameOperation-trans p q = ground arith

pub ⟶*_trans : {s t u : ActionStatus} → s ⟶* t → t ⟶* u → s ⟶* u
⟶*_trans p here = p
⟶*_trans p (next q e) = next (⟶*_trans p q) e

-- Every action of the first table is in the second, with the same operation, at a status that
-- the allowed edges lead to.
pub record Evolves (m m' : Dict Action) : Type 0 where
  pub row :
      (key : String) (a : Action)
      → lookup key m ≡ some a
      → (b : Action) × (lookup key m' ≡ some b) × SameOperation a b × (a.status ⟶* b.status)

pub Evolves-refl : (m : Dict Action) → Evolves m m
Evolves-refl m = record { row = λ key a h. (a, h, ground arith, here) }

pub Evolves-trans : {m m' m'' : Dict Action} → Evolves m m' → Evolves m' m'' → Evolves m m''
Evolves-trans f g = record {
  row = λ key a h.
      let (b, hb, same, path) = f.row key a h in
      let (c, hc, same', path') = g.row key b hb in
      (c, hc, SameOperation-trans same same', ⟶*_trans path path');
}

-- One row is rewritten along one allowed edge.
module _ (m : Dict Action) (key : String) (stored v : Action) (found : lookup key m ≡ some stored)
    (same : SameOperation stored v) (edge : can_transition stored.status v.status ≡ true) where
  written_row :
      (k : String) (a : Action)
      → lookup k m ≡ some a
      → (b : Action) × (lookup k (insert key v m) ≡ some b)
        × SameOperation a b
        × (a.status ⟶* b.status)
  written_row k a h = elim (Bool-cases (key =ₛ k)) [
    | inl eq ↦
        let actions : some stored ≡ some a =
          sym found ∙ ap (λ j. lookup j m) ((eq_iff key k).0 eq) ∙ h in
        let row : stored ≡ a = cc actions in
        (
          v,
          rw (lookup-insert key k v m, eq),
          subst (λ r. SameOperation r v) row same,
          next here (subst (λ (r : Action). can_transition r.status v.status ≡ true) row edge),
        )
    | inr ne ↦ (a, rw (lookup-insert key k v m, ne) h, ground arith, here)
  ]

  Evolves-insert : Evolves m (insert key v m)
  Evolves-insert = record { row = written_row }

module _ (m : Dict Action) (key : String) (v : Action) (fresh : lookup key m ≡ none) where
  kept_row :
      (k : String) (a : Action)
      → lookup k m ≡ some a
      → (b : Action) × (lookup k (insert key v m) ≡ some b)
        × SameOperation a b
        × (a.status ⟶* b.status)
  kept_row k a h = elim (Bool-cases (key =ₛ k)) [
    | inl eq ↦
        let clash : none ≡ some a = sym fresh ∙ ap (λ j. lookup j m) ((eq_iff key k).0 eq) ∙ h in
        cc clash
    | inr ne ↦ (a, rw (lookup-insert key k v m, ne) h, ground arith, here)
  ]

  Evolves-fresh : Evolves m (insert key v m)
  Evolves-fresh = record { row = kept_row }

Evolves-of_eq : {s s' : MemoryStore} → s' ≡ s → Evolves s.actions s'.actions
Evolves-of_eq {s} e =
    subst (λ (r : MemoryStore). Evolves s.actions r.actions) (sym e) (Evolves-refl s.actions)

-- `Grant`, whatever the caller passes, keeps every stored action and moves it along allowed edges.
pub grant-Evolves :
    (a : Action) (g : Grant) (s : MemoryStore) → Evolves s.actions (grant a g s).1.actions
grant-Evolves a g s = elim (grant_effect a g s) [
  | inl (same, _) ↦ Evolves-of_eq same
  | inr (stored, found, edge, _, written) ↦
      rw written (Evolves-insert s.actions _ stored _ found (ground arith) edge)
]

-- `Dispatch`, whatever the caller passes, keeps every stored action and moves it along allowed
-- edges.
pub dispatch-Evolves :
    (tenant_ref action_ref : String) (d : Dispatch) (at : Time) (s : MemoryStore)
    → Evolves s.actions (dispatch tenant_ref action_ref d at s).1.actions
dispatch-Evolves tenant_ref action_ref d at s =
    elim (dispatch_effect tenant_ref action_ref d at s) [
      | inl (same, _) ↦ Evolves-of_eq same
      | inr (stored, g, found, _, edge, _, _, _, written) ↦
          rw written (Evolves-insert s.actions _ stored _ found (ground arith) edge)
    ]

-- `Transition`, whatever the caller passes, keeps every stored action and moves it along allowed
-- edges.
pub transition-Evolves :
    (tenant_ref action_ref : String) (from to : ActionStatus) (reason : String) (at : Time)
    (s : MemoryStore)
    → Evolves s.actions (transition tenant_ref action_ref from to reason at s).1.actions
transition-Evolves tenant_ref action_ref from to reason at s =
    elim (transition_effect tenant_ref action_ref from to reason at s) [
      | inl (same, _) ↦ Evolves-of_eq same
      | inr (stored, found, at_from, edge, written) ↦
          let here_from = same_status-eq stored.status from at_from in
          rw written (
            Evolves-insert s.actions _ stored _ found (ground arith)
              (subst (λ f. can_transition f to ≡ true) (sym here_from) edge))
    ]

-- `IngestResult`, whatever the caller passes, keeps every stored action and moves it along
-- allowed edges.
pub ingest_result-Evolves :
    (r : ConnectorResult) (to : ActionStatus) (at : Time) (s : MemoryStore)
    → Evolves s.actions (ingest_result r to at s).1.actions
ingest_result-Evolves r to at s = elim (ingest_result_effect r to at s) [
  | inl same ↦ Evolves-of_eq same
  | inr (stored, found, edge, _, written) ↦
      rw written (Evolves-insert s.actions _ stored _ found (ground arith) edge)
]

-- `PutRequested` keeps every stored action if the new action's reference is not in use.
pub put_requested-Evolves :
    (a : Action) (s : MemoryStore)
    → lookup (store_key a.tenant_ref a.action_ref) s.actions ≡ none
    → Evolves s.actions (put_requested a s).1.actions
put_requested-Evolves a s fresh = elim (put_requested_effect a s) [
  | inl same ↦ Evolves-of_eq same
  | inr (_, written) ↦ rw written (Evolves-fresh s.actions _ a fresh)
]
