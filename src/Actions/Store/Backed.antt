-- ===== src/Actions/Store/Backed.antt =====
-- The grant behind an action: none while it waits, an unconsumed one-use grant bound to the exact
-- operation once it is granted, and that grant consumed once a side effect may have run. Every
-- store operation of model.go keeps this, under what its caller in service.go passes.
use agentnexus.Base.{
  String, true, false, Option, none, some, ◌≡◌, refl, sym, ◌∙◌, subst, ◌⊎◌, inl, inr, Dict, lookup,
  insert, lookup-insert, arith, eq_iff, Bool-cases, str_eq_refl, ap, ◌=ₛ◌, ◌<◌,
}
use agentnexus.Base.Grows.{Grows, Grows-refl, Grows-written, Grows-added}
use agentnexus.Actions.Store.Backing.{
  Binds, Unconsumed, Backing, settles, Backing-moved, GrantKept, GrantKept-refl,
}
use agentnexus.Runtime.Types.{
  Time, ActionStatus, same_status-eq, requested, awaiting_approval, granted, dispatched,
}
use agentnexus.Actions.Lifecycle.{can_transition}
use agentnexus.Actions.Model.{Action, Grant, Dispatch, ConnectorResult}
use agentnexus.Actions.Store.{
  store_key, MemoryStore, put_requested, grant, granted_action, dispatch, dispatched_action,
  consumed_grant, transition, moved_action, ingest_result, settled_action,
}
use agentnexus.Actions.Store.Effects.{
  put_requested_effect, grant_effect, dispatch_effect, transition_effect, ingest_result_effect,
}

pub record Backed (actions : Dict Action) (grants : Dict Grant) : Type 0 where
  pub row :
      (key : String) (a : Action)
      → lookup key actions ≡ some a
      → Backing a.status a (lookup key grants)
  pub unused : (key : String) → lookup key actions ≡ none → lookup key grants ≡ none
  pub keyed :
      (key : String) (a : Action)
      → lookup key actions ≡ some a
      → key ≡ store_key a.tenant_ref a.action_ref

-- The backing of a whole store.
abbrev pub IsBacked : MemoryStore → Type 0
IsBacked s = Backed s.actions s.grants

-- What a store operation leaves: every action backed, and every grant there still, as it was or
-- consumed now.
pub record Holds (s s' : MemoryStore) : Type 0 where
  pub backed : IsBacked s'
  pub grants : Grows GrantKept s.grants s'.grants

-- One action's row is written, and the grants of the other actions are as they were.
module _ (m : Dict Action) (gs gs' : Dict Grant) (key : String) (v : Action) (h : Backed m gs)
    (others : (k : String) → (key =ₛ k) ≡ false → lookup k gs' ≡ lookup k gs)
    (own_key : key ≡ store_key v.tenant_ref v.action_ref)
    (backing : Backing v.status v (lookup key gs')) where
  written_row :
      (k : String) (a : Action)
      → lookup k (insert key v m) ≡ some a
      → Backing a.status a (lookup k gs')
  written_row k a found = elim (Bool-cases (key =ₛ k)) [
    | inl eq ↦
        let stored : some v ≡ some a = sym (rw (lookup-insert key k v m, eq)) ∙ found in
        let row : v ≡ a = cc stored in
        subst (λ (r : Action). Backing r.status r (lookup k gs')) row
          (subst (λ j. Backing v.status v (lookup j gs')) ((eq_iff key k).0 eq) backing)
    | inr ne ↦
        let before : lookup k m ≡ some a = sym (rw (lookup-insert key k v m, ne)) ∙ found in
        subst (λ g. Backing a.status a g) (sym (others k ne)) (h.row k a before)
  ]

  written_unused : (k : String) → lookup k (insert key v m) ≡ none → lookup k gs' ≡ none
  written_unused k missing = elim (Bool-cases (key =ₛ k)) [
    | inl eq ↦
        let clash : some v ≡ none = sym (rw (lookup-insert key k v m, eq)) ∙ missing in cc clash
    | inr ne ↦
        let before : lookup k m ≡ none = sym (rw (lookup-insert key k v m, ne)) ∙ missing in
        others k ne ∙ h.unused k before
  ]

  written_keyed :
      (k : String) (a : Action)
      → lookup k (insert key v m) ≡ some a
      → k ≡ store_key a.tenant_ref a.action_ref
  written_keyed k a found = elim (Bool-cases (key =ₛ k)) [
    | inl eq ↦
        let stored : some v ≡ some a = sym (rw (lookup-insert key k v m, eq)) ∙ found in
        let row : v ≡ a = cc stored in
        sym ((eq_iff key k).0 eq)
        ∙ own_key
        ∙ ap (λ (r : Action). store_key r.tenant_ref r.action_ref) row
    | inr ne ↦ h.keyed k a (sym (rw (lookup-insert key k v m, ne)) ∙ found)
  ]

  Backed-written : Backed (insert key v m) gs'
  Backed-written = record { row = written_row; unused = written_unused; keyed = written_keyed }

same_grants : (gs : Dict Grant) (key k : String) → (key =ₛ k) ≡ false → lookup k gs ≡ lookup k gs
same_grants gs key k ne = refl

other_grants :
    (gs : Dict Grant) (key : String) (g : Grant) (k : String)
    → (key =ₛ k) ≡ false
    → lookup k (insert key g gs) ≡ lookup k gs
other_grants gs key g k ne = rw (lookup-insert key k g gs, ne)

own_grant : (gs : Dict Grant) (key : String) (g : Grant) → lookup key (insert key g gs) ≡ some g
own_grant gs key g = rw (lookup-insert key key g gs, str_eq_refl key)

Holds-refl : (s : MemoryStore) → IsBacked s → Holds s s
Holds-refl s h = record { backed = h; grants = Grows-refl GrantKept-refl s.grants }

Holds-of_eq : {s s' : MemoryStore} → s' ≡ s → IsBacked s → Holds s s'
Holds-of_eq {s} e h = subst (λ (r : MemoryStore). Holds s r) (sym e) (Holds-refl s h)

-- the grants are as they were
Holds-same : (s s' : MemoryStore) → IsBacked s' → s'.grants ≡ s.grants → Holds s s'
Holds-same s s' h e = record {
  backed = h;
  grants = subst (λ g. Grows GrantKept s.grants g) (sym e) (Grows-refl GrantKept-refl s.grants);
}

-- `Transition` to a settling status keeps every action backed.
pub transition-Holds :
    (tenant_ref action_ref : String) (from to : ActionStatus) (reason : String) (at : Time)
    (s : MemoryStore)
    → settles to ≡ true
    → IsBacked s
    → Holds s (transition tenant_ref action_ref from to reason at s).1
transition-Holds tenant_ref action_ref from to reason at s plain h =
    elim (transition_effect tenant_ref action_ref from to reason at s) [
      | inl (same, _) ↦ Holds-of_eq same h
      | inr (stored, found, at_from, edge, written) ↦
          let here_from = same_status-eq stored.status from at_from in
          let v = moved_action stored to reason at in
          let key = store_key tenant_ref action_ref in
          rw written (
            Holds-same s _
              (Backed-written s.actions s.grants s.grants key v h (same_grants s.grants key)
                (h.keyed key stored found)
                (Backing-moved stored v refl refl refl refl stored.status to (lookup key s.grants)
                  (subst (λ f. can_transition f to ≡ true) (sym here_from) edge) plain
                  (h.row key stored found)))
              refl)
    ]

-- `IngestResult` with a settling status keeps every action backed.
pub ingest_result-Holds :
    (r : ConnectorResult) (to : ActionStatus) (at : Time) (s : MemoryStore)
    → settles to ≡ true
    → IsBacked s
    → Holds s (ingest_result r to at s).1
ingest_result-Holds r to at s plain h = elim (ingest_result_effect r to at s) [
  | inl same ↦ Holds-of_eq same h
  | inr (stored, found, edge, _, written) ↦
      let v = settled_action stored to r.receipt.receipt_ref at in
      let key = store_key r.tenant_ref r.action_ref in
      rw written (
        Holds-same s _
          (Backed-written s.actions s.grants s.grants key v h (same_grants s.grants key)
            (h.keyed key stored found)
            (Backing-moved stored v refl refl refl refl stored.status to (lookup key s.grants) edge
              plain (h.row key stored found)))
          refl)
]

-- `PutRequested` of a waiting action under an unused reference keeps every action backed.
pub put_requested-Holds :
    (a : Action) (s : MemoryStore)
    → lookup (store_key a.tenant_ref a.action_ref) s.actions ≡ none
    → (a.status ≡ requested) ⊎ (a.status ≡ awaiting_approval)
    → IsBacked s
    → Holds s (put_requested a s).1
put_requested-Holds a s fresh waits h = elim (put_requested_effect a s) [
  | inl same ↦ Holds-of_eq same h
  | inr (_, written) ↦
      let key = store_key a.tenant_ref a.action_ref in
      rw written (
        Holds-same s _
          (Backed-written s.actions s.grants s.grants key a h (same_grants s.grants key) refl
            (waiting a (lookup key s.grants) waits (h.unused key fresh)))
          refl)
]
  where
    waiting :
        (b : Action) (g : Option Grant)
        → (b.status ≡ requested) ⊎ (b.status ≡ awaiting_approval)
        → g ≡ none
        → Backing b.status b g
    waiting b g (inl e) no_grant = rw e no_grant
    waiting b g (inr e) no_grant = rw e no_grant

no_grant :
    (st : ActionStatus) (a : Action) (g : Option Grant)
    → can_transition st granted ≡ true
    → Backing st a g
    → g ≡ none
unfolding can_transition
no_grant requested a g e h = h
no_grant awaiting_approval a g e h = h
no_grant _ a g e h = cc e

-- `Grant` keeps every action backed if the grant is fresh, one-use, and bound to the operation
-- of the stored action.
pub grant-Holds :
    (a : Action) (g : Grant) (s : MemoryStore)
    → ((stored : Action)
        → lookup (store_key a.tenant_ref a.action_ref) s.actions ≡ some stored
        → Binds (granted_action stored a g) g)
    → g.consumed_at ≡ 0
    → IsBacked s
    → Holds s (grant a g s).1
grant-Holds a g s binds fresh h = elim (grant_effect a g s) [
  | inl (same, _) ↦ Holds-of_eq same h
  | inr (stored, found, edge, _, written) ↦
      let v = granted_action stored a g in
      let key = store_key a.tenant_ref a.action_ref in
      let none_yet =
        no_grant stored.status stored (lookup key s.grants) edge (h.row key stored found) in
      rw written (record {
        backed =
            Backed-written s.actions s.grants (insert key g s.grants) key v h
              (other_grants s.grants key g) (h.keyed key stored found)
              (rw (own_grant s.grants key g) (binds stored found, fresh));
        grants = Grows-added GrantKept GrantKept-refl s.grants key g none_yet;
      })
]

granted_of_edge : (s : ActionStatus) → can_transition s dispatched ≡ true → s ≡ granted
unfolding can_transition
granted_of_edge s e = ground arith

-- `Dispatch` at a time that is set keeps every action backed: the grant is now consumed.
pub dispatch-Holds :
    (tenant_ref action_ref : String) (d : Dispatch) (at : Time) (s : MemoryStore)
    → 0 < at
    → IsBacked s
    → Holds s (dispatch tenant_ref action_ref d at s).1
dispatch-Holds tenant_ref action_ref d at s now h =
    elim (dispatch_effect tenant_ref action_ref d at s) [
      | inl (same, _) ↦ Holds-of_eq same h
      | inr (stored, g, found, held, edge, _, _, _, written) ↦
          let v = dispatched_action stored at in
          let key = store_key tenant_ref action_ref in
          let before : Unconsumed stored (some g) =
            subst (λ st. Backing st stored (some g)) (granted_of_edge stored.status edge)
              (subst (λ o. Backing stored.status stored o) held (h.row key stored found)) in
          let used = consumed_grant g at in
          rw written (record {
            backed =
                Backed-written s.actions s.grants (insert key used s.grants) key v h
                  (other_grants s.grants key used) (h.keyed key stored found)
                  (rw (own_grant s.grants key used) (ground arith, now));
            grants =
                Grows-written GrantKept GrantKept-refl s.grants key g used held
                  (record { same = refl; once = inr before.1 });
          })
    ]
