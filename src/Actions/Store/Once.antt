-- ===== src/Actions/Store/Once.antt =====
-- model.go: what the stores do a second time. The idempotency index, the inbox, the consumed
-- grant and the consumed evidence each make the first use the only one.
use agentnexus.Base.{
  List, [], ◌∷◌, Option, Bool, String, true, false, none, some, ◌≡◌, refl, arith, inl, inr, lookup,
  insert, lookup-insert, str_eq_refl, if◌then◌else◌,
}
use agentnexus.Errors.{
  sentinel, evidence_consumed, evidence_rejected, idempotency_conflict, ok, err, is_ok,
}
use agentnexus.Runtime.Types.{Time, ActionStatus, dispatched}
use agentnexus.Actions.Lifecycle.{can_transition}
use agentnexus.Actions.Model.{Action, Dispatch, ConnectorResult, ConsumedEvidence}
use agentnexus.Actions.Store.{
  store_key, flag, MemoryStore, put_requested, get_by_idempotency_key, same_operation, dispatch,
  dispatched_action, ingest_result, settled_action,
}
use agentnexus.Actions.Store.Effects.{dispatch_effect}
use agentnexus.Actions.World.{EvidenceStore, consume_approval_evidence, seed, revoke}

own_row {ℓ} :
    {A : Type ℓ} (key : String) (a : A) (m : List (String × A))
    → lookup key (insert key a m) ≡ some a
own_row key a m = rw (lookup-insert key key a m, str_eq_refl key)

-- An action that was put under an unused idempotency key is read back under that key, and the
-- put that follows it under the same key writes nothing: it answers the first action where it
-- names the same operation, and a conflict where it does not.
pub put_requested_twice :
    (a b : Action) (s : MemoryStore)
    → lookup (store_key a.tenant_ref a.idempotency_key) s.by_idem ≡ none
    → b.tenant_ref ≡ a.tenant_ref
    → b.idempotency_key ≡ a.idempotency_key
    → let s' = (put_requested a s).1 in
      (get_by_idempotency_key a.tenant_ref a.idempotency_key s' ≡ ok a)
      × (put_requested b s' ≡ (
        if same_operation a b.capability b.parameter_hash b.business_context_ref
            then ok (a, false)
            else err (sentinel idempotency_conflict),
        s',
      ))
unfolding put_requested get_by_idempotency_key
put_requested_twice a b s unused tenant key = ground (
  arith,
  own_row (store_key a.tenant_ref a.action_ref) a s.actions,
  own_row (store_key a.tenant_ref a.idempotency_key) a.action_ref s.by_idem,
)

-- A connector result that was applied is applied once: a redelivery under the same identifier
-- and action, whatever its receipt and status, answers the settled action and writes nothing.
pub ingest_result_twice :
    (r r' : ConnectorResult) (to to' : ActionStatus) (at at' : Time) (s : MemoryStore) (a : Action)
    → (ingest_result r to at s).0 ≡ ok (a, true)
    → r'.tenant_ref ≡ r.tenant_ref
    → r'.result_id ≡ r.result_id
    → r'.action_ref ≡ r.action_ref
    → let s' = (ingest_result r to at s).1 in ingest_result r' to' at' s' ≡ (ok (a, false), s')
unfolding ingest_result
ingest_result_twice r r' to to' at at' s a applied tenant id ref = ground (
  arith,
  own_row (store_key r.tenant_ref r.action_ref) (settled_action a to r.receipt.receipt_ref at)
      s.actions,
  own_row (store_key r.tenant_ref r.action_ref) a s.actions,
  own_row (store_key r.tenant_ref r.result_id) true s.inbox,
)

refused_there :
    (tenant_ref action_ref : String) (d : Dispatch) (at : Time) (s : MemoryStore) (a : Action)
    → lookup (store_key tenant_ref action_ref) s.actions ≡ some a
    → a.status ≡ dispatched
    → ((dispatch tenant_ref action_ref d at s).1 ≡ s)
      × (is_ok (dispatch tenant_ref action_ref d at s).0 ≡ false)
unfolding dispatch can_transition
refused_there tenant_ref action_ref d at s a found there = ground arith

-- An action that the store has dispatched is not dispatched again: a second dispatch, with any
-- row and at any time, is refused and writes nothing.
pub dispatch_twice :
    (tenant_ref action_ref : String) (d d' : Dispatch) (at at' : Time) (s : MemoryStore)
    → is_ok (dispatch tenant_ref action_ref d at s).0 ≡ true
    → let s' = (dispatch tenant_ref action_ref d at s).1 in
      let r = dispatch tenant_ref action_ref d' at' s' in (r.1 ≡ s') × (is_ok r.0 ≡ false)
dispatch_twice tenant_ref action_ref d d' at at' s done =
    elim (dispatch_effect tenant_ref action_ref d at s) [
      | inl (_, refused) ↦ absurd (ground arith)
      | inr (stored, g, _, _, _, _, _, _, written) ↦ rw written (
          refused_there tenant_ref action_ref d' at' _ (dispatched_action stored at)
            (own_row (store_key tenant_ref action_ref) (dispatched_action stored at) s.actions)
            refl)
    ]

-- One call of the evidence consumer.
pub data EvidenceCall : Type 0 where
  seeding : (tenant_ref : String) (e : ConsumedEvidence) → EvidenceCall
  revoking consuming : (tenant_ref plan_ref : String) → EvidenceCall

unfoldable pub evidence_exec : EvidenceCall → EvidenceStore → EvidenceStore
evidence_exec (seeding t e) c = seed t e c
evidence_exec (revoking t p) c = revoke t p c
evidence_exec (consuming t p) c = (consume_approval_evidence t p c).1

unfoldable pub evidence_run : List EvidenceCall → EvidenceStore → EvidenceStore
evidence_run [] c = c
evidence_run (x ∷ xs) c = evidence_run xs (evidence_exec x c)

abbrev has_record : Option ConsumedEvidence → Bool
has_record none = false
has_record (some e) = true

-- The record under the key is there, and consumed.
record Spent (key : String) (c : EvidenceStore) : Type 0 where
  pub recorded : has_record (lookup key c.records) ≡ true
  pub consumed : flag (lookup key c.consumed) ≡ true

evidence_exec-Spent :
    (key : String) (x : EvidenceCall) (c : EvidenceStore)
    → Spent key c
    → Spent key (evidence_exec x c)
unfolding evidence_exec seed revoke consume_approval_evidence
evidence_exec-Spent key (seeding t e) c h =
    ground (arith, lookup-insert (store_key t e.plan_ref) key e c.records)
evidence_exec-Spent key (revoking t p) c h = ground arith
evidence_exec-Spent key (consuming t p) c h =
    ground (arith, lookup-insert (store_key t p) key true c.consumed)

evidence_run-Spent :
    (key : String) (xs : List EvidenceCall) (c : EvidenceStore)
    → Spent key c
    → Spent key (evidence_run xs c)
unfolding evidence_run
evidence_run-Spent key [] c h = h
evidence_run-Spent key (x ∷ xs) c h =
    evidence_run-Spent key xs (evidence_exec x c) (evidence_exec-Spent key x c h)

consumed-Spent :
    (tenant_ref plan_ref : String) (c : EvidenceStore) (e : ConsumedEvidence)
    → (consume_approval_evidence tenant_ref plan_ref c).0 ≡ ok e
    → Spent (store_key tenant_ref plan_ref) (consume_approval_evidence tenant_ref plan_ref c).1
unfolding consume_approval_evidence
consumed-Spent tenant_ref plan_ref c e h =
    ground (arith, own_row (store_key tenant_ref plan_ref) true c.consumed)

spent_again :
    (tenant_ref plan_ref : String) (c : EvidenceStore)
    → Spent (store_key tenant_ref plan_ref) c
    → consume_approval_evidence tenant_ref plan_ref c ≡ (
      if flag (lookup (store_key tenant_ref plan_ref) c.revoked)
          then err (sentinel evidence_rejected)
          else err (sentinel evidence_consumed),
      c,
    )
unfolding consume_approval_evidence
spent_again tenant_ref plan_ref c h = ground arith

-- Approval evidence is consumed once: after a consumption that was answered, and any further
-- calls that seed, revoke or consume evidence, another consumption of the same record changes
-- nothing and answers `ErrEvidenceRejected` where the record is revoked by then, and else
-- `ErrEvidenceConsumed`.
pub consume_twice :
    (tenant_ref plan_ref : String) (xs : List EvidenceCall) (c : EvidenceStore)
    (e : ConsumedEvidence)
    → (consume_approval_evidence tenant_ref plan_ref c).0 ≡ ok e
    → let c' = evidence_run xs (consume_approval_evidence tenant_ref plan_ref c).1 in
      consume_approval_evidence tenant_ref plan_ref c' ≡ (
        if flag (lookup (store_key tenant_ref plan_ref) c'.revoked)
            then err (sentinel evidence_rejected)
            else err (sentinel evidence_consumed),
        c',
      )
consume_twice tenant_ref plan_ref xs c e h = spent_again tenant_ref plan_ref _ (
    evidence_run-Spent (store_key tenant_ref plan_ref) xs _
      (consumed-Spent tenant_ref plan_ref c e h))
