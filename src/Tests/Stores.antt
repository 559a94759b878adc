-- ===== src/Tests/Stores.antt =====
-- The stores and the outbox on concrete rows.
use agentnexus.Base.{
  ℕ, zero, suc, ◌+◌, ◌*◌, ◌^◌, ◌≤◌, ◌<◌, String, Bool, true, false, Option, none, some, List, [],
  ◌∷◌, ◌++◌, ◌≡◌, ◌↔◌, ◌≢◌, ◌⊎◌, refl, arith, lookup, All, ℤ, pos, if◌then◌else◌, leb,
}
use agentnexus.Errors.{sentinel, evidence_consumed, idempotency_conflict, ok, err, is_ok}
use agentnexus.Runtime.Types.{granted, executing, succeeded, failed}
use agentnexus.Runtime.Grant.{approved}
use agentnexus.Runtime.Receipt.{validate_receipt}
use agentnexus.Tickets.{consume_action_grant}
use agentnexus.Actions.Lifecycle.{can_transition, terminal_receipt_status}
use agentnexus.Actions.Model.{
  Action, zero_action, ConsumedEvidence, Dispatch, execute, ConnectorResult, Grant,
}
use agentnexus.Actions.Store.{
  store_key, MemoryStore, new_memory_store, put_requested, get_by_idempotency_key, same_operation,
  dispatch, ingest_result,
}
use agentnexus.Actions.Store.{dispatched_action, consumed_grant}
use agentnexus.Base.{insert, length}
use agentnexus.Errors.{evidence_rejected}
use agentnexus.Runtime.Types.{dispatched}
use agentnexus.Actions.Store.Effects.{dispatch_effect}
use agentnexus.Actions.Store.{flag}
use agentnexus.Actions.Store.Once.{
  put_requested_twice, ingest_result_twice, dispatch_twice, consume_twice, EvidenceCall, seeding,
  consuming, revoking, evidence_run,
}
use agentnexus.Actions.World.{EvidenceStore, Env, DispatchMessage, consume_approval_evidence, seed}
use agentnexus.Actions.Audit.{verify_receipt}
use agentnexus.Actions.Outbox.{max_dispatch_attempts, deliver, dispatch_retry_delay, message_of}
use agentnexus.Actions.Outbox.Retry.{deliver_outcome}
use agentnexus.Tests.Fixtures.{service, digest, context_ref, order_ref, receipt}

-- the action of `order`, while it runs
abbrev running : Action
running = record zero_action {
  tenant_ref = "acme";
  action_ref = order_ref;
  status = executing;
  business_context_ref = context_ref;
  capability = "erp.order";
  parameter_hash = digest;
  idempotency_key = "idempotency-key-1";
  expected_receipt_schema = "order.v1";
}

-- a receipt that the wired verifier accepts
receipt_accepted : verify_receipt service "acme" running receipt ≡ ok succeeded
unfolding verify_receipt validate_receipt agentnexus.Runtime.Format.validate_handle
    agentnexus.Runtime.Format.validate_capability agentnexus.Runtime.Format.validate_sha256_ref
    agentnexus.Runtime.Format.require_non_empty terminal_receipt_status
receipt_accepted = refl

-- another operation under the same idempotency key
abbrev other_order : Action
other_order = record running { capability = "erp.refund" }

unindexed : lookup (store_key "acme" "idempotency-key-1") new_memory_store.by_idem ≡ none
unfolding lookup
unindexed = refl

put_requested_twice_example :
    let s' = (put_requested running new_memory_store).1 in
    (get_by_idempotency_key "acme" "idempotency-key-1" s' ≡ ok running)
    × (put_requested other_order s' ≡ (
      if same_operation running other_order.capability other_order.parameter_hash
            other_order.business_context_ref
          then ok (running, false)
          else err (sentinel idempotency_conflict),
      s',
    ))
put_requested_twice_example =
    put_requested_twice running other_order new_memory_store unindexed refl refl

abbrev one_action : MemoryStore
one_action = record new_memory_store { actions = (store_key "acme" order_ref, running) ∷ [] }

abbrev result : ConnectorResult
result = record {
  tenant_ref = "acme";
  result_id = "result-1";
  action_ref = order_ref;
  receipt = receipt;
}

abbrev done : Action
done = record running { status = succeeded; receipt_ref = receipt.receipt_ref; updated_at = 2000 }

result_applies : (ingest_result result succeeded 2000 one_action).0 ≡ ok (done, true)
unfolding ingest_result lookup can_transition store_key
result_applies = refl

ingest_result_twice_example :
    let s' = (ingest_result result succeeded 2000 one_action).1 in
    ingest_result result failed 3000 s' ≡ (ok (done, false), s')
ingest_result_twice_example =
    ingest_result_twice result result succeeded failed 2000 3000 one_action done result_applies refl
      refl refl

abbrev authorized : Action
authorized = record running { status = granted; grant_ref = "grant_0123456789abcdef" }

abbrev order_grant : Grant
order_grant = record {
  tenant_ref = "acme";
  grant_ref = "grant_0123456789abcdef";
  action_ref = order_ref;
  business_context_ref = context_ref;
  capability = "erp.order";
  parameter_hash = digest;
  one_use = true;
  issued_at = 1000;
  expires_at = 5000;
  consumed_at = 0;
}

abbrev granted_store : MemoryStore
granted_store = record new_memory_store {
  actions = (store_key "acme" order_ref, authorized) ∷ [];
  grants = (store_key "acme" order_ref, order_grant) ∷ [];
}

abbrev intent : Dispatch
intent = record {
  tenant_ref = "acme";
  dispatch_ref = "dsp_0123456789abcdef";
  action_ref = order_ref;
  capability = "erp.order";
  parameter_hash = digest;
  grant_ref = "grant_0123456789abcdef";
  kind = execute;
  published = false;
  attempts = 0;
  created_at = 2000;
  published_at = 0;
  next_attempt_at = 0;
  last_error = "";
  dead_lettered_at = 0;
}

dispatches_once : is_ok (dispatch "acme" order_ref intent 2000 granted_store).0 ≡ true
unfolding dispatch lookup can_transition store_key consume_action_grant
dispatches_once = refl

dispatch_twice_example :
    let s' = (dispatch "acme" order_ref intent 2000 granted_store).1 in
    let r = dispatch "acme" order_ref intent 2001 s' in (r.1 ≡ s') × (is_ok r.0 ≡ false)
dispatch_twice_example =
    dispatch_twice "acme" order_ref intent intent 2000 2001 granted_store dispatches_once

abbrev evidence : ConsumedEvidence
evidence = record {
  approval_ref = "apv_0123456789abcdef";
  plan_ref = "apl_0123456789abcdef";
  capability = "erp.order";
  parameter_hash = digest;
  decision = approved;
}

abbrev approvals : EvidenceStore
approvals = seed "acme" evidence (record { records = []; consumed = []; revoked = [] })

evidence_found : (consume_approval_evidence "acme" "apl_0123456789abcdef" approvals).0 ≡ ok evidence
unfolding consume_approval_evidence seed lookup store_key agentnexus.Base.insert
evidence_found = refl

abbrev afterwards : List EvidenceCall
afterwards =
    seeding "acme" evidence
    ∷ consuming "acme" "apl_0123456789abcdef"
    ∷ revoking "acme" "apl_0123456789abcdef"
    ∷ []

consume_twice_example :
    let c' =
      evidence_run afterwards
        (consume_approval_evidence "acme" "apl_0123456789abcdef" approvals).1 in
    consume_approval_evidence "acme" "apl_0123456789abcdef" c' ≡ (
      if flag (lookup (store_key "acme" "apl_0123456789abcdef") c'.revoked)
          then err (sentinel evidence_rejected)
          else err (sentinel evidence_consumed),
      c',
    )
consume_twice_example =
    consume_twice "acme" "apl_0123456789abcdef" afterwards approvals evidence evidence_found

abbrev later_intent : Dispatch
later_intent = record intent { dispatch_ref = "dsp_1123456789abcdef"; created_at = 3000 }

abbrev idle : Env
idle = record { ticks = 0; minted = 0; sent = [] }

abbrev refusing : ℕ → DispatchMessage → Option String
refusing n m = some "unreachable"

deliver_outcome_example :
    let (o, w') = deliver refusing service (record intent { attempts = 3 }) idle in
    let answer = refusing (length idle.sent) (message_of (record intent { attempts = 3 })) in
    (w'.sent ≡ idle.sent ++ (message_of (record intent { attempts = 3 }) ∷ []))
    × (((answer ≡ none) × (o.published ≡ true))
        ⊎ ((text : String) × (answer ≡ some text)
            × (o.published ≡ false)
            × (o.last_error ≡ text)
            × (((o.dead_letter ≡ true) × (max_dispatch_attempts ≤ 3 + 1))
                ⊎ ((o.dead_letter ≡ false)
                    × (3 + 1 < max_dispatch_attempts)
                    × (o.next_attempt_at ≡ service.clock idle.ticks + dispatch_retry_delay (3 + 1))
                    × (service.clock idle.ticks < o.next_attempt_at)))))
deliver_outcome_example = deliver_outcome refusing service (record intent { attempts = 3 }) idle

dispatch_effect_example :
    let key = store_key "acme" order_ref in
    let r = dispatch "acme" order_ref intent 2000 granted_store in
    ((r.1 ≡ granted_store) × (is_ok r.0 ≡ false))
    ⊎ ((stored : Action) × (g : Grant) × (lookup key granted_store.actions ≡ some stored)
        × (lookup key granted_store.grants ≡ some g)
        × (can_transition stored.status dispatched ≡ true)
        × (g.one_use ≡ true)
        × (g.consumed_at ≡ 0)
        × (2000 < g.expires_at)
        × (dispatch "acme" order_ref intent 2000 granted_store ≡ (
          ok (dispatched_action stored 2000),
          record granted_store {
            actions = insert key (dispatched_action stored 2000) granted_store.actions;
            grants = insert key (consumed_grant g 2000) granted_store.grants;
            dispatches =
                insert (store_key "acme" intent.dispatch_ref) intent granted_store.dispatches;
          },
        )))
dispatch_effect_example = dispatch_effect "acme" order_ref intent 2000 granted_store

abbrev waiting : MemoryStore
waiting = record new_memory_store {
  dispatches =
      (store_key "acme" "dsp_0123456789abcdef", intent)
      ∷ (store_key "acme" "dsp_1123456789abcdef", later_intent)
      ∷ [];
}
