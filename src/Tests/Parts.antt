-- ===== src/Tests/Parts.antt =====
-- The contract, the grants, the life cycle and the retry policy on concrete data.
use agentnexus.Base.{
  suc, ◌+◌, ◌*◌, ◌^◌, ◌≤◌, ◌<◌, true, false, none, some, ◌≡◌, ◌↔◌, ◌≢◌, refl, All, pos,
}
use Prim.Native.Nat.{min}
use Prim.Native.String.{len}
use agentnexus.Errors.{ok}
use agentnexus.Runtime.Types.{
  requested, granted, dispatched, executing, succeeded, result_unknown, reconciling, compensating,
}
use agentnexus.Runtime.Grant.{StepGrant, validate_step_grant, approved}
use agentnexus.Runtime.Receipt.{validate_receipt}
use agentnexus.Runtime.Request.{ActionRequest, validate_request, VerificationNeed}
use agentnexus.Runtime.Request.Declared.{IsDeclared, validate_request_binds}
use agentnexus.Tickets.{
  ActionGrantInput, max_action_grant_ttl, mint_action_grant, consume_action_grant,
}
use agentnexus.Tickets.Laws.{mint_action_grant_lem, consume_action_grant_iff}
use agentnexus.Actions.Lifecycle.{can_transition, compensable, terminal_receipt_status}
use agentnexus.Actions.Lifecycle.Paths.{
  ◌⟶*◌, here, next, Visits, ⟶*_antisym, dispatch_on_path, result_unknown_needs_reconciling,
  compensating_iff,
}
use agentnexus.Actions.Outbox.{
  dispatch_retry_delay, dispatch_retry_base_delay, dispatch_retry_max_delay,
}
use agentnexus.Actions.Outbox.Retry.{dispatch_retry_delay_lem, dispatch_retry_delay_bounds}
use agentnexus.Tests.Fixtures.{codec, digest, context_ref, order}

order_valid : validate_request codec order ≡ none
unfolding validate_request agentnexus.Runtime.Request.validate_request_id
    agentnexus.Runtime.Format.validate_handle agentnexus.Runtime.Format.validate_capability
    agentnexus.Runtime.Receipt.is_json_object agentnexus.Runtime.Format.validate_sha256_ref
    agentnexus.Runtime.Format.require_non_empty agentnexus.Runtime.Grant.validate_risk_decision
    agentnexus.Runtime.Grant.validate_signature agentnexus.Runtime.Request.validate_idempotency_key
    agentnexus.Runtime.Request.validate_preconditions
    agentnexus.Runtime.Request.validate_postconditions
    agentnexus.Runtime.Request.validate_postcondition agentnexus.Runtime.Request.validate_needs
    agentnexus.Runtime.Request.validate_need
order_valid = refl

validate_request_binds_example :
    (codec.hash_parameters order.parameters ≡ order.parameter_hash)
    × (order.risk_decision.capability ≡ order.capability)
    × (order.risk_decision.parameter_hash ≡ order.parameter_hash)
    × (order.risk_decision.business_context_ref ≡ order.business_context_ref)
    × (16 ≤ len order.idempotency_key)
    × (len order.idempotency_key ≤ 128)
    × All (IsDeclared order.postconditions) order.verification_needs
validate_request_binds_example = validate_request_binds codec order order_valid

abbrev grant_asked : ActionGrantInput
grant_asked = record {
  grant_ref = "grant_0123456789abcdef";
  business_context_ref = context_ref;
  capability = "erp.order";
  parameter_hash = digest;
  ttl = pos 0;
}

abbrev grant_given : StepGrant
grant_given = record {
  grant_ref = "grant_0123456789abcdef";
  business_context_ref = context_ref;
  capability = "erp.order";
  parameter_hash = digest;
  one_use = true;
  issued_at = 1000;
  expires_at = 300_000_001_000;
}

grant_minted : mint_action_grant grant_asked 1000 ≡ ok grant_given
unfolding mint_action_grant validate_step_grant agentnexus.Runtime.Format.validate_handle
    agentnexus.Runtime.Format.validate_capability agentnexus.Runtime.Format.validate_sha256_ref
grant_minted = refl

mint_action_grant_lem_example :
    (grant_given.grant_ref ≡ grant_asked.grant_ref)
    × (grant_given.business_context_ref ≡ grant_asked.business_context_ref)
    × (grant_given.capability ≡ grant_asked.capability)
    × (grant_given.parameter_hash ≡ grant_asked.parameter_hash)
    × (grant_given.one_use ≡ true)
    × (validate_step_grant grant_given ≡ none)
    × (grant_given.issued_at ≡ 1000)
    × (1000 < grant_given.expires_at)
    × (grant_given.expires_at ≤ 1000 + max_action_grant_ttl)
mint_action_grant_lem_example = mint_action_grant_lem grant_asked 1000 grant_given grant_minted

consume_action_grant_iff_example :
    (consume_action_grant grant_given 2000 false ≡ none)
    ↔ ((grant_given.one_use ≡ true) × (false ≡ false) × (2000 < grant_given.expires_at))
consume_action_grant_iff_example = consume_action_grant_iff grant_given 2000 false

edge-granted : can_transition requested granted ≡ true
unfolding can_transition
edge-granted = refl

edge-dispatched : can_transition granted dispatched ≡ true
unfolding can_transition
edge-dispatched = refl

edge-executing : can_transition dispatched executing ≡ true
unfolding can_transition
edge-executing = refl

edge-reconciling : can_transition result_unknown reconciling ≡ true
unfolding can_transition
edge-reconciling = refl

edge-succeeded : can_transition reconciling succeeded ≡ true
unfolding can_transition
edge-succeeded = refl

⟶*_antisym_example : executing ≡ executing
⟶*_antisym_example = ⟶*_antisym {s = executing} {t = executing} here here

abbrev to_executing : requested ⟶* executing
to_executing = next (next (next here edge-granted) edge-dispatched) edge-executing

dispatch_on_path_example : Visits to_executing granted × Visits to_executing dispatched
dispatch_on_path_example = dispatch_on_path to_executing refl

succeeds : terminal_receipt_status succeeded ≡ some succeeded
unfolding terminal_receipt_status
succeeds = refl

abbrev to_succeeded : result_unknown ⟶* succeeded
to_succeeded = next (next here edge-reconciling) edge-succeeded

result_unknown_needs_reconciling_example : Visits to_succeeded reconciling
result_unknown_needs_reconciling_example = result_unknown_needs_reconciling to_succeeded succeeds

compensating_iff_example :
    (can_transition reconciling compensating ≡ true)
    ↔ ((compensable reconciling ≡ true) × (reconciling ≢ reconciling))
compensating_iff_example = compensating_iff reconciling

dispatch_retry_delay_lem_example :
    dispatch_retry_delay (suc 3) ≡ min (dispatch_retry_base_delay * 2 ^ 3) dispatch_retry_max_delay
dispatch_retry_delay_lem_example = dispatch_retry_delay_lem 3

dispatch_retry_delay_bounds_example :
    (dispatch_retry_base_delay ≤ dispatch_retry_delay 6)
    × (dispatch_retry_delay 6 ≤ dispatch_retry_max_delay)
    × (dispatch_retry_delay 6 ≤ dispatch_retry_delay (6 + 1))
dispatch_retry_delay_bounds_example = dispatch_retry_delay_bounds 6
