-- ===== src/Tests/Replays.antt =====
-- A second request under the idempotency key of a stored action.
use agentnexus.Base.{none, [], ◌∷◌, ◌≡◌, refl, lookup}
use agentnexus.Errors.{ok}
use agentnexus.Runtime.Types.{executing}
use agentnexus.Actions.Model.{Action, zero_action}
use agentnexus.Actions.Store.{store_key, new_memory_store, get_by_idempotency_key}
use agentnexus.Actions.World.{World}
use agentnexus.Actions.Request.{request_action}
use agentnexus.Actions.Request.Replay.{Replayed, request_action-Replayed}
use agentnexus.Tests.Fixtures.{service, alice, digest, context_ref, order, order_ref, start}

abbrev ordered : Action
ordered = record zero_action {
  tenant_ref = "acme";
  action_ref = order_ref;
  status = executing;
  business_context_ref = context_ref;
  capability = "erp.order";
  parameter_hash = digest;
  idempotency_key = "idempotency-key-1";
}

abbrev under_way : World
under_way = record start {
  store = record new_memory_store {
    actions = (store_key "acme" order_ref, ordered) ∷ [];
    by_idem = (store_key "acme" "idempotency-key-1", order_ref) ∷ [];
  };
}

ordered_found : get_by_idempotency_key "acme" "idempotency-key-1" under_way.store ≡ ok ordered
unfolding get_by_idempotency_key lookup store_key
ordered_found = refl

request_action-Replayed_example :
    Replayed order ordered under_way (request_action service none alice order under_way)
request_action-Replayed_example =
    request_action-Replayed service none alice order under_way ordered ordered_found
