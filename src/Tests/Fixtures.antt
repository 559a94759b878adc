-- ===== src/Tests/Fixtures.antt =====
-- One wired service, one caller and one governed action, for the tests.
use Prim.Native.String
use agentnexus.Base.{ℕ, ◌+◌, String, true, false, Option, none, some, List, [], ◌∷◌}
use agentnexus.Runtime.Types.{Time, succeeded, PrincipalContext, first_party}
use agentnexus.Runtime.Grant.{RiskDecision, low, Signature}
use agentnexus.Runtime.Receipt.{Codec, ActionReceipt}
use agentnexus.Runtime.Request.{ActionRequest}
use agentnexus.Actions.Store.{new_memory_store}
use agentnexus.Actions.World.{World, Deps, DispatchMessage, itoa}
use agentnexus.Actions.Run.{
  Call, request_call, grant_call, dispatch_call, executing_call, receipt_call,
}

abbrev pub digest : String
digest = "sha256:0123456789abcdef0123456789abcdef0123456789abcdef0123456789abcdef"

abbrev pub context_ref : String
context_ref = "wc_0123456789abcdef"

-- every payload of the tests has one digest
abbrev pub codec : Codec
codec = record {
  json_valid = λ raw. true;
  hash_parameters = λ raw. digest;
  equal_fold = λ a b. false;
}

abbrev pub ids : ℕ → String → String
ids n prefix = String.◌++◌ prefix (String.◌++◌ "0123456789abcdef" (itoa n))

abbrev pub ticking : ℕ → Time
ticking n = 1000 + n

abbrev pub publish : ℕ → DispatchMessage → Option String
publish n m = none

-- a service with every port wired, whose verifiers accept
abbrev pub service : Deps
service = record {
  ready = true;
  codec = codec;
  clock = ticking;
  new_id = ids;
  publisher = some publish;
  evidence_wired = true;
  providers = some (λ t p capability hash. none);
  receipts = some (λ t r. none);
}

abbrev pub alice : PrincipalContext
alice = record {
  tenant_ref = "acme";
  principal_ref = "alice";
  agent_client_ref = "client";
  agent_release_ref = "release";
  trust_class = first_party;
  org_snapshot_ref = "snapshot";
  verified_at = 1;
  expires_at = 9000;
}

abbrev pub signature : Signature
signature = record { algorithm = "ed25519"; key_id = "key"; value = "value" }

abbrev pub risk : RiskDecision
risk = record {
  decision_id = "decision";
  authority = "risk desk";
  risk_level = low;
  reasons = [];
  capability = "erp.order";
  parameter_hash = digest;
  business_context_ref = context_ref;
  issued_at = 1;
  expires_at = 9000;
  signature = signature;
}

abbrev pub order : ActionRequest
order = record {
  request_id = "request";
  trace_id = "";
  business_context_ref = context_ref;
  capability = "erp.order";
  parameters = "{}";
  parameter_hash = digest;
  purpose = "restock";
  constraints = none;
  risk_decision = risk;
  approval_plan_ref = none;
  idempotency_key = "idempotency-key-1";
  preconditions = [];
  postconditions =
      (record {
        postcondition_id = "stocked";
        kind = "state";
        reference = "erp.stock";
        expected = "";
      })
      ∷ [];
  verification_needs =
      (record { need_id = "count"; postcondition_id = "stocked"; data_class = "stock" }) ∷ [];
  expires_at = 9000;
  expected_receipt_schema = "order.v1";
  compensation_ref = "";
}

abbrev pub order_ref : String
order_ref = "act_0123456789abcdef0"

abbrev pub receipt : ActionReceipt
receipt = record {
  receipt_ref = "rcp_0123456789abcdef";
  action_ref = order_ref;
  status = succeeded;
  capability = "erp.order";
  parameter_hash = digest;
  receipt_schema = "order.v1";
  result = "";
  result_hash = "";
  issued_at = 2000;
  signature = none;
}

abbrev pub start : World
start = record {
  store = new_memory_store;
  evidence = record { records = []; consumed = []; revoked = [] };
  audit = record { events = []; fail = none; minted = 0 };
  env = record { ticks = 0; minted = 0; sent = [] };
}

abbrev pub prepared : List Call
prepared =
    request_call none alice order
    ∷ grant_call none alice order_ref
    ∷ dispatch_call none alice order_ref
    ∷ []

abbrev pub completed : List Call
completed =
    request_call none alice order
    ∷ grant_call none alice order_ref
    ∷ dispatch_call none alice order_ref
    ∷ executing_call none alice order_ref
    ∷ receipt_call none alice "result-1" receipt
    ∷ []
