-- ===== src/Tests/Approvals.antt =====
-- Approval evidence of one action.
use agentnexus.Base.{◌≡◌, refl, lookup, insert}
use agentnexus.Errors.{ok}
use agentnexus.Runtime.Types.{awaiting_approval}
use agentnexus.Runtime.Grant.{approved}
use agentnexus.Actions.Model.{Action, zero_action, ConsumedEvidence}
use agentnexus.Actions.Store.{store_key}
use agentnexus.Actions.World.{World, seed, consume_approval_evidence, ◌>>=◌}
use agentnexus.Actions.Execute.{approval, consume_evidence}
use agentnexus.Actions.Safety.Approved.{Approves, approval-Approves}
use agentnexus.Tests.Fixtures.{service, alice, digest, start}

abbrev pending : Action
pending = record zero_action {
  tenant_ref = "acme";
  status = awaiting_approval;
  capability = "erp.order";
  parameter_hash = digest;
  approval_plan_ref = "apl_0123456789abcdef";
}

abbrev decided : ConsumedEvidence
decided = record {
  approval_ref = "apv_0123456789abcdef";
  plan_ref = "apl_0123456789abcdef";
  capability = "erp.order";
  parameter_hash = digest;
  decision = approved;
}

abbrev seeded : World
seeded = record start { evidence = seed "acme" decided start.evidence }

approval_given : (approval service alice pending seeded).0 ≡ ok "apv_0123456789abcdef"
unfolding approval consume_evidence consume_approval_evidence ◌>>=◌ seed lookup insert store_key
approval_given = refl

approval-Approves_example :
    (e : ConsumedEvidence) × Approves pending
      (store_key "acme" "apl_0123456789abcdef")
      "apv_0123456789abcdef"
      seeded.evidence
      (approval service alice pending seeded).1.evidence
      e
approval-Approves_example =
    approval-Approves service alice pending seeded "apv_0123456789abcdef" refl approval_given
