-- ===== src/Tickets/Laws.antt =====
-- What a minted grant binds, and when a grant can be consumed.
use agentnexus.Base.{◌+◌, ◌≤◌, ◌<◌, Bool, true, false, ◌≡◌, ◌↔◌, none, arith}
use agentnexus.Errors.{ok}
use agentnexus.Runtime.Types.{Time}
use agentnexus.Runtime.Grant.{StepGrant, validate_step_grant}
use agentnexus.Tickets.{
  max_action_grant_ttl, ActionGrantInput, capped_ttl, mint_action_grant, consume_action_grant,
}

capped_ttl_bounds :
    (i : ActionGrantInput) → (0 < capped_ttl i.ttl) × (capped_ttl i.ttl ≤ max_action_grant_ttl)
capped_ttl_bounds i = ground arith

-- A minted grant binds exactly the operation that it was asked for, is one-use, passes the
-- contract's validation, and lives for more than nothing and at most five minutes.
pub mint_action_grant_lem :
    (i : ActionGrantInput) (t : Time) (g : StepGrant)
    → mint_action_grant i t ≡ ok g
    → (g.grant_ref ≡ i.grant_ref)
      × (g.business_context_ref ≡ i.business_context_ref)
      × (g.capability ≡ i.capability)
      × (g.parameter_hash ≡ i.parameter_hash)
      × (g.one_use ≡ true)
      × (validate_step_grant g ≡ none)
      × (g.issued_at ≡ t)
      × (t < g.expires_at)
      × (g.expires_at ≤ t + max_action_grant_ttl)
unfolding mint_action_grant
mint_action_grant_lem i t g h = ground (arith, capped_ttl_bounds i)

-- A grant can be consumed exactly while it is one-use, not yet consumed and not yet expired.
pub consume_action_grant_iff :
    (g : StepGrant) (t : Time) (already : Bool)
    → (consume_action_grant g t already ≡ none)
      ↔ ((g.one_use ≡ true) × (already ≡ false) × (t < g.expires_at))
unfolding consume_action_grant
consume_action_grant_iff g t already = ground arith
