-- ===== src/Tickets.antt =====
-- services/agentnexus/internal/tickets/step_grant.go: minting and consuming a one-use grant.
pub mod Laws
pub mod Governed
use agentnexus.Base.{
  ℕ, ◌+◌, String, ℤ, pos, negsuc, Bool, true, false, not, ◌||◌, Option, none, some, ltb, leb,
  if◌then◌else◌,
}
use agentnexus.Errors.{
  Err, sentinel, plain, joined, invalid_action_grant, action_grant_consumed, Result, ok, err,
}
use agentnexus.Runtime.Types.{Time}
use agentnexus.Runtime.Grant.{StepGrant, validate_step_grant}

-- 5 * time.Minute, in nanoseconds
abbrev pub max_action_grant_ttl : ℕ
max_action_grant_ttl = 300_000_000_000

-- `TTL` is a signed `time.Duration`
pub record ActionGrantInput : Type 0 where
  pub grant_ref : String
  pub business_context_ref : String
  pub capability : String
  pub parameter_hash : String
  pub ttl : ℤ

abbrev pub capped_ttl : ℤ → ℕ
capped_ttl (negsuc n) = max_action_grant_ttl
capped_ttl (pos n) = if leb n 0 || ltb max_action_grant_ttl n then max_action_grant_ttl else n

abbrev pub unvalidated_grant : ActionGrantInput → Time → StepGrant
unvalidated_grant input issued = record {
  grant_ref = input.grant_ref;
  business_context_ref = input.business_context_ref;
  capability = input.capability;
  parameter_hash = input.parameter_hash;
  one_use = true;
  issued_at = issued;
  expires_at = issued + capped_ttl input.ttl;
}

abbrev checked : StepGrant → Option Err → Result StepGrant
checked grant none = ok grant
checked grant (some e) = err (joined (sentinel invalid_action_grant) e)

-- `MintActionGrant`
unfoldable pub mint_action_grant : ActionGrantInput → Time → Result StepGrant
mint_action_grant input issued =
    checked (unvalidated_grant input issued) (validate_step_grant (unvalidated_grant input issued))

-- `ConsumeActionGrant`
unfoldable pub consume_action_grant : StepGrant → Time → Bool → Option Err
consume_action_grant grant consumed_at already_consumed =
    if not grant.one_use
    then some (sentinel invalid_action_grant)
    else if already_consumed
    then some (sentinel action_grant_consumed)
    else if not (ltb consumed_at grant.expires_at)
    then some (joined (sentinel invalid_action_grant) (plain "action grant expired"))
    else none
