-- ===== src/Tests/Grants.antt =====
-- A grant to read dream evidence, created and used once.
use agentnexus.Base.{pos, true, false, [], ◌∷◌, ◌++◌, ◌≡◌, refl, lookup, insert, if◌then◌else◌}
use agentnexus.Errors.{sentinel, grant_denied, ok, err}
use agentnexus.Tickets.Governed.{
  GrantPorts, GrantStore, Actor, CreateStepGrantInput, VerifyStepGrantInput, GovernedGrant, Drawn,
  authorize_and_create_grant, authorized, mint_with, stored_grant, create_step_grant_and_audit,
  hash_taken, is_canonical, exact_grant_scope, new_grant, verify_grant, is_use,
}
use agentnexus.Tickets.Governed.Verified.{permits, verify_grant-created}

abbrev ports : GrantPorts
ports = record {
  sha256_hex = λ text. text;
  trim_space = λ text. text;
  authorize = λ actor input. ok (record {
    allowed = true;
    enterprise_id = "acme";
    org_version = pos 3;
    org_unit_id = "unit";
  });
}

abbrev ada : Actor
ada = record { enterprise_id = "acme"; user_id = "ada"; case_ticket_id = ""; org_version = pos 3 }

abbrev bob : Actor
bob = record ada { user_id = "bob" }

abbrev asked : CreateStepGrantInput
asked = record {
  case_ticket_id = "case";
  resource_type = "dream_evidence";
  resource_id = "e1";
  action = "read";
  ttl = pos 60;
}

abbrev presented : VerifyStepGrantInput
presented = record {
  token = "secret";
  resource_type = "dream_evidence";
  resource_id = "e1";
  action = "read";
  scope = "dream:evidence:read";
}

abbrev drawn : Drawn
drawn = record { token = ok "secret"; now = 10; grant_id = "g1"; audit_id = "a1" }

abbrev empty : GrantStore
empty = record { tickets = []; grants = []; audits = []; fail_audit = false }

abbrev a_grant : GovernedGrant
a_grant =
    record (new_grant ports ada asked
      (record { allowed = true; enterprise_id = "acme"; org_version = pos 3; org_unit_id = "unit" })
      "dream:evidence:read" "secret" "g1" 10) { token = "secret" }

created : (authorize_and_create_grant ports ada asked drawn empty).0 ≡ ok a_grant
unfolding authorize_and_create_grant authorized mint_with stored_grant create_step_grant_and_audit
    hash_taken is_canonical exact_grant_scope lookup insert
created = refl

proper : is_use ports bob presented ≡ true
unfolding is_canonical
proper = refl

named : is_canonical ports "a2" ≡ true
unfolding is_canonical
named = refl

verify_grant-created_example :
    let s' = (authorize_and_create_grant ports ada asked drawn empty).1 in
    verify_grant ports bob presented "a2" 30 s' ≡ (
      if permits a_grant bob presented 30
      then (ok (record a_grant { token = "" }), record s' { audits = s'.audits ++ "a2" ∷ [] })
      else (err (sentinel grant_denied), s'))
verify_grant-created_example =
    verify_grant-created ports ada bob asked presented drawn "a2" 30 empty a_grant created proper
      named refl refl
