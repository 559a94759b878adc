-- ===== src/Tickets/Governed.antt =====
-- services/agentnexus/internal/tickets: case_ticket.go, and the governed grants of step_grant.go
-- with their in-memory store. What the clock and the generators of identifiers and tokens answer
-- are arguments; a resource owner's authorization, SHA-256 and `strings.TrimSpace` are parameters.
pub mod Verified
use Prim.Native.String
use agentnexus.Base.{
  ℕ, suc, ◌+◌, String, ℤ, pos, negsuc, Bool, true, false, not, ◌&&◌, ◌||◌, Option, none, some, List,
  [], ◌∷◌, ◌++◌, ◌=ₛ◌, ◌≠ₛ◌, ◌==◌, ltb, leb, if◌then◌else◌, Dict, lookup, insert,
}
use agentnexus.Errors.{
  Err, sentinel, joined, errors_is, grant_denied, grant_unavailable, invalid_step_grant, Result, ok,
  err,
}
use agentnexus.Runtime.Types.{Time}

-- 5 * time.Minute, in nanoseconds
abbrev pub max_step_grant_ttl : ℕ
max_step_grant_ttl = 300_000_000_000

pub record CaseTicket : Type 0 where
  pub id : String
  pub token : String
  pub token_hash : String
  pub enterprise_id : String
  pub actor_user_id : String
  pub request_id : String
  pub trace_id : String
  pub status : String
  pub expires_at : Time
  pub created_at : Time

-- the package's `StepGrant`
pub record GovernedGrant : Type 0 where
  pub id : String
  pub token : String
  pub token_hash : String
  pub enterprise_id : String
  pub actor_user_id : String
  pub case_ticket_id : String
  pub org_unit_id : String
  pub org_version : ℤ
  pub resource_type : String
  pub resource_id : String
  pub action : String
  pub scopes : List String
  pub expires_at : Time
  pub created_at : Time

pub record VerifyStepGrantInput : Type 0 where
  pub token : String
  pub resource_type : String
  pub resource_id : String
  pub action : String
  pub scope : String

pub record IssueCaseTicketInput : Type 0 where
  pub request_id : String
  pub trace_id : String
  pub ttl : ℤ

pub record CreateStepGrantInput : Type 0 where
  pub case_ticket_id : String
  pub resource_type : String
  pub resource_id : String
  pub action : String
  pub ttl : ℤ

pub record Actor : Type 0 where
  pub enterprise_id : String
  pub user_id : String
  pub case_ticket_id : String
  pub org_version : ℤ

pub record GrantAuthorization : Type 0 where
  pub allowed : Bool
  pub enterprise_id : String
  pub org_version : ℤ
  pub org_unit_id : String

pub record GrantStore : Type 0 where
  pub tickets : Dict CaseTicket
  pub grants : Dict GovernedGrant
  pub audits : List String
  pub fail_audit : Bool

pub record GrantPorts : Type 0 where
  pub sha256_hex : String → String
  pub trim_space : String → String
  pub authorize : Actor → CreateStepGrantInput → Result GrantAuthorization

-- a signed number above 0, with its value
abbrev pub above_zero : ℤ → Option ℕ
above_zero (pos n) = if n == 0 then none else some n
above_zero (negsuc n) = none

abbrev pub same_int : ℤ → ℤ → Bool
same_int (pos a) (pos b) = a == b
same_int (negsuc a) (negsuc b) = a == b
same_int _ _ = false

abbrev pub is_some : Option ℕ → Bool
is_some none = false
is_some (some n) = true

-- `exactGrantScope`
unfoldable pub exact_grant_scope : String → String → Option String
exact_grant_scope resource_type action =
    if resource_type =ₛ "dream_evidence" && action =ₛ "read"
    then some "dream:evidence:read"
    else none

-- `ticketKey`
abbrev pub ticket_key : String → String → String
ticket_key enterprise_id id = String.◌++◌ enterprise_id (String.◌++◌ ":" id)

-- some grant has the token's hash
unfoldable pub hash_taken : String → Dict GovernedGrant → Bool
hash_taken hash [] = false
hash_taken hash (row ∷ rows) = row.1.token_hash =ₛ hash || hash_taken hash rows

abbrev pub has_grant : Option GovernedGrant → Bool
has_grant none = false
has_grant (some g) = true

-- the store's `CreateStepGrantAndAudit`
unfoldable pub create_step_grant_and_audit :
    GovernedGrant → String → GrantStore → Result GovernedGrant × GrantStore
create_step_grant_and_audit g audit_id s =
    if s.fail_audit
      || has_grant (lookup (ticket_key g.enterprise_id g.id) s.grants)
      || hash_taken g.token_hash s.grants
    then (err (sentinel grant_unavailable), s)
    else (
      ok g,
      record s {
        grants = insert (ticket_key g.enterprise_id g.id) g s.grants;
        audits = s.audits ++ audit_id ∷ [];
      },
    )

abbrev pub only_scope : List String → String → Bool
only_scope (scope ∷ []) wanted = scope =ₛ wanted
only_scope _ wanted = false

-- the grant that the enterprise has for the token's hash
unfoldable pub find_grant : String → String → Dict GovernedGrant → Option GovernedGrant
find_grant enterprise_id hash [] = none
find_grant enterprise_id hash (row ∷ rows) =
    let rest = find_grant enterprise_id hash rows in
    if row.1.enterprise_id =ₛ enterprise_id && row.1.token_hash =ₛ hash then some row.1 else rest

-- the grant is the actor's, for this operation and scope
abbrev pub binds_use : GovernedGrant → Actor → VerifyStepGrantInput → Bool
binds_use g actor input =
    g.actor_user_id =ₛ actor.user_id
    && g.resource_type =ₛ input.resource_type
    && g.resource_id =ₛ input.resource_id
    && g.action =ₛ input.action
    && only_scope g.scopes input.scope

unfoldable pub verify_found :
    Option GovernedGrant
    → Actor
    → VerifyStepGrantInput
    → String
    → Time
    → GrantStore
    → Result GovernedGrant × GrantStore
verify_found none actor input audit_id now s = (err (sentinel grant_denied), s)
verify_found (some g) actor input audit_id now s =
    if not (binds_use g actor input && ltb now g.expires_at)
    then (err (sentinel grant_denied), s)
    else if s.fail_audit
    then (err (sentinel grant_unavailable), s)
    else (ok g, record s { audits = s.audits ++ audit_id ∷ [] })

-- the store's `VerifyStepGrantAndAudit`
unfoldable pub verify_step_grant_and_audit :
    Actor
    → VerifyStepGrantInput
    → String
    → String
    → Time
    → GrantStore
    → Result GovernedGrant × GrantStore
verify_step_grant_and_audit actor input hash audit_id now s =
    verify_found (find_grant actor.enterprise_id hash s.grants) actor input audit_id now s

-- what the generators and the clock answer
pub record Drawn : Type 0 where
  pub token : Result String
  pub now : Time
  pub grant_id : String
  pub audit_id : String

module _ (d : GrantPorts) where
  -- `canonical`
  unfoldable pub is_canonical : String → Bool
  is_canonical value = not (value =ₛ "") && d.trim_space value =ₛ value

  -- `HashStepGrantToken` and `HashCaseTicketToken`
  abbrev pub hash_step_grant_token : String → String
  hash_step_grant_token token = d.sha256_hex (String.◌++◌ "agentnexus:step-grant:v1:" token)

  abbrev pub hash_case_ticket_token : String → String
  hash_case_ticket_token token = d.sha256_hex (String.◌++◌ "agentnexus:case-ticket:v1:" token)

  abbrev pub new_ticket : Actor → IssueCaseTicketInput → String → String → ℕ → Time → CaseTicket
  new_ticket actor input token id ttl now = record {
    id = id;
    token = "";
    token_hash = hash_case_ticket_token token;
    enterprise_id = actor.enterprise_id;
    actor_user_id = actor.user_id;
    request_id = input.request_id;
    trace_id = input.trace_id;
    status = "active";
    expires_at = now + ttl;
    created_at = now;
  }

  -- with the answer of the context, the token, the identifier and the lifetime
  unfoldable pub issue_ticket :
      Actor
      → IssueCaseTicketInput
      → Option Err
      → Result String
      → String
      → Option ℕ
      → Time
      → GrantStore
      → Result CaseTicket × GrantStore
  issue_ticket actor input ctx token id none now s = (err (sentinel invalid_step_grant), s)
  issue_ticket actor input (some e) token id (some ttl) now s =
      (err (joined (sentinel grant_unavailable) e), s)
  issue_ticket actor input none (err e) id (some ttl) now s = (err (sentinel grant_unavailable), s)
  issue_ticket actor input none (ok token) id (some ttl) now s =
      if not (is_canonical token)
      then (err (sentinel grant_unavailable), s)
      else let t = new_ticket actor input token id ttl now in
        (
          ok (record t { token = token }),
          record s { tickets = insert (ticket_key t.enterprise_id t.id) t s.tickets },
        )

  -- `IssueCaseTicket`
  unfoldable pub issue_case_ticket :
      Actor
      → IssueCaseTicketInput
      → Option Err
      → Result String
      → String
      → Time
      → GrantStore
      → Result CaseTicket × GrantStore
  issue_case_ticket actor input ctx token id now s =
      if not (is_canonical actor.enterprise_id)
        || not (is_canonical actor.user_id)
        || not (is_canonical input.request_id)
        || (not (input.trace_id =ₛ "") && not (is_canonical input.trace_id))
      then (err (sentinel invalid_step_grant), s)
      else issue_ticket actor input ctx token id (above_zero input.ttl) now s

  -- the arguments of `AuthorizeAndCreateGrant` are well formed
  abbrev pub is_request : Actor → CreateStepGrantInput → Bool
  is_request actor input =
      is_canonical actor.enterprise_id
      && is_canonical actor.user_id
      && is_some (above_zero actor.org_version)
      && is_canonical input.case_ticket_id
      && is_canonical input.resource_type
      && is_canonical input.resource_id
      && is_canonical input.action
      && is_some (above_zero input.ttl)

  -- the authorization is for this actor, at its version, in some unit
  abbrev pub authorizes : Actor → GrantAuthorization → Bool
  authorizes actor a =
      a.allowed
      && a.enterprise_id =ₛ actor.enterprise_id
      && same_int a.org_version actor.org_version
      && is_canonical a.org_unit_id

  abbrev pub granted_ttl : Option ℕ → ℕ
  granted_ttl none = 0
  granted_ttl (some ttl) = if ltb max_step_grant_ttl ttl then max_step_grant_ttl else ttl

  abbrev pub new_grant :
      Actor
      → CreateStepGrantInput
      → GrantAuthorization
      → String
      → String
      → String
      → Time
      → GovernedGrant
  new_grant actor input a scope token id now = record {
    id = id;
    token = "";
    token_hash = hash_step_grant_token token;
    enterprise_id = actor.enterprise_id;
    actor_user_id = actor.user_id;
    case_ticket_id = input.case_ticket_id;
    org_unit_id = a.org_unit_id;
    org_version = actor.org_version;
    resource_type = input.resource_type;
    resource_id = input.resource_id;
    action = input.action;
    scopes = scope ∷ [];
    expires_at = now + granted_ttl (above_zero input.ttl);
    created_at = now;
  }

  unfoldable pub stored_grant :
      String → Result GovernedGrant × GrantStore → Result GovernedGrant × GrantStore
  stored_grant token (ok g, s) = (ok (record g { token = token }), s)
  stored_grant token (err e, s) =
      if errors_is e grant_denied
      then (err (sentinel grant_denied), s)
      else (err (sentinel grant_unavailable), s)

  unfoldable pub mint_with :
      Actor
      → CreateStepGrantInput
      → GrantAuthorization
      → Option String
      → Result String
      → Drawn
      → GrantStore
      → Result GovernedGrant × GrantStore
  mint_with actor input a none token drawn s = (err (sentinel grant_denied), s)
  mint_with actor input a (some scope) (err e) drawn s = (err (sentinel grant_unavailable), s)
  mint_with actor input a (some scope) (ok token) drawn s =
      if not (is_canonical token)
        || not (is_canonical drawn.grant_id)
        || not (is_canonical drawn.audit_id)
      then (err (sentinel grant_unavailable), s)
      else stored_grant token (
          create_step_grant_and_audit (new_grant actor input a scope token drawn.grant_id drawn.now)
            drawn.audit_id s)

  unfoldable pub authorized :
      Actor
      → CreateStepGrantInput
      → Result GrantAuthorization
      → Drawn
      → GrantStore
      → Result GovernedGrant × GrantStore
  authorized actor input (err e) drawn s =
      if errors_is e grant_denied
      then (err (sentinel grant_denied), s)
      else (err (sentinel grant_unavailable), s)
  authorized actor input (ok a) drawn s =
      if not (authorizes actor a)
      then (err (sentinel grant_denied), s)
      else mint_with actor input a (exact_grant_scope input.resource_type input.action) drawn.token
          drawn s

  -- `AuthorizeAndCreateGrant`
  unfoldable pub authorize_and_create_grant :
      Actor → CreateStepGrantInput → Drawn → GrantStore → Result GovernedGrant × GrantStore
  authorize_and_create_grant actor input drawn s =
      if not (is_request actor input)
      then (err (sentinel invalid_step_grant), s)
      else if not (actor.case_ticket_id =ₛ "") && actor.case_ticket_id ≠ₛ input.case_ticket_id
      then (err (sentinel grant_denied), s)
      else authorized actor input (d.authorize actor input) drawn s

  abbrev pub is_use : Actor → VerifyStepGrantInput → Bool
  is_use actor input =
      is_canonical actor.enterprise_id
      && is_canonical actor.user_id
      && is_canonical input.token
      && is_canonical input.resource_type
      && is_canonical input.resource_id
      && is_canonical input.action
      && is_canonical input.scope

  -- the service's own tests on what the store answers
  unfoldable pub verified :
      Actor
      → VerifyStepGrantInput
      → Result GovernedGrant × GrantStore
      → Result GovernedGrant × GrantStore
  verified actor input (err e, s) =
      if errors_is e grant_unavailable
      then (err (sentinel grant_unavailable), s)
      else (err (sentinel grant_denied), s)
  verified actor input (ok g, s) =
      if g.enterprise_id ≠ₛ actor.enterprise_id || not (binds_use g actor input)
      then (err (sentinel grant_denied), s)
      else (ok (record g { token = "" }), s)

  -- `VerifyGrant`
  unfoldable pub verify_grant :
      Actor → VerifyStepGrantInput → String → Time → GrantStore → Result GovernedGrant × GrantStore
  verify_grant actor input audit_id now s =
      if not (is_use actor input)
      then (err (sentinel invalid_step_grant), s)
      else if not (is_canonical audit_id)
      then (err (sentinel grant_unavailable), s)
      else verified actor input (
          verify_step_grant_and_audit actor input (hash_step_grant_token input.token) audit_id now
            s)
