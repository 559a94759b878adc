-- ===== src/Tickets/Governed/Verified.antt =====
-- services/agentnexus/internal/tickets/step_grant.go: a grant, from its creation to its use.
use agentnexus.Base.{
  Bool, ◌=ₛ◌, ltb, ◌&&◌, String, true, false, ◌&&◌, Option, none, some, [], ◌∷◌, ◌++◌, ◌≡◌, refl,
  sym, ◌∙◌, ap, subst, arith, eq_iff, str_eq_refl, ltb, if◌then◌else◌, Dict, lookup, insert,
}
use agentnexus.Errors.{sentinel, grant_denied, Result, ok, err}
use agentnexus.Runtime.Types.{Time}
use agentnexus.Tickets.Governed.{
  GovernedGrant, GrantStore, GrantPorts, GrantAuthorization, Actor, CreateStepGrantInput,
  VerifyStepGrantInput, Drawn, ticket_key, hash_taken, create_step_grant_and_audit, find_grant,
  verify_found, verify_step_grant_and_audit, only_scope, is_canonical, hash_step_grant_token,
  new_grant, stored_grant, mint_with, authorized, authorizes, exact_grant_scope,
  authorize_and_create_grant, is_use, verified, verify_grant,
}

-- A new grant with a new hash is the one that its hash finds.
find_grant-insert :
    (key : String) (g : GovernedGrant) (m : Dict GovernedGrant)
    → lookup key m ≡ none
    → hash_taken g.token_hash m ≡ false
    → find_grant g.enterprise_id g.token_hash (insert key g m) ≡ some g
unfolding find_grant insert lookup hash_taken
find_grant-insert key g [] unused fresh =
    ground (arith, str_eq_refl g.enterprise_id, str_eq_refl g.token_hash)
find_grant-insert key g (row ∷ rows) unused fresh =
    let rest = find_grant-insert key g rows (ground arith) (ground arith) in ground arith

-- the presenter is the grant's actor, for its operation and its one scope, before it expires
abbrev pub permits : GovernedGrant → Actor → VerifyStepGrantInput → Time → Bool
permits g user asked now =
    g.actor_user_id =ₛ user.user_id
    && g.resource_type =ₛ asked.resource_type
    && g.resource_id =ₛ asked.resource_id
    && g.action =ₛ asked.action
    && only_scope g.scopes asked.scope
    && ltb now g.expires_at

-- what a creation that succeeded has done
record Created (d : GrantPorts) (s s' : GrantStore) (g : GovernedGrant) : Type 0 where
  pub unused : lookup (ticket_key g.enterprise_id g.id) s.grants ≡ none
  pub fresh : hash_taken g.token_hash s.grants ≡ false
  pub audited : s'.fail_audit ≡ false
  pub written :
      s'.grants ≡ insert (ticket_key g.enterprise_id g.id) (record g { token = "" }) s.grants
  pub hashed : g.token_hash ≡ hash_step_grant_token d g.token

module _ (d : GrantPorts) where
  stored_grant-Created :
      (token audit : String) (s : GrantStore) (n g : GovernedGrant)
      → n.token ≡ ""
      → n.token_hash ≡ hash_step_grant_token d token
      → (stored_grant d token (create_step_grant_and_audit n audit s)).0 ≡ ok g
      → Created d s (stored_grant d token (create_step_grant_and_audit n audit s)).1 g
  unfolding stored_grant create_step_grant_and_audit
  stored_grant-Created token audit s n g blank hashed h = ground arith

  module _ (actor : Actor) (input : CreateStepGrantInput) (drawn : Drawn) (s : GrantStore)
      (g : GovernedGrant) where
    -- the answer is the store's, for a new grant of the request
    Minted : Result GovernedGrant × GrantStore → Type 0
    Minted r =
        (a : GrantAuthorization) × (scope token : String) × (r
          ≡ stored_grant d token (
              create_step_grant_and_audit
                (new_grant d actor input a scope token drawn.grant_id drawn.now) drawn.audit_id s))

    mint_with-Minted :
        (a : GrantAuthorization) (o : Option String) (t : Result String)
        → (mint_with d actor input a o t drawn s).0 ≡ ok g
        → Minted (mint_with d actor input a o t drawn s)
    unfolding mint_with Minted
    mint_with-Minted a none t h = absurd (ground arith)
    mint_with-Minted a (some scope) (err e) h = absurd (ground arith)
    mint_with-Minted a (some scope) (ok token) h = (a, scope, token, ground arith)

    authorized-Minted :
        (r : Result GrantAuthorization)
        → (authorized d actor input r drawn s).0 ≡ ok g
        → Minted (authorized d actor input r drawn s)
    unfolding authorized
    authorized-Minted (err e) h = absurd (ground arith)
    authorized-Minted (ok a) h =
        let (passed, run) : (authorizes d actor a ≡ true)
            × ((mint_with d actor input a (exact_grant_scope input.resource_type input.action)
                  drawn.token drawn s).0
                ≡ ok g) =
          ground arith in
        rw (passed, authorized) (mint_with-Minted a _ drawn.token run)

    past_request :
        (authorize_and_create_grant d actor input drawn s).0 ≡ ok g
        → (authorize_and_create_grant d actor input drawn s
            ≡ authorized d actor input (d.authorize actor input) drawn s)
          × ((authorized d actor input (d.authorize actor input) drawn s).0 ≡ ok g)
    unfolding authorize_and_create_grant
    past_request h = ground arith

    Minted-Created :
        (r : Result GovernedGrant × GrantStore) → r.0 ≡ ok g → Minted r → Created d s r.1 g
    unfolding Minted
    Minted-Created r h (a, scope, token, made) =
        let n = new_grant d actor input a scope token drawn.grant_id drawn.now in
        subst (λ x. Created d s x.1 g) (sym made)
          (stored_grant-Created token drawn.audit_id s n g refl refl (sym (ap (λ o. o.0) made) ∙ h))

    created_lem :
        (authorize_and_create_grant d actor input drawn s).0 ≡ ok g
        → Created d s (authorize_and_create_grant d actor input drawn s).1 g
    created_lem h =
        let (same, run) = past_request h in
        subst (λ x. Created d s x.1 g) (sym same)
          (Minted-Created (authorized d actor input (d.authorize actor input) drawn s) run
            (authorized-Minted (d.authorize actor input) run))

  used :
      (user : Actor) (asked : VerifyStepGrantInput) (audit : String) (now : Time) (s : GrantStore)
      (n : GovernedGrant)
      → is_use d user asked ≡ true
      → is_canonical d audit ≡ true
      → n.enterprise_id ≡ user.enterprise_id
      → find_grant user.enterprise_id (hash_step_grant_token d asked.token) s.grants ≡ some n
      → s.fail_audit ≡ false
      → verify_grant d user asked audit now s ≡ (
          if permits n user asked now
          then (ok (record n { token = "" }), record s { audits = s.audits ++ audit ∷ [] })
          else (err (sentinel grant_denied), s))
  unfolding verify_grant verify_step_grant_and_audit verify_found verified
  used user asked audit now s n proper named same found up =
      ground (arith, eq_iff n.enterprise_id user.enterprise_id)

  -- A grant that is created for a verified actor: presenting its token in the same enterprise,
  -- with well-formed arguments, is accepted and audited exactly where the presenter is the
  -- grant's own actor, the resource, its identifier, the action and the one scope are the
  -- grant's, and the grant has not expired; the answer is the grant without its token. Every
  -- other use is denied and changes nothing.
  pub verify_grant-created :
      (actor user : Actor) (input : CreateStepGrantInput) (asked : VerifyStepGrantInput)
      (drawn : Drawn) (audit : String) (now : Time) (s : GrantStore) (g : GovernedGrant)
      → (authorize_and_create_grant d actor input drawn s).0 ≡ ok g
      → is_use d user asked ≡ true
      → is_canonical d audit ≡ true
      → asked.token ≡ g.token
      → user.enterprise_id ≡ g.enterprise_id
      → let s' = (authorize_and_create_grant d actor input drawn s).1 in
        verify_grant d user asked audit now s' ≡ (
          if permits g user asked now
          then (ok (record g { token = "" }), record s' { audits = s'.audits ++ audit ∷ [] })
          else (err (sentinel grant_denied), s'))
  verify_grant-created actor user input asked drawn audit now s g made proper named same own =
      let c = created_lem actor input drawn s g made in
      let s' = (authorize_and_create_grant d actor input drawn s).1 in
      let n : GovernedGrant = record g { token = "" } in
      let key = ap (hash_step_grant_token d) same ∙ sym c.hashed in
      let found : find_grant user.enterprise_id (hash_step_grant_token d asked.token) s'.grants
          ≡ some n =
        ap (λ e. find_grant e (hash_step_grant_token d asked.token) s'.grants) own
        ∙ ap (λ h. find_grant g.enterprise_id h s'.grants) key
        ∙ ap (find_grant g.enterprise_id g.token_hash) c.written
        ∙ find_grant-insert (ticket_key g.enterprise_id g.id) n s.grants c.unused c.fresh in
      used user asked audit now s' n proper named (sym own) found c.audited
