-- ===== src/Lib.antt =====
-- The AgentNexus gateway. Its governed actions: how a side effect is requested, granted,
-- dispatched, settled by a receipt, reconciled, compensated or taken over, and how its dispatch
-- reaches the transport. And its browser sessions: how a user's login, session, authorization
-- codes and access tokens are kept; the runs of its tasks; and the signed audit trail.
--
-- The parts, and the code that each is about:
--
-- - Runtime: the wire contract of sdk/go/runtime. Runtime.Format has the handles, digests and
--   capability names of validate.go (`ValidateHandle`, `ValidateSHA256Ref`, `validateCapability`,
--   the three regular expressions as functions on characters); Runtime.Types the statuses and
--   `PrincipalContext`; Runtime.Grant the signatures, risk decisions, plan references and step
--   grants of approval.go; Runtime.Receipt `ActionReceipt`; Runtime.Request `ActionRequest` with
--   its loops. A validator answers the first error it finds.
-- - Tickets: `MintActionGrant` and `ConsumeActionGrant` of
--   services/agentnexus/internal/tickets/step_grant.go; Tickets.Governed the case tickets and the
--   step grants of case_ticket.go and step_grant.go with their in-memory store, and
--   Tickets.Governed.Verified what a created grant can be used for.
-- - Actions: services/agentnexus/internal/actions. Actions.Lifecycle is state_machine.go;
--   Actions.Model the records of model.go; Actions.Store its `MemoryStore` up to the receipts,
--   Actions.Claims the claims on outbox rows; Actions.World the evidence consumer, the audit sink
--   and the wiring of a `Service`; Actions.Audit, Actions.Steps, Actions.Request, Actions.Execute,
--   Actions.Complete and Actions.Recover the operations of service.go, reconcile.go and
--   compensate.go; Actions.Outbox is outbox.go. Actions.Run puts all the calls together as one
--   machine. Actions.Store.Effects, Evolves, Backing, Backed and Once are about the
--   store, Actions.Claims.Fair and Actions.Outbox.Retry about the outbox, Actions.Request.Replay and
--   Actions.Safety about the service.
-- - Tasks: services/agentnexus/internal/tasks. Tasks is model.go and the in-memory store of
--   store.go, Tasks.Orchestrator orchestrator.go, Tasks.Effects what each call does to the runs,
--   Tasks.Follows and Tasks.Final what holds over any sequence of calls, one after the other.
-- - Audit: sdk/go/audit. Audit.Merkle is the batch roots and inclusion proofs of merkle.go;
--   Audit.Event the event of event.go with its pre-image and hash (canonical.go) and the tests on
--   its fields; Audit.Chain the check of a whole trail (verify.go) and the signer (sign.go).
--   Audit.Chain.Verified is about one event, Audit.Chain.Positions about a trail,
--   Audit.Chain.Tamper about two trails, and Audit.Chain.Extend about signing.
-- - Browser: services/agentnexus/internal/browserauth. Browser.Model is model.go;
--   Browser.Sessions the sessions, codes and tokens of memory_store.go, Browser.Attempts its login
--   attempts, Browser.RateLimit authorize_rate_limiter.go. Browser.Sessions.Steps is the abstract
--   store that the methods implement; Browser.Sessions.Effects says what each method does,
--   Browser.Sessions.Sound what holds of every state, Browser.Sessions.Runs what follows for any
--   sequence of calls. Browser.Attempts.Counts, Limits and Once are about the attempts, and
--   Browser.RateLimit.Windows about the limiter. Browser.Service is service.go, over the store;
--   Browser.Service.Codes follows a code from its issue to its exchange, and
--   Browser.Service.Answers and Errors are about the errors that get out.
-- - Errors: the sentinels, `errors.Join` and `errors.Is`. Base: shared names and lemmas;
--   Base.Grows tables in which no row is lost.
-- - Tests: one wired service with one action, one login, and each result on concrete data.
--
-- How the parts interact: the service reads an action from the store, checks the caller and the
-- status, appends the audit event, and only then calls one store operation; a dispatch writes its
-- outbox row together with the consumed grant, and is published after that write. State is passed
-- explicitly: an operation maps a `World` (store, evidence, audit, and what the clock, the
-- identifiers and the transport were asked) to a result and the next `World`. Go's maps are
-- association lists; a mutex section is one step; errors are values.
--
-- Parameters: the clock, the identifier generator, JSON validity, the digest, `EqualFold`, the
-- publisher, the decision-provider verification and the receipt verification. A time is a number
-- of nanoseconds, with 0 for Go's zero time; a clock that reads 0 is excluded where it matters,
-- and so is an identifier generator that repeats a stored action's identifier. Of the browser
-- sessions: SHA-256, base64 (its decoded bytes in hexadecimal), and the order of two strings in
-- the heap of expiry times, whose pops are the list's order. The error of a context, the clock's
-- answers and the generated secrets are arguments. Of the audit trail: JSON, SHA-256, base64,
-- Ed25519 and `strings.ToLower`, the `Crypto` record. Of the tickets: SHA-256, `strings.TrimSpace`
-- and the authorizer, the `GrantPorts` record.
--
-- Bounds: the drain of `RepublishPending` stops at its batch of 1000 as the source does; `itoa`
-- takes n rounds for n, which has at most n digits; the backoff stays below twice five minutes,
-- so an int64 does not overflow. The order in which Go ranges over a map is the list's order.
--
-- Not modelled: the SQL store, NATS, the recovery pump and the receipt signatures
-- (postgres.go, nats.go, recovery_pump.go, receipt_verifier.go), logging, JSON decoding, HTTP,
-- the SQL stores and the OIDC client of browserauth, and the other services of the repository.
-- Texts of wrapped errors are shortened to a field's name.
pub mod Base
pub mod Errors
pub mod Runtime
pub mod Tickets
pub mod Actions
pub mod Browser
pub mod Tasks
pub mod Audit
pub mod Tests
