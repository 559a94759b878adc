-- ===== src/Actions/Outbox.antt =====
-- outbox.go: the delivery of a dispatch intent, its retry policy, and the recovery drain.
pub mod Retry
use agentnexus.Base.{
  ℕ, zero, suc, ◌+◌, ◌-◌, ◌*◌, String, Bool, true, false, Option, none, some, List, [], ◌∷◌, ◌++◌,
  ltb, leb, length, if◌then◌else◌,
}
use agentnexus.Errors.{Err, sentinel, plain, joined, unavailable, Result, ok, err}
use agentnexus.Runtime.Types.{Time}
use agentnexus.Actions.Model.{Dispatch, DispatchOutcome}
use agentnexus.Actions.Store.{MemoryStore}
use agentnexus.Actions.Claims.{Deliverer, claim_dispatch, claim_pending_dispatches}
use agentnexus.Actions.World.{DispatchMessage, Env, World, Deps, guard}

abbrev pub max_dispatch_attempts : ℕ
max_dispatch_attempts = 8

-- 5 seconds and 5 minutes, in nanoseconds
abbrev pub dispatch_retry_base_delay : ℕ
dispatch_retry_base_delay = 5_000_000_000

abbrev pub dispatch_retry_max_delay : ℕ
dispatch_retry_max_delay = 300_000_000_000

-- the loop of `dispatchRetryDelay`, on the rounds that are left
unfoldable pub doubled : ℕ → ℕ → ℕ
doubled zero delay = delay
doubled (suc rounds) delay =
    let rest = doubled rounds (delay * 2) in
    if leb dispatch_retry_max_delay (delay * 2) then dispatch_retry_max_delay else rest

-- `dispatchRetryDelay`; the delay stays below 2 * max, so the int64 never overflows
unfoldable pub dispatch_retry_delay : ℕ → ℕ
unfolding doubled
dispatch_retry_delay attempts =
    doubled ((if ltb attempts 1 then 1 else attempts) - 1) dispatch_retry_base_delay

-- the message that `deliver` builds
abbrev pub message_of : Dispatch → DispatchMessage
message_of d = record {
  tenant_ref = d.tenant_ref;
  action_ref = d.action_ref;
  dispatch_ref = d.dispatch_ref;
  capability = d.capability;
  parameter_hash = d.parameter_hash;
  grant_ref = d.grant_ref;
  kind = d.kind;
}

abbrev pub published_outcome : DispatchOutcome
published_outcome = record {
  published = true;
  next_attempt_at = 0;
  last_error = "";
  dead_letter = false;
}

abbrev failed_outcome : String → Bool → Time → DispatchOutcome
failed_outcome text dead next = record {
  published = false;
  next_attempt_at = next;
  last_error = text;
  dead_letter = dead;
}

delivered : Deps → Dispatch → Option String → Env → DispatchOutcome × Env
unfolding dispatch_retry_delay
delivered deps d none w = (published_outcome, w)
delivered deps d (some text) w =
    if leb max_dispatch_attempts (d.attempts + 1) then (failed_outcome text true 0, w) else (
      failed_outcome text false (deps.clock w.ticks + dispatch_retry_delay (d.attempts + 1)),
      record w { ticks = w.ticks + 1 },
    )

-- `deliver`, through the publisher that its callers have found wired
unfoldable pub deliver : (ℕ → DispatchMessage → Option String) → Deps → Deliverer Env
unfolding delivered
deliver publish deps d w =
    let sent = record w { sent = w.sent ++ (message_of d ∷ []) } in
    delivered deps d (publish (length w.sent) (message_of d)) sent

unfoldable pub publish_claimed :
    Option (ℕ → DispatchMessage → Option String) → Deps → String → String → World → World
publish_claimed none deps tenant_ref dispatch_ref w = w
publish_claimed (some publish) deps tenant_ref dispatch_ref w =
    let at = deps.clock w.env.ticks in
    let started = record w.env { ticks = w.env.ticks + 1 } in
    let (claimed, s, e) =
      claim_dispatch (some (deliver publish deps)) tenant_ref dispatch_ref at w.store started in
    record w { store = s; env = e }

-- `publishDispatched`: its log lines are left out, and a failure is not returned
unfoldable pub publish_dispatched : Deps → String → String → World → World
unfolding publish_claimed
publish_dispatched deps tenant_ref dispatch_ref w =
    publish_claimed deps.publisher deps tenant_ref dispatch_ref w

-- the deliverer of `RepublishPending`, which counts what is published
unfoldable pub counted : (ℕ → DispatchMessage → Option String) → Deps → Deliverer (Env × ℕ)
unfolding deliver
counted publish deps d (e, n) =
    let (o, e') = deliver publish deps d e in (o, (e', if o.published then n + 1 else n))

unfoldable pub republish_with :
    Option (ℕ → DispatchMessage → Option String) → Deps → String → World → Result ℕ × World
unfolding counted
republish_with none deps tenant_ref w =
    (err (joined (sentinel unavailable) (plain "no dispatch publisher wired")), w)
republish_with (some publish) deps tenant_ref w =
    let at = deps.clock w.env.ticks in
    let started = record w.env { ticks = w.env.ticks + 1 } in
    let (claimed, s, (e, published)) =
      claim_pending_dispatches (some (counted publish deps)) tenant_ref 0 at w.store (started, 0) in
    (ok published, record w { store = s; env = e })

-- `RepublishPending`
unfoldable pub republish_pending : Deps → Option Err → String → World → Result ℕ × World
unfolding guard republish_with
republish_pending deps ctx tenant_ref w = elim (guard deps ctx) [
  | some e ↦ (err e, w)
  | none ↦ republish_with deps.publisher deps tenant_ref w
]
