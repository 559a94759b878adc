-- ===== src/Actions/Claims.antt =====
-- model.go, MemoryStore: the claims on outbox rows. A claim marks a row in flight, the deliverer
-- runs outside the mutex, its outcome is recorded, and the claim is released. The deliverer
-- acts on a state of its own, the type `W`; the order in which Go ranges over the rows is
-- random, here it is the order of the list.
pub mod Fair
use agentnexus.Base.{
  ℕ, zero, suc, ◌+◌, String, Bool, true, false, not, ◌&&◌, ◌||◌, Option, none, some, List, [], ◌∷◌,
  ◌=ₛ◌, ◌≠ₛ◌, ltb, leb, if◌then◌else◌, Dict, lookup, insert, delete, any,
}
use agentnexus.Errors.{Err, sentinel, plain, joined, invalid_input, Result, ok, err}
use agentnexus.Runtime.Types.{Time, is_zero}
use agentnexus.Actions.Model.{Dispatch, DispatchOutcome}
use agentnexus.Actions.Store.{store_key, MemoryStore, flag}

-- defaultDispatchClaimBatch of outbox.go
abbrev pub default_dispatch_claim_batch : ℕ
default_dispatch_claim_batch = 1000

-- `claimable`
unfoldable pub claimable : Dispatch → Time → Bool → Bool
claimable d at eligible_only =
    if d.published || not (is_zero d.dead_lettered_at)
    then false
    else if eligible_only && not (is_zero d.next_attempt_at) && ltb at d.next_attempt_at
    then false
    else true

abbrev pub claim_row : String → MemoryStore → MemoryStore
claim_row key s = record s { claimed = insert key true s.claimed }

acquire_found : Option Dispatch → String → Time → Bool → MemoryStore → Option Dispatch × MemoryStore
unfolding claimable
acquire_found none key at eligible_only s = (none, s)
acquire_found (some d) key at eligible_only s =
    if not (claimable d at eligible_only) || flag (lookup key s.claimed)
    then (none, s)
    else (some d, claim_row key s)

-- `acquireDispatch`
unfoldable pub acquire_dispatch :
    String → String → Time → Bool → MemoryStore → Option Dispatch × MemoryStore
unfolding acquire_found
acquire_dispatch tenant_ref dispatch_ref at eligible_only s =
    let key = store_key tenant_ref dispatch_ref in
    acquire_found (lookup key s.dispatches) key at eligible_only s

-- The rows that `acquireNextDispatch` may take.
unfoldable pub eligible : String → Time → List String → Dict Bool → String → Dispatch → Bool
eligible tenant_ref at visited claims key d =
    not (
      d.tenant_ref ≠ₛ tenant_ref
      || any (λ r. r =ₛ d.dispatch_ref) visited
      || flag (lookup key claims))
    && claimable d at true

-- `found && !dispatch.CreatedAt.Before(next.CreatedAt)`
abbrev pub no_older : Option Dispatch → Dispatch → Bool
no_older none d = false
no_older (some best) d = not (ltb d.created_at best.created_at)

-- the loop of `acquireNextDispatch`
unfoldable pub oldest :
    String → Time → List String → Dict Bool → Option Dispatch → Dict Dispatch → Option Dispatch
oldest tenant_ref at visited claims best [] = best
oldest tenant_ref at visited claims best ((key, d) ∷ rows) =
    oldest tenant_ref at visited claims
      (if eligible tenant_ref at visited claims key d && not (no_older best d)
        then some d
        else best)
      rows

next_found : Option Dispatch → String → MemoryStore → Option Dispatch × MemoryStore
next_found none tenant_ref s = (none, s)
next_found (some d) tenant_ref s = (some d, claim_row (store_key tenant_ref d.dispatch_ref) s)

-- `acquireNextDispatch`
unfoldable pub acquire_next_dispatch :
    String → Time → List String → MemoryStore → Option Dispatch × MemoryStore
unfolding next_found
acquire_next_dispatch tenant_ref at visited s =
    next_found (oldest tenant_ref at visited s.claimed none s.dispatches) tenant_ref s

-- `releaseDispatch`
unfoldable pub release_dispatch : String → String → MemoryStore → MemoryStore
release_dispatch tenant_ref dispatch_ref s = record s {
  claimed = delete (store_key tenant_ref dispatch_ref) s.claimed;
}

-- the row that `applyDispatchOutcome` writes
unfoldable pub attempted : Dispatch → DispatchOutcome → Time → Dispatch
attempted d o at =
    if o.published
    then record d { attempts = d.attempts + 1; published = true; published_at = at }
    else if o.dead_letter
    then record d {
      attempts = d.attempts + 1;
      last_error = o.last_error;
      next_attempt_at = 0;
      dead_lettered_at = at;
    }
    else record d {
      attempts = d.attempts + 1;
      last_error = o.last_error;
      next_attempt_at = o.next_attempt_at;
    }

apply_found : Option Dispatch → String → DispatchOutcome → Time → MemoryStore → MemoryStore
unfolding attempted
apply_found none key o at s = s
apply_found (some d) key o at s = record s {
  dispatches = insert key (attempted d o at) s.dispatches;
}

-- `applyDispatchOutcome`
unfoldable pub apply_dispatch_outcome :
    String → String → DispatchOutcome → Time → MemoryStore → MemoryStore
unfolding apply_found
apply_dispatch_outcome tenant_ref dispatch_ref o at s =
    let key = store_key tenant_ref dispatch_ref in apply_found (lookup key s.dispatches) key o at s

abbrev no_deliverer : Err
no_deliverer = joined (sentinel invalid_input) (plain "a dispatch claim requires a deliverer")

abbrev pub Deliverer : Type 0 → Type 0
Deliverer W = Dispatch → W → DispatchOutcome × W

module _ {W : Type 0} where
  -- what follows a claim: the delivery, the record of its outcome, and the release
  unfoldable pub settle :
      Deliverer W → String → String → Time → Dispatch → MemoryStore → W → MemoryStore × W
  unfolding apply_dispatch_outcome release_dispatch
  settle deliver tenant_ref dispatch_ref at d s w =
      let (o, w') = deliver d w in
      (
        release_dispatch tenant_ref dispatch_ref
            (apply_dispatch_outcome tenant_ref dispatch_ref o at s),
        w',
      )

  claim_acquired :
      Option Dispatch
      → Deliverer W
      → String
      → String
      → Time
      → MemoryStore
      → W
      → Result Bool × MemoryStore × W
  unfolding settle
  claim_acquired none deliver tenant_ref dispatch_ref at s w = (ok false, s, w)
  claim_acquired (some d) deliver tenant_ref dispatch_ref at s w =
      let (s', w') = settle deliver tenant_ref dispatch_ref at d s w in (ok true, s', w')

  -- `ClaimDispatch`
  unfoldable pub claim_dispatch :
      Option (Deliverer W)
      → String
      → String
      → Time
      → MemoryStore
      → W
      → Result Bool × MemoryStore × W
  unfolding claim_acquired acquire_dispatch
  claim_dispatch none tenant_ref dispatch_ref at s w = (err no_deliverer, s, w)
  claim_dispatch (some deliver) tenant_ref dispatch_ref at s w =
      let (d, s') = acquire_dispatch tenant_ref dispatch_ref at false s in
      claim_acquired d deliver tenant_ref dispatch_ref at s' w

  -- the loop of `ClaimPendingDispatches`, on the claims that the bound leaves
  unfoldable pub drain :
      Deliverer W → String → Time → ℕ → List String → ℕ → MemoryStore → W → ℕ × MemoryStore × W
  unfolding settle acquire_next_dispatch
  drain deliver tenant_ref at zero visited claimed s w = (claimed, s, w)
  drain deliver tenant_ref at (suc left) visited claimed s w =
      let (found, s') = acquire_next_dispatch tenant_ref at visited s in
      elim found [
        | none ↦ (claimed, s', w)
        | some d ↦
            let (s'', w') = settle deliver tenant_ref d.dispatch_ref at d s' w in
            drain deliver tenant_ref at left (d.dispatch_ref ∷ visited) (claimed + 1) s'' w'
      ]

  -- `ClaimPendingDispatches`; a limit below 0 is as a limit of 0
  unfoldable pub claim_pending_dispatches :
      Option (Deliverer W) → String → ℕ → Time → MemoryStore → W → Result ℕ × MemoryStore × W
  unfolding drain
  claim_pending_dispatches none tenant_ref limit at s w = (err no_deliverer, s, w)
  claim_pending_dispatches (some deliver) tenant_ref limit at s w =
      let (claimed, s', w') =
        drain deliver tenant_ref at (if leb limit 0 then default_dispatch_claim_batch else limit) []
          0 s w in
      (ok claimed, s', w')
