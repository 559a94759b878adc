-- ===== src/Actions/World.antt =====
-- The state that one call of the service sees, and what the code takes from outside: service.go's
-- `Service` with the in-memory ports of model.go. The clock, the identifiers, the transport, the
-- decision-provider verification and the receipt verification are parameters.
use Prim.Native.String
use agentnexus.Base.{
  ℕ, zero, suc, ◌+◌, ◌/◌, ◌%◌, String, Bool, true, Option, none, some, List, [], ◌∷◌, ◌++◌, Dict,
  lookup, insert, ◌==◌, if◌then◌else◌,
}
use agentnexus.Errors.{
  Err, sentinel, joined, unavailable, evidence_rejected, not_found, evidence_consumed, Result, ok,
  err,
}
use agentnexus.Runtime.Types.{Time, PrincipalContext}
use agentnexus.Runtime.Receipt.{ActionReceipt, Codec}
use agentnexus.Actions.Model.{ConsumedEvidence, AuditEvent, DispatchKind}
use agentnexus.Actions.Store.{store_key, MemoryStore, flag}

-- outbox.go, `DispatchMessage`
pub record DispatchMessage : Type 0 where
  pub tenant_ref : String
  pub action_ref : String
  pub dispatch_ref : String
  pub capability : String
  pub parameter_hash : String
  pub grant_ref : String
  pub kind : DispatchKind

-- MemoryEvidenceConsumer
pub record EvidenceStore : Type 0 where
  pub records : Dict ConsumedEvidence
  pub consumed : Dict Bool
  pub revoked : Dict Bool

-- MemoryAuditSink
pub record AuditSink : Type 0 where
  pub events : List AuditEvent
  pub fail : Option Err
  pub minted : ℕ

-- What the clock, the identifier generator and the transport have been asked so far.
pub record Env : Type 0 where
  pub ticks : ℕ
  pub minted : ℕ
  pub sent : List DispatchMessage

pub record World : Type 0 where
  pub store : MemoryStore
  pub evidence : EvidenceStore
  pub audit : AuditSink
  pub env : Env

-- The wiring of a `Service`. `ready` says that the receiver, its store, its audit sink, its clock
-- and its identifier generator are there, which `guard` tests; an optional port may be nil.
pub record Deps : Type 0 where
  pub ready : Bool
  pub codec : Codec
  -- the n-th reading of the clock, and the n-th identifier under a prefix
  pub clock : ℕ → Time
  pub new_id : ℕ → String → String
  -- the n-th publish, with the text of its error
  pub publisher : Option (ℕ → DispatchMessage → Option String)
  pub evidence_wired : Bool
  pub providers : Option (String → PrincipalContext → String → String → Option Err)
  pub receipts : Option (String → ActionReceipt → Option Err)

-- A call returns a value or an error, and the state that it leaves.
abbrev pub M : Type 0 → Type 0
M A = World → Result A × World

abbrev pub carry_on : {A B : Type 0} → Result A → (A → M B) → M B
carry_on (ok a) f w = f a w
carry_on (err e) f w = (err e, w)

infixl 5 ◌>>=◌ ◌>>◌
unfoldable pub ◌>>=◌ : {A B : Type 0} → M A → (A → M B) → M B
◌>>=◌ m f w = let (r, w') = m w in carry_on r f w'

abbrev pub ◌>>◌ : {A B : Type 0} → M A → M B → M B
m >> n = m >>= λ _. n

abbrev pub lift : {A : Type 0} → Result A → M A
lift r w = (r, w)

abbrev pub reads : {A : Type 0} → (World → Result A) → M A
reads f w = (f w, w)

-- an early return of an error, where a validator found one
abbrev pub stop_on : Option Err → M (Unit {0})
stop_on none w = (ok tt, w)
stop_on (some e) w = (err e, w)

-- `guard`, with what `ctx.Err()` answers
unfoldable pub guard : Deps → Option Err → Option Err
guard d ctx =
    if d.ready
    then elim ctx [ none ↦ none | some e ↦ some (joined (sentinel unavailable) e) ]
    else some (sentinel unavailable)

-- `s.now().UTC()` and `s.newID(prefix)`
unfoldable pub now : Deps → M Time
now d w = (ok (d.clock w.env.ticks), record w { env = record w.env { ticks = w.env.ticks + 1 } })

unfoldable pub new_id : Deps → String → M String
new_id d prefix w = (
  ok (d.new_id w.env.minted prefix),
  record w { env = record w.env { minted = w.env.minted + 1 } },
)

unfoldable pub consume_found :
    Option ConsumedEvidence → String → EvidenceStore → Result ConsumedEvidence × EvidenceStore
consume_found none key c = (err (sentinel not_found), c)
consume_found (some r) key c =
    if flag (lookup key c.consumed)
    then (err (sentinel evidence_consumed), c)
    else (ok r, record c { consumed = insert key true c.consumed })

-- `ConsumeApprovalEvidence`
unfoldable pub consume_approval_evidence :
    String → String → EvidenceStore → Result ConsumedEvidence × EvidenceStore
unfolding consume_found
consume_approval_evidence tenant_ref plan_ref c =
    let key = store_key tenant_ref plan_ref in
    if flag (lookup key c.revoked)
    then (err (sentinel evidence_rejected), c)
    else consume_found (lookup key c.records) key c

-- `Seed` and `Revoke`
unfoldable pub seed : String → ConsumedEvidence → EvidenceStore → EvidenceStore
seed tenant_ref e c = record c { records = insert (store_key tenant_ref e.plan_ref) e c.records }

unfoldable pub revoke : String → String → EvidenceStore → EvidenceStore
revoke tenant_ref plan_ref c = record c {
  revoked = insert (store_key tenant_ref plan_ref) true c.revoked;
}

digit : ℕ → String
digit n =
    if n == 0
    then "0"
    else if n == 1
    then "1"
    else if n == 2
    then "2"
    else if n == 3
    then "3"
    else if n == 4
    then "4"
    else if n == 5
    then "5"
    else if n == 6
    then "6"
    else if n == 7
    then "7"
    else if n == 8
    then "8"
    else "9"

-- the loop of `itoa`: a number of n has at most n digits, so n rounds are enough
digits : ℕ → ℕ → String → String
unfolding digit
digits zero n acc = acc
digits (suc fuel) n acc =
    let rest = digits fuel (n / 10) (String.◌++◌ (digit (n % 10)) acc) in
    if n == 0 then acc else rest

unfoldable pub itoa : ℕ → String
unfolding digits
itoa n = if n == 0 then "0" else digits n n ""

-- `AppendActionAudit`
unfoldable pub append_action_audit : AuditEvent → AuditSink → Result String × AuditSink
append_action_audit event s = elim s.fail [
  | some e ↦ (err e, s)
  | none ↦ (
    ok (String.◌++◌ "actionaudit_" (itoa (s.minted + 1))),
    record s { events = s.events ++ (event ∷ []); minted = s.minted + 1 },
  )
]
