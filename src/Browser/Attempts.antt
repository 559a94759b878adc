-- ===== src/Browser/Attempts.antt =====
-- browserauth/memory_store.go: the login attempts of `MemoryStore`, their counts and their expiry.
-- A `map[K]int` that reads 0 on a missing key is a function. The heap of `container/heap` is the
-- list of its items in the order in which it pops them.
pub mod Counts
pub mod Limits
pub mod Once
use agentnexus.Base.{
  ℕ, ◌+◌, ◌-◌, String, Bool, true, false, not, ◌&&◌, ◌||◌, Option, none, some, List, [], ◌∷◌, ◌=ₛ◌,
  ◌≠ₛ◌, ◌==◌, ltb, leb, if◌then◌else◌, Dict, lookup, insert, delete,
}
use agentnexus.Errors.{
  Err, sentinel, invalid_browser_input, record_not_found, duplicate_record, outstanding_limited,
  Result, ok, err,
}
use agentnexus.Runtime.Types.{Time}
use agentnexus.Browser.Model.{
  LoginAttempt, StoredLoginAttempt, LoginAttemptLimits, default_login_timeout,
}

-- `loginAttemptScope` and `loginAttemptBrowserScope`
pub record Scope : Type 0 where
  pub enterprise_id : String
  pub client_id : String

pub record BrowserScope : Type 0 where
  pub scope : Scope
  pub browser_id_hash : String

abbrev pub same_scope : Scope → Scope → Bool
same_scope a b = a.enterprise_id =ₛ b.enterprise_id && a.client_id =ₛ b.client_id

abbrev pub same_browser : BrowserScope → BrowserScope → Bool
same_browser a b = same_scope a.scope b.scope && a.browser_id_hash =ₛ b.browser_id_hash

abbrev pub scope_of : StoredLoginAttempt → Scope
scope_of a = record { enterprise_id = a.attempt.enterprise_id; client_id = a.attempt.client_id }

abbrev pub browser_of : StoredLoginAttempt → BrowserScope
browser_of a = record { scope = scope_of a; browser_id_hash = a.browser_id_hash }

-- `loginAttemptExpiryItem`
pub record ExpiryItem : Type 0 where
  pub expires_at : Time
  pub state_hash : String
  pub generation : ℕ

pub record AttemptStore : Type 0 where
  pub attempts : Dict StoredLoginAttempt
  pub generations : Dict ℕ
  pub next_generation : ℕ
  pub scope_counts : Scope → ℕ
  pub browser_counts : BrowserScope → ℕ
  pub expiry : List ExpiryItem
  pub err : Option Err

abbrev pub new_attempt_store : AttemptStore
new_attempt_store = record {
  attempts = [];
  generations = [];
  next_generation = 0;
  scope_counts = λ k. 0;
  browser_counts = λ k. 0;
  expiry = [];
  err = none;
}

-- `counts[key]++` and `decrementLoginAttemptCount`
abbrev pub increment {ℓ} : {K : Type ℓ} → (K → K → Bool) → K → (K → ℕ) → K → ℕ
increment same key counts k = if same key k then counts k + 1 else counts k

abbrev pub decrement {ℓ} : {K : Type ℓ} → (K → K → Bool) → K → (K → ℕ) → K → ℕ
decrement same key counts k =
    if same key k then (if leb (counts k) 1 then 0 else counts k - 1) else counts k

-- `heap.Push` under `Less`, which compares the times and then the hashes
module _ (less : String → String → Bool) where
  abbrev pub sooner : ExpiryItem → ExpiryItem → Bool
  sooner a b =
      if a.expires_at == b.expires_at
      then less a.state_hash b.state_hash
      else ltb a.expires_at b.expires_at

  unfoldable pub heap_push : ExpiryItem → List ExpiryItem → List ExpiryItem
  heap_push x [] = x ∷ []
  heap_push x (y ∷ items) =
      let rest = heap_push x items in if sooner x y then x ∷ y ∷ items else y ∷ rest

-- `deleteLoginAttempt`
unfoldable pub delete_attempt : StoredLoginAttempt → AttemptStore → AttemptStore
delete_attempt a s = record s {
  attempts = delete a.state_hash s.attempts;
  generations = delete a.state_hash s.generations;
  scope_counts = decrement same_scope (scope_of a) s.scope_counts;
  browser_counts = decrement same_browser (browser_of a) s.browser_counts;
}

abbrev pub or_zero : Option ℕ → ℕ
or_zero none = 0
or_zero (some n) = n

unfoldable pub expire_found : Option StoredLoginAttempt → ExpiryItem → AttemptStore → AttemptStore
unfolding delete_attempt
expire_found none i s = s
expire_found (some a) i s =
    if not (or_zero (lookup i.state_hash s.generations) == i.generation)
      || not (a.attempt.expires_at == i.expires_at)
    then s
    else delete_attempt a s

-- the loop of `expireLoginAttempts`, over the items of the heap
unfoldable pub expire_items : Time → List ExpiryItem → AttemptStore → AttemptStore
unfolding expire_found
expire_items now [] s = record s { expiry = [] }
expire_items now (i ∷ items) s =
    let rest = expire_items now items (expire_found (lookup i.state_hash s.attempts) i s) in
    if ltb now i.expires_at then record s { expiry = i ∷ items } else rest

-- `expireLoginAttempts`
unfoldable pub expire_attempts : Time → AttemptStore → AttemptStore
unfolding expire_items
expire_attempts now s = expire_items now s.expiry s

-- the row and the counts of a new attempt
abbrev pub added_attempt :
    (String → String → Bool) → StoredLoginAttempt → AttemptStore → AttemptStore
added_attempt less a s = record s {
  attempts = insert a.state_hash a s.attempts;
  next_generation = s.next_generation + 1;
  generations = insert a.state_hash (s.next_generation + 1) s.generations;
  scope_counts = increment same_scope (scope_of a) s.scope_counts;
  browser_counts = increment same_browser (browser_of a) s.browser_counts;
  expiry =
      heap_push less
        (record {
          expires_at = a.attempt.expires_at;
          state_hash = a.state_hash;
          generation = s.next_generation + 1;
        })
        s.expiry;
}

abbrev pub is_there : Option StoredLoginAttempt → Bool
is_there none = false
is_there (some a) = true

-- `CreateLoginAttempt` after the expiry
unfoldable pub admit_attempt :
    (String → String → Bool)
    → StoredLoginAttempt
    → LoginAttemptLimits
    → AttemptStore
    → Option Err × AttemptStore
admit_attempt less a limits s =
    if is_there (lookup a.state_hash s.attempts)
    then (some (sentinel duplicate_record), s)
    else if leb limits.global (s.scope_counts (scope_of a))
        || leb limits.per_browser (s.browser_counts (browser_of a))
    then (some (sentinel outstanding_limited), s)
    else (none, added_attempt less a s)

-- `CreateLoginAttempt`; `ctx.Err()` is asked before and after the lifetime is checked
unfoldable pub create_attempt :
    (String → String → Bool)
    → Option Err
    → StoredLoginAttempt
    → LoginAttemptLimits
    → AttemptStore
    → Option Err × AttemptStore
unfolding admit_attempt expire_attempts
create_attempt less (some e) a limits s = (some e, s)
create_attempt less none a limits s =
    if not (ltb a.attempt.created_at a.attempt.expires_at)
      || ltb default_login_timeout (a.attempt.expires_at - a.attempt.created_at)
    then (some (sentinel invalid_browser_input), s)
    else elim s.err [
      | some e ↦ (some e, s)
      | none ↦ admit_attempt less a limits (expire_attempts a.attempt.created_at s)
    ]

unfoldable pub consume_found :
    Option StoredLoginAttempt
    → String
    → Time
    → AttemptStore
    → Result StoredLoginAttempt × AttemptStore
unfolding delete_attempt
consume_found none binding_hash now s = (err (sentinel record_not_found), s)
consume_found (some a) binding_hash now s =
    if not (ltb now a.attempt.expires_at)
    then (err (sentinel record_not_found), delete_attempt a s)
    else if a.binding_hash ≠ₛ binding_hash
    then (err (sentinel record_not_found), s)
    else (ok a, delete_attempt a s)

-- `ConsumeLoginAttempt`
unfoldable pub consume_attempt :
    Option Err → String → String → Time → AttemptStore → Result StoredLoginAttempt × AttemptStore
unfolding consume_found
consume_attempt (some e) state_hash binding_hash now s = (err e, s)
consume_attempt none state_hash binding_hash now s = elim s.err [
  | some e ↦ (err e, s)
  | none ↦ consume_found (lookup state_hash s.attempts) binding_hash now s
]
