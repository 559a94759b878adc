-- ===== src/Browser/Attempts/Limits.antt =====
-- browserauth/memory_store.go: the counts of login attempts are exact, and the limits hold.
use agentnexus.Base.{
  ℕ, ◌+◌, ◌-◌, ◌≤◌, ◌<◌, String, Bool, true, false, not, ◌||◌, Option, none, some, List, [], ◌∷◌,
  ◌≡◌, refl, sym, ◌∙◌, ap, subst, arith, Bool-cases, Option-cases, inl, inr, ◌=ₛ◌, ◌≠ₛ◌, eq_iff,
  leb, ltb, ◌==◌, if◌then◌else◌, Dict, lookup, delete, lookup-delete,
}
use agentnexus.Base.Grows.{written_or_old}
use agentnexus.Errors.{Err}
use agentnexus.Runtime.Types.{Time}
use agentnexus.Browser.Model.{StoredLoginAttempt, LoginAttemptLimits, default_login_timeout}
use agentnexus.Browser.Attempts.{
  Scope, BrowserScope, same_scope, same_browser, scope_of, browser_of, ExpiryItem, AttemptStore,
  delete_attempt, expire_items, expire_attempts, or_zero, expire_found, added_attempt,
  admit_attempt, create_attempt, consume_attempt, consume_found,
}
use agentnexus.Browser.Attempts.Counts.{
  tally, IsUnique, tally-insert, tally-delete, insert-IsUnique, delete-IsUnique,
}

abbrev pub in_scope : Scope → StoredLoginAttempt → Bool
in_scope k a = same_scope (scope_of a) k

abbrev pub in_browser : BrowserScope → StoredLoginAttempt → Bool
in_browser k a = same_browser (browser_of a) k

-- Every attempt stands once, under its own state, the counters count the attempts, and no
-- scope and no browser has more than its limit.
pub record Limited (limits : LoginAttemptLimits) (s : AttemptStore) : Type 0 where
  pub unique : IsUnique s.attempts
  pub keyed :
      (key : String) (a : StoredLoginAttempt) → lookup key s.attempts ≡ some a → a.state_hash ≡ key
  pub scopes : (k : Scope) → s.scope_counts k ≡ tally (in_scope k) s.attempts
  pub browsers : (k : BrowserScope) → s.browser_counts k ≡ tally (in_browser k) s.attempts
  pub global : (k : Scope) → tally (in_scope k) s.attempts ≤ limits.global
  pub per_browser : (k : BrowserScope) → tally (in_browser k) s.attempts ≤ limits.per_browser

scope-eq : (a b : Scope) → same_scope a b ≡ true → a ≡ b
scope-eq a b h =
    ground (arith, eq_iff a.enterprise_id b.enterprise_id, eq_iff a.client_id b.client_id)

browser-eq : (a b : BrowserScope) → same_browser a b ≡ true → a ≡ b
browser-eq a b h =
    ground (arith, scope-eq a.scope b.scope, eq_iff a.browser_id_hash b.browser_id_hash)

-- one decrement and one increment of a counter
counted_down :
    (same : Bool) (count before after : ℕ)
    → count ≡ before
    → after + (if same then 1 else 0) ≡ before
    → (if same then (if leb count 1 then 0 else count - 1) else count) ≡ after
counted_down same count before after h d = ground arith

counted_up :
    (same : Bool) (count before after : ℕ)
    → count ≡ before
    → after ≡ before + (if same then 1 else 0)
    → (if same then count + 1 else count) ≡ after
counted_up same count before after h d = ground arith

module _ (limits : LoginAttemptLimits) where
  deleted_key :
      (m : Dict StoredLoginAttempt) (key k : String) (a : StoredLoginAttempt)
      → lookup k (delete key m) ≡ some a
      → lookup k m ≡ some a
  deleted_key m key k a h = elim (Bool-cases (key =ₛ k)) [
    | inl eq ↦ let clash : none ≡ some a = sym (rw (lookup-delete key k m, eq)) ∙ h in cc clash
    | inr ne ↦ sym (rw (lookup-delete key k m, ne)) ∙ h
  ]

  delete_attempt-Limited :
      (a : StoredLoginAttempt) (s : AttemptStore)
      → lookup a.state_hash s.attempts ≡ some a
      → Limited limits s
      → Limited limits (delete_attempt a s)
  unfolding delete_attempt
  delete_attempt-Limited a s found h =
      let drop = λ (test : StoredLoginAttempt → Bool).
        tally-delete test a.state_hash a s.attempts h.unique found in
      record {
        unique = delete-IsUnique a.state_hash s.attempts h.unique;
        keyed = λ k b at. h.keyed k b (deleted_key s.attempts a.state_hash k b at);
        scopes =
            λ k. counted_down (same_scope (scope_of a) k) _ _ _ (h.scopes k) (drop (in_scope k));
        browsers = λ k.
            counted_down (same_browser (browser_of a) k) _ _ _ (h.browsers k) (drop (in_browser k));
        global = λ k. omega (arith, h.global k, drop (in_scope k));
        per_browser = λ k. omega (arith, h.per_browser k, drop (in_browser k));
      }

  added_attempt-Limited :
      (less : String → String → Bool) (a : StoredLoginAttempt) (s : AttemptStore)
      → lookup a.state_hash s.attempts ≡ none
      → s.scope_counts (scope_of a) < limits.global
      → s.browser_counts (browser_of a) < limits.per_browser
      → Limited limits s
      → Limited limits (added_attempt less a s)
  added_attempt-Limited less a s unused room room' h =
      let more =
        λ (test : StoredLoginAttempt → Bool). tally-insert test a.state_hash a s.attempts unused in
      record {
        unique = insert-IsUnique a.state_hash a s.attempts unused h.unique;
        keyed = λ k b at. elim (written_or_old a.state_hash k a b s.attempts at) [
          | inl (same, row) ↦ sym (ap (λ (x : StoredLoginAttempt). x.state_hash) row) ∙ same
          | inr old ↦ h.keyed k b old
        ];
        scopes = λ k. counted_up (same_scope (scope_of a) k) _ _ _ (h.scopes k) (more (in_scope k));
        browsers = λ k.
            counted_up (same_browser (browser_of a) k) _ _ _ (h.browsers k) (more (in_browser k));
        global = λ k. elim (Bool-cases (same_scope (scope_of a) k)) [
          | inl here ↦
              let at : s.scope_counts k < limits.global =
                subst (λ j. s.scope_counts j < limits.global) (scope-eq (scope_of a) k here) room in
              rw (more (in_scope k), here) (omega (arith, h.scopes k))
          | inr there ↦ rw (more (in_scope k), there) (omega (arith, h.global k))
        ];
        per_browser = λ k. elim (Bool-cases (same_browser (browser_of a) k)) [
          | inl here ↦
              let at : s.browser_counts k < limits.per_browser =
                subst (λ j. s.browser_counts j < limits.per_browser)
                  (browser-eq (browser_of a) k here) room' in
              rw (more (in_browser k), here) (omega (arith, h.browsers k))
          | inr there ↦ rw (more (in_browser k), there) (omega (arith, h.per_browser k))
        ];
      }

  own_row :
      (s : AttemptStore) (key : String) (a : StoredLoginAttempt)
      → Limited limits s
      → lookup key s.attempts ≡ some a
      → lookup a.state_hash s.attempts ≡ some a
  own_row s key a h found = ap (λ k. lookup k s.attempts) (h.keyed key a found) ∙ found

  with_expiry :
      (s : AttemptStore) (items : List ExpiryItem)
      → Limited limits s
      → Limited limits (record s { expiry = items })
  with_expiry s items h = record {
    unique = h.unique;
    keyed = h.keyed;
    scopes = h.scopes;
    browsers = h.browsers;
    global = h.global;
    per_browser = h.per_browser;
  }

  expire_found-Limited :
      (o : Option StoredLoginAttempt) (i : ExpiryItem) (s : AttemptStore)
      → lookup i.state_hash s.attempts ≡ o
      → Limited limits s
      → Limited limits (expire_found o i s)
  unfolding expire_found
  expire_found-Limited none i s at h = h
  expire_found-Limited (some a) i s at h =
      elim (Bool-cases (
        not (or_zero (lookup i.state_hash s.generations) == i.generation)
        || not (a.attempt.expires_at == i.expires_at))) [
          | inl stale ↦ rw (stale, expire_found) h
          | inr due ↦
              rw (due, expire_found) (delete_attempt-Limited a s (own_row s i.state_hash a h at) h)
        ]

  expire_items-Limited :
      (now : Time) (items : List ExpiryItem) (s : AttemptStore)
      → Limited limits s
      → Limited limits (expire_items now items s)
  unfolding expire_items
  expire_items-Limited now [] s h = with_expiry s [] h
  expire_items-Limited now (i ∷ items) s h = elim (Bool-cases (ltb now i.expires_at)) [
    | inl later ↦ rw later (with_expiry s (i ∷ items) h)
    | inr due ↦ rw due (
        expire_items-Limited now items _
          (expire_found-Limited (lookup i.state_hash s.attempts) i s refl h))
  ]

  room_lem : (g c g' c' : ℕ) → (leb g c || leb g' c') ≡ false → (c < g) × (c' < g')
  room_lem g c g' c' h = ground arith

  admit_attempt-Limited :
      (less : String → String → Bool) (a : StoredLoginAttempt) (s : AttemptStore)
      → Limited limits s
      → Limited limits (admit_attempt less a limits s).1
  unfolding admit_attempt
  admit_attempt-Limited less a s h = elim (Option-cases (lookup a.state_hash s.attempts)) [
    | inr (b, taken) ↦ rw (taken, admit_attempt) h
    | inl unused ↦
        elim (Bool-cases (
          leb limits.global (s.scope_counts (scope_of a))
          || leb limits.per_browser (s.browser_counts (browser_of a)))) [
            | inl full ↦ rw (unused, full, admit_attempt) h
            | inr free ↦
                let (room, room') = room_lem _ _ _ _ free in
                rw (unused, free, admit_attempt)
                  (added_attempt-Limited less a s unused room room' h)
          ]
  ]

  create_attempt-Limited :
      (less : String → String → Bool) (ctx : Option Err) (a : StoredLoginAttempt) (s : AttemptStore)
      → Limited limits s
      → Limited limits (create_attempt less ctx a limits s).1
  unfolding create_attempt expire_attempts
  create_attempt-Limited less (some e) a s h = h
  create_attempt-Limited less none a s h =
      elim (Bool-cases (
        not (ltb a.attempt.created_at a.attempt.expires_at)
        || ltb default_login_timeout (a.attempt.expires_at - a.attempt.created_at))) [
          | inl bad ↦ rw (bad, create_attempt) h
          | inr fine ↦ elim (Option-cases s.err) [
            | inr (e, down) ↦ rw (fine, down, create_attempt) h
            | inl up ↦
                rw (fine, up, create_attempt)
                  (admit_attempt-Limited less a _
                    (expire_items-Limited a.attempt.created_at s.expiry s h))
          ]
        ]

  consume_found-Limited :
      (o : Option StoredLoginAttempt) (key binding : String) (now : Time) (s : AttemptStore)
      → lookup key s.attempts ≡ o
      → Limited limits s
      → Limited limits (consume_found o binding now s).1
  unfolding consume_found
  consume_found-Limited none key binding now s at h = h
  consume_found-Limited (some a) key binding now s at h =
      let gone = delete_attempt-Limited a s (own_row s key a h at) h in
      elim (Bool-cases (not (ltb now a.attempt.expires_at))) [
        | inl late ↦ rw (late, consume_found) gone
        | inr early ↦ elim (Bool-cases (a.binding_hash ≠ₛ binding)) [
          | inl other ↦ rw (early, other, consume_found) h
          | inr same ↦ rw (early, same, consume_found) gone
        ]
      ]

  consume_attempt-Limited :
      (ctx : Option Err) (key binding : String) (now : Time) (s : AttemptStore)
      → Limited limits s
      → Limited limits (consume_attempt ctx key binding now s).1
  unfolding consume_attempt
  consume_attempt-Limited (some e) key binding now s h = h
  consume_attempt-Limited none key binding now s h = elim (Option-cases s.err) [
    | inr (e, down) ↦ rw (down, consume_attempt) h
    | inl up ↦
        rw (up, consume_attempt)
          (consume_found-Limited (lookup key s.attempts) key binding now s refl h)
  ]

-- The calls of the login flow, with one configuration of limits.
pub data AttemptCall : Type 0 where
  begin_login : (ctx : Option Err) (a : StoredLoginAttempt) → AttemptCall
  finish_login : (ctx : Option Err) (state_hash binding_hash : String) (now : Time) → AttemptCall

unfoldable pub attempt_run :
    (String → String → Bool) → LoginAttemptLimits → List AttemptCall → AttemptStore → AttemptStore
attempt_run less limits [] s = s
attempt_run less limits (begin_login ctx a ∷ cs) s =
    attempt_run less limits cs (create_attempt less ctx a limits s).1
attempt_run less limits (finish_login ctx state_hash binding_hash now ∷ cs) s =
    attempt_run less limits cs (consume_attempt ctx state_hash binding_hash now s).1

-- Whatever login attempts begin, end or expire, under one configuration of limits and from a
-- state in which this holds: each outstanding attempt stands once, the counters are the numbers
-- of outstanding attempts of each scope and of each browser, and none exceeds its limit.
pub attempt_run-Limited :
    (less : String → String → Bool) (limits : LoginAttemptLimits) (cs : List AttemptCall)
    (s : AttemptStore)
    → Limited limits s
    → Limited limits (attempt_run less limits cs s)
unfolding attempt_run
attempt_run-Limited less limits [] s h = h
attempt_run-Limited less limits (begin_login ctx a ∷ cs) s h =
    attempt_run-Limited less limits cs _ (create_attempt-Limited limits less ctx a s h)
attempt_run-Limited less limits (finish_login ctx state binding now ∷ cs) s h =
    attempt_run-Limited less limits cs _ (consume_attempt-Limited limits ctx state binding now s h)
