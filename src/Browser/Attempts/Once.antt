-- ===== src/Browser/Attempts/Once.antt =====
-- browserauth/memory_store.go: a login attempt is consumed once, in time, and with its binding.
use agentnexus.Base.{
  ◌<◌, String, Bool, true, false, Option, none, some, ◌≡◌, refl, subst, arith, if◌then◌else◌, ◌≠ₛ◌,
  eq_iff, lookup, lookup-delete, not, ltb,
}
use agentnexus.Errors.{Err, Result, ok, err, sentinel, record_not_found}
use agentnexus.Runtime.Types.{Time}
use agentnexus.Browser.Model.{StoredLoginAttempt, LoginAttemptLimits}
use agentnexus.Browser.Attempts.{AttemptStore, delete_attempt, consume_attempt, consume_found}
use agentnexus.Browser.Attempts.Limits.{Limited}

-- what an attempt that is answered has been checked for
pub record Consumed (state_hash binding_hash : String) (now : Time) (s s' : AttemptStore)
    (a : StoredLoginAttempt) : Type 0 where
  pub found : lookup state_hash s.attempts ≡ some a
  pub in_time : now < a.attempt.expires_at
  pub bound : a.binding_hash ≡ binding_hash
  pub up : s.err ≡ none
  pub left : s' ≡ delete_attempt a s

deleted :
    (s : AttemptStore) (a : StoredLoginAttempt) (key : String)
    → a.state_hash ≡ key
    → lookup key (delete_attempt a s).attempts ≡ none
unfolding delete_attempt
deleted s a key same =
    rw (lookup-delete a.state_hash key s.attempts, (eq_iff a.state_hash key).1 same)

still_up :
    (s : AttemptStore) (a : StoredLoginAttempt) → s.err ≡ none → (delete_attempt a s).err ≡ none
unfolding delete_attempt
still_up s a up = up

consume_found-Consumed :
    (o : Option StoredLoginAttempt) (state_hash binding_hash : String) (now : Time)
    (s : AttemptStore) (a : StoredLoginAttempt)
    → lookup state_hash s.attempts ≡ o
    → s.err ≡ none
    → (consume_found o binding_hash now s).0 ≡ ok a
    → Consumed state_hash binding_hash now s (consume_found o binding_hash now s).1 a
unfolding consume_found
consume_found-Consumed none state_hash binding_hash now s a at up h = cc h
consume_found-Consumed (some b) state_hash binding_hash now s a at up h =
    go (not (ltb now b.attempt.expires_at)) (b.binding_hash ≠ₛ binding_hash) refl refl h
  where
    go :
        (late other : Bool)
        → not (ltb now b.attempt.expires_at) ≡ late
        → (b.binding_hash ≠ₛ binding_hash) ≡ other
        → let r : Result StoredLoginAttempt × AttemptStore =
            if late
            then (err (sentinel record_not_found), delete_attempt b s)
            else if other
            then (err (sentinel record_not_found), s)
            else (ok b, delete_attempt b s) in
          r.0 ≡ ok a → Consumed state_hash binding_hash now s r.1 a
    go true other e e' h = cc h
    go false true e e' h = cc h
    go false false e e' h =
        let same : b ≡ a = cc h in
        subst (λ x. Consumed state_hash binding_hash now s (delete_attempt b s) x) same
          (record {
            found = at;
            in_time = ground arith;
            bound = (eq_iff _ _).0 (ground arith);
            up = up;
            left = refl;
          })

consume_attempt-Consumed :
    (ctx : Option Err) (state_hash binding_hash : String) (now : Time) (s : AttemptStore)
    (a : StoredLoginAttempt)
    → (consume_attempt ctx state_hash binding_hash now s).0 ≡ ok a
    → Consumed state_hash binding_hash now s (consume_attempt ctx state_hash binding_hash now s).1 a
unfolding consume_attempt
consume_attempt-Consumed (some e) state_hash binding_hash now s a h = cc h
consume_attempt-Consumed none state_hash binding_hash now s a h = go s.err refl h
  where
    go :
        (o : Option Err)
        → s.err ≡ o
        → let r : Result StoredLoginAttempt × AttemptStore = elim o [
          | some e ↦ (err e, s)
          | none ↦ consume_found (lookup state_hash s.attempts) binding_hash now s
        ] in
          r.0 ≡ ok a → Consumed state_hash binding_hash now s r.1 a
    go (some e) down h = cc h
    go none up h =
        consume_found-Consumed (lookup state_hash s.attempts) state_hash binding_hash now s a refl
          up h

missing :
    (state_hash binding_hash : String) (now : Time) (s : AttemptStore)
    → s.err ≡ none
    → lookup state_hash s.attempts ≡ none
    → consume_attempt none state_hash binding_hash now s ≡ (err (sentinel record_not_found), s)
unfolding consume_attempt consume_found
missing state_hash binding_hash now s up gone = ground arith

-- A login attempt that is answered was outstanding, had not expired and was asked for with its
-- own binding; and asking for it again, with any binding and at any time, finds nothing and
-- changes nothing.
pub consume_attempt_once :
    (limits : LoginAttemptLimits) (ctx : Option Err) (state_hash binding_hash other : String)
    (now later : Time) (s : AttemptStore) (a : StoredLoginAttempt)
    → Limited limits s
    → (consume_attempt ctx state_hash binding_hash now s).0 ≡ ok a
    → let s' = (consume_attempt ctx state_hash binding_hash now s).1 in
      (lookup state_hash s.attempts ≡ some a)
      × (now < a.attempt.expires_at)
      × (a.binding_hash ≡ binding_hash)
      × (consume_attempt none state_hash other later s' ≡ (err (sentinel record_not_found), s'))
consume_attempt_once limits ctx state_hash binding_hash other now later s a h done =
    let c = consume_attempt-Consumed ctx state_hash binding_hash now s a done in
    let key : a.state_hash ≡ state_hash = h.keyed state_hash a c.found in
    let gone : lookup state_hash (delete_attempt a s).attempts ≡ none =
      deleted s a state_hash key in
    let s' = (consume_attempt ctx state_hash binding_hash now s).1 in
    (
      c.found,
      c.in_time,
      c.bound,
      missing state_hash other later s' (rw c.left (still_up s a c.up)) (rw c.left gone),
    )
