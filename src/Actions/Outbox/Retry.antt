-- ===== src/Actions/Outbox/Retry.antt =====
-- The retry policy of outbox.go: how long a failed intent waits, and when it is given up.
use agentnexus.Base.{
  ℕ, zero, suc, ◌+◌, ◌-◌, ◌*◌, ◌^◌, ◌≤◌, ◌<◌, true, false, ◌≡◌, refl, ◌⊎◌, arith, leb, ltb,
  if◌then◌else◌, [], ◌∷◌, ◌++◌, Bool-cases, inl, inr, leb→le, String, Option, none, some, length,
}
use Prim.Native.Nat.{min}
use native.Mathlib.Nat.{pow-suc}
use native.Mathlib.Numerals.{add-one}
use agentnexus.Actions.Model.{Dispatch}
use agentnexus.Actions.World.{DispatchMessage, Env, Deps}
use agentnexus.Actions.Outbox.{
  max_dispatch_attempts, dispatch_retry_base_delay, dispatch_retry_max_delay, doubled,
  dispatch_retry_delay, deliver, message_of,
}

pow_pos : (k : ℕ) → 0 < 2 ^ k
pow_pos zero = omega arith
pow_pos (suc k) = omega (arith, pow-suc 2 k, pow_pos k)

grows : (d k : ℕ) → d * 2 ≤ d * 2 ^ suc k
grows d k = rw (pow-suc 2 k) (grind (arith, pow_pos k))

doubled_lem :
    (k d : ℕ)
    → d < dispatch_retry_max_delay
    → doubled k d ≡ min (d * 2 ^ k) dispatch_retry_max_delay
unfolding doubled
doubled_lem zero d h = omega arith
doubled_lem (suc k) d h = elim (Bool-cases (leb dispatch_retry_max_delay (d * 2))) [
  | inl over ↦ rw over (omega (arith, grows d k, leb→le _ _ over))
  | inr under ↦
      rw under (rw (doubled_lem k (d * 2) (ground arith)) (rw (pow-suc 2 k) (omega arith)))
]

rounds_left : (n : ℕ) → (if ltb (suc n) 1 then 1 else suc n) - 1 ≡ n
rounds_left n = ground arith

-- After n + 1 failed attempts the backoff is five seconds doubled n times, capped at five
-- minutes.
pub dispatch_retry_delay_lem :
    (n : ℕ)
    → dispatch_retry_delay (suc n)
      ≡ min (dispatch_retry_base_delay * 2 ^ n) dispatch_retry_max_delay
unfolding dispatch_retry_delay
dispatch_retry_delay_lem n = rw (rounds_left n) (doubled_lem n _ (omega arith))

delay_at_zero : dispatch_retry_delay 0 ≡ dispatch_retry_base_delay
unfolding dispatch_retry_delay
delay_at_zero = refl

delay_at_one : dispatch_retry_delay (0 + 1) ≡ dispatch_retry_base_delay
unfolding dispatch_retry_delay
delay_at_one = refl

-- The backoff lies between five seconds and five minutes, and never falls with one more attempt.
pub dispatch_retry_delay_bounds :
    (n : ℕ)
    → (dispatch_retry_base_delay ≤ dispatch_retry_delay n)
      × (dispatch_retry_delay n ≤ dispatch_retry_max_delay)
      × (dispatch_retry_delay n ≤ dispatch_retry_delay (n + 1))
dispatch_retry_delay_bounds zero =
    rw (delay_at_zero, delay_at_one) (omega arith, omega arith, omega arith)
dispatch_retry_delay_bounds (suc n) =
    rw (add-one (suc n), dispatch_retry_delay_lem n, dispatch_retry_delay_lem (suc n), pow-suc 2 n)
      (omega (arith, pow_pos n), omega arith, omega arith)

-- One delivery attempt hands the transport one message, the intent's own. Where the transport
-- takes it, the outcome is published. Where the transport fails, the outcome keeps the text of its
-- error and is not published: it is given up from the eighth attempt on, and before that it is
-- scheduled again, after the clock's reading by the backoff of the failed attempts.
pub deliver_outcome :
    (publish : ℕ → DispatchMessage → Option String) (deps : Deps) (d : Dispatch) (w : Env)
    → let (o, w') = deliver publish deps d w in
      let answer = publish (length w.sent) (message_of d) in
      (w'.sent ≡ w.sent ++ (message_of d ∷ []))
      × (((answer ≡ none) × (o.published ≡ true))
          ⊎ ((text : String) × (answer ≡ some text)
              × (o.published ≡ false)
              × (o.last_error ≡ text)
              × (((o.dead_letter ≡ true) × (max_dispatch_attempts ≤ d.attempts + 1))
                  ⊎ ((o.dead_letter ≡ false)
                      × (d.attempts + 1 < max_dispatch_attempts)
                      × (o.next_attempt_at
                          ≡ deps.clock w.ticks + dispatch_retry_delay (d.attempts + 1))
                      × (deps.clock w.ticks < o.next_attempt_at)))))
unfolding deliver
deliver_outcome publish deps d w = ground (arith, dispatch_retry_delay_bounds (d.attempts + 1))
