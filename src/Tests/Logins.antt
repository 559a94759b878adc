-- ===== src/Tests/Logins.antt =====
-- A browser session with a code and its token, login attempts, and calls to the rate limiter.
use agentnexus.Base.Grows.{written_or_old}
use agentnexus.Base.{
  ◌⊎◌, ◌≢◌, subst, Bool, ◌<◌, insert, str_eq_refl, String, true, false, Option, none, some, List,
  [], ◌∷◌, ◌≡◌, refl, arith, lookup, inl, inr,
}
use agentnexus.Browser.Attempts.{AttemptStore, new_attempt_store, consume_attempt, create_attempt}
use agentnexus.Browser.Attempts.Limits.{
  Limited, AttemptCall, begin_login, finish_login, attempt_run, attempt_run-Limited,
}
use agentnexus.Browser.Attempts.Once.{consume_attempt_once}
use agentnexus.Browser.RateLimit.{RateCall, key_of, canonical_sha256_hex}
use agentnexus.Browser.RateLimit.Windows.{allowed, asked, allowed-min}
use Prim.Native.Nat.{min}
use Prim.Native.String.{compare}
use text.Mathlib.Text.{is_lt}
use agentnexus.Errors.{ok, err, sentinel, record_not_found, is_ok}
use agentnexus.Runtime.Types.{Time}
use agentnexus.Browser.Model.{
  StoredSession, StoredCode, StoredToken, ExchangeRequest, StoredLoginAttempt, LoginAttemptLimits,
}
use agentnexus.Browser.Sessions.{
  BrowserStore, TokenUse, issued_token, consumed_code, revoke_session, binding_key, use_session,
  use_token, exchange_code,
}
use agentnexus.Browser.Sessions.Steps.{Step, BelongsTo}
use agentnexus.Browser.Sessions.Sound.{Sound, Ages, EndsWith}
use agentnexus.Browser.Sessions.Runs.{
  StoreCall, see_session, end_session, redeem_code, see_token, store_exec, store_run,
  store_exec-Step, store_run-Sound, revoked_for_good, redeemed_once,
}

abbrev plain : String → Option String
plain s = some s

abbrev session : StoredSession
session = record {
  id_hash = "s1";
  enterprise_id = "acme";
  user_id = "ada";
  created_at = 1;
  last_seen_at = 1;
  idle_expires_at = 50;
  absolute_expires_at = 100;
  revoked_at = none;
  user_agent_hash = "";
}

abbrev code : StoredCode
code = record {
  code_hash = "c1";
  enterprise_id = "acme";
  user_id = "ada";
  client_id = "console";
  redirect_uri = "https://console";
  nonce = "n";
  code_challenge = "v";
  created_at = 2;
  expires_at = 20;
  consumed_at = none;
  session_hash = "s1";
  token_expires_at = 0;
}

abbrev exchange : ExchangeRequest
exchange = record {
  code_hash = "c1";
  verifier_digest = "v";
  client_id = "console";
  redirect_uri = "https://console";
  now = 10;
  token_hash = "t1";
  audience = "api";
}

abbrev use_at_11 : TokenUse
use_at_11 = record { client_id = "console"; audience = "api"; enterprise_id = "acme"; now = 11 }

-- one session, one code of it, no token yet
abbrev logged_in : BrowserStore
logged_in = record {
  users = (binding_key "acme" "ada", true) ∷ [];
  sessions = ("s1", session) ∷ [];
  codes = ("c1", code) ∷ [];
  tokens = [];
  err = none;
}

-- the same after the code's exchange and the session's end
abbrev ended_session : StoredSession
ended_session = record session { revoked_at = some 12 }

abbrev token : StoredToken
token = issued_token code exchange 100

abbrev logged_out : BrowserStore
logged_out = record logged_in {
  sessions = ("s1", ended_session) ∷ [];
  codes = ("c1", consumed_code code 10) ∷ [];
  tokens = ("t1", token) ∷ [];
}

no_row : {A : Type 0} (k : String) (a : A) → lookup k [] ≡ some a → ⊥
unfolding lookup
no_row k a h = cc h

one_row :
    {A : Type 0} (P : String → A → Type 0) (key k : String) (row a : A)
    → P key row
    → lookup k ((key, row) ∷ []) ≡ some a
    → P k a
unfolding insert
one_row P key k row a h found = elim (written_or_old key k row a [] found) [
  | inl (same, there) ↦ subst (λ j. P j a) same (subst (P key) there h)
  | inr old ↦ absurd (no_row k a old)
]

first_row : {A : Type 0} (key : String) (a : A) → lookup key ((key, a) ∷ []) ≡ some a
unfolding lookup
first_row key a = rw (str_eq_refl key) refl

logged_in-Sound : Sound logged_in
logged_in-Sound = record {
  keyed = record { session = λ k a. one_row (λ k x. x.id_hash ≡ k) "s1" k session a refl };
  code = λ k a.
      one_row
        (λ k x.
          (r : StoredSession) × (lookup x.session_hash logged_in.sessions ≡ some r) × BelongsTo x r)
        "c1" k code a
        (session, first_row "s1" session, record { enterprise_id = refl; user_id = refl });
  token = λ key t found. absurd (no_row key t found);
}

logged_out-Sound : Sound logged_out
logged_out-Sound = record {
  keyed = record { session = λ k a. one_row (λ k x. x.id_hash ≡ k) "s1" k ended_session a refl };
  code = λ k a.
      one_row
        (λ k x.
          (r : StoredSession) × (lookup x.session_hash logged_out.sessions ≡ some r)
          × BelongsTo x r)
        "c1" k (consumed_code code 10) a
        (
          ended_session,
          first_row "s1" ended_session,
          record { enterprise_id = refl; user_id = refl },
        );
  token = λ k a.
      one_row
        (λ k x.
          (r : StoredSession) × (lookup x.session_hash logged_out.sessions ≡ some r) × EndsWith x r)
        "t1" k token a
        (
          ended_session,
          first_row "s1" ended_session,
          record { enterprise_id = refl; user_id = refl; expires_at = refl },
        );
}

store_exec-Step_example : Step logged_in (store_exec plain (redeem_code none exchange) logged_in)
store_exec-Step_example =
    store_exec-Step plain (redeem_code none exchange) logged_in logged_in-Sound

abbrev busy : List StoreCall
busy = redeem_code none exchange ∷ see_token none "t1" use_at_11 ∷ end_session none "s1" 12 ∷ []

store_run-Sound_example :
    Sound (store_run plain busy logged_in) × Ages logged_in (store_run plain busy logged_in)
store_run-Sound_example = store_run-Sound plain busy logged_in logged_in-Sound

-- the calls do what they are there for
busy_run : lookup "t1" (store_run plain busy logged_in).tokens ≡ some token
unfolding store_run store_exec exchange_code use_token revoke_session lookup insert
busy_run = refl

abbrev knocks : List StoreCall
knocks = see_session none "s1" 13 5 ∷ []

knocks_run : store_run plain knocks logged_out ≡ logged_out
unfolding store_run store_exec use_session lookup
knocks_run = refl

revoked_for_good_example :
    let s' = store_run plain knocks logged_out in
    ((use_session none "s1" 14 5 s').1 ≡ s')
    × (is_ok (use_session none "s1" 14 5 s').0 ≡ false)
    × ((((use_token none "t1" use_at_11 s').1 ≡ s')
          × (is_ok (use_token none "t1" use_at_11 s').0 ≡ false))
        ⊎ ((t : StoredToken) × (lookup "t1" s'.tokens ≡ some t) × (t.session_hash ≢ "s1")))
revoked_for_good_example =
    revoked_for_good plain knocks logged_out "s1" ended_session 12 none 14 5 "t1" use_at_11
      logged_out-Sound (first_row "s1" ended_session) refl

exchange_ok : is_ok (exchange_code plain none exchange logged_in).0 ≡ true
unfolding exchange_code lookup
exchange_ok = refl

redeemed_once_example :
    let s' = store_run plain knocks (exchange_code plain none exchange logged_in).1 in
    ((exchange_code plain none exchange s').1 ≡ s')
    × (is_ok (exchange_code plain none exchange s').0 ≡ false)
redeemed_once_example =
    redeemed_once plain knocks none none exchange exchange logged_in logged_in-Sound exchange_ok
      refl

-- login attempts
abbrev attempt : StoredLoginAttempt
attempt = record {
  state_hash = "a1";
  binding_hash = "b1";
  browser_id_hash = "w1";
  attempt = record {
    enterprise_id = "acme";
    client_id = "console";
    redirect_uri = "https://console";
    console_state = "";
    console_nonce = "";
    code_challenge = "v";
    upstream_nonce = "";
    created_at = 1;
    expires_at = 9;
  };
}

abbrev limits : LoginAttemptLimits
limits = record { per_browser = 2; global = 3 }

abbrev earlier : String → String → Bool
earlier a b = is_lt (compare a b)

new_attempt_store-Limited : Limited limits new_attempt_store
new_attempt_store-Limited = record {
  unique = tt;
  keyed = λ key a found. absurd (no_row key a found);
  scopes = λ k. refl;
  browsers = λ k. refl;
  global = λ k. omega arith;
  per_browser = λ k. omega arith;
}

abbrev logins : List AttemptCall
logins = begin_login none attempt ∷ finish_login none "a1" "b1" 4 ∷ []

attempt_run-Limited_example : Limited limits (attempt_run earlier limits logins new_attempt_store)
attempt_run-Limited_example =
    attempt_run-Limited earlier limits logins new_attempt_store new_attempt_store-Limited

abbrev one_attempt : AttemptStore
one_attempt = attempt_run earlier limits (begin_login none attempt ∷ []) new_attempt_store

one_attempt-Limited : Limited limits one_attempt
one_attempt-Limited =
    attempt_run-Limited earlier limits (begin_login none attempt ∷ []) new_attempt_store
      new_attempt_store-Limited

consume_ok : (consume_attempt none "a1" "b1" 4 one_attempt).0 ≡ ok attempt
unfolding consume_attempt attempt_run create_attempt lookup insert
consume_ok = refl

consume_attempt_once_example :
    let s' = (consume_attempt none "a1" "b1" 4 one_attempt).1 in
    (lookup "a1" one_attempt.attempts ≡ some attempt)
    × (4 < attempt.attempt.expires_at)
    × (attempt.binding_hash ≡ "b1")
    × (consume_attempt none "a1" "b2" 5 s' ≡ (err (sentinel record_not_found), s'))
consume_attempt_once_example =
    consume_attempt_once limits none "a1" "b1" "b2" 4 5 one_attempt attempt one_attempt-Limited
      consume_ok

-- the rate limiter
abbrev a_hash : String
a_hash = "0123456789abcdef0123456789abcdef0123456789abcdef0123456789abcdef"

abbrev call_at : Time → RateCall
call_at now = record {
  ctx = none;
  enterprise_id = "acme";
  client_id = "console";
  source_hash = a_hash;
  now = now;
}

abbrev three_calls : List RateCall
three_calls = call_at 5 ∷ call_at 6 ∷ call_at 7 ∷ []

three_asked : asked (key_of (call_at 5)) three_calls ≡ 3
unfolding canonical_sha256_hex
three_asked = refl

allowed-min_example :
    allowed 2 (key_of (call_at 5)) three_calls (λ k. 0)
    ≡ min 2 (asked (key_of (call_at 5)) three_calls)
allowed-min_example =
    allowed-min 2 (key_of (call_at 5)) 0 three_calls (omega arith, (omega arith, (omega arith, tt)))
