-- ===== src/Errors.antt =====
-- Go's `error` values. A sentinel is an `errors.New` variable that callers compare with
-- `errors.Is`; `joined` is `errors.Join` and the `%w` wrapping of `fmt.Errorf`; `plain` is an
-- error that carries only a text.
use agentnexus.Base.{ℕ, String, Bool, true, false, ◌||◌, ◌==◌}

pub data Sentinel : Type 0 where
  -- internal/actions
  invalid_input unavailable not_found idempotency_conflict forbidden_transition : Sentinel
  caller_untrusted approval_required evidence_rejected evidence_consumed : Sentinel
  receipt_rejected blind_retry_forbidden compensation_undeclared : Sentinel
  -- internal/tickets
  invalid_action_grant action_grant_consumed : Sentinel
  -- internal/tasks
  task_not_found invalid_task_transition : Sentinel
  -- internal/browserauth
  invalid_session invalid_browser_grant invalid_browser_input invalid_login_attempt : Sentinel
  session_unavailable browser_grant_unavailable login_attempt_unavailable : Sentinel
  login_attempt_limited invalid_access_token access_token_unavailable : Sentinel
  record_not_found invalid_binding duplicate_record outstanding_limited : Sentinel
  authorize_rate_limited authorize_rate_unavailable : Sentinel
  -- internal/tickets, the governed grants
  grant_denied grant_unavailable invalid_step_grant : Sentinel
  -- sdk/go/audit
  unsigned_event bad_algorithm unknown_key revoked_key bad_signature hash_mismatch : Sentinel
  chain_broken sequence_broken tenant_splice raw_payload outcome_assertion : Sentinel
  malformed_audit : Sentinel

pub data Err : Type 0 where
  sentinel : Sentinel → Err
  plain : String → Err
  joined : Err → Err → Err

abbrev code : Sentinel → ℕ
code invalid_input = 0
code unavailable = 1
code not_found = 2
code idempotency_conflict = 3
code forbidden_transition = 4
code caller_untrusted = 5
code approval_required = 6
code evidence_rejected = 7
code evidence_consumed = 8
code receipt_rejected = 9
code blind_retry_forbidden = 10
code compensation_undeclared = 11
code invalid_action_grant = 12
code action_grant_consumed = 13
code task_not_found = 14
code invalid_task_transition = 15
code invalid_session = 16
code invalid_browser_grant = 17
code invalid_browser_input = 18
code invalid_login_attempt = 19
code session_unavailable = 20
code browser_grant_unavailable = 21
code login_attempt_unavailable = 22
code login_attempt_limited = 23
code invalid_access_token = 24
code access_token_unavailable = 25
code record_not_found = 26
code invalid_binding = 27
code duplicate_record = 28
code outstanding_limited = 29
code authorize_rate_limited = 30
code authorize_rate_unavailable = 31
code grant_denied = 32
code grant_unavailable = 33
code invalid_step_grant = 34
code unsigned_event = 35
code bad_algorithm = 36
code unknown_key = 37
code revoked_key = 38
code bad_signature = 39
code hash_mismatch = 40
code chain_broken = 41
code sequence_broken = 42
code tenant_splice = 43
code raw_payload = 44
code outcome_assertion = 45
code malformed_audit = 46

-- `errors.Is(err, target)` at a sentinel target.
abbrev pub errors_is : Err → Sentinel → Bool
errors_is (sentinel s) t = code s == code t
errors_is (plain text) t = false
errors_is (joined a b) t = errors_is a t || errors_is b t

pub data Result {ℓ} (A : Type ℓ) : Type ℓ where
  ok : A → Result A
  err : Err → Result A

abbrev pub is_ok {ℓ} : {A : Type ℓ} → Result A → Bool
is_ok (ok a) = true
is_ok (err e) = false
