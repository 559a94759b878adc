-- ===== src/Tests/Consoles.antt =====
-- A console that logs in: a session, a code for it, and the code's exchange.
use agentnexus.Base.{
  ◌||◌, not, false, String, none, some, [], ◌∷◌, ◌≡◌, refl, lookup, insert, ◌=ₛ◌, if◌then◌else◌,
}
use agentnexus.Errors.{
  ok, invalid_session, session_unavailable, invalid_browser_grant, browser_grant_unavailable,
  invalid_access_token, access_token_unavailable, invalid_login_attempt, login_attempt_unavailable,
}
use agentnexus.Runtime.Format.{is_digit, all_chars}
use agentnexus.Browser.Model.{StoredSession}
use agentnexus.Browser.Attempts.{new_attempt_store}
use agentnexus.Browser.Sessions.{
  BrowserStore, add_user, create_session as put_session, use_session, create_code,
  exchange_code as exchange_stored,
}
use agentnexus.Browser.Sessions.Sound.{Sound}
use agentnexus.Browser.Sessions.Runs.{
  StoreCall, enrol, open_session, see_session, store_exec, store_run, store_run-Sound,
}
use agentnexus.Browser.Service.{
  Secrets, IssueCodeInput, ExchangeCodeInput, ExchangeResult, TokenCaller, get_session,
  revoke_session, logout_session, issue_code, issue_for, issue_with, coded, exchange_code,
  redeem_with, get_access_token_session, logout_access_token_session, consume_login_attempt,
  valid_opaque_secret, valid_generated_secret, valid_s256_challenge, valid_bounded,
  valid_pkce_verifier, exchange_result, new_session,
}
use agentnexus.Browser.Service.Answers.{
  Answers, live_session, live_token, ending_token, live_attempt,
}
use agentnexus.Browser.Service.Errors.{exchange_failed, exchange_good, masked_errors}
use agentnexus.Browser.Sessions.{is_there}
use agentnexus.Browser.Service.{exchangeable, use_of, max_client_id_length}
use agentnexus.Browser.Service.Codes.{Bound, exchange_code-Bound}

abbrev token : String
token = "0123456789abcdef0123456789abcdef0123456789abcdef0123456789abcdef"

abbrev bytes : String
bytes = "fedcba9876543210fedcba9876543210fedcba9876543210fedcba9876543210"

abbrev access : String
access = "abababababababababababababababababababababababababababababababab"

abbrev code : String
code = "_tz6mHZUMhD-3LqYdlQyEP7cuph2VDIQ_ty6mHZUMhA"

abbrev plain : Secrets
plain = record {
  hash_hex = λ text. text;
  decode = λ text. if text =ₛ code then some bytes else some text;
  encode = λ text. if text =ₛ bytes then code else text;
}

abbrev empty : BrowserStore
empty = record { users = []; sessions = []; codes = []; tokens = []; err = none }

empty-Sound : Sound empty
unfolding lookup
empty-Sound = record {
  keyed = record { session = λ k r found. cc found };
  code = λ k c found. cc found;
  token = λ k t found. cc found;
}

abbrev session : StoredSession
session =
    new_session plain (record { enterprise_id = "acme"; user_id = "ada"; user_agent = "" }) token 5

abbrev opened : BrowserStore
opened = store_run plain.decode (enrol "acme" "ada" ∷ open_session none session ∷ []) empty

opened-Sound : Sound opened
opened-Sound =
    (store_run-Sound plain.decode (enrol "acme" "ada" ∷ open_session none session ∷ []) empty
      empty-Sound).0

abbrev asked : IssueCodeInput
asked = record {
  enterprise_id = "acme";
  user_id = "ada";
  browser_session_token = token;
  client_id = "console";
  redirect_uri = "https://console";
  nonce = "n";
  code_challenge = token;
}

abbrev returned : ExchangeCodeInput
returned = record {
  code = code;
  verifier = token;
  client_id = "console";
  redirect_uri = "https://console";
}

abbrev meanwhile : StoreCall
meanwhile = see_session none token 20 100

abbrev issued : BrowserStore
issued = (issue_code plain none asked 10 (ok code) 11 opened).1

issue_ok : (issue_code plain none asked 10 (ok code) 11 opened).0 ≡ ok code
unfolding issue_code issue_for issue_with coded store_run store_exec add_user put_session
    use_session create_code lookup insert valid_opaque_secret valid_generated_secret
    valid_s256_challenge valid_bounded
issue_ok = refl

abbrev exchanged : ExchangeResult
exchanged = exchange_result plain access 31 (record {
  code_hash = code;
  enterprise_id = "acme";
  user_id = "ada";
  client_id = "console";
  redirect_uri = "https://console";
  nonce = "n";
  code_challenge = token;
  created_at = 11;
  expires_at = 60_000_000_011;
  consumed_at = some 30;
  session_hash = token;
  token_expires_at = 86_400_000_000_005;
})

exchange_ok :
    (exchange_code plain none returned
      (ok access)
      30
      31
      (store_run plain.decode (meanwhile ∷ []) issued)).0
    ≡ ok exchanged
unfolding exchange_code redeem_with exchange_stored issue_code issue_for issue_with coded store_run
    store_exec add_user put_session use_session create_code lookup insert valid_opaque_secret
    valid_generated_secret valid_s256_challenge valid_bounded valid_pkce_verifier is_digit all_chars
exchange_ok = refl

exchange_code-Bound_example :
    Bound plain asked 11 returned 30 (store_run plain.decode (meanwhile ∷ []) issued) exchanged
exchange_code-Bound_example =
    exchange_code-Bound plain none none asked 10 11 (ok code) (ok access) opened code
      (meanwhile ∷ []) returned 30 31 exchanged opened-Sound issue_ok refl exchange_ok

abbrev caller : TokenCaller
caller = record { client_id = "console"; audience = "console"; enterprise_id = "acme" }

masked_errors_example :
    Answers invalid_session session_unavailable
      (token =ₛ "")
      false
      (live_session (lookup token opened.sessions) 5)
      (get_session plain none token 5 opened).0
    × Answers invalid_session session_unavailable
        (token =ₛ "")
        false
        (is_there (lookup token opened.sessions))
        (revoke_session plain none token 5 opened).0
    × Answers invalid_session session_unavailable
        (not (valid_generated_secret plain token))
        false
        (live_session (lookup token opened.sessions) 5)
        (logout_session plain none token 5 opened).0
    × Answers invalid_browser_grant browser_grant_unavailable
        (not (exchangeable plain returned))
        (exchange_failed plain none returned (ok access) 5 opened)
        (exchange_good plain returned (ok access) 5 opened)
        (exchange_code plain none returned (ok access) 5 6 opened).0
    × Answers invalid_access_token access_token_unavailable
        (not (valid_generated_secret plain token)
          || not (valid_bounded caller.client_id max_client_id_length)
          || not (valid_bounded caller.audience max_client_id_length)
          || caller.enterprise_id =ₛ "")
        false
        (live_token opened (lookup token opened.tokens) (use_of plain caller 5))
        (get_access_token_session plain none token caller 5 opened).0
    × Answers invalid_access_token session_unavailable
        (not (valid_generated_secret plain token))
        false
        (ending_token opened (lookup token opened.tokens) (use_of plain caller 5))
        (logout_access_token_session plain none token caller 5 opened).0
    × Answers invalid_login_attempt login_attempt_unavailable
        (not (valid_opaque_secret plain code) || not (valid_opaque_secret plain code))
        false
        (live_attempt (lookup code new_attempt_store.attempts) code 5)
        (consume_login_attempt plain none code code 5 new_attempt_store).0
unfolding store_run put_session add_user lookup insert
masked_errors_example =
    masked_errors plain none opened new_attempt_store token code code returned (ok access) caller 5
      6 tt tt
