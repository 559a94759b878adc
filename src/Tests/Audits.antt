-- ===== src/Tests/Audits.antt =====
-- A signed audit trail of two events.
use Prim.Native.String
use agentnexus.Base.{
  ℕ, zero, suc, ◌+◌, String, true, false, none, some, List, [], ◌∷◌, ◌++◌, ◌≡◌, ◌≢◌, ◌↔◌, refl, map,
  sym, ap, ◌∙◌, length, get_elem?, ◌=ₛ◌, ◌==◌, if◌then◌else◌,
}
use agentnexus.Errors.{ok}
use agentnexus.Runtime.Format.{strip, validate_sha256_ref, is_digit}
use agentnexus.Audit.Event.{
  Event, Crypto, SigningKey, KeyResolver, key_active, zero_signature, pre_image, event_hash_of,
  asserts_outcome, has_raw_payload, signature_algorithm_ed25519, verify_key_material, graph_token,
  has_control_bytes,
}
use agentnexus.Audit.Chain.{
  signed_event, verify_chain, verify_from, verify_event, verify_hash, verify_key, verify_signature,
  sign_ed25519,
}
use agentnexus.Audit.Chain.Verified.{Link}
use agentnexus.Audit.Chain.Positions.{hash_before, verify_chain_iff}
use agentnexus.Audit.Chain.Tamper.{same_end}
use agentnexus.Audit.Chain.Extend.{sign_ed25519-extends}

abbrev crypto : Crypto
crypto = record {
  marshal = λ e. ok (String.◌++◌ e.prev_hash e.id);
  sha256_hex = λ text. text;
  encode_base64 = λ bytes. "AQ==";
  decode_base64 = λ text. if text =ₛ "AQ==" then some (1 ∷ []) else none;
  verify_ed25519 = λ key text bytes. length bytes == 1;
  to_lower = λ text. text;
}

abbrev key : SigningKey
key = record {
  key_id = "k1";
  algorithm = signature_algorithm_ed25519;
  public_key =
      0 ∷ 0 ∷ 0 ∷ 0 ∷ 0 ∷ 0 ∷ 0 ∷ 0 ∷ 0 ∷ 0 ∷ 0 ∷ 0 ∷ 0 ∷ 0 ∷ 0 ∷ 0 ∷ 0 ∷ 0 ∷ 0 ∷ 0 ∷ 0 ∷ 0 ∷ 0 ∷ 0
      ∷ 0 ∷ 0 ∷ 0 ∷ 0 ∷ 0 ∷ 0 ∷ 0 ∷ 0 ∷ [];
  status = key_active;
  created_at = 0;
  revoked_at = 0;
}

abbrev keys : KeyResolver
keys id = if id =ₛ "k1" then some key else none

abbrev blank : Event
blank = record {
  id = "e1";
  tenant_ref = "acme";
  tenant_seq = 1;
  case_ticket_id = "";
  step_grant_id = "";
  actor_user_id = "ada";
  connector_instance_id = "";
  resource_type = "action";
  resource_id = "act_1";
  action = "action.requested";
  decision = "requested";
  input_hash = "";
  output_hash = "";
  evidence_pointer = "";
  status_from = "";
  capability = "erp.order";
  parameter_hash = "";
  grant_ref = "";
  approval_evidence_ref = "";
  receipt_ref = "";
  risk_authority = "";
  agent_client_ref = "";
  agent_release_ref = "";
  org_snapshot_ref = "";
  prev_hash = "";
  signed_at = 5;
  signature = zero_signature;
  event_hash = "";
}

abbrev sign : String → List ℕ
sign text = 1 ∷ []

abbrev first : Event
first = signed_event crypto blank "k1" (1 ∷ []) "sha256:e1"

abbrev second : Event
second = record blank { id = "e2"; tenant_seq = 2; prev_hash = "sha256:e1" }

abbrev second_signed : Event
second_signed = signed_event crypto second "k1" (1 ∷ []) "sha256:sha256:e1e2"

first_accepted : verify_chain crypto (first ∷ []) (some keys) ≡ none
unfolding verify_chain verify_from verify_event verify_hash verify_key verify_signature
    has_raw_payload asserts_outcome event_hash_of verify_key_material graph_token strip
    has_control_bytes is_digit validate_sha256_ref
first_accepted = refl

-- an outcome, a graph and a raw payload are refused
outcome_found : asserts_outcome (λ text. text) (record blank { decision = "goal_met" }) ≡ true
unfolding asserts_outcome graph_token strip is_digit
outcome_found = refl

graph_found : asserts_outcome (λ text. text) (record blank { resource_id = "a:graph_x" }) ≡ true
unfolding asserts_outcome graph_token strip is_digit
graph_found = refl

payload_found : has_raw_payload (record blank { input_hash = "secret" }) ≡ true
unfolding has_raw_payload validate_sha256_ref strip
payload_found = refl

second_clean : has_raw_payload second ≡ false
unfolding has_raw_payload validate_sha256_ref strip has_control_bytes
second_clean = refl

second_mute : asserts_outcome crypto.to_lower second ≡ false
unfolding asserts_outcome graph_token strip is_digit
second_mute = refl

second_made : sign_ed25519 crypto second "k1" 64 sign ≡ ok second_signed
unfolding sign_ed25519 event_hash_of
second_made = refl

sign_ed25519-extends_example :
    verify_chain crypto (first ∷ [] ++ second_signed ∷ []) (some keys) ≡ none
sign_ed25519-extends_example =
    sign_ed25519-extends crypto keys first second second_signed [] key "k1" 64 sign (λ text. refl)
      (λ text. refl) refl refl refl refl first_accepted refl refl refl second_clean second_mute
      second_made

verify_chain_iff_example : (verify_chain crypto (first ∷ []) (some keys) ≡ none) ↔ (
    (first.tenant_ref ≢ "")
    × ((i : ℕ) (e : Event)
        → get_elem? (first ∷ []) i ≡ some e
        → Link crypto keys first.tenant_ref (1 + i) (hash_before "" (first ∷ []) i) e))
verify_chain_iff_example = verify_chain_iff crypto keys first []

-- the same event, signed again a little later
abbrev first_again : Event
first_again = record first { signed_at = 6; signature = record first.signature { key_id = "k1" } }

again_accepted : verify_chain crypto (first_again ∷ []) (some keys) ≡ none
unfolding verify_chain verify_from verify_event verify_hash verify_key verify_signature
    has_raw_payload asserts_outcome event_hash_of verify_key_material graph_token strip
    has_control_bytes is_digit validate_sha256_ref
again_accepted = refl

apart :
    (i : ℕ) (a b : Event)
    → get_elem? (first ∷ []) i ≡ some a
    → get_elem? (first_again ∷ []) i ≡ some b
    → event_hash_of crypto a ≡ event_hash_of crypto b
    → pre_image a ≡ pre_image b
apart zero a b p q same =
    let pa : first ≡ a = cc p in
    let pb : first_again ≡ b = cc q in sym (ap pre_image pa) ∙ ap pre_image pb
apart (suc i) a b p q same = cc p

same_end_example : map pre_image (first ∷ []) ≡ map pre_image (first_again ∷ [])
same_end_example =
    same_end crypto keys keys first first_again [] [] apart first_accepted again_accepted refl refl
