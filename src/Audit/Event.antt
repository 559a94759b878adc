-- ===== src/Audit/Event.antt =====
-- sdk/go/audit/event.go and canonical.go: one link of the signed audit trail, its canonical
-- pre-image and its hash, the keys, and what no field may carry. A text is walked as its code
-- points, and its length is in bytes.
use Prim.Native.String
use agentnexus.Base.{
  ℕ, ◌-◌, ◌%◌, String, Bool, true, false, not, ◌&&◌, ◌||◌, Option, none, some, List, [], ◌∷◌, ◌=ₛ◌,
  ◌≠ₛ◌, ◌==◌, ltb, length, any, if◌then◌else◌,
}
use agentnexus.Errors.{Err, sentinel, bad_algorithm, malformed_audit, Result, ok, err}
use agentnexus.Runtime.Format.{codes, strip, is_digit, validate_sha256_ref}
use agentnexus.Runtime.Types.{Time}

abbrev pub signature_algorithm_ed25519 : String
signature_algorithm_ed25519 = "ed25519"

-- `Signature`
pub record EventSignature : Type 0 where
  pub algorithm : String
  pub key_id : String
  pub value : String

abbrev pub zero_signature : EventSignature
zero_signature = record { algorithm = ""; key_id = ""; value = "" }

-- `Signature.zero`
abbrev pub is_zero : EventSignature → Bool
is_zero s = s.algorithm =ₛ "" && s.key_id =ₛ "" && s.value =ₛ ""

pub record Event : Type 0 where
  pub id : String
  pub tenant_ref : String
  pub tenant_seq : ℕ
  pub case_ticket_id : String
  pub step_grant_id : String
  pub actor_user_id : String
  pub connector_instance_id : String
  pub resource_type : String
  pub resource_id : String
  pub action : String
  pub decision : String
  pub input_hash : String
  pub output_hash : String
  pub evidence_pointer : String
  pub status_from : String
  pub capability : String
  pub parameter_hash : String
  pub grant_ref : String
  pub approval_evidence_ref : String
  pub receipt_ref : String
  pub risk_authority : String
  pub agent_client_ref : String
  pub agent_release_ref : String
  pub org_snapshot_ref : String
  pub prev_hash : String
  pub signed_at : Time
  pub signature : EventSignature
  pub event_hash : String

pub data KeyStatus : Type 0 where
  key_active key_revoked : KeyStatus
  other_status : (status : String) → KeyStatus

pub record SigningKey : Type 0 where
  pub key_id : String
  pub algorithm : String
  pub public_key : List ℕ
  pub status : KeyStatus
  pub created_at : Time
  pub revoked_at : Time

-- `KeyResolver`
abbrev pub KeyResolver : Type 0
KeyResolver = String → Option SigningKey

-- the standard library's part: `json.Marshal`, SHA-256 in hexadecimal, base64, Ed25519 and
-- `strings.ToLower`
pub record Crypto : Type 0 where
  pub marshal : Event → Result String
  pub sha256_hex : String → String
  pub encode_base64 : List ℕ → String
  pub decode_base64 : String → Option (List ℕ)
  pub verify_ed25519 : List ℕ → String → List ℕ → Bool
  pub to_lower : String → String

-- the two integrity slots zeroed, and the time in microseconds
abbrev pub pre_image : Event → Event
pre_image e = record e {
  signature = zero_signature;
  event_hash = "";
  signed_at = e.signed_at - e.signed_at % 1000;
}

-- `Canonical`
abbrev pub canonical : Crypto → Event → Result String
canonical c e = c.marshal (pre_image e)

abbrev pub hash_of : Crypto → Result String → Result String
hash_of c (err e) = err e
hash_of c (ok text) = ok (String.◌++◌ "sha256:" (c.sha256_hex text))

-- `EventHash`
unfoldable pub event_hash_of : Crypto → Event → Result String
event_hash_of c e = hash_of c (canonical c e)

abbrev pub max_reference_bytes : ℕ
max_reference_bytes = 512

abbrev pub is_control : ℕ → Bool
is_control c =
    c == 0 || (ltb c 0x20 && not (c == 0x9) && not (c == 0xa) && not (c == 0xd)) || c == 0x7f

-- `hasControlBytes`
unfoldable pub has_control_bytes : String → Bool
has_control_bytes s = any is_control (codes s)

abbrev pub outcome_tokens : List String
outcome_tokens =
    "outcome" ∷ "goal_achieved" ∷ "goal_reached" ∷ "goal_met" ∷ "goal_complete" ∷ "objective_met"
    ∷ "objective_achieved" ∷ "business_result" ∷ "result_graph" ∷ []

-- `strings.HasPrefix`, `==`, `strings.HasSuffix` and `strings.Contains` on code points
abbrev pub starts : Option (List ℕ) → Bool
starts none = false
starts (some rest) = true

abbrev pub ends_there : Option (List ℕ) → Bool
ends_there none = false
ends_there (some []) = true
ends_there (some (c ∷ rest)) = false

abbrev pub has_prefix : List ℕ → List ℕ → Bool
has_prefix p s = starts (strip p s)

abbrev pub same_text : List ℕ → List ℕ → Bool
same_text p s = ends_there (strip p s)

abbrev pub has_suffix : List ℕ → List ℕ → Bool
has_suffix p [] = same_text p []
has_suffix p (c ∷ s) = same_text p (c ∷ s) || has_suffix p s

abbrev pub contains : List ℕ → List ℕ → Bool
contains p [] = has_prefix p []
contains p (c ∷ s) = has_prefix p (c ∷ s) || contains p s

-- `strings.FieldsFunc` with the separators of `graphToken`
abbrev pub is_word_char : ℕ → Bool
unfolding is_digit
is_word_char c = not (ltb c b'a') && not (ltb b'z' c) || is_digit c || c == b'_'

abbrev pub with_word : List ℕ → List (List ℕ) → List (List ℕ)
with_word [] words = words
with_word (c ∷ w) words = (c ∷ w) ∷ words

-- the word that the text starts with, and the words after it
abbrev pub split : List ℕ → List ℕ × List (List ℕ)
split [] = ([], [])
split (c ∷ s) =
    let (word, words) = split s in
    if is_word_char c then (c ∷ word, words) else ([], with_word word words)

abbrev pub fields : List ℕ → List (List ℕ)
fields s = let (word, words) = split s in with_word word words

abbrev pub is_graph_word : List ℕ → Bool
is_graph_word part =
    same_text (codes "graph") part
    || has_prefix (codes "graph_") part
    || has_suffix (codes "_graph") part

-- `graphToken`
unfoldable pub graph_token : List ℕ → Bool
unfolding strip
graph_token lower = any is_graph_word (fields lower)

abbrev pub field_asserts : (String → String) → String → Bool
unfolding graph_token strip
field_asserts to_lower field =
    let lower = codes (to_lower field) in
    any (λ token. contains (codes token) lower) outcome_tokens || graph_token lower

-- `assertsOutcome`
unfoldable pub asserts_outcome : (String → String) → Event → Bool
asserts_outcome to_lower e = any (field_asserts to_lower) (
    e.action ∷ e.decision ∷ e.resource_type ∷ e.resource_id ∷ e.evidence_pointer ∷ e.capability
    ∷ e.status_from ∷ e.risk_authority ∷ e.case_ticket_id ∷ e.step_grant_id ∷ e.grant_ref
    ∷ e.approval_evidence_ref ∷ e.receipt_ref ∷ e.agent_client_ref ∷ e.agent_release_ref
    ∷ e.org_snapshot_ref ∷ e.id ∷ [])

-- `verifyKeyMaterial`
unfoldable pub verify_key_material : SigningKey → Option Err
verify_key_material key =
    if key.algorithm ≠ₛ signature_algorithm_ed25519
    then some (sentinel bad_algorithm)
    else if not (length key.public_key == 32)
    then some (sentinel malformed_audit)
    else none

abbrev pub refused : Option Err → Bool
refused none = false
refused (some e) = true

abbrev pub bad_hash : String → Bool
bad_hash field = field ≠ₛ "" && refused (validate_sha256_ref field)

abbrev pub bad_reference : String → Bool
unfolding has_control_bytes
bad_reference ref = ltb max_reference_bytes (String.len ref) || has_control_bytes ref

-- `checkNoRawPayload` refuses
unfoldable pub has_raw_payload : Event → Bool
has_raw_payload e =
    any bad_hash (e.input_hash ∷ e.output_hash ∷ e.parameter_hash ∷ [])
    || any bad_reference (
        e.id ∷ e.tenant_ref ∷ e.case_ticket_id ∷ e.step_grant_id ∷ e.actor_user_id
        ∷ e.connector_instance_id ∷ e.resource_type ∷ e.resource_id ∷ e.action ∷ e.decision
        ∷ e.evidence_pointer ∷ e.status_from ∷ e.capability ∷ e.grant_ref ∷ e.approval_evidence_ref
        ∷ e.receipt_ref ∷ e.risk_authority ∷ e.agent_client_ref ∷ e.agent_release_ref
        ∷ e.org_snapshot_ref ∷ e.prev_hash ∷ [])
