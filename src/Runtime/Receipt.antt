-- ===== src/Runtime/Receipt.antt =====
-- sdk/go/runtime/receipt.go and the payload hashing of validate.go. JSON validity and SHA-256
-- belong to Go's standard library: they are the parameters of `Codec`.
use Prim.Native.Char.{code}
use Prim.Native.String.{[], ◌∷◌}
use agentnexus.Base.{
  String, Bool, false, not, ◌&&◌, ◌||◌, ◌==◌, Option, none, some, ◌=ₛ◌, ◌≠ₛ◌, if◌then◌else◌,
}
use agentnexus.Errors.{Err}
use agentnexus.Runtime.Format.{
  validate_handle, validate_sha256_ref, validate_capability, require_non_empty,
}
use agentnexus.Runtime.Types.{
  Time, is_zero, ActionStatus, status_valid, ◌otherwise◌, reject, in_field,
}
use agentnexus.Runtime.Grant.{Signature, validate_signature}

pub record Codec : Type 0 where
  -- `json.Valid`
  pub json_valid : String → Bool
  -- `HashParameters`: the digest reference of the exact bytes
  pub hash_parameters : String → String
  -- `strings.EqualFold`
  pub equal_fold : String → String → Bool

abbrev is_space : String → Bool
is_space [] = false
is_space (c ∷ s) = code c == b' ' || code c == 9 || code c == 13 || code c == 10

-- the first character that is no JSON white space is a brace
opens_object : String → Bool
opens_object [] = false
opens_object (c ∷ s) =
    let rest = opens_object s in if is_space (c ∷ s) then rest else code c == b'{'

-- `isJSONObject`
unfoldable pub is_json_object : Codec → String → Bool
unfolding opens_object
is_json_object c raw = opens_object raw && c.json_valid raw

pub record ActionReceipt : Type 0 where
  pub receipt_ref : String
  pub action_ref : String
  pub status : ActionStatus
  pub capability : String
  pub parameter_hash : String
  pub receipt_schema : String
  pub result : String
  pub result_hash : String
  pub issued_at : Time
  pub signature : Option Signature

abbrev validate_result : Codec → ActionReceipt → Option Err
validate_result c r =
    if r.result ≠ₛ ""
    then (reject (not (is_json_object c r.result)) "result"
        otherwise reject (r.result_hash =ₛ "") "result_hash"
        otherwise reject (c.hash_parameters r.result ≠ₛ r.result_hash) "result_hash")
    else if r.result_hash ≠ₛ ""
    then in_field "result_hash" (validate_sha256_ref r.result_hash)
    else none

abbrev validate_optional_signature : Option Signature → Option Err
validate_optional_signature none = none
validate_optional_signature (some s) = in_field "signature" (validate_signature s)

-- `ActionReceipt.Validate`
unfoldable pub validate_receipt : Codec → ActionReceipt → Option Err
validate_receipt c r =
    in_field "receipt_ref" (validate_handle r.receipt_ref "rcp_")
    otherwise in_field "action_ref" (validate_handle r.action_ref "act_")
    otherwise reject (not (status_valid r.status)) "status"
    otherwise validate_capability r.capability
    otherwise in_field "parameter_hash" (validate_sha256_ref r.parameter_hash)
    otherwise require_non_empty "receipt_schema" r.receipt_schema
    otherwise validate_result c r
    otherwise reject (is_zero r.issued_at) "issued_at"
    otherwise validate_optional_signature r.signature
