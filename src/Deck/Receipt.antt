-- ===== src/Deck/Receipt.antt =====
-- The tests of a receipt of the review, in read_backend_runtime_approval.
use konnect_oidc_fapi2_keycl.Common.{
  Bool, false, ◌&&◌, List, [], ◌∷◌, Option, some, Result, ok, or_raise, require, ◌>>=◌, ◌>>◌,
}
use konnect_oidc_fapi2_keycl.Python.Int.{pos, int_eq}
use konnect_oidc_fapi2_keycl.Python.Text.{Text, str}
use konnect_oidc_fapi2_keycl.Python.Json.{
  Json, null, text, obj, Fields, get, as_object, equals_text, dict,
}
use konnect_oidc_fapi2_keycl.Backend.Ready.{is_hex_of}
use konnect_oidc_fapi2_keycl.Keycloak.Values.{value_or}
use konnect_oidc_fapi2_keycl.Deck.Scope.{has_exactly, validate_backend_scope}

-- WP5_APPROVAL_FIELDS
abbrev pub wp5_approval_fields : List Text
wp5_approval_fields =
    str "schema_version"
    ∷ str "scope"
    ∷ str "approved"
    ∷ str "target_sha256"
    ∷ str "state_sha256"
    ∷ str "role_inputs_sha256"
    ∷ str "diff_sha256"
    ∷ str "summary"
    ∷ str "operations"
    ∷ []

abbrev pub backend_scope : Text
backend_scope = str "third-party-backend-runtime-v2"

abbrev pub evidence : Text
evidence = str ".generated/evidence"

-- BACKEND_APPROVAL_RELATIVE
abbrev pub backend_approval : Text
backend_approval = str ".generated/evidence/third-party-backend-runtime-approval-v2.json"

-- `type(value) is int and value == 2`
abbrev pub is_two : Option Json → Bool
is_two (some (Json.int i)) = int_eq i (pos 2)
is_two _ = false

abbrev pub is_true : Option Json → Bool
is_true (some (Json.bool b)) = b
is_true _ = false

abbrev pub is_digest : Option Json → Bool
is_digest (some (text t)) = is_hex_of 64 t
is_digest _ = false

-- The digests of what the sync would use now.
pub record Digests : Type 0 where
  pub target_sha256 : Text
  pub state_sha256 : Text
  pub role_inputs_sha256 : Text

-- The tests of a receipt that was read.
unfoldable pub check_receipt : Digests → Fields → Result Text (Unit {0})
check_receipt digests receipt = do
  require
      (equals_text (get (str "target_sha256") receipt) digests.target_sha256
        && equals_text (get (str "state_sha256") receipt) digests.state_sha256
        && equals_text (get (str "role_inputs_sha256") receipt) digests.role_inputs_sha256)
      (str "backend runtime approval does not match current target, state, or role inputs")
  require (is_digest (get (str "diff_sha256") receipt))
      (str "backend runtime approval diff digest is malformed")
  validate_backend_scope
      (obj (
        dict (
          (str "summary", value_or (get (str "summary") receipt) null)
          ∷ (str "operations", value_or (get (str "operations") receipt) null)
          ∷ [])))
      (value_or (get (str "plan_type") receipt) null)

-- The fields and the scope of a receipt.
unfoldable pub check_header : Json → Result Text Fields
check_header parsed = do
  let fields_message = str "backend runtime approval receipt fields are malformed"
  receipt ← or_raise (as_object parsed) fields_message
  require (has_exactly (str "plan_type" ∷ wp5_approval_fields) receipt) fields_message
  require
      (is_two (get (str "schema_version") receipt)
        && equals_text (get (str "scope") receipt) backend_scope
        && is_true (get (str "approved") receipt))
      (str "backend runtime approval receipt scope is invalid; old WP5 approval is not accepted")
  ok receipt
