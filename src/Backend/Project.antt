-- ===== src/Backend/Project.antt =====
-- The projection of the upstream evidence on the fields that may leave the backend.
use konnect_oidc_fapi2_keycl.Common.{
  ℕ, Bool, true, false, not, ◌&&◌, ◌||◌, Option, none, some, List, [], ◌∷◌, ◌++◌, all, any, eqb,
  ltb, length, Result, ok, require, or_raise, ◌>>=◌, ◌>>◌, if◌then◌else◌,
}
use konnect_oidc_fapi2_keycl.Python.Text.{Text, Bytes, str, ◌==◌, truthy, is_word}
use konnect_oidc_fapi2_keycl.Python.Json.{
  Json, Fields, null, bool, text, get, dict, as_object, equals_text, passes_hook,
}
use konnect_oidc_fapi2_keycl.Backend.Config.{
  Expected, text_fields, thumbprint_fields, verification_fields, Rejection, invalid_json,
  invalid_object, wrong_route_identity, invalid_text, invalid_thumbprint, invalid_verification,
  inconsistent_binding, inconsistent_headers,
}

abbrev pub Items : Type 0
Items = List (Text × Json)

-- The loop over the identity of the route.
unfoldable pub identity_fields : Fields → List (Text × Text) → Result Rejection Items
identity_fields source [] = ok []
identity_fields source ((name, value) ∷ rest) = do
  require (equals_text (get name source) value) wrong_route_identity
  result ← identity_fields source rest
  ok ((name, text value) ∷ result)

abbrev pub is_control : ℕ → Bool
is_control c = ltb c 32 || eqb c 127

-- A value that a text field may have: null, or a short string with no control characters.
unfoldable pub valid_text : Option Json → Option Json
valid_text (some null) = some null
valid_text (some (text t)) = if ltb 256 (length t) || any is_control t then none else some (text t)
valid_text _ = none

unfoldable pub is_thumbprint : Text → Bool
is_thumbprint t = eqb (length t) 43 && all is_word t

unfoldable pub valid_thumbprint : Option Json → Option Json
valid_thumbprint (some (text t)) = if is_thumbprint t then some (text t) else none
valid_thumbprint _ = none

-- `type(value) is bool`, and True unless the field is header_claims_match.
unfoldable pub valid_verification : Text → Option Json → Option Json
valid_verification name (some (bool b)) =
    if not (name == str "header_claims_match") && not b then none else some (bool b)
valid_verification name _ = none

-- A loop over fields: each value that the check gives goes to the result, or it raises.
unfoldable pub copy_fields :
    (Text → Option Json → Option Json) → Rejection → Fields → List Text → Result Rejection Items
copy_fields check rejection source [] = ok []
copy_fields check rejection source (name ∷ names) = do
  value ← or_raise (check name (get name source)) rejection
  result ← copy_fields check rejection source names
  ok ((name, value) ∷ result)

-- `bool(value)` and equality of the values that text fields may have.
abbrev pub truthy_value : Option Json → Bool
truthy_value (some (text t)) = truthy t
truthy_value _ = false

abbrev pub same_value : Option Json → Option Json → Bool
same_value (some (text s)) (some (text t)) = s == t
same_value (some null) (some null) = true
same_value _ _ = false

abbrev pub is_true : Option Json → Bool
is_true (some (bool b)) = b
is_true _ = false

-- The last tests: the two thumbprints of the binding, and the headers against the claims.
unfoldable pub is_consistent_binding : Fields → Bool
is_consistent_binding result =
    same_value (get (str "token_certificate_thumbprint") result)
      (get (str "forwarded_client_certificate_thumbprint") result)

unfoldable pub is_consistent_headers : Fields → Bool
is_consistent_headers result =
    not (is_true (get (str "header_claims_match") result))
    || all (λ name. truthy_value (get name result)) text_fields
      && same_value (get (str "department") result) (get (str "department_header") result)
      && same_value (get (str "logical_route") result) (get (str "logical_route_header") result)

abbrev pub identity_of : Expected → List (Text × Text)
identity_of expected =
    (str "route", expected.route)
    ∷ (str "azp", expected.azp)
    ∷ (str "client_authentication", expected.client_authentication)
    ∷ []

-- The body of project_evidence on a parsed object.
unfoldable pub project_object : Fields → Expected → Result Rejection Items
project_object source expected = do
  identity ← identity_fields source (identity_of expected)
  texts ← copy_fields (λ _. valid_text) invalid_text source text_fields
  thumbprints ← copy_fields (λ _. valid_thumbprint) invalid_thumbprint source thumbprint_fields
  verifications ← copy_fields valid_verification invalid_verification source verification_fields
  let result = identity ++ texts ++ thumbprints ++ verifications
  require (is_consistent_binding (dict result)) inconsistent_binding
  require (is_consistent_headers (dict result)) inconsistent_headers
  ok result

-- `parse` is `json.loads` of the UTF-8 text, none where decoding or parsing raises.
unfoldable pub project_evidence : (Bytes → Option Json) → Bytes → Expected → Result Rejection Items
project_evidence parse body expected = do
  document ← or_raise (parse body) invalid_json
  require (passes_hook document) invalid_json
  source ← or_raise (as_object document) invalid_object
  project_object source expected
