-- ===== src/Verifier/Token.antt =====
-- The bearer token, the claims of the access token and its binding to the forwarded certificate.
use konnect_oidc_fapi2_keycl.Common.{
  Bool, true, false, not, ◌&&◌, Option, none, some, List, [], ◌∷◌, all, Result, ok, require,
  or_raise, ◌>>=◌, ◌>>◌, if◌then◌else◌,
}
use konnect_oidc_fapi2_keycl.Python.Text.{
  Text, str, ◌==◌, truthy, contains, lower, partition, split_words,
}
use konnect_oidc_fapi2_keycl.Python.Json.{Json, Fields, obj, get, as_text}
use konnect_oidc_fapi2_keycl.Python.Headers.{Headers, get_all, get_header}
use konnect_oidc_fapi2_keycl.Verifier.Config.{
  Config, Platform, JwtOptions, Failure, token_validation, jwt_failed, scope_missing, azp_invalid,
  binding_missing, binding_mismatch, azp_routes, is_member,
}
use konnect_oidc_fapi2_keycl.Verifier.Compare.{base64url_sha256, constant_time_text_equal}
use konnect_oidc_fapi2_keycl.Verifier.Certificates.{forwarded_client_certificate_der}

-- The tests on one Authorization field: `scheme`, whether there is a space, and `value`.
unfoldable pub bearer_value : Text → Option Text
bearer_value authorization =
    let (scheme, separator, value) = partition b' ' authorization in
    if separator && lower scheme == str "bearer" && truthy value && not (contains b' ' value)
    then some value
    else none

abbrev or_empty : Option Text → Text
or_empty none = []
or_empty (some t) = t

-- `headers.get("Authorization", "")` is read only where there is no such field.
unfoldable pub bearer_token : Headers → Option Text
bearer_token headers = elim (get_all (str "Authorization") headers) [
  | [] ↦ bearer_value (or_empty (get_header (str "Authorization") headers))
  | authorization ∷ more ↦ elim more [ [] ↦ bearer_value authorization | _ ∷ _ ↦ none ]
]

abbrev pub jwt_options : Config → JwtOptions
jwt_options config = record {
  algorithms = config.allowed_algorithms;
  audience = config.audience;
  issuer = config.issuer;
  required =
      str "exp" ∷ str "iat" ∷ str "iss" ∷ str "aud" ∷ str "cnf" ∷ str "scope" ∷ str "azp" ∷ [];
  verify_nbf = true;
}

-- `required.issubset(granted)`
unfoldable pub is_subset : List Text → List Text → Bool
is_subset required granted = all (λ scope. is_member scope granted) required

-- `confirmation.get(key) if isinstance(confirmation, dict) else None`
abbrev pub member_of : Option Json → Text → Option Json
member_of (some (obj fs)) key = get key fs
member_of _ key = none

abbrev pub known_azp : Text → Bool
known_azp azp = elim (azp_routes azp) [ none ↦ false | some _ ↦ true ]

unfoldable pub verify_access_token : Config → Platform → Text → Result Failure (Fields × Text)
verify_access_token config platform token = do
  claims ← or_raise (platform.decode_jwt (jwt_options config) token) (token_validation jwt_failed)
  scope_claim ← or_raise (as_text (get (str "scope") claims)) (token_validation scope_missing)
  require (is_subset config.required_scopes (split_words scope_claim))
      (token_validation scope_missing)
  azp ← or_raise (as_text (get (str "azp") claims)) (token_validation azp_invalid)
  require (known_azp azp) (token_validation azp_invalid)
  thumbprint ←
      or_raise (as_text (member_of (get (str "cnf") claims) (str "x5t#S256")))
        (token_validation binding_missing)
  require (truthy thumbprint) (token_validation binding_missing)
  ok (claims, thumbprint)

unfoldable pub verify_forwarded_certificate_binding :
    Platform → Headers → Text → Result Failure Text
verify_forwarded_certificate_binding platform headers token_thumbprint = do
  forwarded ← forwarded_client_certificate_der platform headers
  let thumbprint = base64url_sha256 platform forwarded
  require (constant_time_text_equal (some token_thumbprint) (some thumbprint))
      (token_validation binding_mismatch)
  ok thumbprint
