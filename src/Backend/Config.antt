-- ===== src/Backend/Config.antt =====
-- The constants of third-party-backend/app.py, and the reasons of RejectedEvidence.
use konnect_oidc_fapi2_keycl.Common.{ℕ, ◌*◌, Option, none, some, List, [], ◌∷◌, if◌then◌else◌}
use konnect_oidc_fapi2_keycl.Python.Text.{Text, str, ◌==◌}

abbrev pub api_host : Text
api_host = str "kong-api"

abbrev pub api_port : ℕ
api_port = 8443

abbrev pub api_path : Text
api_path = str "/fapi-api/evidence"

abbrev pub max_response_bytes : ℕ
max_response_bytes = 16 * 1024

abbrev pub max_token_bytes : ℕ
max_token_bytes = 8192

-- What the evidence of a route must name: the route, the client and its authentication.
pub record Expected : Type 0 where
  pub route : Text
  pub azp : Text
  pub client_authentication : Text

abbrev pub route_a : Expected
route_a = record {
  route = str "route-a";
  azp = str "third-party-fapi-mtls";
  client_authentication = str "tls_client_auth";
}

abbrev pub route_b : Expected
route_b = record {
  route = str "route-b";
  azp = str "third-party-fapi-pkj-mtls";
  client_authentication = str "private_key_jwt";
}

-- ROUTES
unfoldable pub routes : Text → Option Expected
routes path =
    if path == str "/evidence/route-a"
    then some route_a
    else if path == str "/evidence/route-b"
    then some route_b
    else none

abbrev pub text_fields : List Text
text_fields =
    str "department"
    ∷ str "logical_route"
    ∷ str "department_header"
    ∷ str "logical_route_header"
    ∷ []

abbrev pub thumbprint_fields : List Text
thumbprint_fields =
    str "token_certificate_thumbprint"
    ∷ str "forwarded_client_certificate_thumbprint"
    ∷ str "api_gateway_tls_peer_certificate_thumbprint"
    ∷ []

abbrev pub verification_fields : List Text
verification_fields =
    str "token_signature_verified" ∷ str "binding_verified" ∷ str "header_claims_match" ∷ []

pub data Rejection : Type 0 where
  duplicate_field invalid_json invalid_object wrong_route_identity invalid_text : Rejection
  invalid_thumbprint invalid_verification inconsistent_binding inconsistent_headers : Rejection
  invalid_content_type invalid_length invalid_body_size : Rejection
