-- ===== src/Verifier/Server.antt =====
-- The handler of the server: what each request is answered.
use konnect_oidc_fapi2_keycl.Common.{
  ℕ, Option, none, some, List, [], ◌∷◌, Result, ok, err, ◌>>=◌, if◌then◌else◌,
}
use konnect_oidc_fapi2_keycl.Python.Text.{Text, Bytes, str, ◌==◌}
use konnect_oidc_fapi2_keycl.Python.Json.{Json, Fields, text, dict}
use konnect_oidc_fapi2_keycl.Python.Headers.{Headers}
use konnect_oidc_fapi2_keycl.Verifier.Config.{
  Config, Platform, Failure, token_validation, unexpected, message,
}
use konnect_oidc_fapi2_keycl.Verifier.Certificates.{verify_api_gateway_peer}
use konnect_oidc_fapi2_keycl.Verifier.Token.{
  bearer_token, verify_access_token, verify_forwarded_certificate_binding,
}
use konnect_oidc_fapi2_keycl.Verifier.Evidence.{build_evidence}

-- `peer` is the certificate of the TLS peer, none where reading it returns None or raises.
pub record Request : Type 0 where
  pub peer : Option Bytes
  pub path : Text
  pub headers : Headers

-- The body before `json.dumps`; Content-Length, which is the length of the dump, is left out.
pub record Response : Type 0 where
  pub status : ℕ
  pub headers : Headers
  pub body : Fields

unfoldable pub json_response : ℕ → List (Text × Json) → Headers → Response
json_response status body extra_headers = record {
  status = status;
  headers =
      (str "Content-Type", str "application/json")
      ∷ (str "Cache-Control", str "no-store")
      ∷ extra_headers;
  body = dict body;
}

unfoldable pub invalid_token : Text → Response
unfolding json_response
invalid_token reason =
    json_response 401 ((str "error", text (str "invalid_token")) ∷ (str "reason", text reason) ∷ [])
      ((str "WWW-Authenticate", str "Bearer error=\"invalid_token\"") ∷ [])

abbrev pub untrusted : Text
untrusted = str "untrusted API Gateway peer"

-- The server's answer to a request that its base class refuses.
unfoldable pub send_error : Platform → Bytes → Request → ℕ → Response
unfolding json_response invalid_token
send_error platform pinned request code =
    elim (verify_api_gateway_peer platform request.peer pinned) [
      | err _ ↦ invalid_token untrusted
      | ok _ ↦ json_response code ((str "error", text (str "request_rejected")) ∷ []) []
    ]

-- `except TokenValidationError` answers with its message, `except Exception` with a fixed one.
unfoldable pub reason_of : Failure → Text
reason_of (token_validation reason) = message reason
reason_of unexpected = str "invalid credentials"

-- The two `try` blocks for `/evidence`.
unfoldable pub evidence_response : Config → Platform → Request → Text → Text → Response
unfolding json_response invalid_token reason_of
evidence_response config platform request tls_peer_thumbprint token =
    let verified : Result Failure (Fields × Text × Text) = do
      checked ← verify_access_token config platform token
      forwarded ← verify_forwarded_certificate_binding platform request.headers checked.1
      ok (checked.0, checked.1, forwarded)
    in elim verified [
      | err failure ↦ invalid_token (reason_of failure)
      | ok (claims, token_thumbprint, forwarded) ↦
          elim (build_evidence request.headers claims token_thumbprint forwarded
            tls_peer_thumbprint) [
              | err _ ↦ invalid_token (str "invalid credentials")
              | ok evidence ↦ json_response 200 evidence []
            ]
    ]

unfoldable pub do_get : Config → Platform → Bytes → Request → Response
unfolding json_response invalid_token evidence_response
do_get config platform pinned request =
    elim (verify_api_gateway_peer platform request.peer pinned) [
      | err _ ↦ invalid_token untrusted
      | ok tls_peer_thumbprint ↦
          if request.path == str "/healthz"
          then json_response 200 ((str "status", text (str "ok")) ∷ []) []
          else if request.path == str "/evidence"
          then elim (bearer_token request.headers) [
            | none ↦ invalid_token (str "missing bearer token")
            | some token ↦ evidence_response config platform request tls_peer_thumbprint token
          ]
          else json_response 404 ((str "error", text (str "not_found")) ∷ []) []
    ]
