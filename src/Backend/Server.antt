-- ===== src/Backend/Server.antt =====
-- The handler of the server: what each request is answered.
use konnect_oidc_fapi2_keycl.Common.{
  ℕ, Bool, true, false, not, ◌||◌, Option, none, some, List, [], ◌∷◌, if◌then◌else◌,
}
use konnect_oidc_fapi2_keycl.Python.Text.{Text, Bytes, str, ◌==◌}
use konnect_oidc_fapi2_keycl.Python.Json.{Fields, text, dict}
use konnect_oidc_fapi2_keycl.Python.Headers.{Headers, get_all}
use konnect_oidc_fapi2_keycl.Backend.Config.{routes}
use konnect_oidc_fapi2_keycl.Backend.Bearer.{trusted_peer, bearer_token}
use konnect_oidc_fapi2_keycl.Backend.Project.{Items}
use konnect_oidc_fapi2_keycl.Backend.Fetch.{Upstream, fetch_evidence}

pub record Request : Type 0 where
  pub peer : Option Bytes
  pub path : Text
  pub headers : Headers

-- The body before `json.dumps`; Content-Length, which is the length of the dump, is left out.
pub record Response : Type 0 where
  pub status : ℕ
  pub headers : Headers
  pub body : Fields

unfoldable pub json_response : ℕ → Items → Response
json_response status body = record {
  status = status;
  headers =
      (str "Content-Type", str "application/json")
      ∷ (str "Cache-Control", str "no-store")
      ∷ (str "Connection", str "close")
      ∷ [];
  body = dict body;
}

abbrev pub error_response : ℕ → Text → Response
error_response status reason = json_response status ((str "error", text reason) ∷ [])

unfoldable pub send_error : ℕ → Response
unfolding json_response
send_error code = error_response code (str "request_rejected")

abbrev some_value : List Text → Bool
some_value [] = false
some_value (_ ∷ _) = true

abbrev not_zero : List Text → Bool
not_zero [] = false
not_zero (value ∷ []) = not (value == str "0")
not_zero (_ ∷ _ ∷ _) = true

-- A request that announces a body: `get_all("Content-Length", ["0"]) != ["0"]`.
unfoldable pub has_body : Headers → Bool
has_body headers =
    some_value (get_all (str "Transfer-Encoding") headers)
    || not_zero (get_all (str "Content-Length") headers)

unfoldable pub do_get : Upstream → Bytes → Request → Response
unfolding json_response
do_get upstream pin request =
    if not (trusted_peer request.peer pin)
    then error_response 401 (str "untrusted_gateway")
    else if has_body request.headers
    then error_response 400 (str "request_rejected")
    else if request.path == str "/healthz"
    then json_response 200 ((str "status", text (str "ok")) ∷ [])
    else elim (routes request.path) [
      | none ↦ error_response 404 (str "not_found")
      | some expected ↦ elim (bearer_token request.headers) [
        | none ↦ error_response 401 (str "invalid_token")
        | some token ↦
            let (status, result) = fetch_evidence upstream token expected in
            json_response status result
      ]
    ]
