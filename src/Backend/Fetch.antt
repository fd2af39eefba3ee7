-- ===== src/Backend/Fetch.antt =====
-- The request to the API Gateway and what its outcome is answered.
use konnect_oidc_fapi2_keycl.Common.{
  ℕ, ◌+◌, ◌-◌, ◌*◌, Bool, true, false, not, ◌&&◌, ◌||◌, Option, List, [], ◌∷◌, ◌++◌, all, eqb, leb,
  ltb, length, Result, ok, err, require, ◌>>=◌, ◌>>◌, if◌then◌else◌,
}
use konnect_oidc_fapi2_keycl.Python.Text.{Text, Bytes, str, ◌==◌, lower, strip, partition}
use konnect_oidc_fapi2_keycl.Python.Json.{Json, text}
use konnect_oidc_fapi2_keycl.Python.Headers.{Headers, get_all}
use konnect_oidc_fapi2_keycl.Backend.Config.{
  Expected, Rejection, api_host, api_port, api_path, max_response_bytes, invalid_content_type,
  invalid_length, invalid_body_size,
}
use konnect_oidc_fapi2_keycl.Backend.Project.{Items, project_evidence}

-- The exceptions that the handler catches: a timeout, OSError, http.client.HTTPException, and
-- RejectedEvidence.
pub data FetchError : Type 0 where
  timed_out os_error http_exception : FetchError
  rejected : Rejection → FetchError

pub record UpstreamRequest : Type 0 where
  pub host : Text
  pub port : ℕ
  pub method : Text
  pub path : Text
  pub headers : Headers
  pub route : Text

-- `read n` is what `response.read(n)` returns or raises.
pub record UpstreamResponse : Type 0 where
  pub status : ℕ
  pub headers : Headers
  pub read : ℕ → Result FetchError Bytes

-- What `http.client` and `json` do: a response or an exception for each request, sent with the
-- client certificate of a route, and the parser of a body.
pub record Upstream : Type 0 where
  pub exchange : UpstreamRequest → Result FetchError UpstreamResponse
  pub parse : Bytes → Option Json

unfoldable pub upstream_request : Text → Expected → UpstreamRequest
upstream_request token expected = record {
  host = api_host;
  port = api_port;
  method = str "GET";
  path = api_path;
  headers =
      (str "Authorization", str "Bearer " ++ token) ∷ (str "Accept", str "application/json") ∷ [];
  route = expected.route;
}

abbrev pub error_body : Text → Items
error_body reason = (str "error", text reason) ∷ []

unfoldable pub is_json : List Text → Bool
is_json (value ∷ []) = lower (strip (partition b';' value).0) == str "application/json"
is_json _ = false

abbrev is_digit : ℕ → Bool
is_digit c = leb b'0' c && leb c b'9'

-- `int(s)` of decimal digits.
unfoldable pub decimal : ℕ → Text → ℕ
decimal n [] = n
decimal n (c ∷ s) = decimal (n * 10 + (c - 48)) s

-- [0-9]+
abbrev pub is_decimal : Text → Bool
is_decimal [] = false
is_decimal (c ∷ s) = all is_digit (c ∷ s)

-- The header Content-Length: absent, or one number of at most ten digits and within the bound.
unfoldable pub is_valid_length : List Text → Bool
is_valid_length [] = true
is_valid_length (value ∷ []) =
    not (ltb 10 (length value))
    && is_decimal value
    && not (ltb max_response_bytes (decimal 0 value))
is_valid_length _ = false

unfoldable pub is_valid_size : List Text → Bytes → Bool
is_valid_size [] body = not (ltb max_response_bytes (length body))
is_valid_size (value ∷ _) body =
    not (ltb max_response_bytes (length body)) && eqb (length body) (decimal 0 value)

abbrev pub reject : {A : Type 0} → Result Rejection A → Result FetchError A
reject (ok a) = ok a
reject (err e) = err (rejected e)

-- The `try` block after the status is 200.
unfoldable pub read_evidence :
    Upstream → UpstreamResponse → Expected → Result FetchError (ℕ × Items)
read_evidence upstream response expected = do
  require (is_json (get_all (str "Content-Type") response.headers)) (rejected invalid_content_type)
  let lengths = get_all (str "Content-Length") response.headers
  require (is_valid_length lengths) (rejected invalid_length)
  body ← response.read (max_response_bytes + 1)
  require (is_valid_size lengths body) (rejected invalid_body_size)
  result ← reject (project_evidence upstream.parse body expected)
  ok (200, result)

unfoldable pub handle_response :
    Upstream → UpstreamResponse → Expected → Result FetchError (ℕ × Items)
handle_response upstream response expected =
    if eqb response.status 401 || eqb response.status 403
    then ok (response.status, error_body (str "upstream_unauthorized"))
    else if not (eqb response.status 200)
    then ok (502, error_body (str "upstream_unavailable"))
    else read_evidence upstream response expected

-- The `except` clauses.
unfoldable pub handle_error : Result FetchError (ℕ × Items) → ℕ × Items
handle_error (ok answer) = answer
handle_error (err timed_out) = (504, error_body (str "upstream_timeout"))
handle_error (err os_error) = (502, error_body (str "upstream_unavailable"))
handle_error (err http_exception) = (502, error_body (str "upstream_unavailable"))
handle_error (err (rejected _)) = (502, error_body (str "upstream_unavailable"))

unfoldable pub fetch_evidence : Upstream → Text → Expected → ℕ × Items
unfolding upstream_request handle_error handle_response
fetch_evidence upstream token expected = handle_error (do
  response ← upstream.exchange (upstream_request token expected)
  handle_response upstream response expected)
