-- ===== src/Backend/Fixed.antt =====
-- What is answered where there is no evidence: nothing of the response.
use konnect_oidc_fapi2_keycl.Common.{
  ℕ, ◌≡◌, ◌≢◌, ◌⊎◌, inl, inr, refl, arith, Result, ok, err, ◌>>=◌, >>=-eq-ok,
}
use konnect_oidc_fapi2_keycl.Python.Text.{Text, str}
use konnect_oidc_fapi2_keycl.Backend.Config.{Expected}
use konnect_oidc_fapi2_keycl.Backend.Project.{Items}
use konnect_oidc_fapi2_keycl.Backend.Fetch.{
  Upstream, UpstreamResponse, FetchError, rejected, timed_out, os_error, http_exception,
  upstream_request, fetch_evidence, handle_response, handle_error, read_evidence, error_body,
}

-- Any other answer is one of four fixed ones: nothing of the response's body is in it.
abbrev pub IsFixedError : ℕ × Items → Type 0
IsFixedError answer =
    (answer ≡ (401, error_body (str "upstream_unauthorized")))
    ⊎ (answer ≡ (403, error_body (str "upstream_unauthorized")))
    ⊎ (answer ≡ (502, error_body (str "upstream_unavailable")))
    ⊎ (answer ≡ (504, error_body (str "upstream_timeout")))

read_evidence_status :
    (upstream : Upstream) (response : UpstreamResponse) (expected : Expected) (answer : ℕ × Items)
    → read_evidence upstream response expected ≡ ok answer
    → answer.0 ≡ 200
unfolding read_evidence
read_evidence_status upstream response expected answer h = ground arith

handle_error_fixed :
    (r : Result FetchError (ℕ × Items))
    → ((answer : ℕ × Items) → r ≡ ok answer → (answer.0 ≡ 200) ⊎ IsFixedError answer)
    → (handle_error r).0 ≢ 200
    → IsFixedError (handle_error r)
unfolding handle_error
handle_error_fixed (ok answer) f h = elim (f answer refl) [
  | inl e ↦ absurd (h e)
  | inr fixed ↦ fixed
]
handle_error_fixed (err timed_out) f h = ground arith
handle_error_fixed (err os_error) f h = ground arith
handle_error_fixed (err http_exception) f h = ground arith
handle_error_fixed (err (rejected e)) f h = ground arith

handle_response_fixed :
    (upstream : Upstream) (response : UpstreamResponse) (expected : Expected) (answer : ℕ × Items)
    → handle_response upstream response expected ≡ ok answer
    → (answer.0 ≡ 200) ⊎ IsFixedError answer
unfolding handle_response
handle_response_fixed upstream response expected answer h =
    ground (arith, read_evidence_status upstream response expected answer)

-- Where the backend's request to the API is not answered 200, the answer is one of four fixed ones
-- (401 or 403 with `upstream_unauthorized`, 502 with `upstream_unavailable`, 504 with
-- `upstream_timeout`), so nothing of the response's body is in it.
pub fetch_evidence_fixed :
    (upstream : Upstream) (token : Text) (expected : Expected)
    → (fetch_evidence upstream token expected).0 ≢ 200
    → IsFixedError (fetch_evidence upstream token expected)
unfolding fetch_evidence
fetch_evidence_fixed upstream token expected =
    handle_error_fixed
      (upstream.exchange (upstream_request token expected) >>= λ response.
        handle_response upstream response expected)
      λ answer e.
        let (response, answered, handled) =
          >>=-eq-ok (upstream.exchange (upstream_request token expected))
            (λ response. handle_response upstream response expected) e in
        handle_response_fixed upstream response expected answer handled
