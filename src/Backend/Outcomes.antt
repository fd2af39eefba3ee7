-- ===== src/Backend/Outcomes.antt =====
-- What the outcome of an upstream request is answered.
use konnect_oidc_fapi2_keycl.Common.{
  ℕ, ◌+◌, ◌≡◌, ◌↔◌, refl, sym, ap, ◌∙◌, true, Option, some, arith, Result, ok, err, >>=-eq-ok,
  or_raise-bind, require-bind, ok-injective,
}
use konnect_oidc_fapi2_keycl.Python.Text.{Text, Bytes, str}
use konnect_oidc_fapi2_keycl.Python.Json.{Json, Fields, obj, passes_hook, as_object}
use konnect_oidc_fapi2_keycl.Python.Json.Unique.{NoRepeats, passes_hook_iff}
use konnect_oidc_fapi2_keycl.Python.Headers.{get_all}
use konnect_oidc_fapi2_keycl.Backend.Config.{Expected, Rejection, max_response_bytes}
use konnect_oidc_fapi2_keycl.Backend.Project.{Items, project_evidence}
use konnect_oidc_fapi2_keycl.Backend.Allowlist.{Evidence, evidence_items}
use konnect_oidc_fapi2_keycl.Backend.Allowlist.Exact.{Holds, project_object_iff}
use konnect_oidc_fapi2_keycl.Backend.Fetch.{
  Upstream, UpstreamResponse, FetchError, rejected, timed_out, os_error, http_exception,
  upstream_request, fetch_evidence, handle_response, handle_error, read_evidence, is_json,
  is_valid_length, is_valid_size, reject,
}

as_object-eq-some : (j : Json) {fs : Fields} → as_object j ≡ some fs → j ≡ obj fs
as_object-eq-some (obj fs) h = ground arith
as_object-eq-some _ h = cc

-- A body that holds evidence: it parses to an object, in which no object at any depth repeats a
-- key, and which holds it.
pub record IsDocument (parse : Bytes → Option Json) (body : Bytes) (expected : Expected)
    (e : Evidence) : Type 0 where
  pub source : Fields
  pub parsed : parse body ≡ some (obj source)
  pub no_repeats : NoRepeats (obj source)
  pub holds : Holds source expected e

-- A body is projected to a result exactly when it parses to an object, in which no object at any
-- depth repeats a key, that holds well-formed evidence of the expected route, and the result is the
-- thirteen fields of that evidence.
pub project_evidence_iff :
    (parse : Bytes → Option Json) (body : Bytes) (expected : Expected) (result : Items)
    → (project_evidence parse body expected ≡ ok result)
      ↔ ((e : Evidence) × IsDocument parse body expected e × (result ≡ evidence_items expected e))
unfolding project_evidence
project_evidence_iff parse body expected result = (
  λ h.
      let (document, parsed, h1) = or_raise-bind (parse body) _ _ h in
      let (unique, h2) = require-bind (passes_hook document) _ _ h1 in
      let (source, object, h3) = or_raise-bind (as_object document) _ _ h2 in
      let (e, holds, shape) = (project_object_iff source expected result).0 h3 in
      let same = as_object-eq-some document object in
      (
        e,
        record {
          source = source;
          parsed = parsed ∙ ap some same;
          no_repeats = (passes_hook_iff (obj source)).0 (ap passes_hook (sym same) ∙ unique);
          holds = holds;
        },
        shape,
      ),
  λ (e, d, shape).
      simp (d.parsed, (passes_hook_iff (obj d.source)).1 d.no_repeats)
        ((project_object_iff d.source expected result).1 (e, d.holds, shape)),
)

-- A response that is answered with evidence.
pub record IsGood (upstream : Upstream) (token : Text) (expected : Expected) (e : Evidence)
    : Type 0 where
  pub response : UpstreamResponse
  pub answered : upstream.exchange (upstream_request token expected) ≡ ok response
  pub status : response.status ≡ 200
  pub content_type : is_json (get_all (str "Content-Type") response.headers) ≡ true
  pub announced : is_valid_length (get_all (str "Content-Length") response.headers) ≡ true
  pub body : Bytes
  pub read : response.read (max_response_bytes + 1) ≡ ok body
  pub size : is_valid_size (get_all (str "Content-Length") response.headers) body ≡ true
  pub document : IsDocument upstream.parse body expected e

reject-eq-ok : {A : Type 0} (r : Result Rejection A) {a : A} → reject r ≡ ok a → r ≡ ok a
reject-eq-ok (ok a) h = ap ok (ok-injective h)
reject-eq-ok (err e) h = cc

module _ (upstream : Upstream) (token : Text) (expected : Expected) where
  handle_error-200 :
      (r : Result FetchError (ℕ × Items)) → (handle_error r).0 ≡ 200 → (a : ℕ × Items) × (r ≡ ok a)
  unfolding handle_error
  handle_error-200 (ok a) h = (a, refl)
  handle_error-200 (err timed_out) h = absurd (omega arith)
  handle_error-200 (err os_error) h = absurd (omega arith)
  handle_error-200 (err http_exception) h = absurd (omega arith)
  handle_error-200 (err (rejected r)) h = absurd (omega arith)

  handle_response-200 :
      (response : UpstreamResponse) (answer : ℕ × Items)
      → handle_response upstream response expected ≡ ok answer
      → answer.0 ≡ 200
      → (response.status ≡ 200) × (read_evidence upstream response expected ≡ ok answer)
  unfolding handle_response
  handle_response-200 response answer h status = ground arith

  read_sound :
      (response : UpstreamResponse) (answer : ℕ × Items)
      → upstream.exchange (upstream_request token expected) ≡ ok response
      → response.status ≡ 200
      → read_evidence upstream response expected ≡ ok answer
      → (e : Evidence) × IsGood upstream token expected e
        × (answer ≡ (200, evidence_items expected e))
  unfolding read_evidence
  read_sound response answer answered status h =
      let lengths = get_all (str "Content-Length") response.headers in
      let (json, h1) =
        require-bind (is_json (get_all (str "Content-Type") response.headers)) _ _ h in
      let (announced, h2) = require-bind (is_valid_length lengths) _ _ h1 in
      let (body, read, h3) = >>=-eq-ok (response.read (max_response_bytes + 1)) _ h2 in
      let (size, h4) = require-bind (is_valid_size lengths body) _ _ h3 in
      let (result, projected, h5) =
        >>=-eq-ok (reject (project_evidence upstream.parse body expected)) _ h4 in
      let (e, document, shape) =
        (project_evidence_iff upstream.parse body expected result).0 (reject-eq-ok _ projected) in
      (
        e,
        record {
          response = response;
          answered = answered;
          status = status;
          content_type = json;
          announced = announced;
          body = body;
          read = read;
          size = size;
          document = document;
        },
        sym (ok-injective h5) ∙ ap (λ r. (200, r)) shape,
      )

  fetch_sound :
      (fetch_evidence upstream token expected).0 ≡ 200
      → (e : Evidence) × IsGood upstream token expected e
        × (fetch_evidence upstream token expected ≡ (200, evidence_items expected e))
  unfolding fetch_evidence
  fetch_sound h =
      let (answer, done) = handle_error-200 _ h in
      let (response, answered, handled) =
        >>=-eq-ok (upstream.exchange (upstream_request token expected)) _ done in
      let (status, read) =
        handle_response-200 response answer handled (ap (λ r. (handle_error r).0) (sym done) ∙ h) in
      let (e, good, shape) = read_sound response answer answered status read in
      (e, good, ap handle_error done ∙ shape)

  fetch_complete :
      (e : Evidence)
      → IsGood upstream token expected e
      → fetch_evidence upstream token expected ≡ (200, evidence_items expected e)
  unfolding fetch_evidence read_evidence
  fetch_complete e g =
      let projected =
        (project_evidence_iff upstream.parse g.body expected (evidence_items expected e)).1
          (e, g.document, refl) in
      simp (g.answered, g.status, g.content_type, g.announced, g.read, g.size, projected)

-- An answer is that of the backend's request to the API and has the status 200 exactly if the
-- response is good (status 200, JSON, a valid length, a body within the bound that holds evidence
-- of the expected route) and the answer is 200 with the thirteen fields of that evidence. So good
-- responses are all answered, and nothing else is with 200.
pub fetch_evidence_iff :
    (upstream : Upstream) (token : Text) (expected : Expected) (answer : ℕ × Items)
    → ((fetch_evidence upstream token expected ≡ answer) × (answer.0 ≡ 200)) ↔ (
        (e : Evidence) × IsGood upstream token expected e
        × (answer ≡ (200, evidence_items expected e)))
fetch_evidence_iff upstream token expected answer = (
  λ (same, status).
      let (e, good, shape) = fetch_sound upstream token expected (ap (λ r. r.0) same ∙ status) in
      (e, good, sym same ∙ shape),
  λ (e, good, shape).
      (fetch_complete upstream token expected e good ∙ sym shape, ap (λ r. r.0) shape),
)
