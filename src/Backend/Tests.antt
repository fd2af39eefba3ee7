-- ===== src/Backend/Tests.antt =====
-- The theorems about third-party-backend/app.py at the request of the fixture.
use konnect_oidc_fapi2_keycl.Common.{
  ℕ, ◌≤◌, ◌≡◌, ◌≢◌, ◌↔◌, refl, ap, true, none, some, [], ◌∷◌, length, arith, ok, err,
}
use konnect_oidc_fapi2_keycl.Python.Int.{pos}
use konnect_oidc_fapi2_keycl.Python.Text.{Bytes, str, ◌==◌, lower}
use konnect_oidc_fapi2_keycl.Python.Json.{Fields, obj, bool, int, text, dict}
use konnect_oidc_fapi2_keycl.Python.Headers.{get_all}
use konnect_oidc_fapi2_keycl.Backend.Config.{Expected, route_a, routes, max_token_bytes}
use konnect_oidc_fapi2_keycl.Backend.Bearer.{
  trusted_peer, bearer_token, is_token, is_token_char, is_token_tail, after_prefix,
}
use konnect_oidc_fapi2_keycl.Backend.Project.{Items, project_object, project_evidence}
use konnect_oidc_fapi2_keycl.Backend.Fetch.{
  Upstream, timed_out, upstream_request, fetch_evidence, handle_error, handle_response,
}
use konnect_oidc_fapi2_keycl.Backend.Server.{do_get, error_response, json_response, has_body}
use konnect_oidc_fapi2_keycl.Backend.Ready.{
  ReadyServer, handle, validate_ready_status, ready_request, is_hex_of,
}
use konnect_oidc_fapi2_keycl.Backend.Allowlist.{Evidence, evidence_items}
use konnect_oidc_fapi2_keycl.Backend.Allowlist.Exact.{Holds, project_object_iff}
use konnect_oidc_fapi2_keycl.Backend.Outcomes.{
  IsDocument, IsGood, project_evidence_iff, fetch_evidence_iff,
}
use konnect_oidc_fapi2_keycl.Backend.Fixed.{IsFixedError, fetch_evidence_fixed}
use konnect_oidc_fapi2_keycl.Backend.Gate.{
  IsServed, trusted_peer_iff, bearer_token-upstream_request, untrusted_gateway_refused,
  do_get-IsServed,
}
use konnect_oidc_fapi2_keycl.Backend.RoundTrip.{IsStarted, handle-validate_ready_status}
use konnect_oidc_fapi2_keycl.Backend.Fixture.{
  upstream, source, body, evidence, token, pin, request, holds, document, good, is_token_token,
}

project_object_iff_example :
    (project_object source route_a ≡ ok (evidence_items route_a evidence)) ↔ (
      (e : Evidence) × Holds source route_a e
      × (evidence_items route_a evidence ≡ evidence_items route_a e))
project_object_iff_example = project_object_iff source route_a (evidence_items route_a evidence)

source_passes : project_object source route_a ≡ ok (evidence_items route_a evidence)
source_passes = project_object_iff_example.1 (evidence, holds, refl)

project_evidence_iff_example :
    (project_evidence upstream.parse body route_a ≡ ok (evidence_items route_a evidence)) ↔ (
      (e : Evidence) × IsDocument upstream.parse body route_a e
      × (evidence_items route_a evidence ≡ evidence_items route_a e))
project_evidence_iff_example =
    project_evidence_iff upstream.parse body route_a (evidence_items route_a evidence)

body_passes : project_evidence upstream.parse body route_a ≡ ok (evidence_items route_a evidence)
body_passes = project_evidence_iff_example.1 (evidence, document, refl)

abbrev answer : ℕ × Items
answer = (200, evidence_items route_a evidence)

fetch_evidence_iff_example :
    ((fetch_evidence upstream token route_a ≡ answer) × (answer.0 ≡ 200)) ↔ (
      (e : Evidence) × IsGood upstream token route_a e × (answer ≡ (200, evidence_items route_a e)))
fetch_evidence_iff_example = fetch_evidence_iff upstream token route_a answer

good-200 : fetch_evidence upstream token route_a ≡ answer
good-200 = ((fetch_evidence_iff upstream token route_a answer).1 (evidence, good, refl)).0

-- No answer in time.
abbrev silent : Upstream
silent = record { exchange = λ request. err timed_out; parse = λ bytes. none }

silent-504 : (fetch_evidence silent token route_a).0 ≢ 200
unfolding fetch_evidence handle_error handle_response
silent-504 e = omega arith

fetch_evidence_fixed_example : IsFixedError (fetch_evidence silent token route_a)
fetch_evidence_fixed_example = fetch_evidence_fixed silent token route_a silent-504

trusted_peer_iff_example :
    (trusted_peer (some pin) pin ≡ true) ↔ ((some pin ≡ some pin) × (pin ≢ []))
trusted_peer_iff_example = trusted_peer_iff (some pin) pin

token-short : length token ≤ max_token_bytes
unfolding str
token-short = omega arith

bearer_token-upstream_request_example :
    bearer_token (upstream_request token route_a).headers ≡ some token
bearer_token-upstream_request_example =
    bearer_token-upstream_request token route_a is_token_token token-short

abbrev other_pin : Bytes
other_pin = 48 ∷ 9 ∷ []

other_pin_differs : request.peer ≢ some other_pin
other_pin_differs e = cc

untrusted_gateway_refused_example :
    do_get upstream other_pin request ≡ error_response 401 (str "untrusted_gateway")
untrusted_gateway_refused_example =
    untrusted_gateway_refused upstream other_pin request other_pin_differs

not_healthz : request.path ≢ str "/healthz"
unfolding str
not_healthz e = cc

request-200 : (do_get upstream pin request).status ≡ 200
unfolding do_get trusted_peer has_body routes bearer_token is_token is_token_char is_token_tail
    after_prefix get_all lower str ◌==◌ json_response
request-200 = ap (λ r. r.0) good-200

do_get-IsServed_example :
    (expected : Expected) × (e : Evidence) × IsServed upstream pin request expected e
    × (do_get upstream pin request ≡ json_response 200 (evidence_items expected e))
do_get-IsServed_example = do_get-IsServed upstream pin request not_healthz request-200

abbrev server : ReadyServer
server = record {
  config_hash = str "0123456789abcdef0123456789abcdef0123456789abcdef0123456789abcdef";
  generation = str "0123456789abcdef0123456789abcdef";
  pid = pos 7;
}

abbrev status : Fields
status = dict (
    (str "schema_version", int (pos 1))
    ∷ (str "ready", bool true)
    ∷ (str "generation", text server.generation)
    ∷ (str "config_sha256", text server.config_hash)
    ∷ (str "pid", int server.pid)
    ∷ [])

hash-is_hex : is_hex_of 64 server.config_hash ≡ true
unfolding is_hex_of str
hash-is_hex = refl

generation-is_hex : is_hex_of 32 server.generation ≡ true
unfolding is_hex_of str
generation-is_hex = refl

server-IsStarted : IsStarted server
server-IsStarted = record { config_hash = hash-is_hex; generation = generation-is_hex; pid = refl }

answers : handle server ready_request (some server.config_hash) ≡ some status
unfolding handle str ◌==◌
answers = refl

handle-validate_ready_status_example :
    (validate_ready_status (obj status) ≡ ok status)
    × (ready_request ≡ ready_request)
    × (some server.config_hash ≡ some server.config_hash)
handle-validate_ready_status_example =
    handle-validate_ready_status server ready_request (some server.config_hash) status
      server-IsStarted answers
