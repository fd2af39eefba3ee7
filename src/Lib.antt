-- ===== src/Lib.antt =====
-- Verification of the demo's two Python services, and of the scripts that configure its Keycloak
-- realm and its gateways.
--
-- A third-party client calls the backend through a Kong gateway; the backend (third-party-backend/
-- app.py) sends the bearer token over mutual TLS to the API's gateway, behind which the verifier
-- (pop-verifier/app.py) checks the token and its binding to the client certificate, and returns
-- evidence, of which the backend lets an allowlist of fields through. The realm that issues the
-- tokens is configured by scripts/sync-keycloak-demo-data.py, and the gateways by decK, which
-- scripts/run-deck.py starts.
--
-- Common holds the shared names, tests on numbers, lists and the result of a computation that may
-- raise. Program is a computation that calls on something outside it, with its runs and their calls.
-- Python models what the programs use of Python: texts as code points, bytes, JSON values
-- (Json), header fields (Headers), base64, percent, URL and UTF-8 encodings.
--
-- Verifier is pop-verifier/app.py. Config: the constants, the module's start (load_config) and the
-- record Platform of what is not in the repository (the X.509 parser, SHA-256, and the JWT library
-- with its key set). Compare: base64url_sha256, constant_time_text_equal. Certificates:
-- verify_api_gateway_peer, load_pinned_gateway_certificate, forwarded_client_certificate_der. Token:
-- bearer_token, verify_access_token, verify_forwarded_certificate_binding. Evidence:
-- routing_evidence, safe_evidence_text, build_evidence. Server: Handler (do_get is do_GET). Proofs are
-- in Binding, Claims, Peer, Forwarded, Startup and Authorization.
--
-- Backend is third-party-backend/app.py. Config: the constants and routes. Bearer: trusted_peer,
-- bearer_token. Project: project_evidence, its loops and tests. Fetch: fetch_evidence, where the
-- record Upstream stands for http.client and json.loads. Server: Handler. Ready: the readiness
-- status, its server and its check. Proofs are in Allowlist, Outcomes, Fixed, Gate and RoundTrip.
--
-- Chain is about the two services together.
--
-- Keycloak is scripts/sync-keycloak-demo-data.py. Values: field lists and dicts. Mappers:
-- mapper_admin_payload, plan_mapper_sync. Merge: merge_named_entries, realm_admin_payload.
-- KeyProvider: key_provider_admin_payload, plan_key_provider_sync. Clients: client_admin_payload,
-- plan_client_sync. Request: the arguments of request and its exceptions. Prepare: prepare_* and
-- verify_*. Apply: apply_*. Main: admin_token, wait_for_keycloak and the order of calls in main. These
-- are programs (Program): trees of calls of request with a branch for each reply, so a run is against
-- any Keycloak with any state. Proofs are in InSync, Distinct, Managed, Single, Additive, Changed,
-- Settled, ReadOnly, PlansFirst, Converged, Writes and Waiting.
--
-- Deck is scripts/run-deck.py, the only way by which decK is started. Identities and Scope: the fixed
-- plans and validate_backend_scope. Sanitize: sanitize_output. Report: parse_sanitized_runtime_diff.
-- Request: what the script calls on (files, the environment, decK, and the checks of wp1_target.py
-- and wp3_runtime.py), each call with any answer; the record Parts is what the standard library
-- computes, and the two of those checks that read their arguments only. Files, Receipt and Approval: the private files and the receipt of the review. Launch:
-- run_deck_subprocess. Prepare, Review and Main: main. Proofs are in Entries, Order, Complete, Exact,
-- Quiet, QuietReview, Reviewed, Unchanged, Approved, Launched, Gate, ApiGate, Named and Withheld.
--
-- Every loop is structural recursion (the wait for Keycloak on its 30 rounds), so there is no fuel.
-- Numbers are natural numbers and the integers of JSON are integers of any size, as in Python; no
-- arithmetic of the programs wraps.
--
-- Not modelled: sockets, TLS contexts, the contents of files and logging; the time that comparisons
-- take; the text of JSON (a parser is a parameter, and an answer is the value that is dumped,
-- without the field Content-Length); how request sends a call, and what main of the synchronization
-- does with the user profile and the users; in run-deck.py, the checks that it takes from
-- wp1_target.py and wp3_runtime.py, and validate_wp5_additive_scope and read_wp5_runtime_approval,
-- which main does not call; the other scripts, the plugins of Kong, the page of the demo, its
-- infrastructure and its tests.
pub mod Common
pub mod Program
pub mod Python
pub mod Verifier
pub mod Backend
pub mod Chain
pub mod Keycloak
pub mod Deck
