-- ===== src/Backend/Gate.antt =====
-- Who is answered, and that the bearer token reaches the API unchanged.
use konnect_oidc_fapi2_keycl.Common.{
  ◌≤◌, ◌≡◌, ◌≢◌, ◌↔◌, inl, inr, refl, sym, ap, ◌∙◌, true, false, ◌&&◌, Option, none, some, [],
  arith, length, Bool-cases, Option-cases, and_left, and_right,
}
use konnect_oidc_fapi2_keycl.Python.Text.{Text, Bytes, str, ◌==◌, truthy, lower}
use konnect_oidc_fapi2_keycl.Python.Text.Laws.{==_iff, ==_refl, truthy_iff}
use konnect_oidc_fapi2_keycl.Python.Headers.{get_all}
use konnect_oidc_fapi2_keycl.Backend.Config.{Expected, routes, max_token_bytes}
use konnect_oidc_fapi2_keycl.Backend.Bearer.{trusted_peer, bearer_token, is_token, after_prefix}
use konnect_oidc_fapi2_keycl.Backend.Fetch.{Upstream, upstream_request, fetch_evidence}
use konnect_oidc_fapi2_keycl.Backend.Allowlist.{Evidence, evidence_items}
use konnect_oidc_fapi2_keycl.Backend.Outcomes.{IsGood, fetch_evidence_iff}
use konnect_oidc_fapi2_keycl.Backend.Server.{
  Request, do_get, has_body, error_response, json_response,
}

-- The backend trusts a peer exactly if it presents the pinned certificate and that is not empty.
pub trusted_peer_iff :
    (peer : Option Bytes) (pin : Bytes)
    → (trusted_peer peer pin ≡ true) ↔ ((peer ≡ some pin) × (pin ≢ []))
unfolding trusted_peer
trusted_peer_iff none pin = (λ h. cc, λ h. cc)
trusted_peer_iff (some peer) pin = (
  λ h. (
    ap some ((==_iff peer pin).0 (and_right (truthy peer && truthy pin) _ h)),
    (truthy_iff pin).0 (and_right (truthy peer) _ (and_left _ (peer == pin) h)),
  ),
  λ h. let same : peer ≡ pin = cc in rw same (simp ((truthy_iff pin).1 h.1, ==_refl pin)),
)

-- The request that the backend sends for a token of the bearer syntax within the bound reads back,
-- by the backend's own rules, as the same token.
pub bearer_token-upstream_request :
    (token : Text) (expected : Expected)
    → is_token token ≡ true
    → length token ≤ max_token_bytes
    → bearer_token (upstream_request token expected).headers ≡ some token
unfolding bearer_token upstream_request get_all lower str ◌==◌ after_prefix
bearer_token-upstream_request token expected h k = ground arith

-- Where the peer does not present the pinned certificate, do_GET answers every GET request,
-- whatever its path and headers, with 401 and `untrusted_gateway`.
pub untrusted_gateway_refused :
    (upstream : Upstream) (pin : Bytes) (request : Request)
    → request.peer ≢ some pin
    → do_get upstream pin request ≡ error_response 401 (str "untrusted_gateway")
unfolding do_get
untrusted_gateway_refused upstream pin request h =
    elim (Bool-cases (trusted_peer request.peer pin)) [
      | inl trusted ↦ absurd (h ((trusted_peer_iff request.peer pin).0 trusted).0)
      | inr other ↦ rw other
    ]

-- Why a request was answered with evidence.
pub record IsServed (upstream : Upstream) (pin : Bytes) (request : Request) (expected : Expected)
    (e : Evidence) : Type 0 where
  pub peer : request.peer ≡ some pin
  pub no_body : has_body request.headers ≡ false
  pub route : routes request.path ≡ some expected
  pub token : Text
  pub bearer : bearer_token request.headers ≡ some token
  pub good : IsGood upstream token expected e

module _ (upstream : Upstream) (pin : Bytes) (request : Request) where
  do_get-route :
      (expected : Expected) (token : Text)
      → trusted_peer request.peer pin ≡ true
      → has_body request.headers ≡ false
      → (request.path == str "/healthz") ≡ false
      → routes request.path ≡ some expected
      → bearer_token request.headers ≡ some token
      → do_get upstream pin request
        ≡ json_response
            (fetch_evidence upstream token expected).0
            (fetch_evidence upstream token expected).1
  unfolding do_get
  do_get-route expected token peer body path route bearer = ground arith

  served :
      (expected : Expected) (token : Text)
      → trusted_peer request.peer pin ≡ true
      → has_body request.headers ≡ false
      → (request.path == str "/healthz") ≡ false
      → routes request.path ≡ some expected
      → bearer_token request.headers ≡ some token
      → (do_get upstream pin request).status ≡ 200
      → (expected' : Expected) × (e : Evidence) × IsServed upstream pin request expected' e
        × (do_get upstream pin request ≡ json_response 200 (evidence_items expected' e))
  served expected token peer no_body path route bearer h =
      let answer = do_get-route expected token peer no_body path route bearer in
      let (e, good, shape) =
        (fetch_evidence_iff upstream token expected (fetch_evidence upstream token expected)).0
          (refl, (unfold json_response in ap (λ r. r.status) (sym answer) ∙ h)) in
      (
        expected,
        e,
        record {
          peer = ((trusted_peer_iff request.peer pin).0 peer).0;
          no_body = no_body;
          route = route;
          token = token;
          bearer = bearer;
          good = good;
        },
        answer ∙ ap (λ r. json_response r.0 r.1) shape,
      )

  -- Where the path is not `/healthz` and the backend answers 200, the request came from the pinned
  -- gateway for one of the two routes with a bearer token and no body, the API answered that token
  -- with good evidence of the route, and the answer is the thirteen fields of that evidence.
  pub do_get-IsServed :
      request.path ≢ str "/healthz"
      → (do_get upstream pin request).status ≡ 200
      → (expected : Expected) × (e : Evidence) × IsServed upstream pin request expected e
        × (do_get upstream pin request ≡ json_response 200 (evidence_items expected e))
  unfolding do_get
  do_get-IsServed other h = elim (Bool-cases (trusted_peer request.peer pin)) [
    | inr no_peer ↦ ground arith
    | inl peer ↦ elim (Bool-cases (has_body request.headers)) [
      | inl body ↦ ground arith
      | inr no_body ↦ elim (Bool-cases (request.path == str "/healthz")) [
        | inl health ↦ absurd (other ((==_iff request.path (str "/healthz")).0 health))
        | inr path ↦ elim (Option-cases (routes request.path)) [
          | inl no_route ↦ ground arith
          | inr (expected, route) ↦ elim (Option-cases (bearer_token request.headers)) [
            | inl no_token ↦ ground arith
            | inr (token, bearer) ↦ served expected token peer no_body path route bearer h
          ]
        ]
      ]
    ]
  ]
