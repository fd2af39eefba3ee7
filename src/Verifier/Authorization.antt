-- ===== src/Verifier/Authorization.antt =====
-- Which requests the verifier answers with evidence, and that everything else is refused.
use konnect_oidc_fapi2_keycl.Common.{
  ℕ, ◌≡◌, ◌≢◌, ◌↔◌, ◌∙◌, ◌⊎◌, inl, inr, refl, sym, ap, Bool, true, false, some, List, [], arith, ok,
  Bool-cases, Option-cases, Result-cases,
}
use konnect_oidc_fapi2_keycl.Python.Text.{Text, Bytes, str, ◌==◌}
use konnect_oidc_fapi2_keycl.Python.Text.Laws.{==_refl, ==_iff}
use konnect_oidc_fapi2_keycl.Python.Json.{Json, Fields}
use konnect_oidc_fapi2_keycl.Verifier.Config.{Config, Platform, azp_routes}
use konnect_oidc_fapi2_keycl.Verifier.Compare.{base64url_sha256}
use konnect_oidc_fapi2_keycl.Verifier.Certificates.{
  forwarded_client_certificate_der, verify_api_gateway_peer,
}
use konnect_oidc_fapi2_keycl.Verifier.Token.{
  bearer_token, verify_access_token, verify_forwarded_certificate_binding,
}
use konnect_oidc_fapi2_keycl.Verifier.Evidence.{build_evidence}
use konnect_oidc_fapi2_keycl.Verifier.Claims.{IsAccepted, verify_access_token_iff}
use konnect_oidc_fapi2_keycl.Verifier.Binding.{IsDigest, verify_forwarded_certificate_binding_iff}
use konnect_oidc_fapi2_keycl.Verifier.Server.{
  Request, do_get, send_error, evidence_response, invalid_token, json_response, untrusted,
}
use konnect_oidc_fapi2_keycl.Verifier.Peer.{IsPinnedPeer, peer_sound, peer_complete}

-- A request that may have the evidence: it comes from the pinned API Gateway with one bearer token
-- that is accepted, and it forwards the certificate whose thumbprint the token carries.
pub record IsAuthorized (config : Config) (platform : Platform) (pinned : Bytes) (request : Request)
    : Type 0 where
  pub peer : IsPinnedPeer platform pinned request
  pub token : Text
  pub bearer : bearer_token request.headers ≡ some token
  pub claims : Fields
  pub thumbprint : Text
  pub accepted : IsAccepted config platform token claims thumbprint
  pub der : Bytes
  pub forwarded : forwarded_client_certificate_der platform request.headers ≡ ok der
  pub bound : thumbprint ≡ base64url_sha256 platform der

not_healthz : (str "/evidence" == str "/healthz") ≡ false
unfolding str ◌==◌
not_healthz = refl

module _ (config : Config) (platform : Platform) (pinned : Bytes) where
  evidence_response-ok :
      (request : Request) (tls_peer_thumbprint token : Text)
      → (evidence_response config platform request tls_peer_thumbprint token).status ≡ 200
      → (claims : Fields) × (thumbprint forwarded : Text) × (verify_access_token config platform
            token
          ≡ ok (claims, thumbprint))
        × (verify_forwarded_certificate_binding platform request.headers thumbprint ≡ ok forwarded)
  unfolding evidence_response
  evidence_response-ok request tls_peer_thumbprint token h =
      elim (Result-cases (verify_access_token config platform token)) [
        | inr (e, failed) ↦ ground (arith, failed)
        | inl ((claims, thumbprint), checked) ↦
            elim (Result-cases
              (verify_forwarded_certificate_binding platform request.headers thumbprint)) [
                | inr (e, failed) ↦ ground (arith, failed, checked)
                | inl (forwarded, bound) ↦ (claims, thumbprint, forwarded, checked, bound)
              ]
      ]

  pub evidence_response-eq :
      (request : Request) (tls_peer_thumbprint : Text) (evidence : List (Text × Json))
      → IsDigest platform
      → (a : IsAuthorized config platform pinned request)
      → build_evidence request.headers a.claims a.thumbprint a.thumbprint tls_peer_thumbprint
        ≡ ok evidence
      → evidence_response config platform request tls_peer_thumbprint a.token
        ≡ json_response 200 evidence []
  unfolding evidence_response
  evidence_response-eq request tls_peer_thumbprint evidence d a built =
      let checked =
        (verify_access_token_iff config platform a.token a.claims a.thumbprint).1 a.accepted in
      let bound =
        (verify_forwarded_certificate_binding_iff platform request.headers a.thumbprint a.thumbprint
            d).1
          (a.der, a.forwarded, a.bound, refl) in
      ground (arith, checked, bound)

  evidence_response_complete :
      (request : Request) (tls_peer_thumbprint : Text)
      → IsDigest platform
      → (a : IsAuthorized config platform pinned request)
      → (evidence_response config platform request tls_peer_thumbprint a.token).status ≡ 200
  unfolding evidence_response build_evidence
  evidence_response_complete request tls_peer_thumbprint d a =
      let checked =
        (verify_access_token_iff config platform a.token a.claims a.thumbprint).1 a.accepted in
      let bound =
        (verify_forwarded_certificate_binding_iff platform request.headers a.thumbprint a.thumbprint
            d).1
          (a.der, a.forwarded, a.bound, refl) in
      elim (Option-cases (azp_routes a.accepted.azp)) [
        | inl unknown ↦ absurd (a.accepted.azp_known unknown)
        | inr (found, known) ↦ ground (arith, checked, bound, a.accepted.azp_claim, known)
      ]

  pub do_get-evidence :
      (request : Request) (tls_peer_thumbprint token : Text)
      → request.path ≡ str "/evidence"
      → verify_api_gateway_peer platform request.peer pinned ≡ ok tls_peer_thumbprint
      → bearer_token request.headers ≡ some token
      → do_get config platform pinned request
        ≡ evidence_response config platform request tls_peer_thumbprint token
  unfolding do_get
  do_get-evidence request tls_peer_thumbprint token path peer bearer =
      ground (arith, not_healthz, ==_refl (str "/evidence"))

  do_get_sound :
      (request : Request)
      → IsDigest platform
      → request.path ≡ str "/evidence"
      → (do_get config platform pinned request).status ≡ 200
      → IsAuthorized config platform pinned request
  unfolding do_get
  do_get_sound request d path h =
      elim (Result-cases (verify_api_gateway_peer platform request.peer pinned)) [
        | inr (e, failed) ↦ ground (arith, failed)
        | inl (tls_peer_thumbprint, peer) ↦ elim (Option-cases (bearer_token request.headers)) [
          | inl missing ↦ ground (arith, not_healthz, ==_refl (str "/evidence"))
          | inr (token, bearer) ↦
              let answered = do_get-evidence request tls_peer_thumbprint token path peer bearer in
              let (claims, thumbprint, forwarded, checked, bound) =
                evidence_response-ok request tls_peer_thumbprint token
                  (ap (λ r. r.status) (sym answered) ∙ h) in
              let (der, leaf, same, _) =
                (verify_forwarded_certificate_binding_iff platform request.headers thumbprint
                    forwarded d).0
                  bound in
              record {
                peer = (peer_sound platform pinned request tls_peer_thumbprint peer).0;
                token = token;
                bearer = bearer;
                claims = claims;
                thumbprint = thumbprint;
                accepted =
                    (verify_access_token_iff config platform token claims thumbprint).0 checked;
                der = der;
                forwarded = leaf;
                bound = same;
              }
        ]
      ]

  -- Where SHA-256 gives 32 bytes and the path is `/evidence`, the verifier answers 200 exactly to
  -- the authorized requests: the peer is the pinned API Gateway, there is one bearer token, its
  -- claims are accepted, and the request forwards the certificate whose thumbprint the token
  -- carries.
  pub do_get-evidence_iff :
      (request : Request)
      → IsDigest platform
      → request.path ≡ str "/evidence"
      → ((do_get config platform pinned request).status ≡ 200)
        ↔ IsAuthorized config platform pinned request
  do_get-evidence_iff request d path = (
    λ h. do_get_sound request d path h,
    λ a.
        rw
          (do_get-evidence request (base64url_sha256 platform pinned) a.token path
            (peer_complete platform pinned request a.peer) a.bearer)
          (evidence_response_complete request (base64url_sha256 platform pinned) d a),
  )

-- Where the peer does not present the pinned certificate, the verifier answers every request,
-- whatever its path and headers, with the refusal of an untrusted peer, and so it does where its
-- base class refuses the request.
pub untrusted_peer_refused :
    (config : Config) (platform : Platform) (pinned : Bytes) (request : Request) (code : ℕ)
    → request.peer ≢ some pinned
    → (do_get config platform pinned request ≡ invalid_token untrusted)
      × (send_error platform pinned request code ≡ invalid_token untrusted)
unfolding do_get send_error
untrusted_peer_refused config platform pinned request code h =
    elim (Result-cases (verify_api_gateway_peer platform request.peer pinned)) [
      | inr (e, failed) ↦ (ground (arith, failed), ground (arith, failed))
      | inl (tls_peer_thumbprint, peer) ↦
          absurd (h (peer_sound platform pinned request tls_peer_thumbprint peer).0.presented)
    ]

contradiction : {b : Bool} → b ≡ false → b ≡ true → ⊥
contradiction e h = cc

differ : (s t : Text) → (s == t) ≡ false → s ≢ t
differ s t h e = contradiction h ((==_iff s t).1 e)

evidence_response_status :
    (config : Config) (platform : Platform) (request : Request) (tls_peer_thumbprint token : Text)
    → ((evidence_response config platform request tls_peer_thumbprint token).status ≡ 200)
      ⊎ ((evidence_response config platform request tls_peer_thumbprint token).status ≡ 401)
unfolding evidence_response
evidence_response_status config platform request tls_peer_thumbprint token = ground arith

module _ (config : Config) (platform : Platform) (pinned : Bytes) (request : Request) where
  status_404 :
      IsPinnedPeer platform pinned request
      → request.path ≢ str "/healthz"
      → request.path ≢ str "/evidence"
      → (do_get config platform pinned request).status ≡ 404
  unfolding do_get
  status_404 peer other other' =
      let verified = peer_complete platform pinned request peer in
      ground (
        arith,
        verified,
        ==_iff request.path (str "/healthz"),
        ==_iff request.path (str "/evidence"),
      )

  status_healthz :
      IsPinnedPeer platform pinned request
      → request.path ≡ str "/healthz"
      → (do_get config platform pinned request).status ≡ 200
  unfolding do_get
  status_healthz peer path =
      let verified = peer_complete platform pinned request peer in
      ground (arith, verified, (==_iff request.path (str "/healthz")).1 path)

  status_evidence :
      IsDigest platform
      → IsPinnedPeer platform pinned request
      → request.path ≡ str "/evidence"
      → ((do_get config platform pinned request).status ≡ 200)
        ⊎ ((do_get config platform pinned request).status ≡ 401)
  unfolding do_get
  status_evidence d peer path =
      let verified = peer_complete platform pinned request peer in
      elim (Option-cases (bearer_token request.headers)) [
        | inl missing ↦ inr (ground (arith, verified, not_healthz, ==_refl (str "/evidence")))
        | inr (token, bearer) ↦
            rw (do_get-evidence config platform pinned request _ token path verified bearer)
              (evidence_response_status config platform request _ token)
      ]

  -- The requests that are answered with 200.
  abbrev pub IsAnswered : Type 0
  IsAnswered =
      (IsPinnedPeer platform pinned request × (request.path ≡ str "/healthz"))
      ⊎ ((request.path ≡ str "/evidence") × IsAuthorized config platform pinned request)

  -- The requests whose path is none of the verifier's.
  abbrev pub IsUnknown : Type 0
  IsUnknown =
      IsPinnedPeer platform pinned request
      × (request.path ≢ str "/healthz")
      × (request.path ≢ str "/evidence")

  status_cases :
      IsDigest platform
      → (((do_get config platform pinned request).status ≡ 200) × IsAnswered)
        ⊎ ((do_get config platform pinned request).status ≡ 401)
        ⊎ (((do_get config platform pinned request).status ≡ 404) × IsUnknown)
  unfolding do_get
  status_cases d = elim (Result-cases (verify_api_gateway_peer platform request.peer pinned)) [
    | inr (e, failed) ↦ inr (inl (ground (arith, failed)))
    | inl (thumbprint, verified) ↦
        let peer = (peer_sound platform pinned request thumbprint verified).0 in
        elim (Bool-cases (request.path == str "/healthz")) [
          | inl same ↦
              let path = (==_iff request.path (str "/healthz")).0 same in
              inl (status_healthz peer path, inl (peer, path))
          | inr no_health ↦ elim (Bool-cases (request.path == str "/evidence")) [
            | inl same ↦
                let path = (==_iff request.path (str "/evidence")).0 same in
                elim (status_evidence d peer path) [
                  | inl h ↦ inl (
                    h,
                    inr (path, (do_get-evidence_iff config platform pinned request d path).0 h),
                  )
                  | inr h ↦ inr (inl h)
                ]
            | inr no_evidence ↦
                let other = differ request.path (str "/healthz") no_health in
                let other' = differ request.path (str "/evidence") no_evidence in
                inr (inr (status_404 peer other other', (peer, other, other')))
          ]
        ]
  ]

  -- Where SHA-256 gives 32 bytes, do_GET answers a GET request with 200 exactly if it comes from
  -- the pinned API Gateway for `/healthz` or is authorized and for `/evidence`, with 404 exactly if
  -- it comes from the pinned API Gateway for another path, and otherwise with 401.
  pub do_get_status :
      IsDigest platform
      → (((do_get config platform pinned request).status ≡ 200) ↔ IsAnswered)
        × (((do_get config platform pinned request).status ≡ 404) ↔ IsUnknown)
        × (((do_get config platform pinned request).status ≡ 401) ↔ (¬ IsAnswered × ¬ IsUnknown))
  do_get_status d =
      let answered : IsAnswered → (do_get config platform pinned request).status ≡ 200 = λ a.
        elim a [
          | inl (peer, path) ↦ status_healthz peer path
          | inr (path, authorized) ↦
              (do_get-evidence_iff config platform pinned request d path).1 authorized
        ] in
      let unknown : IsUnknown → (do_get config platform pinned request).status ≡ 404 =
        λ (peer, other, other'). status_404 peer other other' in
      (
        (
          λ h. elim (status_cases d) [
            | inl (_, a) ↦ a
            | inr (inl e) ↦ absurd (omega (arith, h, e))
            | inr (inr (e, _)) ↦ absurd (omega (arith, h, e))
          ],
          answered,
        ),
        (
          λ h. elim (status_cases d) [
            | inl (e, _) ↦ absurd (omega (arith, h, e))
            | inr (inl e) ↦ absurd (omega (arith, h, e))
            | inr (inr (_, u)) ↦ u
          ],
          unknown,
        ),
        (
          λ h. (λ a. omega (arith, h, answered a), λ u. omega (arith, h, unknown u)),
          λ (no_answer, no_unknown). elim (status_cases d) [
            | inl (_, a) ↦ absurd (no_answer a)
            | inr (inl e) ↦ e
            | inr (inr (_, u)) ↦ absurd (no_unknown u)
          ],
        ),
      )
