-- ===== src/Chain/Tests.antt =====
-- The chain of the two programs at the request of the verifier's fixture.
use konnect_oidc_fapi2_keycl.Common.{◌≡◌, refl, some, ok}
use konnect_oidc_fapi2_keycl.Python.Text.{str, ◌==◌, lower}
use konnect_oidc_fapi2_keycl.Python.Json.{get, dict}
use konnect_oidc_fapi2_keycl.Python.Headers.{get_header}
use konnect_oidc_fapi2_keycl.Verifier.Config.{azp_routes}
use konnect_oidc_fapi2_keycl.Verifier.Token
use konnect_oidc_fapi2_keycl.Verifier.Compare.{base64url_sha256}
use konnect_oidc_fapi2_keycl.Verifier.Evidence.{routing_texts, safe_evidence_text}
use konnect_oidc_fapi2_keycl.Verifier.Server.{do_get}
use konnect_oidc_fapi2_keycl.Verifier.Fixture.{
  config, platform, gateway_der, request, claims, leaf_thumbprint, is_digest, authorized,
}
use konnect_oidc_fapi2_keycl.Backend.Config.{route_a, routes}
use konnect_oidc_fapi2_keycl.Backend.Project.{project_object}
use konnect_oidc_fapi2_keycl.Backend.Fetch.{upstream_request}
use konnect_oidc_fapi2_keycl.Backend.Allowlist.{evidence_items}
use konnect_oidc_fapi2_keycl.Backend.Fixture.{token, is_token_token}
use konnect_oidc_fapi2_keycl.Chain.{IsPrintable, evidence_of, verifier-accepted}
use konnect_oidc_fapi2_keycl.Chain.Forward.{verifier-bearer_token, routes-azp_routes}

at_route_a : routes (str "/evidence/route-a") ≡ some route_a
unfolding routes str ◌==◌
at_route_a = refl

printable : IsPrintable (routing_texts request.headers claims)
unfolding routing_texts safe_evidence_text get dict get_header lower str ◌==◌
printable = record {
  department = refl;
  logical_route = refl;
  department_header = refl;
  logical_route_header = refl;
}

verifier-accepted_example :
    project_object (do_get config platform gateway_der request).body route_a
    ≡ ok (
        evidence_items route_a (
          evidence_of
            (routing_texts request.headers claims)
            leaf_thumbprint
            (base64url_sha256 platform gateway_der)))
verifier-accepted_example =
    verifier-accepted config platform gateway_der request (str "/evidence/route-a") route_a
      is_digest refl at_route_a authorized refl printable

verifier-bearer_token_example :
    Token.bearer_token (upstream_request token route_a).headers ≡ some token
verifier-bearer_token_example = verifier-bearer_token token route_a is_token_token

routes-azp_routes_example :
    azp_routes route_a.azp ≡ some (route_a.route, route_a.client_authentication)
routes-azp_routes_example = routes-azp_routes (str "/evidence/route-a") route_a at_route_a
