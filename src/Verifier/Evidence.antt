-- ===== src/Verifier/Evidence.antt =====
-- The evidence that is returned for a verified token.
use konnect_oidc_fapi2_keycl.Common.{
  Bool, true, false, ◌&&◌, Option, none, some, List, [], ◌∷◌, ◌++◌, leb, length, Result, ok,
  or_raise, ◌>>=◌, if◌then◌else◌,
}
use konnect_oidc_fapi2_keycl.Python.Text.{Text, str, truthy}
use konnect_oidc_fapi2_keycl.Python.Json.{Json, Fields, null, bool, text, get, as_text}
use konnect_oidc_fapi2_keycl.Python.Headers.{Headers, get_header}
use konnect_oidc_fapi2_keycl.Verifier.Config.{
  Failure, unexpected, azp_routes, department_claim, route_claim,
}
use konnect_oidc_fapi2_keycl.Verifier.Compare.{constant_time_text_equal}

-- The argument is none where the value is no string.
unfoldable pub safe_evidence_text : Option Text → Option Text
safe_evidence_text none = none
safe_evidence_text (some t) = if leb (length t) 256 then some t else none

abbrev pub or_null : Option Text → Json
or_null none = null
or_null (some t) = text t

-- `bool(value)` of a string or None
abbrev pub truthy_text : Option Text → Bool
truthy_text none = false
truthy_text (some t) = truthy t

-- The four texts of routing_evidence, in the order of the source.
pub record Routing : Type 0 where
  pub department : Option Text
  pub logical_route : Option Text
  pub department_header : Option Text
  pub logical_route_header : Option Text

unfoldable pub routing_texts : Headers → Fields → Routing
unfolding safe_evidence_text
routing_texts headers claims = record {
  department = safe_evidence_text (as_text (get department_claim claims));
  logical_route = safe_evidence_text (as_text (get route_claim claims));
  department_header = safe_evidence_text (get_header (str "X-Demo-Department") headers);
  logical_route_header = safe_evidence_text (get_header (str "X-Demo-Route") headers);
}

unfoldable pub header_claims_match : Routing → Bool
header_claims_match r =
    (truthy_text r.department
      && truthy_text r.logical_route
      && truthy_text r.department_header
      && truthy_text r.logical_route_header)
    && (constant_time_text_equal r.department r.department_header
        && constant_time_text_equal r.logical_route r.logical_route_header)

unfoldable pub routing_evidence : Headers → Fields → List (Text × Json)
unfolding routing_texts
routing_evidence headers claims =
    let r = routing_texts headers claims in
    (str "department", or_null r.department)
    ∷ (str "logical_route", or_null r.logical_route)
    ∷ (str "department_header", or_null r.department_header)
    ∷ (str "logical_route_header", or_null r.logical_route_header)
    ∷ (str "header_claims_match", bool (header_claims_match r))
    ∷ []

-- `claims["azp"]` and `AZP_ROUTES[azp]` raise a KeyError where the key is missing.
unfoldable pub build_evidence :
    Headers → Fields → Text → Text → Text → Result Failure (List (Text × Json))
build_evidence headers claims token_thumbprint forwarded_thumbprint tls_peer_thumbprint = do
  azp ← or_raise (as_text (get (str "azp") claims)) unexpected
  found ← or_raise (azp_routes azp) unexpected
  ok (
      ((str "azp", text azp)
        ∷ (str "route", text found.0)
        ∷ (str "client_authentication", text found.1)
        ∷ (str "token_certificate_thumbprint", text token_thumbprint)
        ∷ (str "forwarded_client_certificate_thumbprint", text forwarded_thumbprint)
        ∷ (str "api_gateway_tls_peer_certificate_thumbprint", text tls_peer_thumbprint)
        ∷ (str "token_signature_verified", bool true)
        ∷ (str "binding_verified", bool true)
        ∷ [])
      ++ routing_evidence headers claims)
