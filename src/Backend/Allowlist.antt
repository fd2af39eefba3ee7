-- ===== src/Backend/Allowlist.antt =====
-- What the projection lets through: the evidence as a record, and when a document holds it.
pub mod Steps
pub mod Consistent
pub mod Exact
use konnect_oidc_fapi2_keycl.Common.{
  ℕ, ◌≤◌, ◌≡◌, ◌≢◌, ◌↔◌, ◌⊎◌, inl, inr, refl, ap, ◌∙◌, Bool, true, false, not, ◌&&◌, ◌||◌, Option,
  none, some, List, [], ◌∷◌, ◌++◌, arith, length, all, any, All, Result, ok, err, ◌>>=◌, require,
  or_raise, or_raise-bind, require-bind, >>=-eq-ok, Bool-cases,
}
use konnect_oidc_fapi2_keycl.Python.Text.{Text, Bytes, str, ◌==◌, truthy, is_word}
use konnect_oidc_fapi2_keycl.Python.Text.Laws.{==_iff, ==_refl}
use konnect_oidc_fapi2_keycl.Python.Json.{Json, Fields, null, bool, text, get, dict, equals_text}
use konnect_oidc_fapi2_keycl.Python.Json.Laws.{equals_text_iff}
use konnect_oidc_fapi2_keycl.Backend.Config.{
  Expected, Rejection, text_fields, thumbprint_fields, verification_fields, invalid_text,
  invalid_thumbprint, invalid_verification,
}
use konnect_oidc_fapi2_keycl.Backend.Project.{
  Items, identity_of, identity_fields, copy_fields, valid_text, valid_thumbprint,
  valid_verification, is_thumbprint, is_control, is_consistent_binding, is_consistent_headers,
  project_object,
}

-- The values of the fields that are not fixed by the route.
pub record Evidence : Type 0 where
  pub department : Option Text
  pub logical_route : Option Text
  pub department_header : Option Text
  pub logical_route_header : Option Text
  pub thumbprint : Text
  pub peer_thumbprint : Text
  pub header_claims_match : Bool

abbrev pub or_null : Option Text → Json
or_null none = null
or_null (some t) = text t

-- The thirteen fields that leave the backend.
abbrev pub evidence_items : Expected → Evidence → Items
evidence_items expected e =
    (str "route", text expected.route)
    ∷ (str "azp", text expected.azp)
    ∷ (str "client_authentication", text expected.client_authentication)
    ∷ (str "department", or_null e.department)
    ∷ (str "logical_route", or_null e.logical_route)
    ∷ (str "department_header", or_null e.department_header)
    ∷ (str "logical_route_header", or_null e.logical_route_header)
    ∷ (str "token_certificate_thumbprint", text e.thumbprint)
    ∷ (str "forwarded_client_certificate_thumbprint", text e.thumbprint)
    ∷ (str "api_gateway_tls_peer_certificate_thumbprint", text e.peer_thumbprint)
    ∷ (str "token_signature_verified", bool true)
    ∷ (str "binding_verified", bool true)
    ∷ (str "header_claims_match", bool e.header_claims_match)
    ∷ []

-- `source` has each of the items.
abbrev pub HasItems : Fields → Items → Type 0
HasItems source = All (λ item. get item.0 source ≡ some item.1)

-- At most 256 characters and none of them a control character.
abbrev pub IsSafeText : Option Text → Type 0
IsSafeText none = Unit
IsSafeText (some t) = (length t ≤ 256) × (any is_control t ≡ false)

abbrev pub IsThumbprint : Text → Type 0
IsThumbprint t = (length t ≡ 43) × (all is_word t ≡ true)

-- Where the evidence says that headers and claims match, they are there and equal.
abbrev pub IsMatching : Bool → Option Text → Option Text → Type 0
IsMatching false claim header = Unit
IsMatching true claim header = (t : Text) × (t ≢ []) × (claim ≡ some t) × (header ≡ some t)

pub record IsEvidence (e : Evidence) : Type 0 where
  pub department : IsSafeText e.department
  pub logical_route : IsSafeText e.logical_route
  pub department_header : IsSafeText e.department_header
  pub logical_route_header : IsSafeText e.logical_route_header
  pub thumbprint : IsThumbprint e.thumbprint
  pub peer_thumbprint : IsThumbprint e.peer_thumbprint
  pub department_match : IsMatching e.header_claims_match e.department e.department_header
  pub route_match : IsMatching e.header_claims_match e.logical_route e.logical_route_header
