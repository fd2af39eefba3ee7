-- ===== src/Backend/Allowlist/Steps.antt =====
-- Inversion of the loops of project_evidence.
use konnect_oidc_fapi2_keycl.Common.{
  ◌≡◌, refl, Bool, true, false, Option, none, some, List, [], ◌∷◌, arith, ok, or_raise-bind,
  require-bind, >>=-eq-ok,
}
use konnect_oidc_fapi2_keycl.Python.Text.{Text, str, ◌==◌}
use konnect_oidc_fapi2_keycl.Python.Json.{Json, Fields, null, bool, text, get, equals_text}
use konnect_oidc_fapi2_keycl.Python.Json.Laws.{equals_text_iff}
use konnect_oidc_fapi2_keycl.Backend.Config.{
  Expected, Rejection, text_fields, thumbprint_fields, verification_fields, invalid_text,
  invalid_thumbprint, invalid_verification,
}
use konnect_oidc_fapi2_keycl.Backend.Project.{
  Items, identity_of, identity_fields, copy_fields, valid_text, valid_thumbprint,
  valid_verification, is_thumbprint,
}
use konnect_oidc_fapi2_keycl.Backend.Allowlist.{or_null, HasItems, IsSafeText, IsThumbprint}

copy_fields-cons :
    (check : Text → Option Json → Option Json) (rejection : Rejection) (source : Fields)
    (name : Text) (names : List Text) (result : Items)
    → copy_fields check rejection source (name ∷ names) ≡ ok result
    → (value : Json) × (rest : Items) × (check name (get name source) ≡ some value)
      × (copy_fields check rejection source names ≡ ok rest)
      × (result ≡ (name, value) ∷ rest)
unfolding copy_fields
copy_fields-cons check rejection source name names result h =
    let (value, checked, h1) = or_raise-bind (check name (get name source)) _ _ h in
    let (rest, copied, h2) = >>=-eq-ok (copy_fields check rejection source names) _ h1 in
    (value, rest, checked, copied, cc)

copy_fields-nil :
    (check : Text → Option Json → Option Json) (rejection : Rejection) (source : Fields)
    (result : Items)
    → copy_fields check rejection source [] ≡ ok result
    → result ≡ []
unfolding copy_fields
copy_fields-nil check rejection source result h = cc

identity_fields-nil :
    (source : Fields) (result : Items) → identity_fields source [] ≡ ok result → result ≡ []
unfolding identity_fields
identity_fields-nil source result h = cc

identity_fields-cons :
    (source : Fields) (name value : Text) (rest : List (Text × Text)) (result : Items)
    → identity_fields source ((name, value) ∷ rest) ≡ ok result
    → (more : Items) × (get name source ≡ some (text value))
      × (identity_fields source rest ≡ ok more)
      × (result ≡ (name, text value) ∷ more)
unfolding identity_fields
identity_fields-cons source name value rest result h =
    let (same, h1) = require-bind (equals_text (get name source) value) _ _ h in
    let (more, copied, h2) = >>=-eq-ok (identity_fields source rest) _ h1 in
    (more, equals_text_iff _ _ same, copied, cc)

valid_text-eq-some :
    (o : Option Json) {v : Json}
    → valid_text o ≡ some v
    → (t : Option Text) × (o ≡ some (or_null t)) × (v ≡ or_null t) × IsSafeText t
unfolding valid_text
valid_text-eq-some (some null) h = (none, refl, cc, tt)
valid_text-eq-some (some (text t)) h = (some t, refl, ground arith, ground arith)
valid_text-eq-some none h = cc
valid_text-eq-some _ h = cc

valid_thumbprint-eq-some :
    (o : Option Json) {v : Json}
    → valid_thumbprint o ≡ some v
    → (t : Text) × (o ≡ some (text t)) × (v ≡ text t) × IsThumbprint t
unfolding valid_thumbprint is_thumbprint
valid_thumbprint-eq-some (some (text t)) h = (t, refl, ground arith, ground arith)
valid_thumbprint-eq-some none h = cc
valid_thumbprint-eq-some _ h = cc

valid_verification-eq-some :
    (name : Text) (o : Option Json) {v : Json}
    → valid_verification name o ≡ some v
    → (b : Bool) × (o ≡ some (bool b)) × (v ≡ bool b)
unfolding valid_verification
valid_verification-eq-some name (some (bool b)) h = (b, refl, ground arith)
valid_verification-eq-some name none h = cc
valid_verification-eq-some name _ h = cc

valid_verification-strict :
    (name : Text) (o : Option Json) {v : Json}
    → (name == str "header_claims_match") ≡ false
    → valid_verification name o ≡ some v
    → (o ≡ some (bool true)) × (v ≡ bool true)
unfolding valid_verification
valid_verification-strict name (some (bool true)) n h = (refl, ground arith)
valid_verification-strict name (some (bool false)) n h = ground arith
valid_verification-strict name none n h = cc
valid_verification-strict name _ n h = cc

pub signature_name : (str "token_signature_verified" == str "header_claims_match") ≡ false
unfolding str ◌==◌
signature_name = refl

pub binding_name : (str "binding_verified" == str "header_claims_match") ≡ false
unfolding str ◌==◌
binding_name = refl

module _ (source : Fields) where
  pub identity_sound :
      (expected : Expected) (result : Items)
      → identity_fields source (identity_of expected) ≡ ok result
      → (result
          ≡ (str "route", text expected.route)
            ∷ (str "azp", text expected.azp)
            ∷ (str "client_authentication", text expected.client_authentication)
            ∷ [])
        × HasItems source result
  identity_sound expected result h =
      let (more, e1, h1, r1) = identity_fields-cons source _ _ _ result h in
      let (more2, e2, h2, r2) = identity_fields-cons source _ _ _ more h1 in
      let (more3, e3, h3, r3) = identity_fields-cons source _ _ _ more2 h2 in
      let last = identity_fields-nil source more3 h3 in
      let shape : result
          ≡ (str "route", text expected.route)
            ∷ (str "azp", text expected.azp)
            ∷ (str "client_authentication", text expected.client_authentication)
            ∷ [] =
        cc in
      (shape, rw shape (e1, (e2, (e3, tt))))

  pub texts_sound :
      (result : Items)
      → copy_fields (λ _. valid_text) invalid_text source text_fields ≡ ok result
      → (a b c d : Option Text) × (result
          ≡ (str "department", or_null a)
            ∷ (str "logical_route", or_null b)
            ∷ (str "department_header", or_null c)
            ∷ (str "logical_route_header", or_null d)
            ∷ [])
        × HasItems source result
        × IsSafeText a
        × IsSafeText b
        × IsSafeText c
        × IsSafeText d
  texts_sound result h =
      let (v1, m1, c1, h1, r1) = copy_fields-cons _ _ source _ _ result h in
      let (v2, m2, c2, h2, r2) = copy_fields-cons _ _ source _ _ m1 h1 in
      let (v3, m3, c3, h3, r3) = copy_fields-cons _ _ source _ _ m2 h2 in
      let (v4, m4, c4, h4, r4) = copy_fields-cons _ _ source _ _ m3 h3 in
      let last = copy_fields-nil _ _ source m4 h4 in
      let (a, a1, a2, sa) = valid_text-eq-some (get (str "department") source) c1 in
      let (b, b1, b2, sb) = valid_text-eq-some (get (str "logical_route") source) c2 in
      let (c, e1, e2, sc) = valid_text-eq-some (get (str "department_header") source) c3 in
      let (d, d1, d2, sd) = valid_text-eq-some (get (str "logical_route_header") source) c4 in
      let shape : result
          ≡ (str "department", or_null a)
            ∷ (str "logical_route", or_null b)
            ∷ (str "department_header", or_null c)
            ∷ (str "logical_route_header", or_null d)
            ∷ [] =
        cc in
      (a, b, c, d, shape, rw shape (a1, (b1, (e1, (d1, tt)))), sa, sb, sc, sd)

  pub thumbprints_sound :
      (result : Items)
      → copy_fields (λ _. valid_thumbprint) invalid_thumbprint source thumbprint_fields ≡ ok result
      → (a b c : Text) × (result
          ≡ (str "token_certificate_thumbprint", text a)
            ∷ (str "forwarded_client_certificate_thumbprint", text b)
            ∷ (str "api_gateway_tls_peer_certificate_thumbprint", text c)
            ∷ [])
        × HasItems source result
        × IsThumbprint a
        × IsThumbprint b
        × IsThumbprint c
  thumbprints_sound result h =
      let (v1, m1, c1, h1, r1) = copy_fields-cons _ _ source _ _ result h in
      let (v2, m2, c2, h2, r2) = copy_fields-cons _ _ source _ _ m1 h1 in
      let (v3, m3, c3, h3, r3) = copy_fields-cons _ _ source _ _ m2 h2 in
      let last = copy_fields-nil _ _ source m3 h3 in
      let (a, a1, a2, sa) =
        valid_thumbprint-eq-some (get (str "token_certificate_thumbprint") source) c1 in
      let (b, b1, b2, sb) =
        valid_thumbprint-eq-some (get (str "forwarded_client_certificate_thumbprint") source) c2 in
      let (c, e1, e2, sc) =
        valid_thumbprint-eq-some (get (str "api_gateway_tls_peer_certificate_thumbprint") source)
          c3 in
      let shape : result
          ≡ (str "token_certificate_thumbprint", text a)
            ∷ (str "forwarded_client_certificate_thumbprint", text b)
            ∷ (str "api_gateway_tls_peer_certificate_thumbprint", text c)
            ∷ [] =
        cc in
      (a, b, c, shape, rw shape (a1, (b1, (e1, tt))), sa, sb, sc)

  pub verifications_sound :
      (result : Items)
      → copy_fields valid_verification invalid_verification source verification_fields ≡ ok result
      → (m : Bool) × (result
          ≡ (str "token_signature_verified", bool true)
            ∷ (str "binding_verified", bool true)
            ∷ (str "header_claims_match", bool m)
            ∷ [])
        × HasItems source result
  verifications_sound result h =
      let (v1, m1, c1, h1, r1) = copy_fields-cons _ _ source _ _ result h in
      let (v2, m2, c2, h2, r2) = copy_fields-cons _ _ source _ _ m1 h1 in
      let (v3, m3, c3, h3, r3) = copy_fields-cons _ _ source _ _ m2 h2 in
      let last = copy_fields-nil _ _ source m3 h3 in
      let (a1, a2) =
        valid_verification-strict (str "token_signature_verified") _ signature_name c1 in
      let (b1, b2) = valid_verification-strict (str "binding_verified") _ binding_name c2 in
      let (m, e1, e2) = valid_verification-eq-some (str "header_claims_match") _ c3 in
      let shape : result
          ≡ (str "token_signature_verified", bool true)
            ∷ (str "binding_verified", bool true)
            ∷ (str "header_claims_match", bool m)
            ∷ [] =
        cc in
      (m, shape, rw shape (a1, (b1, (e1, tt))))
