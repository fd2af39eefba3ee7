-- ===== src/Verifier/Startup.antt =====
-- What the module of pop-verifier/app.py has checked once it is loaded, and the pinned certificate
-- with which the server starts.
use konnect_oidc_fapi2_keycl.Common.{
  ◌≡◌, inl, inr, ◌↔◌, refl, sym, subst, ap, ◌∙◌, Option-cases, ok-injective, true, ◌&&◌, Option,
  some, List, [], ◌∷◌, arith, Result, ok, err, ◌>>=◌, reraise, or_raise-bind, require-bind,
  and_left, and_right,
}
use konnect_oidc_fapi2_keycl.Python.Text.{Text, Bytes, str, ◌==◌}
use konnect_oidc_fapi2_keycl.Python.Text.Laws.{==_iff, ==_refl}
use konnect_oidc_fapi2_keycl.Verifier.Config.{
  Config, Environment, check_config, load_config, env_or, only_ps256, required_audience, openid,
  ps256, is_member, Platform, Certificate, LoadError, api_upstream_common_name, client_auth,
}
use konnect_oidc_fapi2_keycl.Verifier.Claims.{Listed, is_member_iff}
use konnect_oidc_fapi2_keycl.Verifier.Peer.{single-eq-some}
use konnect_oidc_fapi2_keycl.Verifier.Certificates.{
  PinError, load_pinned_gateway_certificate, pin_loaded, certificate_common_name, single,
}

-- The configuration that the checks are made with.
pub record IsStrict (config : Config) : Type 0 where
  pub audience : config.audience ≡ required_audience
  pub openid_listed : Listed openid config.required_scopes
  pub algorithms : config.allowed_algorithms ≡ ps256 ∷ []

only_ps256-eq-true : (ts : List Text) → only_ps256 ts ≡ true → ts ≡ ps256 ∷ []
only_ps256-eq-true [] h = cc
only_ps256-eq-true (a ∷ []) h = ap (λ x. x ∷ []) ((==_iff a ps256).0 h)
only_ps256-eq-true (_ ∷ _ ∷ _) h = cc

check_config-IsStrict :
    (given config : Config) → check_config given ≡ ok config → IsStrict config × (given ≡ config)
unfolding check_config
check_config-IsStrict given config h =
    let (audience, h₁) = require-bind (given.audience == required_audience) _ _ h in
    let (scopes, h₂) = require-bind (is_member openid given.required_scopes) _ _ h₁ in
    let (algorithms, h₃) = require-bind (only_ps256 given.allowed_algorithms) _ _ h₂ in
    let strict : IsStrict given = record {
      audience = (==_iff _ _).0 audience;
      openid_listed = (is_member_iff _ _).0 scopes;
      algorithms = only_ps256-eq-true _ algorithms;
    } in
    (subst IsStrict (ok-injective h₃) strict, ok-injective h₃)

-- A verifier module that loads, whatever the environment, has the audience of the API, asks for the
-- scope openid and allows the algorithm PS256 alone; its issuer is that of the environment, or the
-- default if none is set.
pub load_config-IsStrict :
    (env : Environment) (config : Config)
    → load_config env ≡ ok config
    → IsStrict config
      × (config.issuer ≡ env_or env.oidc_issuer (str "https://localhost:8444/realms/fapi-demo"))
unfolding load_config
load_config-IsStrict env config h =
    let (strict, same) = check_config-IsStrict _ config h in (strict, ap (λ c. c.issuer) (sym same))

-- A certificate that may be pinned: it names the API Gateway and may authenticate a client.
pub record IsPinnable (platform : Platform) (file : Option Bytes) (der : Bytes) : Type 0 where
  pub content : Bytes
  pub present : file ≡ some content
  pub certificate : Certificate
  pub parsed : platform.load_pem_x509_certificate content ≡ ok certificate
  pub named : certificate.common_names ≡ api_upstream_common_name ∷ []
  pub usages : List Text
  pub has_usages : certificate.extended_key_usages ≡ some usages
  pub client_usage : Listed client_auth usages
  pub is_der : der ≡ certificate.der

pin_loaded-bind :
    {B : Type 0} (r : Result LoadError Certificate) (f : Certificate → Result PinError B) {b : B}
    → (pin_loaded r >>= f) ≡ ok b
    → (c : Certificate) × (r ≡ ok c) × (f c ≡ ok b)
pin_loaded-bind (ok c) f h = (c, refl, h)
pin_loaded-bind (err e) f h = cc

named-bind :
    {B : Type 0} (c : Certificate) (e : PinError) (f : Text → Result PinError B) {b : B}
    → (reraise (certificate_common_name c) e >>= f) ≡ ok b
    → (name : Text) × (single c.common_names ≡ some name) × (f name ≡ ok b)
unfolding certificate_common_name
named-bind c e f h = elim (Option-cases (single c.common_names)) [
  | inl none_named ↦ ground (arith, none_named, h)
  | inr (name, named) ↦ (name, named, ground (arith, named, h))
]

-- The verifier starts with a pin exactly if its certificate file can be read and holds a
-- certificate that names the API Gateway alone and is for client authentication; the pin is its DER
-- form.
pub load_pinned_gateway_certificate_iff :
    (platform : Platform) (file : Option Bytes) (der : Bytes)
    → (load_pinned_gateway_certificate platform file ≡ ok der) ↔ IsPinnable platform file der
unfolding load_pinned_gateway_certificate certificate_common_name
load_pinned_gateway_certificate_iff platform file der = (
  λ h.
      let (content, present, h₁) = or_raise-bind file _ _ h in
      let (c, parsed, h₂) = pin_loaded-bind (platform.load_pem_x509_certificate content) _ h₁ in
      let (name, named, h₃) = named-bind c _ _ h₂ in
      let (usages, has_usages, h₄) = or_raise-bind c.extended_key_usages _ _ h₃ in
      let (right, h₅) =
        require-bind (name == api_upstream_common_name && is_member client_auth usages) _ _ h₄ in
      let same : name ≡ api_upstream_common_name =
        (==_iff name api_upstream_common_name).0 (and_left _ _ right) in
      record {
        content = content;
        present = present;
        certificate = c;
        parsed = parsed;
        named = single-eq-some c.common_names (named ∙ ap some same);
        usages = usages;
        has_usages = has_usages;
        client_usage =
            (is_member_iff client_auth usages).0
              (and_right (name == api_upstream_common_name) _ right);
        is_der = sym (ok-injective h₅);
      },
  λ p. rw p.is_der (
      simp (
        p.present,
        p.parsed,
        p.named,
        ==_refl api_upstream_common_name,
        p.has_usages,
        (is_member_iff client_auth p.usages).1 p.client_usage,
      )),
)
