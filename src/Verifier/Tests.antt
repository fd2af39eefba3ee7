-- ===== src/Verifier/Tests.antt =====
-- The theorems about pop-verifier/app.py at the request of the fixture.
use konnect_oidc_fapi2_keycl.Common.{
  ◌≡◌, ◌≢◌, ◌↔◌, refl, inl, none, some, [], ◌∷◌, all, length, ok, true,
}
use konnect_oidc_fapi2_keycl.Python.Text.{Bytes, str, ◌==◌, is_word, split_words}
use konnect_oidc_fapi2_keycl.Python.Utf8.{encode_utf8}
use konnect_oidc_fapi2_keycl.Verifier.Config.{
  Platform, client_auth, Environment, Config, load_config, check_config, is_member,
  required_audience,
}
use konnect_oidc_fapi2_keycl.Verifier.Compare.{base64url_sha256, constant_time_text_equal}
use konnect_oidc_fapi2_keycl.Verifier.Certificates.{
  forwarded_client_certificate_der, load_pinned_gateway_certificate,
}
use konnect_oidc_fapi2_keycl.Verifier.Token.{
  verify_access_token, verify_forwarded_certificate_binding,
}
use konnect_oidc_fapi2_keycl.Verifier.Binding.{
  verify_forwarded_certificate_binding_iff, binding_unique, base64url_sha256-injective,
  base64url_sha256-is_word, constant_time_text_equal_iff,
}
use konnect_oidc_fapi2_keycl.Verifier.Claims.{IsAccepted, verify_access_token_iff}
use konnect_oidc_fapi2_keycl.Verifier.Forwarded.{IsForwarded, forwarded_client_certificate_der_iff}
use konnect_oidc_fapi2_keycl.Verifier.Startup.{
  IsStrict, IsPinnable, load_config-IsStrict, load_pinned_gateway_certificate_iff,
}
use konnect_oidc_fapi2_keycl.Verifier.Authorization.{
  IsAuthorized, do_get-evidence_iff, untrusted_peer_refused, do_get_status, IsAnswered, IsUnknown,
}
use konnect_oidc_fapi2_keycl.Verifier.Server.{do_get, send_error, invalid_token, untrusted}
use konnect_oidc_fapi2_keycl.Verifier.Fixture.{
  platform, config, headers, request, gateway_der, leaf_der, gateway_certificate, digest_of,
  leaf_thumbprint, claims, is_digest, forwarded, leaf_thumbprint-eq, accepted, authorized,
}

do_get-evidence_iff_example :
    ((do_get config platform gateway_der request).status ≡ 200)
    ↔ IsAuthorized config platform gateway_der request
do_get-evidence_iff_example = do_get-evidence_iff config platform gateway_der request is_digest refl

-- The request of the fixture is answered.
do_get_answers : (do_get config platform gateway_der request).status ≡ 200
do_get_answers = do_get-evidence_iff_example.1 authorized

verify_forwarded_certificate_binding_iff_example :
    (verify_forwarded_certificate_binding platform headers leaf_thumbprint ≡ ok leaf_thumbprint) ↔ (
      (der : Bytes) × (forwarded_client_certificate_der platform headers ≡ ok der)
      × (leaf_thumbprint ≡ base64url_sha256 platform der)
      × (leaf_thumbprint ≡ leaf_thumbprint))
verify_forwarded_certificate_binding_iff_example =
    verify_forwarded_certificate_binding_iff platform headers leaf_thumbprint leaf_thumbprint
      is_digest

binding_passes :
    verify_forwarded_certificate_binding platform headers leaf_thumbprint ≡ ok leaf_thumbprint
binding_passes =
    verify_forwarded_certificate_binding_iff_example.1
      (leaf_der, forwarded, leaf_thumbprint-eq, refl)

binding_unique_example :
    (der der' : Bytes) × (forwarded_client_certificate_der platform headers ≡ ok der)
    × (forwarded_client_certificate_der platform headers ≡ ok der')
    × (platform.sha256 der ≡ platform.sha256 der')
binding_unique_example =
    binding_unique platform headers headers leaf_thumbprint leaf_thumbprint leaf_thumbprint
      is_digest binding_passes binding_passes

verify_access_token_iff_example :
    (verify_access_token config platform (str "abc.def") ≡ ok (claims, leaf_thumbprint))
    ↔ IsAccepted config platform (str "abc.def") claims leaf_thumbprint
verify_access_token_iff_example =
    verify_access_token_iff config platform (str "abc.def") claims leaf_thumbprint

token_passes : verify_access_token config platform (str "abc.def") ≡ ok (claims, leaf_thumbprint)
token_passes = verify_access_token_iff_example.1 accepted

forwarded_client_certificate_der_iff_example :
    (forwarded_client_certificate_der platform headers ≡ ok leaf_der)
    ↔ IsForwarded platform headers leaf_der
forwarded_client_certificate_der_iff_example =
    forwarded_client_certificate_der_iff platform headers leaf_der

leaf-IsForwarded : IsForwarded platform headers leaf_der
leaf-IsForwarded = forwarded_client_certificate_der_iff_example.0 forwarded

abbrev other_pin : Bytes
other_pin = 48 ∷ 9 ∷ []

other_pin_differs : request.peer ≢ some other_pin
other_pin_differs e = cc

untrusted_peer_refused_example :
    (do_get config platform other_pin request ≡ invalid_token untrusted)
    × (send_error platform other_pin request 501 ≡ invalid_token untrusted)
untrusted_peer_refused_example =
    untrusted_peer_refused config platform other_pin request 501 other_pin_differs

do_get_status_example :
    (((do_get config platform gateway_der request).status ≡ 200)
      ↔ IsAnswered config platform gateway_der request)
    × (((do_get config platform gateway_der request).status ≡ 404)
        ↔ IsUnknown config platform gateway_der request)
    × (((do_get config platform gateway_der request).status ≡ 401) ↔ (
        ¬ IsAnswered config platform gateway_der request
        × ¬ IsUnknown config platform gateway_der request))
do_get_status_example = do_get_status config platform gateway_der request is_digest

abbrev environment : Environment
environment = record {
  oidc_issuer = none;
  oidc_audience = none;
  oidc_required_scopes = some (str "profile openid");
  oidc_allowed_algorithms = none;
}

abbrev loaded_config : Config
loaded_config = record {
  issuer = str "https://localhost:8444/realms/fapi-demo";
  audience = required_audience;
  required_scopes = str "profile" ∷ str "openid" ∷ [];
  allowed_algorithms = str "PS256" ∷ [];
}

environment_loads : load_config environment ≡ ok loaded_config
unfolding load_config check_config split_words is_member str ◌==◌
environment_loads = refl

load_config-IsStrict_example :
    IsStrict loaded_config × (loaded_config.issuer ≡ str "https://localhost:8444/realms/fapi-demo")
load_config-IsStrict_example = load_config-IsStrict environment loaded_config environment_loads

-- Its PEM texts are the gateway's certificate.
abbrev gateway_platform : Platform
gateway_platform = record {
  load_pem_x509_certificate = λ pem. ok gateway_certificate;
  load_der_x509_certificate = λ der. ok gateway_certificate;
  sha256 = digest_of;
  decode_jwt = λ options token. none;
}

load_pinned_gateway_certificate_iff_example :
    (load_pinned_gateway_certificate gateway_platform (some (str "pem")) ≡ ok gateway_der)
    ↔ IsPinnable gateway_platform (some (str "pem")) gateway_der
load_pinned_gateway_certificate_iff_example =
    load_pinned_gateway_certificate_iff gateway_platform (some (str "pem")) gateway_der

gateway_is_loaded :
    load_pinned_gateway_certificate gateway_platform (some (str "pem")) ≡ ok gateway_der
gateway_is_loaded = load_pinned_gateway_certificate_iff_example.1 (record {
  content = str "pem";
  present = refl;
  certificate = gateway_certificate;
  parsed = refl;
  named = refl;
  usages = client_auth ∷ [];
  has_usages = refl;
  client_usage = inl refl;
  is_der = refl;
})

base64url_sha256-injective_example : platform.sha256 leaf_der ≡ platform.sha256 (7 ∷ 7 ∷ 7 ∷ [])
base64url_sha256-injective_example =
    base64url_sha256-injective platform leaf_der (7 ∷ 7 ∷ 7 ∷ []) is_digest
      (unfold base64url_sha256 in refl)

base64url_sha256-is_word_example :
    (all is_word (base64url_sha256 platform leaf_der) ≡ true)
    × (length (base64url_sha256 platform leaf_der) ≡ 43)
base64url_sha256-is_word_example = base64url_sha256-is_word platform leaf_der is_digest

constant_time_text_equal_iff_example :
    (constant_time_text_equal (some (str "risk")) (some (str "risk")) ≡ true)
    ↔ ((str "risk" ≡ str "risk") × (encode_utf8 (str "risk") ≢ none))
constant_time_text_equal_iff_example = constant_time_text_equal_iff (str "risk") (str "risk")
