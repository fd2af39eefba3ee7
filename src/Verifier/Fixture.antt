-- ===== src/Verifier/Fixture.antt =====
-- A platform, a configuration and a request for the tests: the client of route A calls through the
-- pinned gateway.
use konnect_oidc_fapi2_keycl.Common.{
  ℕ, zero, suc, ◌%◌, ◌<◌, ◌≡◌, ◌≢◌, All, refl, none, some, [], ◌∷◌, arith, length, replicate, ok,
  inl,
}
use konnect_oidc_fapi2_keycl.Python.Text.{
  Text, Bytes, str, ◌==◌, lower, split_words, strip_right, starts_with, ends_with, count, partition,
}
use konnect_oidc_fapi2_keycl.Python.Json.{Fields, text, obj, dict, get}
use konnect_oidc_fapi2_keycl.Python.Percent.{has_bad_escape, unquote_to_bytes}
use konnect_oidc_fapi2_keycl.Python.Base64.{alphabet, urlsafe_b64encode}
use konnect_oidc_fapi2_keycl.Python.Base64.Laws.{IsBytes}
use konnect_oidc_fapi2_keycl.Python.Utf8.{encode_ascii}
use konnect_oidc_fapi2_keycl.Python.Headers.{Headers, get_all}
use konnect_oidc_fapi2_keycl.Verifier.Config.{
  Config, Platform, Certificate, azp_routes, required_audience, openid, ps256,
  api_upstream_common_name, client_auth, department_claim, route_claim,
}
use konnect_oidc_fapi2_keycl.Verifier.Compare.{base64url_sha256}
use konnect_oidc_fapi2_keycl.Verifier.Certificates.{forwarded_client_certificate_der, is_single_pem}
use konnect_oidc_fapi2_keycl.Verifier.Token.{bearer_token, bearer_value}
use konnect_oidc_fapi2_keycl.Verifier.Binding.{IsDigest}
use konnect_oidc_fapi2_keycl.Verifier.Claims.{IsAccepted, Listed}
use konnect_oidc_fapi2_keycl.Verifier.Peer.{IsPinnedPeer}
use konnect_oidc_fapi2_keycl.Verifier.Authorization.{IsAuthorized}
use konnect_oidc_fapi2_keycl.Verifier.Server.{Request}

-- 32 bytes that depend on the length of the input.
abbrev pub digest_of : Bytes → Bytes
digest_of s = (length s % 256) ∷ replicate 31 7

abbrev pub gateway_der : Bytes
gateway_der = 48 ∷ 1 ∷ []

abbrev pub leaf_der : Bytes
leaf_der = 48 ∷ 1 ∷ 2 ∷ []

-- The thumbprint of `leaf_der` under this digest.
abbrev pub leaf_thumbprint : Text
leaf_thumbprint = str "AwcHBwcHBwcHBwcHBwcHBwcHBwcHBwcHBwcHBwcHBwc"

abbrev pub gateway_certificate : Certificate
gateway_certificate = record {
  common_names = api_upstream_common_name ∷ [];
  extended_key_usages = some (client_auth ∷ []);
  der = gateway_der;
}

abbrev pub leaf_certificate : Certificate
leaf_certificate = record {
  common_names = str "third-party" ∷ [];
  extended_key_usages = none;
  der = leaf_der;
}

abbrev pub confirmation : Fields
confirmation = dict ((str "x5t#S256", text leaf_thumbprint) ∷ [])

abbrev pub claims : Fields
claims = dict (
    (str "scope", text (str "openid profile"))
    ∷ (str "azp", text (str "third-party-fapi-mtls"))
    ∷ (str "cnf", obj confirmation)
    ∷ (department_claim, text (str "risk"))
    ∷ (route_claim, text (str "route-a"))
    ∷ [])

-- Loads the leaf from every PEM text, the gateway from its DER form, and knows one token.
abbrev pub platform : Platform
platform = record {
  load_pem_x509_certificate = λ pem. ok leaf_certificate;
  load_der_x509_certificate = λ der. ok gateway_certificate;
  sha256 = digest_of;
  decode_jwt = λ options token. some claims;
}

abbrev pub config : Config
config = record {
  issuer = str "https://localhost:8444/realms/fapi-demo";
  audience = required_audience;
  required_scopes = openid ∷ [];
  allowed_algorithms = ps256 ∷ [];
}

abbrev pub headers : Headers
headers =
    (str "authorization", str "Bearer abc.def")
    ∷ (
      str "X-Client-Cert",
      str "-----BEGIN CERTIFICATE-----%0AMA%3D%3D%0a-----END CERTIFICATE-----%0A",
    )
    ∷ (str "X-Demo-Department", str "risk")
    ∷ (str "X-Demo-Route", str "route-a")
    ∷ []

abbrev pub request : Request
request = record { peer = some gateway_der; path = str "/evidence"; headers = headers }

replicate-IsBytes : (n b : ℕ) → b < 256 → IsBytes (replicate n b)
replicate-IsBytes zero b h = tt
replicate-IsBytes (suc n) b h = (h, replicate-IsBytes n b h)

length-replicate : (n b : ℕ) → length (replicate n b) ≡ n
length-replicate zero b = refl
length-replicate (suc n) b = omega (arith, length-replicate n b)

pub is_digest : IsDigest platform
is_digest = record {
  bytes = λ s. (omega arith, replicate-IsBytes 31 7 (omega arith));
  size = λ s. omega (arith, length-replicate 31 7);
}

pub gateway_is_pinned : IsPinnedPeer platform gateway_der request
gateway_is_pinned = record {
  presented = refl;
  not_empty = λ e. cc;
  certificate = gateway_certificate;
  parsed = refl;
  named = refl;
}

pub leaf_thumbprint-eq : leaf_thumbprint ≡ base64url_sha256 platform leaf_der
unfolding base64url_sha256 urlsafe_b64encode alphabet strip_right str
leaf_thumbprint-eq = refl

pub forwarded : forwarded_client_certificate_der platform headers ≡ ok leaf_der
unfolding forwarded_client_certificate_der get_all lower str ◌==◌ encode_ascii has_bad_escape
    unquote_to_bytes is_single_pem count starts_with ends_with strip_right
forwarded = refl

pub bearer : bearer_token headers ≡ some (str "abc.def")
unfolding bearer_token get_all lower str ◌==◌ bearer_value partition
bearer = refl

pub scope_claim : get (str "scope") claims ≡ some (text (str "openid profile"))
unfolding get dict str ◌==◌
scope_claim = refl

pub granted : All (λ s. Listed s (split_words (str "openid profile"))) (openid ∷ [])
unfolding split_words str
granted = (inl refl, tt)

pub azp_claim : get (str "azp") claims ≡ some (text (str "third-party-fapi-mtls"))
unfolding get dict str ◌==◌
azp_claim = refl

pub azp_known : azp_routes (str "third-party-fapi-mtls") ≢ none
unfolding azp_routes str ◌==◌
azp_known e = cc

pub cnf_claim : get (str "cnf") claims ≡ some (obj confirmation)
unfolding get dict str ◌==◌
cnf_claim = refl

pub bound : get (str "x5t#S256") confirmation ≡ some (text leaf_thumbprint)
unfolding get dict str ◌==◌
bound = refl

pub not_empty : leaf_thumbprint ≢ []
unfolding str
not_empty e = cc

abbrev pub accepted : IsAccepted config platform (str "abc.def") claims leaf_thumbprint
accepted = record {
  decoded = refl;
  scope = str "openid profile";
  scope_claim = scope_claim;
  granted = granted;
  azp = str "third-party-fapi-mtls";
  azp_claim = azp_claim;
  azp_known = azp_known;
  cnf = confirmation;
  cnf_claim = cnf_claim;
  bound = bound;
  not_empty = not_empty;
}

abbrev pub authorized : IsAuthorized config platform gateway_der request
authorized = record {
  peer = gateway_is_pinned;
  token = str "abc.def";
  bearer = bearer;
  claims = claims;
  thumbprint = leaf_thumbprint;
  accepted = accepted;
  der = leaf_der;
  forwarded = forwarded;
  bound = leaf_thumbprint-eq;
}
