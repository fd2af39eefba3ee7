-- ===== src/Verifier/Config.antt =====
-- The constants and environment of pop-verifier/app.py, what it asks of the JWT and X.509
-- libraries and of SHA-256, and how it fails.
use konnect_oidc_fapi2_keycl.Common.{
  ℕ, ◌*◌, Bool, false, ◌||◌, Option, none, some, List, [], ◌∷◌, Result, ok, require, ◌>>◌,
  if◌then◌else◌,
}
use konnect_oidc_fapi2_keycl.Python.Text.{Text, Bytes, str, ◌==◌, split_words}
use konnect_oidc_fapi2_keycl.Python.Json.{Fields}

abbrev pub required_audience : Text
required_audience = str "fapi-demo-api"

abbrev pub openid : Text
openid = str "openid"

abbrev pub ps256 : Text
ps256 = str "PS256"

abbrev pub api_upstream_common_name : Text
api_upstream_common_name = str "api-gateway-upstream"

abbrev pub client_auth : Text
client_auth = str "1.3.6.1.5.5.7.3.2"

abbrev pub department_claim : Text
department_claim = str "https://fapi-demo.example.com/department"

abbrev pub route_claim : Text
route_claim = str "https://fapi-demo.example.com/route"

abbrev pub max_forwarded_cert_header_bytes : ℕ
max_forwarded_cert_header_bytes = 24 * 1024

abbrev pub pem_certificate_begin : Bytes
pem_certificate_begin = str "-----BEGIN CERTIFICATE-----"

abbrev pub pem_certificate_end : Bytes
pem_certificate_end = str "-----END CERTIFICATE-----"

-- AZP_ROUTES: the route and the client authentication of each client.
unfoldable pub azp_routes : Text → Option (Text × Text)
azp_routes azp =
    if azp == str "third-party-fapi-mtls"
    then some (str "route-a", str "tls_client_auth")
    else if azp == str "third-party-fapi-pkj-mtls"
    then some (str "route-b", str "private_key_jwt")
    else none

-- `value in values`
unfoldable pub is_member : Text → List Text → Bool
is_member t [] = false
is_member t (s ∷ ss) = s == t || is_member t ss

pub record Config : Type 0 where
  pub issuer : Text
  pub audience : Text
  pub required_scopes : List Text
  pub allowed_algorithms : List Text

-- The environment variables that the module reads, where they are set.
pub record Environment : Type 0 where
  pub oidc_issuer : Option Text
  pub oidc_audience : Option Text
  pub oidc_required_scopes : Option Text
  pub oidc_allowed_algorithms : Option Text

pub data ConfigError : Type 0 where
  bad_audience no_openid bad_algorithms : ConfigError

-- `os.environ.get(name, default)`
abbrev pub env_or : Option Text → Text → Text
env_or none default = default
env_or (some t) default = t

abbrev pub only_ps256 : List Text → Bool
only_ps256 (a ∷ []) = a == ps256
only_ps256 _ = false

-- The tests at the top level of the module: it does not load with another audience, without the
-- scope openid or with other algorithms than PS256.
unfoldable pub check_config : Config → Result ConfigError Config
check_config config = do
  require (config.audience == required_audience) bad_audience
  require (is_member openid config.required_scopes) no_openid
  require (only_ps256 config.allowed_algorithms) bad_algorithms
  ok config

unfoldable pub load_config : Environment → Result ConfigError Config
unfolding check_config
load_config env = check_config (record {
  issuer = env_or env.oidc_issuer (str "https://localhost:8444/realms/fapi-demo");
  audience = env_or env.oidc_audience required_audience;
  required_scopes = split_words (env_or env.oidc_required_scopes openid);
  allowed_algorithms = split_words (env_or env.oidc_allowed_algorithms ps256);
})

-- What the code reads of an `x509.Certificate`. The key usages are none where the certificate has
-- no such extension.
pub record Certificate : Type 0 where
  pub common_names : List Text
  pub extended_key_usages : Option (List Text)
  pub der : Bytes

pub data LoadError : Type 0 where
  value_error other_error : LoadError

-- The arguments of `jwt.decode`.
pub record JwtOptions : Type 0 where
  pub algorithms : List Text
  pub audience : Text
  pub issuer : Text
  pub required : List Text
  pub verify_nbf : Bool

-- The libraries: `cryptography.x509`, `hashlib.sha256`, and `JWK_CLIENT` with `jwt.decode`, which
-- returns the claims of a token or raises.
pub record Platform : Type 0 where
  pub load_pem_x509_certificate : Bytes → Result LoadError Certificate
  pub load_der_x509_certificate : Bytes → Result LoadError Certificate
  pub sha256 : Bytes → Bytes
  pub decode_jwt : JwtOptions → Text → Option Fields

-- The messages of TokenValidationError.
pub data Reason : Type 0 where
  untrusted_peer certificate_missing certificate_invalid jwt_failed scope_missing : Reason
  azp_invalid binding_missing binding_mismatch : Reason

unfoldable pub message : Reason → Text
message untrusted_peer = str "untrusted API Gateway peer"
message certificate_missing = str "forwarded client certificate is missing or ambiguous"
message certificate_invalid = str "forwarded client certificate is invalid"
message jwt_failed = str "JWT validation failed"
message scope_missing = str "required scope is missing"
message azp_invalid = str "authorized party is invalid"
message binding_missing = str "certificate binding is missing"
message binding_mismatch = str "certificate binding mismatch"

-- A TokenValidationError, or any other exception.
pub data Failure : Type 0 where
  token_validation : Reason → Failure
  unexpected : Failure
