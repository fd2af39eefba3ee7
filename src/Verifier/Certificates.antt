-- ===== src/Verifier/Certificates.antt =====
-- The peer of the TLS connection, and the client certificate that the gateway forwards.
use konnect_oidc_fapi2_keycl.Common.{
  Bool, not, ◌&&◌, Option, none, some, List, [], ◌∷◌, eqb, ltb, length, Result, ok, err, require,
  or_raise, reraise, ◌>>=◌, ◌>>◌,
}
use konnect_oidc_fapi2_keycl.Python.Text.{
  Text, Bytes, str, ◌==◌, truthy, contains, count, starts_with, ends_with, strip_right,
  is_ascii_space,
}
use konnect_oidc_fapi2_keycl.Python.Percent.{has_bad_escape, unquote_to_bytes}
use konnect_oidc_fapi2_keycl.Python.Utf8.{encode_ascii}
use konnect_oidc_fapi2_keycl.Python.Headers.{Headers, get_all}
use konnect_oidc_fapi2_keycl.Verifier.Config.{
  Platform, Certificate, LoadError, value_error, other_error, Reason, Failure, token_validation,
  unexpected, untrusted_peer, certificate_missing, certificate_invalid, api_upstream_common_name,
  client_auth, max_forwarded_cert_header_bytes, pem_certificate_begin, pem_certificate_end,
  is_member,
}
use konnect_oidc_fapi2_keycl.Verifier.Compare.{base64url_sha256}

-- The one value of a list.
abbrev pub single : List Text → Option Text
single (t ∷ []) = some t
single _ = none

unfoldable pub certificate_common_name : Certificate → Result Failure Text
certificate_common_name certificate =
    or_raise (single certificate.common_names) (token_validation untrusted_peer)

-- `except ValueError`, also where an error is a TokenValidationError; other exceptions go on.
abbrev pub refuse : LoadError → Reason → Failure
refuse value_error reason = token_validation reason
refuse other_error reason = unexpected

abbrev pub loaded : Result LoadError Certificate → Reason → Result Failure Certificate
loaded (ok certificate) reason = ok certificate
loaded (err e) reason = err (refuse e reason)

-- `peer` is none where getpeercert returns None or raises.
unfoldable pub verify_api_gateway_peer : Platform → Option Bytes → Bytes → Result Failure Text
unfolding certificate_common_name
verify_api_gateway_peer platform none pinned = err (token_validation untrusted_peer)
verify_api_gateway_peer platform (some peer) pinned = do
  require (truthy peer && truthy pinned) (token_validation untrusted_peer)
  certificate ← loaded (platform.load_der_x509_certificate peer) untrusted_peer
  common_name ← certificate_common_name certificate
  require (common_name == api_upstream_common_name && (peer == pinned))
      (token_validation untrusted_peer)
  ok (base64url_sha256 platform peer)

pub data PinError : Type 0 where
  invalid_pin wrong_identity failed : PinError

abbrev pin_load_error : LoadError → PinError
pin_load_error value_error = invalid_pin
pin_load_error other_error = failed

abbrev pub pin_loaded : Result LoadError Certificate → Result PinError Certificate
pin_loaded (ok certificate) = ok certificate
pin_loaded (err e) = err (pin_load_error e)

-- The file's content is none where reading it raises OSError.
unfoldable pub load_pinned_gateway_certificate : Platform → Option Bytes → Result PinError Bytes
unfolding certificate_common_name
load_pinned_gateway_certificate platform file = do
  content ← or_raise file invalid_pin
  certificate ← pin_loaded (platform.load_pem_x509_certificate content)
  common_name ← reraise (certificate_common_name certificate) invalid_pin
  usages ← or_raise certificate.extended_key_usages invalid_pin
  require (common_name == api_upstream_common_name && is_member client_auth usages) wrong_identity
  ok certificate.der

-- One PEM certificate and nothing beside it but white space at its end.
unfoldable pub is_single_pem : Bytes → Bool
is_single_pem pem =
    eqb (count pem pem_certificate_begin) 1
    && eqb (count pem pem_certificate_end) 1
    && starts_with pem pem_certificate_begin
    && ends_with (strip_right is_ascii_space pem) pem_certificate_end

unfoldable pub forwarded_client_certificate_der : Platform → Headers → Result Failure Bytes
forwarded_client_certificate_der platform headers = do
  encoded ←
      or_raise (single (get_all (str "X-Client-Cert") headers))
        (token_validation certificate_missing)
  require
      (truthy encoded
        && not (ltb max_forwarded_cert_header_bytes (length encoded))
        && not (contains b',' encoded))
      (token_validation certificate_missing)
  encoded_bytes ← or_raise (encode_ascii encoded) (token_validation certificate_invalid)
  require (not (has_bad_escape encoded_bytes)) (token_validation certificate_invalid)
  let pem = unquote_to_bytes encoded
  require (is_single_pem pem) (token_validation certificate_invalid)
  certificate ← loaded (platform.load_pem_x509_certificate pem) certificate_invalid
  ok certificate.der
