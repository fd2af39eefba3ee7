-- ===== src/Verifier/Forwarded.antt =====
-- Which requests forward a client certificate, of forwarded_client_certificate_der.
use konnect_oidc_fapi2_keycl.Common.{
  ℕ, ◌≤◌, ◌≡◌, ◌≢◌, ◌↔◌, sym, ap, ◌∙◌, Bool, true, false, not, ◌&&◌, some, [], ◌∷◌, arith, ltb,
  length, all, ok, or_raise-bind, require-bind, ok-injective,
}
use konnect_oidc_fapi2_keycl.Python.Text.{Text, Bytes, str, truthy, contains}
use konnect_oidc_fapi2_keycl.Python.Text.Laws.{truthy_iff}
use konnect_oidc_fapi2_keycl.Python.Percent.{has_bad_escape, unquote_to_bytes}
use konnect_oidc_fapi2_keycl.Python.Percent.Laws.{
  Encodes, unquote-Encodes, bad-Encodes, Encodes-unquote,
}
use konnect_oidc_fapi2_keycl.Python.Utf8.{encode_ascii}
use konnect_oidc_fapi2_keycl.Python.Headers.{Headers, get_all}
use konnect_oidc_fapi2_keycl.Verifier.Config.{
  Platform, Certificate, max_forwarded_cert_header_bytes,
}
use konnect_oidc_fapi2_keycl.Verifier.Certificates.{
  forwarded_client_certificate_der, single, is_single_pem,
}
use konnect_oidc_fapi2_keycl.Verifier.Peer.{single-eq-some, loaded-bind}

-- The field X-Client-Cert is there once, in ASCII, short enough and with no comma, and is the
-- percent encoding of one PEM certificate.
pub record IsForwarded (platform : Platform) (headers : Headers) (der : Bytes) : Type 0 where
  pub encoded : Text
  pub alone : get_all (str "X-Client-Cert") headers ≡ encoded ∷ []
  pub not_empty : encoded ≢ []
  pub short : length encoded ≤ max_forwarded_cert_header_bytes
  pub no_comma : contains b',' encoded ≡ false
  pub ascii : all (λ c. ltb c 0x80) encoded ≡ true
  pub pem : Bytes
  pub encodes : Encodes pem encoded
  pub one_pem : is_single_pem pem ≡ true
  pub certificate : Certificate
  pub parsed : platform.load_pem_x509_certificate pem ≡ ok certificate
  pub is_der : der ≡ certificate.der

within :
    (n : ℕ) (b c : Bool)
    → (b && not (ltb max_forwarded_cert_header_bytes n) && not c) ≡ true
    → (b ≡ true) × (n ≤ max_forwarded_cert_header_bytes) × (c ≡ false)
within n b c h = ground arith

within_complete :
    (n : ℕ) (b c : Bool)
    → b ≡ true
    → n ≤ max_forwarded_cert_header_bytes
    → c ≡ false
    → (b && not (ltb max_forwarded_cert_header_bytes n) && not c) ≡ true
within_complete n b c h k l = ground arith

encode_ascii-eq-some :
    (t : Text) {s : Bytes} → encode_ascii t ≡ some s → (all (λ c. ltb c 0x80) t ≡ true) × (s ≡ t)
unfolding encode_ascii
encode_ascii-eq-some t h = ground arith

encode_ascii_ascii : (t : Text) → all (λ c. ltb c 0x80) t ≡ true → encode_ascii t ≡ some t
unfolding encode_ascii
encode_ascii_ascii t h = simp (h)

not_bad : (b : Bool) → not b ≡ true → b ≡ false
not_bad b h = ground arith

forwarded_client_certificate_der-IsForwarded :
    (platform : Platform) (headers : Headers) (der : Bytes)
    → forwarded_client_certificate_der platform headers ≡ ok der
    → IsForwarded platform headers der
unfolding forwarded_client_certificate_der
forwarded_client_certificate_der-IsForwarded platform headers der h =
    let (encoded, alone, h₁) =
      or_raise-bind (single (get_all (str "X-Client-Cert") headers)) _ _ h in
    let (tests, h₂) =
      require-bind
        (truthy encoded
          && not (ltb max_forwarded_cert_header_bytes (length encoded))
          && not (contains b',' encoded))
        _ _ h₁ in
    let (bytes, is_ascii, h₃) = or_raise-bind (encode_ascii encoded) _ _ h₂ in
    let (escapes, h₄) = require-bind (not (has_bad_escape bytes)) _ _ h₃ in
    let (one, h₅) = require-bind (is_single_pem (unquote_to_bytes encoded)) _ _ h₄ in
    let (c, parsed, h₆) =
      loaded-bind (platform.load_pem_x509_certificate (unquote_to_bytes encoded)) _ _ h₅ in
    let (full, short, no_comma) = within (length encoded) (truthy encoded) _ tests in
    let (ascii, same) = encode_ascii-eq-some encoded is_ascii in
    record {
      encoded = encoded;
      alone = single-eq-some _ alone;
      not_empty = (truthy_iff encoded).0 full;
      short = short;
      no_comma = no_comma;
      ascii = ascii;
      pem = unquote_to_bytes encoded;
      encodes = Encodes-unquote encoded (ap has_bad_escape (sym same) ∙ not_bad _ escapes);
      one_pem = one;
      certificate = c;
      parsed = parsed;
      is_der = sym (ok-injective h₆);
    }

-- A request forwards a client certificate exactly if it has the field X-Client-Cert once and that
-- field is not empty, at most 24 KiB long, ASCII, without a comma, and the percent encoding of one
-- PEM certificate that the library loads; the result is its DER form.
pub forwarded_client_certificate_der_iff :
    (platform : Platform) (headers : Headers) (der : Bytes)
    → (forwarded_client_certificate_der platform headers ≡ ok der)
      ↔ IsForwarded platform headers der
unfolding forwarded_client_certificate_der
forwarded_client_certificate_der_iff platform headers der = (
  forwarded_client_certificate_der-IsForwarded platform headers der,
  λ f. rw f.is_der (
      simp (
        f.alone,
        encode_ascii_ascii f.encoded f.ascii,
        bad-Encodes f.encodes,
        within_complete (length f.encoded) (truthy f.encoded) (contains b',' f.encoded)
            ((truthy_iff f.encoded).1 f.not_empty) f.short f.no_comma,
        unquote-Encodes f.encodes,
        f.one_pem,
        f.parsed,
      )),
)
