-- ===== src/Verifier/Binding.antt =====
-- What equal thumbprints say about certificates.
use konnect_oidc_fapi2_keycl.Common.{
  ◌≡◌, ◌≢◌, ◌↔◌, refl, true, Option, none, some, [], ◌∷◌, arith, length, all, ok, and_left,
  and_right, ◌<◌, ℕ, >>=-eq-ok, require-bind,
}
use konnect_oidc_fapi2_keycl.Python.Text.{Text, Bytes, is_word}
use konnect_oidc_fapi2_keycl.Python.Text.Laws.{==_iff, ==_refl}
use konnect_oidc_fapi2_keycl.Python.Base64.Laws.{
  IsBytes, bare, bare-injective, bare-is_word, length-bare, strip-urlsafe_b64encode,
}
use konnect_oidc_fapi2_keycl.Python.Utf8.{encode_utf8}
use konnect_oidc_fapi2_keycl.Python.Utf8.Laws.{
  IsAscii, encode_utf8-injective, encode_utf8-ascii, encode_utf8-ne-none,
}
use konnect_oidc_fapi2_keycl.Python.Headers.{Headers}
use konnect_oidc_fapi2_keycl.Verifier.Config.{Platform}
use konnect_oidc_fapi2_keycl.Verifier.Compare.{
  base64url_sha256, constant_time_text_equal, same_bytes,
}
use konnect_oidc_fapi2_keycl.Verifier.Certificates.{forwarded_client_certificate_der}
use konnect_oidc_fapi2_keycl.Verifier.Token.{verify_forwarded_certificate_binding}

-- SHA-256 gives 32 bytes.
pub record IsDigest (platform : Platform) : Type 0 where
  pub bytes : (s : Bytes) → IsBytes (platform.sha256 s)
  pub size : (s : Bytes) → length (platform.sha256 s) ≡ 32

base64url_sha256-eq-bare :
    (platform : Platform) (s : Bytes) → base64url_sha256 platform s ≡ bare (platform.sha256 s)
base64url_sha256-eq-bare platform s =
    unfold base64url_sha256 in strip-urlsafe_b64encode (platform.sha256 s)

-- Where SHA-256 gives 32 bytes, a thumbprint is 43 characters of the class [A-Za-z0-9_-].
pub base64url_sha256-is_word :
    (platform : Platform) (s : Bytes)
    → IsDigest platform
    → (all is_word (base64url_sha256 platform s) ≡ true)
      × (length (base64url_sha256 platform s) ≡ 43)
base64url_sha256-is_word platform s d =
    rw base64url_sha256-eq-bare
      (bare-is_word _, omega (arith, length-bare (platform.sha256 s), d.size s))

-- Where SHA-256 gives 32 bytes, equal thumbprints come from equal digests.
pub base64url_sha256-injective :
    (platform : Platform) (s t : Bytes)
    → IsDigest platform
    → base64url_sha256 platform s ≡ base64url_sha256 platform t
    → platform.sha256 s ≡ platform.sha256 t
base64url_sha256-injective platform s t d h =
    bare-injective _ _ (d.bytes s) (d.bytes t)
      (cc (h, base64url_sha256-eq-bare platform s, base64url_sha256-eq-bare platform t))

same_bytes-eq-true :
    (a b : Option Bytes) → same_bytes a b ≡ true → (x : Bytes) × (a ≡ some x) × (b ≡ some x)
same_bytes-eq-true (some x) (some y) h = (x, refl, ground (arith, ==_iff x y))
same_bytes-eq-true none b h = cc
same_bytes-eq-true (some x) none h = cc

same_bytes_self : (a : Option Bytes) → a ≢ none → same_bytes a a ≡ true
same_bytes_self none h = absurd (h refl)
same_bytes_self (some x) h = ==_refl x

constant_time_text_equal_sound :
    (s t : Text)
    → constant_time_text_equal (some s) (some t) ≡ true
    → (s ≡ t) × (encode_utf8 s ≢ none)
unfolding constant_time_text_equal
constant_time_text_equal_sound s t h =
    let (x, es, et) = same_bytes-eq-true _ _ h in (encode_utf8-injective s t es et, λ e. cc)

-- The comparison of two texts holds exactly if they are equal and have no lone surrogate, so that
-- they can be encoded.
pub constant_time_text_equal_iff :
    (s t : Text)
    → (constant_time_text_equal (some s) (some t) ≡ true) ↔ ((s ≡ t) × (encode_utf8 s ≢ none))
unfolding constant_time_text_equal
constant_time_text_equal_iff s t =
    (constant_time_text_equal_sound s t, λ h. rw (← h.0) (same_bytes_self _ h.1))

word-lt : (c : ℕ) → is_word c ≡ true → c < 0x80
word-lt c h = ground arith

word-IsAscii : (s : Text) → all is_word s ≡ true → IsAscii s
word-IsAscii [] h = tt
word-IsAscii (c ∷ s) h = (word-lt c (and_left _ _ h), word-IsAscii s (and_right (is_word c) _ h))

base64url_sha256-IsAscii :
    (platform : Platform) (s : Bytes) → IsDigest platform → IsAscii (base64url_sha256 platform s)
base64url_sha256-IsAscii platform s d = word-IsAscii _ (base64url_sha256-is_word platform s d).0

-- Against an ASCII text the comparison is equality.
constant_time_text_equal-ascii_iff :
    (s t : Text) → IsAscii t → (constant_time_text_equal (some s) (some t) ≡ true) ↔ (s ≡ t)
unfolding constant_time_text_equal
constant_time_text_equal-ascii_iff s t q = (
  λ h. let (x, es, et) = same_bytes-eq-true _ _ h in encode_utf8-ascii s t q es et,
  λ e. let (b, eb) = encode_utf8-ne-none t q in rw (e, eb) (==_refl b),
)

-- Where SHA-256 gives 32 bytes, the certificate binding passes exactly where a certificate is
-- forwarded whose thumbprint is that of the token, and it returns that thumbprint.
pub verify_forwarded_certificate_binding_iff :
    (platform : Platform) (headers : Headers) (thumbprint result : Text)
    → IsDigest platform
    → (verify_forwarded_certificate_binding platform headers thumbprint ≡ ok result) ↔ (
        (der : Bytes) × (forwarded_client_certificate_der platform headers ≡ ok der)
        × (thumbprint ≡ base64url_sha256 platform der)
        × (result ≡ thumbprint))
unfolding verify_forwarded_certificate_binding
verify_forwarded_certificate_binding_iff platform headers thumbprint result d = (
  λ h.
      let (der, e, rest) = >>=-eq-ok (forwarded_client_certificate_der platform headers) _ h in
      let (test, last) =
        require-bind
          (constant_time_text_equal (some thumbprint) (some (base64url_sha256 platform der))) _ _
          rest in
      let same : thumbprint ≡ base64url_sha256 platform der =
        (constant_time_text_equal-ascii_iff thumbprint (base64url_sha256 platform der)
            (base64url_sha256-IsAscii platform der d)).0
          test in
      (der, e, same, cc),
  λ (der, e, same, r). rw e (
      rw
        ((constant_time_text_equal-ascii_iff thumbprint (base64url_sha256 platform der)
            (base64url_sha256-IsAscii platform der d)).1
          same)
        (cc)),
)

-- Where SHA-256 gives 32 bytes and the binding passes for two requests with the same token
-- thumbprint, the certificates that they forward have the same SHA-256 digest.
pub binding_unique :
    (platform : Platform) (headers other : Headers) (thumbprint a b : Text)
    → IsDigest platform
    → verify_forwarded_certificate_binding platform headers thumbprint ≡ ok a
    → verify_forwarded_certificate_binding platform other thumbprint ≡ ok b
    → (der der' : Bytes) × (forwarded_client_certificate_der platform headers ≡ ok der)
      × (forwarded_client_certificate_der platform other ≡ ok der')
      × (platform.sha256 der ≡ platform.sha256 der')
binding_unique platform headers other thumbprint a b d h k =
    let (x, ex, sx, _) =
      (verify_forwarded_certificate_binding_iff platform headers thumbprint a d).0 h in
    let (y, ey, sy, _) =
      (verify_forwarded_certificate_binding_iff platform other thumbprint b d).0 k in
    (x, y, ex, ey, base64url_sha256-injective platform x y d (cc))
