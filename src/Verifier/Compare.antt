-- ===== src/Verifier/Compare.antt =====
-- Thumbprints and their comparison.
use konnect_oidc_fapi2_keycl.Common.{Bool, false, Option, some, eqb}
use konnect_oidc_fapi2_keycl.Python.Text.{Text, Bytes, ◌==◌, strip_right}
use konnect_oidc_fapi2_keycl.Python.Base64.{urlsafe_b64encode}
use konnect_oidc_fapi2_keycl.Python.Utf8.{encode_utf8}
use konnect_oidc_fapi2_keycl.Verifier.Config.{Platform}

-- The encoded digest is ASCII, so decoding it changes nothing.
unfoldable pub base64url_sha256 : Platform → Bytes → Text
base64url_sha256 platform value =
    strip_right (λ c. eqb c b'=') (urlsafe_b64encode (platform.sha256 value))

abbrev pub same_bytes : Option Bytes → Option Bytes → Bool
same_bytes (some a) (some b) = a == b
same_bytes _ _ = false

-- An argument that is no string is none; a lone surrogate in either makes the result False.
unfoldable pub constant_time_text_equal : Option Text → Option Text → Bool
constant_time_text_equal (some left) (some right) =
    same_bytes (encode_utf8 left) (encode_utf8 right)
constant_time_text_equal _ _ = false
