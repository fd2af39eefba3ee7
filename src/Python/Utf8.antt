-- ===== src/Python/Utf8.antt =====
-- `str.encode("utf-8")` and `str.encode("ascii")`.
pub mod Laws
use konnect_oidc_fapi2_keycl.Common.{
  ℕ, ◌+◌, ◌/◌, ◌%◌, Bool, ◌&&◌, not, [], ◌∷◌, Option, none, some, ltb, leb, all, if◌then◌else◌,
}
use konnect_oidc_fapi2_keycl.Python.Text.{Text, Bytes}

unfoldable pub is_surrogate : ℕ → Bool
is_surrogate c = leb 0xd800 c && leb c 0xdfff

-- The bytes of a code point, before those of the rest.
unfoldable pub encode_char : ℕ → Bytes → Bytes
encode_char c s =
    if ltb c 0x80
    then c ∷ s
    else if ltb c 0x800
    then (0xc0 + c / 64) ∷ (0x80 + c % 64) ∷ s
    else if ltb c 0x10000
    then (0xe0 + c / 4096) ∷ (0x80 + c / 64 % 64) ∷ (0x80 + c % 64) ∷ s
    else (0xf0 + c / 262144) ∷ (0x80 + c / 4096 % 64) ∷ (0x80 + c / 64 % 64) ∷ (0x80 + c % 64) ∷ s

utf8_bytes : Text → Bytes
utf8_bytes [] = []
utf8_bytes (c ∷ s) = encode_char c (utf8_bytes s)

-- A lone surrogate raises UnicodeEncodeError.
unfoldable pub encode_utf8 : Text → Option Bytes
unfolding utf8_bytes is_surrogate
encode_utf8 s = if all (λ c. not (is_surrogate c)) s then some (utf8_bytes s) else none

unfoldable pub encode_ascii : Text → Option Bytes
encode_ascii s = if all (λ c. ltb c 0x80) s then some s else none
