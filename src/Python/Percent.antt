-- ===== src/Python/Percent.antt =====
-- `urllib.parse.unquote_to_bytes` on ASCII bytes, and the search for `%(?![0-9A-Fa-f]{2})`.
pub mod Laws
use konnect_oidc_fapi2_keycl.Common.{
  ℕ, ◌+◌, ◌-◌, ◌*◌, Bool, true, false, not, ◌&&◌, ◌||◌, [], ◌∷◌, leb, eqb, if◌then◌else◌,
}
use konnect_oidc_fapi2_keycl.Python.Text.{Bytes}

unfoldable pub is_hex : ℕ → Bool
is_hex c = leb b'0' c && leb c b'9' || leb b'A' c && leb c b'F' || leb b'a' c && leb c b'f'

unfoldable pub hex_value : ℕ → ℕ
hex_value c = if leb c b'9' then c - 48 else if leb c b'F' then c - 55 else c - 87

-- Not two hexadecimal digits.
not_hex : ℕ → ℕ → Bool
not_hex d e = not (is_hex d && is_hex e)

unfoldable pub has_bad_escape : Bytes → Bool
unfolding is_hex not_hex
has_bad_escape [] = false
has_bad_escape (c ∷ []) = eqb c b'%'
has_bad_escape (c ∷ d ∷ []) = eqb c b'%' || has_bad_escape (d ∷ [])
has_bad_escape (c ∷ d ∷ e ∷ s) = eqb c b'%' && not_hex d e || has_bad_escape (d ∷ e ∷ s)

-- A `%` that no two digits follow stands for itself.
unfoldable pub unquote_to_bytes : Bytes → Bytes
unfolding is_hex hex_value
unquote_to_bytes [] = []
unquote_to_bytes (c ∷ []) = c ∷ []
unquote_to_bytes (c ∷ d ∷ []) = c ∷ unquote_to_bytes (d ∷ [])
unquote_to_bytes (c ∷ d ∷ e ∷ s) =
    let escape = (hex_value d * 16 + hex_value e) ∷ unquote_to_bytes s in
    let plain = c ∷ unquote_to_bytes (d ∷ e ∷ s) in
    if eqb c b'%' && (is_hex d && is_hex e) then escape else plain
