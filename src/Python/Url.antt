-- ===== src/Python/Url.antt =====
-- `urllib.parse.quote(s, safe="")` and `urllib.parse.urlencode`.
pub mod Laws
use konnect_oidc_fapi2_keycl.Common.{
  ℕ, ◌+◌, ◌/◌, ◌%◌, Bool, true, ◌||◌, ◌&&◌, Option, none, some, List, [], ◌∷◌, ◌++◌, eqb, leb, ltb,
  if◌then◌else◌,
}
use konnect_oidc_fapi2_keycl.Python.Text.{Text, Bytes, str}
use konnect_oidc_fapi2_keycl.Python.Utf8.{encode_utf8}

-- The class [A-Za-z0-9_.~-], which stays as it is.
unfoldable pub is_unreserved : ℕ → Bool
is_unreserved c =
    leb b'A' c && leb c b'Z'
    || leb b'a' c && leb c b'z'
    || leb b'0' c && leb c b'9'
    || eqb c b'_'
    || eqb c b'.'
    || eqb c b'-'
    || eqb c b'~'

unfoldable pub hex_digit : ℕ → ℕ
hex_digit n = if ltb n 10 then n + 48 else n + 55

unfoldable pub quote_bytes : Bytes → Text
unfolding is_unreserved hex_digit
quote_bytes [] = []
quote_bytes (c ∷ s) =
    let rest = quote_bytes s in
    if is_unreserved c then c ∷ rest else b'%' ∷ hex_digit (c / 16) ∷ hex_digit (c % 16) ∷ rest

-- A lone surrogate raises UnicodeEncodeError.
unfoldable pub quote : Text → Option Text
unfolding quote_bytes
quote s = elim (encode_utf8 s) [ none ↦ none | some b ↦ some (quote_bytes b) ]

-- In a query a space is a plus sign.
unfoldable pub quote_plus_bytes : Bytes → Text
unfolding is_unreserved hex_digit
quote_plus_bytes [] = []
quote_plus_bytes (c ∷ s) =
    let rest = quote_plus_bytes s in
    if eqb c b' '
    then b'+' ∷ rest
    else if is_unreserved c
    then c ∷ rest
    else b'%' ∷ hex_digit (c / 16) ∷ hex_digit (c % 16) ∷ rest

unfoldable pub quote_plus : Text → Option Text
unfolding quote_plus_bytes
quote_plus s = elim (encode_utf8 s) [ none ↦ none | some b ↦ some (quote_plus_bytes b) ]

-- `key=value` of a query; the keys of the programs need no escape.
unfoldable pub query_item : Text → Text → Option Text
unfolding quote_plus
query_item key value = elim (quote_plus value) [ none ↦ none | some v ↦ some (key ++ (b'=' ∷ v)) ]
