-- ===== src/Backend/Bearer.antt =====
-- The trusted peer and the bearer token of an incoming request.
use konnect_oidc_fapi2_keycl.Common.{
  ℕ, ◌+◌, Bool, true, false, ◌&&◌, ◌||◌, Option, none, some, [], ◌∷◌, all, eqb, leb, ltb, length,
  if◌then◌else◌,
}
use konnect_oidc_fapi2_keycl.Python.Text.{Text, Bytes, str, ◌==◌, truthy, lower_char}
use konnect_oidc_fapi2_keycl.Python.Headers.{Headers, get_all}
use konnect_oidc_fapi2_keycl.Backend.Config.{max_token_bytes}

-- `peer` is none where the connection has no certificate.
unfoldable pub trusted_peer : Option Bytes → Bytes → Bool
trusted_peer none pin = false
trusted_peer (some peer) pin = truthy peer && truthy pin && (peer == pin)

-- The class [A-Za-z0-9\-._~+/].
unfoldable pub is_token_char : ℕ → Bool
is_token_char c =
    leb b'A' c && leb c b'Z'
    || leb b'a' c && leb c b'z'
    || leb b'0' c && leb c b'9'
    || eqb c b'-'
    || eqb c b'.'
    || eqb c b'_'
    || eqb c b'~'
    || eqb c b'+'
    || eqb c b'/'

-- Characters of the class, then any number of `=`.
unfoldable pub is_token_tail : Text → Bool
is_token_tail [] = true
is_token_tail (c ∷ s) = is_token_char c && is_token_tail s || eqb c b'=' && all (λ d. eqb d b'=') s

-- [A-Za-z0-9\-._~+/]+=*
unfoldable pub is_token : Text → Bool
unfolding is_token_tail
is_token [] = false
is_token (c ∷ s) = is_token_char c && is_token_tail s

-- What follows the prefix, which is matched without regard to case.
unfoldable pub after_prefix : Text → Text → Option Text
after_prefix [] s = some s
after_prefix (p ∷ ps) [] = none
after_prefix (p ∷ ps) (c ∷ s) = if eqb (lower_char c) p then after_prefix ps s else none

abbrev pub keep_token : Option Text → Option Text
keep_token none = none
keep_token (some token) = if is_token token then some token else none

unfoldable pub bearer_token : Headers → Option Text
unfolding is_token after_prefix
bearer_token headers = elim (get_all (str "Authorization") headers) [
  | [] ↦ none
  | value ∷ more ↦ elim more [
    | [] ↦
        if ltb (max_token_bytes + 7) (length value)
        then none
        else keep_token (after_prefix (str "bearer ") value)
    | _ ∷ _ ↦ none
  ]
]
