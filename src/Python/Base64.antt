-- ===== src/Python/Base64.antt =====
-- `base64.urlsafe_b64encode`, with its padding.
pub mod Laws
use konnect_oidc_fapi2_keycl.Common.{ℕ, ◌+◌, ◌-◌, ◌*◌, ◌/◌, ◌%◌, [], ◌∷◌, ltb, eqb, if◌then◌else◌}
use konnect_oidc_fapi2_keycl.Python.Text.{Bytes}

unfoldable pub alphabet : ℕ → ℕ
alphabet n =
    if ltb n 26
    then n + 65
    else if ltb n 52
    then n - 26 + 97
    else if ltb n 62
    then n - 52 + 48
    else if eqb n 62
    then b'-'
    else b'_'

unfoldable pub urlsafe_b64encode : Bytes → Bytes
urlsafe_b64encode [] = []
urlsafe_b64encode (a ∷ []) = alphabet (a / 4) ∷ alphabet (a % 4 * 16) ∷ b'=' ∷ b'=' ∷ []
urlsafe_b64encode (a ∷ b ∷ []) =
    alphabet (a / 4) ∷ alphabet (a % 4 * 16 + b / 16) ∷ alphabet (b % 16 * 4) ∷ b'=' ∷ []
urlsafe_b64encode (a ∷ b ∷ c ∷ s) =
    alphabet (a / 4)
    ∷ alphabet (a % 4 * 16 + b / 16)
    ∷ alphabet (b % 16 * 4 + c / 64)
    ∷ alphabet (c % 64)
    ∷ urlsafe_b64encode s
