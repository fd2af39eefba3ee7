-- ===== src/Python/Json/Laws.antt =====
-- Looking up keys.
use konnect_oidc_fapi2_keycl.Common.{◌≡◌, refl, true, false, none, some, Option, arith}
use konnect_oidc_fapi2_keycl.Python.Text.{Text}
use konnect_oidc_fapi2_keycl.Python.Text.Laws.{==_iff}
use konnect_oidc_fapi2_keycl.Python.Json.{Json, Fields, end, field, text, get, has_key, equals_text}

pub get-has_key : (k : Text) (fs : Fields) → has_key k fs ≡ false → get k fs ≡ none
unfolding get has_key
get-has_key k end h = refl
get-has_key k (field j v fs) h = ground (arith, get-has_key k fs)

-- A comparison with a string succeeds at that string only.
pub equals_text_iff : (o : Option Json) (t : Text) → equals_text o t ≡ true → o ≡ some (text t)
equals_text_iff (some (text s)) t h = ground (arith, ==_iff s t)
equals_text_iff _ t h = cc
