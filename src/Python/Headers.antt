-- ===== src/Python/Headers.antt =====
-- The header fields of a message (`email.message.Message`), in order of arrival.
use konnect_oidc_fapi2_keycl.Common.{List, [], ◌∷◌, Option, none, some, if◌then◌else◌}
use konnect_oidc_fapi2_keycl.Python.Text.{Text, ◌==◌, lower}

abbrev pub Headers : Type 0
Headers = List (Text × Text)

-- `headers.get_all(name)`, where None is the empty list: names compare by their lower case.
unfoldable pub get_all : Text → Headers → List Text
get_all name [] = []
get_all name ((n, v) ∷ hs) =
    let rest = get_all name hs in if lower n == lower name then v ∷ rest else rest

-- `headers.get(name)`
unfoldable pub get_header : Text → Headers → Option Text
get_header name [] = none
get_header name ((n, v) ∷ hs) = if lower n == lower name then some v else get_header name hs
