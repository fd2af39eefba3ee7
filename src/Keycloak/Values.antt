-- ===== src/Keycloak/Values.antt =====
-- The field lists of scripts/sync-keycloak-demo-data.py, dicts built from them, and the exceptions.
use konnect_oidc_fapi2_keycl.Common.{
  Bool, true, false, not, ◌&&◌, Option, none, some, List, [], ◌∷◌, ◌++◌, any, all, Result,
  if◌then◌else◌,
}
use konnect_oidc_fapi2_keycl.Python.Text.{Text, str, ◌==◌, truthy}
use konnect_oidc_fapi2_keycl.Python.Json.{
  Json, null, text, obj, arr, Fields, end, field, get, has_key, keys, as_text, Items, items,
}

-- A RuntimeError with its message.
abbrev pub Sync : Type 0 → Type 0
Sync A = Result Text A

abbrev pub client_admin_fields : List Text
client_admin_fields =
    str "clientId"
    ∷ str "name"
    ∷ str "enabled"
    ∷ str "protocol"
    ∷ str "publicClient"
    ∷ str "consentRequired"
    ∷ str "fullScopeAllowed"
    ∷ str "clientAuthenticatorType"
    ∷ str "standardFlowEnabled"
    ∷ str "implicitFlowEnabled"
    ∷ str "directAccessGrantsEnabled"
    ∷ str "serviceAccountsEnabled"
    ∷ str "redirectUris"
    ∷ str "webOrigins"
    ∷ str "attributes"
    ∷ []

abbrev pub mapper_identity_fields : List Text
mapper_identity_fields = str "name" ∷ str "protocol" ∷ str "protocolMapper" ∷ []

abbrev pub mapper_admin_fields : List Text
mapper_admin_fields = mapper_identity_fields ++ str "config" ∷ []

-- The fields of the realm but for the client policies and profiles.
abbrev pub realm_plain_fields : List Text
realm_plain_fields =
    str "realm"
    ∷ str "enabled"
    ∷ str "sslRequired"
    ∷ str "defaultSignatureAlgorithm"
    ∷ str "accessCodeLifespan"
    ∷ str "revokeRefreshToken"
    ∷ str "refreshTokenMaxReuse"
    ∷ []

abbrev pub realm_admin_fields : List Text
realm_admin_fields = realm_plain_fields ++ str "clientPolicies" ∷ str "clientProfiles" ∷ []

unfoldable pub is_member : Text → List Text → Bool
is_member t ss = any (λ s. s == t) ss

-- `set(names) <= set(keys)`
abbrev pub has_all : List Text → Fields → Bool
has_all names fs = all (λ name. has_key name fs) names

-- `set(keys) <= set(names)`
unfoldable pub has_only : List Text → Fields → Bool
unfolding is_member
has_only names fs = all (λ key. is_member key names) (keys fs)

-- `len(names) == len(set(names))`
unfoldable pub is_distinct : List Text → Bool
unfolding is_member
is_distinct [] = true
is_distinct (s ∷ ss) = not (is_member s ss) && is_distinct ss

-- `value` or None
abbrev pub value_or : Option Json → Json → Json
value_or none default = default
value_or (some v) default = v

-- `{field: d.get(field) for field in names}`, which is `d[field]` where every field is there.
unfoldable pub project : List Text → Fields → Fields
project [] fs = end
project (name ∷ names) fs = field name (value_or (get name fs) null) (project names fs)

-- `d[key] = value`: in place, or at the end.
unfoldable pub put : Text → Json → Fields → Fields
put k v end = field k v end
put k v (field j w fs) = if j == k then field j v fs else field j w (put k v fs)

-- `{**left, **right}`
unfoldable pub merge_fields : Fields → Fields → Fields
unfolding put
merge_fields left end = left
merge_fields left (field k v right) = merge_fields (put k v left) right

-- A string with at least one character.
abbrev pub is_named_text : Option Json → Bool
is_named_text (some (text t)) = truthy t
is_named_text _ = false

abbrev pub is_object : Option Json → Bool
is_object (some (obj _)) = true
is_object _ = false

abbrev pub is_list : Option Json → Bool
is_list (some (arr _)) = true
is_list _ = false

abbrev pub as_list : Json → Option (List Json)
as_list (arr js) = some (items js)
as_list _ = none

-- The name of an entry that is a dict with a string for its name.
abbrev pub entry_name : Json → Option Text
entry_name (obj fs) = as_text (get (str "name") fs)
entry_name _ = none

unfoldable pub to_items : List Json → Items
to_items [] = Items.nil
to_items (j ∷ js) = Items.cons j (to_items js)
