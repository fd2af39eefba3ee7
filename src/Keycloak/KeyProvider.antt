-- ===== src/Keycloak/KeyProvider.antt =====
-- The managed PS256 key provider: key_provider_admin_payload, plan_key_provider_sync and the checks
-- of apply_key_provider_sync.
use konnect_oidc_fapi2_keycl.Common.{
  Bool, true, false, ◌&&◌, Option, none, some, List, [], ◌∷◌, all, ok, err, require, or_raise,
  ◌>>=◌, ◌>>◌, if◌then◌else◌,
}
use konnect_oidc_fapi2_keycl.Python.Text.{Text, str, ◌==◌, truthy}
use konnect_oidc_fapi2_keycl.Python.Json.{
  Json, text, obj, arr, nil, cons, Fields, end, field, get, as_object, as_text, equals_text, items,
}
use konnect_oidc_fapi2_keycl.Python.Json.Equality.{json_eq}
use konnect_oidc_fapi2_keycl.Keycloak.Values.{Sync, has_all, has_only, value_or, as_list}

abbrev pub key_provider_type : Text
key_provider_type = str "org.keycloak.keys.KeyProvider"

abbrev pub managed_name : Text
managed_name = str "fapi-demo-ps256-rsa-generated"

abbrev pub managed_id : Text
managed_id = str "rsa-generated"

abbrev one_text : Text → Json
one_text t = arr (cons (text t) nil)

abbrev pub managed_config : Fields
managed_config = field (str "priority") (one_text (str "101")) (
    field (str "enabled") (one_text (str "true")) (
      field (str "active") (one_text (str "true")) (
        field (str "keySize") (one_text (str "3072"))
          (field (str "algorithm") (one_text (str "PS256")) end))))

-- What key_provider_admin_payload returns.
abbrev pub managed_payload : Fields
managed_payload = field (str "name") (text managed_name) (
    field (str "providerId") (text managed_id) (
      field (str "providerType") (text key_provider_type)
        (field (str "config") (obj managed_config) end)))

abbrev is_managed_config : Option Json → Bool
is_managed_config none = false
is_managed_config (some v) = json_eq v (obj managed_config)

-- The loop that collects the entries of the managed name; every entry must be a dict with a name.
unfoldable pub matching : Text → List Json → Sync (List Fields)
matching malformed [] = ok []
matching malformed (entry ∷ rest) = do
  fields ← or_raise (as_object entry) malformed
  name ← or_raise (as_text (get (str "name") fields)) malformed
  more ← matching malformed rest
  ok (if name == managed_name then fields ∷ more else more)

abbrev single : List Fields → Option Fields
single (fs ∷ []) = some fs
single _ = none

unfoldable pub key_provider_admin_payload : Json → Sync Fields
unfolding matching
key_provider_admin_payload desired_realm = do
  let malformed = str "desired Keycloak key provider configuration is malformed"
  realm ← or_raise (as_object desired_realm) malformed
  components ← or_raise (as_object (value_or (get (str "components") realm) Json.null)) malformed
  providers ← or_raise (as_list (value_or (get key_provider_type components) Json.null)) malformed
  found ← matching (str "desired Keycloak key provider entry is malformed") providers
  provider ←
      or_raise (single found) (str "desired Keycloak managed key provider is missing or duplicated")
  let names = str "name" ∷ str "providerId" ∷ str "config" ∷ []
  require (has_all names provider && has_only names provider)
      (str "desired Keycloak managed key provider fields are unexpected")
  require
      (equals_text (get (str "providerId") provider) managed_id
        && is_managed_config (get (str "config") provider))
      (str "desired Keycloak managed key provider config is invalid")
  ok managed_payload

-- The four fields with the managed values, and no other field.
unfoldable pub is_managed_payload : Fields → Bool
is_managed_payload payload =
    let names = str "name" ∷ str "providerId" ∷ str "providerType" ∷ str "config" ∷ [] in
    has_all names payload
    && has_only names payload
    && equals_text (get (str "name") payload) managed_name
    && equals_text (get (str "providerId") payload) managed_id
    && equals_text (get (str "providerType") payload) key_provider_type
    && is_managed_config (get (str "config") payload)

pub data Plan : Type 0 where
  create : Fields → Plan
  noop : Text → Plan
  update : Text → Fields → Plan

abbrev is_text : Json → Bool
is_text (text _) = true
is_text _ = false

abbrev is_text_list : Json → Bool
is_text_list (arr js) = all is_text (items js)
is_text_list _ = false

abbrev pub has_text_lists : Fields → Bool
has_text_lists end = true
has_text_lists (field k v fs) = is_text_list v && has_text_lists fs

-- Every managed key has its managed value in the live config.
abbrev pub config_within : Fields → Fields → Bool
config_within end current = true
config_within (field k v fs) current =
    json_eq (value_or (get k current) Json.null) v && config_within fs current

-- What is planned for the one live provider of the managed name.
unfoldable pub plan_existing : Fields → Fields → Sync Plan
plan_existing payload current = do
  let missing = str "Keycloak managed key provider ID is missing"
  component_id ← or_raise (as_text (get (str "id") current)) missing
  require (truthy component_id) missing
  require
      (equals_text (get (str "providerId") current) managed_id
        && equals_text (get (str "providerType") current) key_provider_type)
      (str "Keycloak managed key provider name is occupied by another component")
  let malformed = str "Keycloak managed key provider config is malformed"
  config ← or_raise (as_object (value_or (get (str "config") current) Json.null)) malformed
  require (has_text_lists config) malformed
  ok (
      if config_within managed_config config
      then noop component_id
      else update component_id payload)

abbrev pub plan_matches : Fields → List Fields → Sync Plan
plan_matches payload [] = ok (create payload)
plan_matches payload (current ∷ []) = plan_existing payload current
plan_matches payload (_ ∷ _ ∷ _) = err (str "duplicate Keycloak managed key provider names found")

unfoldable pub plan_key_provider_sync : Json → Json → Sync Plan
unfolding is_managed_payload matching plan_existing
plan_key_provider_sync desired_payload live_components = do
  payload ←
      or_raise (as_object desired_payload)
        (str "desired Keycloak managed key provider config is invalid")
  require (is_managed_payload payload)
      (str "desired Keycloak managed key provider config is invalid")
  listed ←
      or_raise (as_list live_components) (str "Keycloak managed key provider lookup is malformed")
  matches ← matching (str "Keycloak managed key provider lookup is malformed") listed
  plan_matches payload matches
