-- ===== src/Keycloak/Merge.antt =====
-- The client policies and profiles of the realm: merge_named_entries and realm_admin_payload.
use konnect_oidc_fapi2_keycl.Common.{
  Bool, not, List, [], ◌∷◌, ◌++◌, ok, require, or_raise, ◌>>=◌, ◌>>◌, if◌then◌else◌,
}
use konnect_oidc_fapi2_keycl.Python.Text.{Text, str, ◌==◌}
use konnect_oidc_fapi2_keycl.Python.Json.{
  Json, obj, arr, nil, Fields, end, field, get, as_object, as_text,
}
use konnect_oidc_fapi2_keycl.Python.Json.Equality.{json_eq}
use konnect_oidc_fapi2_keycl.Keycloak.Values.{
  Sync, is_member, has_all, merge_fields, put, value_or, as_list, to_items, realm_plain_fields,
  realm_admin_fields,
}

-- An entry with the string that names it.
abbrev pub Entry : Type 0
Entry = Text × Fields

-- The first loop: the names of the entries, which must be distinct strings.
unfoldable pub name_entries : Text → List Text → List Json → Sync (List Entry)
name_entries label seen [] = ok []
name_entries label seen (entry ∷ rest) = do
  fields ← or_raise (as_object entry) (str "Keycloak " ++ label ++ str " entry is malformed")
  name ←
      or_raise (as_text (get (str "name") fields))
        (str "Keycloak " ++ label ++ str " entry is malformed")
  require (not (is_member name seen)) (str "duplicate Keycloak " ++ label ++ str " names found")
  more ← name_entries label (name ∷ seen) rest
  ok ((name, fields) ∷ more)

-- `merged[index] = {**merged[index], **entry}` at the entry of that name, or `merged.append(entry)`
-- where `positions` has no such name.
unfoldable pub merge_entry : Entry → List Entry → List Entry
merge_entry entry [] = entry ∷ []
merge_entry (name, fields) ((n, current) ∷ rest) =
    if n == name
    then (n, merge_fields current fields) ∷ rest
    else (n, current) ∷ merge_entry (name, fields) rest

-- The second loop.
unfoldable pub merge_entries : Text → List Text → List Entry → List Json → Sync (List Entry)
unfolding merge_entry
merge_entries label seen merged [] = ok merged
merge_entries label seen merged (entry ∷ rest) = do
  fields ←
      or_raise (as_object entry) (str "desired Keycloak " ++ label ++ str " entry is malformed")
  name ←
      or_raise (as_text (get (str "name") fields))
        (str "desired Keycloak " ++ label ++ str " entry is malformed")
  require (not (is_member name seen))
      (str "duplicate desired Keycloak " ++ label ++ str " names found")
  merge_entries label (name ∷ seen) (merge_entry (name, fields) merged) rest

abbrev pub entries : List Entry → List Json
entries [] = []
entries ((name, fields) ∷ rest) = obj fields ∷ entries rest

unfoldable pub merge_named_entries : Json → Json → Text → Sync (List Json)
unfolding name_entries merge_entries
merge_named_entries current desired label = do
  live ← or_raise (as_list current) (str "Keycloak " ++ label ++ str " list is malformed")
  wanted ← or_raise (as_list desired) (str "Keycloak " ++ label ++ str " list is malformed")
  named ← name_entries label [] live
  merged ← merge_entries label [] named wanted
  ok (entries merged)

-- One round of the loop over the two groups: `field`, `collection` and `label` of the source.
unfoldable pub merge_group : Fields → Fields → Text → Text → Text → Sync Fields
unfolding merge_named_entries
merge_group current desired name collection label = do
  let malformed = str "Keycloak " ++ label ++ str " configuration is malformed"
  live ← or_raise (as_object (value_or (get name current) (obj end))) malformed
  wanted ← or_raise (as_object (value_or (get name desired) Json.null)) malformed
  merged ←
      merge_named_entries (value_or (get collection live) (arr nil))
        (value_or (get collection wanted) (arr nil)) label
  ok (put collection (arr (to_items merged)) live)

abbrev pub same_in : Fields → Text → Json → Bool
same_in current name value = json_eq (value_or (get name current) Json.null) value

-- `{field: value for field, value in payload.items() if current.get(field) != value}`
unfoldable pub changed : Fields → Fields → Fields
changed current end = end
changed current (field name value payload) =
    if same_in current name value
    then changed current payload
    else field name value (changed current payload)

unfoldable pub plain_payload : List Text → Fields → Fields
plain_payload [] desired = end
plain_payload (name ∷ names) desired =
    field name (value_or (get name desired) Json.null) (plain_payload names desired)

unfoldable pub realm_admin_payload : Json → Json → Sync Fields
unfolding merge_group changed plain_payload
realm_admin_payload current desired = do
  live ← or_raise (as_object current) (str "Keycloak realm representation is malformed")
  wanted ← or_raise (as_object desired) (str "Keycloak realm representation is malformed")
  require (has_all realm_admin_fields wanted) (str "desired Keycloak realm fields are incomplete")
  policies ← merge_group live wanted (str "clientPolicies") (str "policies") (str "client policy")
  profiles ← merge_group live wanted (str "clientProfiles") (str "profiles") (str "client profile")
  ok (
      changed live (
        put (str "clientProfiles") (obj profiles)
          (put (str "clientPolicies") (obj policies) (plain_payload realm_plain_fields wanted))))
