-- ===== src/Keycloak/Clients.antt =====
-- The three managed clients: client_admin_payload and plan_client_sync.
use konnect_oidc_fapi2_keycl.Common.{
  Bool, true, ◌&&◌, Option, none, some, List, [], ◌∷◌, ◌++◌, all, eqb, length, ok, err, require,
  or_raise, ◌>>=◌, ◌>>◌, if◌then◌else◌,
}
use konnect_oidc_fapi2_keycl.Python.Text.{Text, str, truthy}
use konnect_oidc_fapi2_keycl.Python.Json.{
  Json, obj, Fields, end, field, get, as_object, as_text, equals_text,
}
use konnect_oidc_fapi2_keycl.Python.Json.Equality.{json_eq}
use konnect_oidc_fapi2_keycl.Keycloak.Values.{
  Sync, client_admin_fields, has_all, has_only, is_named_text, is_object, is_list, is_distinct,
  is_member, as_list, entry_name, project, put, value_or,
}

abbrev pub client_ids : List Text
client_ids =
    str "third-party-fapi-mtls"
    ∷ str "third-party-fapi-pkj-mtls"
    ∷ str "api-gateway-introspection"
    ∷ []

-- The names of mappers that are dicts with a string for a name, none if some mapper is not.
unfoldable pub mapper_names : List Json → Option (List Text)
mapper_names [] = some []
mapper_names (mapper ∷ rest) = elim (entry_name mapper) [
  | none ↦ none
  | some name ↦ elim (mapper_names rest) [ none ↦ none | some names ↦ some (name ∷ names) ]
]

-- `desired["protocolMappers"]` raises a KeyError where the key is missing. It ends the synchronization
-- as a RuntimeError does, and is one here, with the text of the KeyError.
unfoldable pub client_admin_payload : Json → Sync Fields
client_admin_payload desired = do
  fields ← or_raise (as_object desired) (str "desired Keycloak client is malformed")
  require
      (has_only (client_admin_fields ++ str "protocolMappers" ∷ []) fields
        && has_all client_admin_fields fields)
      (str "desired Keycloak client fields are incomplete or unexpected")
  require (is_named_text (get (str "clientId") fields)) (str "desired Keycloak client ID is empty")
  require (is_object (get (str "attributes") fields))
      (str "desired Keycloak client attributes are malformed")
  require (is_list (get (str "redirectUris") fields) && is_list (get (str "webOrigins") fields))
      (str "desired Keycloak client URI lists are malformed")
  given ← or_raise (get (str "protocolMappers") fields) (str "'protocolMappers'")
  mappers ← or_raise (as_list given) (str "desired Keycloak protocol mappers are malformed")
  let repeated = str "desired Keycloak protocol mapper names are duplicated or malformed"
  names ← or_raise (mapper_names mappers) repeated
  require (all truthy names && is_distinct names) repeated
  ok (project client_admin_fields fields)

abbrev client_id_of : Json → Option Text
client_id_of (obj fs) = as_text (get (str "clientId") fs)
client_id_of _ = none

unfoldable pub desired_ids : List Json → Option (List Text)
desired_ids [] = some []
desired_ids (client ∷ rest) = elim (client_id_of client) [
  | none ↦ none
  | some id ↦ elim (desired_ids rest) [ none ↦ none | some ids ↦ some (id ∷ ids) ]
]

-- `set(desired_ids) == CLIENT_IDS and len(desired_ids) == len(CLIENT_IDS)`
unfoldable pub is_inventory : List Text → Bool
is_inventory ids =
    all (λ id. is_member id client_ids) ids
    && all (λ id. is_member id ids) client_ids
    && eqb (length ids) (length client_ids)

pub data Action : Type 0 where
  create : Text → Fields → Action
  noop update : Text → Text → Fields → Fields → Action

-- Every desired attribute has its value in the live attributes.
abbrev attributes_within : Fields → Fields → Bool
attributes_within end current = true
attributes_within (field k v fs) current =
    json_eq (value_or (get k current) Json.null) v && attributes_within fs current

-- `current_payload`: the live values, with the desired attributes where the live ones include them.
abbrev with_attributes : Fields → Option Json → Option Json → Fields
with_attributes payload (some (obj current)) (some (obj desired)) =
    if attributes_within desired current
    then put (str "attributes") (obj desired) payload
    else payload
with_attributes payload _ _ = payload

unfoldable pub current_payload : Fields → Fields → Fields
current_payload current payload =
    with_attributes (project client_admin_fields current) (get (str "attributes") current)
      (get (str "attributes") payload)

unfoldable pub plan_found : Text → Fields → Fields → Sync Action
unfolding current_payload
plan_found client_id payload current = do
  let missing = str "Keycloak client ID is missing for " ++ client_id
  client_uuid ← or_raise (as_text (get (str "id") current)) missing
  require (truthy client_uuid) missing
  ok (
      if json_eq (obj (current_payload current payload)) (obj payload)
      then noop client_id client_uuid payload current
      else update client_id client_uuid payload current)

abbrev pub plan_matches : Text → Fields → List Json → Sync Action
plan_matches client_id payload [] = ok (create client_id payload)
plan_matches client_id payload (found ∷ []) = do
  let inconsistent = str "Keycloak client lookup is inconsistent for " ++ client_id
  current ← or_raise (as_object found) inconsistent
  require (equals_text (get (str "clientId") current) client_id) inconsistent
  plan_found client_id payload current
plan_matches client_id payload (_ ∷ _ ∷ _) =
    err (str "duplicate Keycloak clients found for " ++ client_id)

-- One round of the loop; `matches` is what the lookup of a client returned.
unfoldable pub plan_client : (Text → Option Json) → Json → Sync Action
unfolding client_admin_payload plan_found
plan_client matches desired = do
  payload ← client_admin_payload desired
  client_id ← or_raise (as_text (get (str "clientId") payload)) (str "'clientId'")
  listed ←
      or_raise (as_list (value_or (matches client_id) Json.null))
        (str "Keycloak client lookup is malformed for " ++ client_id)
  plan_matches client_id payload listed

unfoldable pub plan_clients : (Text → Option Json) → List Json → Sync (List Action)
unfolding plan_client
plan_clients matches [] = ok []
plan_clients matches (desired ∷ rest) = do
  action ← plan_client matches desired
  more ← plan_clients matches rest
  ok (action ∷ more)

unfoldable pub plan_client_sync : Json → (Text → Option Json) → Sync (List Action)
unfolding plan_clients desired_ids is_inventory
plan_client_sync desired_clients matches = do
  clients ← or_raise (as_list desired_clients) (str "desired Keycloak client list is malformed")
  let unexpected = str "desired Keycloak client inventory does not match WP2"
  ids ← or_raise (desired_ids clients) unexpected
  require (is_inventory ids) unexpected
  plan_clients matches clients
