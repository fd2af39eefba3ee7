-- ===== src/Keycloak/Apply.antt =====
-- The requests that carry out a plan: apply_key_provider_sync, apply_client_sync, apply_realm_sync.
use konnect_oidc_fapi2_keycl.Common.{
  ℕ, ◌+◌, Bool, true, false, ◌&&◌, Option, none, some, List, [], ◌∷◌, ◌++◌, if◌then◌else◌,
}
use konnect_oidc_fapi2_keycl.Python.Text.{Text, str, ◌==◌, truthy}
use konnect_oidc_fapi2_keycl.Python.Url.{quote}
use konnect_oidc_fapi2_keycl.Python.Json.{
  Json, text, obj, arr, cons, nil, Fields, end, field, get, as_object, as_text,
}
use konnect_oidc_fapi2_keycl.Program.{done, from, check, ◌>>=◌, ◌>>◌}
use konnect_oidc_fapi2_keycl.Keycloak.Values.{put, merge_fields}
use konnect_oidc_fapi2_keycl.Keycloak.Mappers
use konnect_oidc_fapi2_keycl.Keycloak.Clients
use konnect_oidc_fapi2_keycl.Keycloak.KeyProvider
use konnect_oidc_fapi2_keycl.Keycloak.KeyProvider.{is_managed_payload}
use konnect_oidc_fapi2_keycl.Keycloak.Request.{
  Admin, runtime, other, request_get, request_body, post, put_method, realm_path, client_path,
  mappers_path, clients_query,
}
use konnect_oidc_fapi2_keycl.Keycloak.Prepare.{ClientAction}

-- `{"id": id, **payload}`
unfoldable pub with_id : Text → Fields → Fields
unfolding merge_fields
with_id id payload = merge_fields (field (str "id") (text id) end) payload

-- The plan is one action of the three kinds, as plan_key_provider_sync makes it.
unfoldable pub apply_key_provider_sync : KeyProvider.Plan → Json → Admin Bool
unfolding with_id is_managed_payload
apply_key_provider_sync (KeyProvider.noop component_id) token = done false
apply_key_provider_sync (KeyProvider.create payload) token = do
  check (is_managed_payload payload)
      (runtime (str "Keycloak managed key provider create plan is malformed"))
  request_body post token (realm_path ++ str "/components") payload
  done true
apply_key_provider_sync (KeyProvider.update component_id payload) token = do
  check (truthy component_id && is_managed_payload payload)
      (runtime (str "Keycloak managed key provider update plan is malformed"))
  quoted ← from (quote component_id) other
  request_body put_method token (realm_path ++ str "/components/" ++ quoted)
      (with_id component_id payload)
  done true

abbrev pub as_object? : Option Json → Option Fields
as_object? (some (obj fs)) = some fs
as_object? _ = none

-- `{**current_attributes, **action["payload"]["attributes"]}` where the live attributes are a dict.
unfoldable pub update_body : Text → Fields → Fields → Option Fields
unfolding with_id merge_fields put
update_body client_uuid payload current = elim (as_object? (get (str "attributes") current)) [
  | none ↦ some (with_id client_uuid payload)
  | some live ↦ elim (as_object? (get (str "attributes") payload)) [
    | none ↦ none
    | some desired ↦
        some
          (put (str "attributes") (obj (merge_fields live desired)) (with_id client_uuid payload))
  ]
]

abbrev pub single_json : Json → Option Json
single_json (arr (cons found nil)) = some found
single_json _ = none

-- `created[0].get("id")` of a dict
unfoldable pub created_uuid : Text → Json → Admin Text
created_uuid client_id created = do
  found ←
      from (single_json created)
        (runtime (str "Keycloak did not create exactly one client for " ++ client_id))
  fields ← from (as_object found) other
  let missing = runtime (str "Keycloak client ID is missing for " ++ client_id)
  client_uuid ← from (as_text (get (str "id") fields)) missing
  check (truthy client_uuid) missing
  done client_uuid

-- One round of the first loop: the internal ID of the client after it.
unfoldable pub apply_client : Json → Clients.Action → Admin Text
unfolding update_body client_path clients_query created_uuid
apply_client token (Clients.update client_id client_uuid payload current) = do
  body ← from (update_body client_uuid payload current) other
  path ← client_path client_uuid
  request_body put_method token path body
  done client_uuid
apply_client token (Clients.create client_id payload) = do
  request_body post token (realm_path ++ str "/clients") payload
  path ← clients_query client_id
  created ← request_get token path
  created_uuid client_id created
apply_client token (Clients.noop client_id client_uuid payload current) = done client_uuid

abbrev pub client_id_of : Clients.Action → Text
client_id_of (Clients.create client_id _) = client_id
client_id_of (Clients.noop client_id _ _ _) = client_id
client_id_of (Clients.update client_id _ _ _) = client_id

-- `client_uuids`, with the latest entry first.
abbrev pub Uuids : Type 0
Uuids = List (Text × Text)

unfoldable pub uuid_of : Text → Uuids → Option Text
uuid_of client_id [] = none
uuid_of client_id ((name, uuid) ∷ rest) =
    if name == client_id then some uuid else uuid_of client_id rest

unfoldable pub apply_clients : Json → Uuids → List ClientAction → Admin Uuids
unfolding apply_client
apply_clients token uuids [] = done uuids
apply_clients token uuids ((action, _) ∷ plan) = do
  client_uuid ← apply_client token action
  apply_clients token ((client_id_of action, client_uuid) ∷ uuids) plan

-- One round of the inner loop over the mapper plan of a client.
unfoldable pub apply_mapper : Json → Text → Mappers.Action → Admin Json
unfolding mappers_path with_id
apply_mapper token client_uuid (Mappers.create payload) = do
  path ← mappers_path client_uuid
  request_body post token path payload
apply_mapper token client_uuid (Mappers.update mapper_id payload) = do
  path ← mappers_path client_uuid
  quoted ← from (quote mapper_id) other
  request_body put_method token (path ++ str "/" ++ quoted) (with_id mapper_id payload)

unfoldable pub apply_mappers : Json → Text → List Mappers.Action → Admin ℕ
unfolding apply_mapper
apply_mappers token client_uuid [] = done 0
apply_mappers token client_uuid (action ∷ plan) = do
  apply_mapper token client_uuid action
  count ← apply_mappers token client_uuid plan
  done (1 + count)

-- The second loop: the number of mappers written. The path is made also where no mapper is.
unfoldable pub apply_all_mappers : Json → Uuids → List ClientAction → Admin ℕ
unfolding uuid_of apply_mappers mappers_path
apply_all_mappers token uuids [] = done 0
apply_all_mappers token uuids ((action, mapper_plan) ∷ plan) = do
  client_uuid ← from (uuid_of (client_id_of action) uuids) other
  mappers_path client_uuid
  count ← apply_mappers token client_uuid mapper_plan
  rest ← apply_all_mappers token uuids plan
  done (count + rest)

abbrev pub is_change : Clients.Action → ℕ
is_change (Clients.noop _ _ _ _) = 0
is_change _ = 1

unfoldable pub changed_clients : List ClientAction → ℕ
changed_clients [] = 0
changed_clients ((action, _) ∷ plan) = is_change action + changed_clients plan

unfoldable pub apply_client_sync : List ClientAction → Json → Admin (ℕ × ℕ)
unfolding apply_clients apply_all_mappers changed_clients
apply_client_sync plan token = do
  uuids ← apply_clients token [] plan
  mapper_count ← apply_all_mappers token uuids plan
  done (changed_clients plan, mapper_count)

unfoldable pub apply_realm_sync : Fields → Json → Admin Bool
apply_realm_sync end token = done false
apply_realm_sync (field name value payload) token = do
  request_body put_method token realm_path (field name value payload)
  done true
