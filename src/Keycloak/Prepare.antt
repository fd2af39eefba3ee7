-- ===== src/Keycloak/Prepare.antt =====
-- The requests that plans are made from, and the checks that a second plan is empty.
use konnect_oidc_fapi2_keycl.Common.{
  Bool, true, false, not, Option, none, some, List, [], ◌∷◌, ◌++◌, any, if◌then◌else◌,
}
use konnect_oidc_fapi2_keycl.Python.Text.{Text, str, ◌==◌}
use konnect_oidc_fapi2_keycl.Python.Url.{query_item}
use konnect_oidc_fapi2_keycl.Python.Json.{Json, obj, arr, nil, Fields, end, field, get, as_object}
use konnect_oidc_fapi2_keycl.Program.{done, from, check, ◌>>=◌, ◌>>◌}
use konnect_oidc_fapi2_keycl.Keycloak.Values.{as_list, value_or}
use konnect_oidc_fapi2_keycl.Keycloak.Mappers
use konnect_oidc_fapi2_keycl.Keycloak.Mappers.{plan_mapper_sync}
use konnect_oidc_fapi2_keycl.Keycloak.Clients
use konnect_oidc_fapi2_keycl.Keycloak.Clients.{plan_client_sync}
use konnect_oidc_fapi2_keycl.Keycloak.KeyProvider
use konnect_oidc_fapi2_keycl.Keycloak.KeyProvider.{
  key_provider_admin_payload, plan_key_provider_sync, managed_name,
}
use konnect_oidc_fapi2_keycl.Keycloak.Merge.{realm_admin_payload}
use konnect_oidc_fapi2_keycl.Keycloak.Request.{
  Admin, runtime, other, request_get, pure_step, realm_path, mappers_path, clients_query,
}

unfoldable pub prepare_key_provider_sync : Json → Json → Admin KeyProvider.Plan
prepare_key_provider_sync desired_realm token = do
  desired_payload ← pure_step (key_provider_admin_payload desired_realm)
  query ← from (query_item (str "name") managed_name) other
  live_components ← request_get token (realm_path ++ str "/components?" ++ query)
  pure_step (plan_key_provider_sync (obj desired_payload) live_components)

abbrev pub is_noop : KeyProvider.Plan → Bool
is_noop (KeyProvider.noop _) = true
is_noop _ = false

unfoldable pub verify_key_provider_sync : Json → Json → Admin (Unit {0})
unfolding prepare_key_provider_sync
verify_key_provider_sync desired_realm token = do
  plan ← prepare_key_provider_sync desired_realm token
  check (is_noop plan)
      (runtime (str "Keycloak managed key provider configuration did not converge"))

-- `sorted(CLIENT_IDS)`
abbrev pub sorted_client_ids : List Text
sorted_client_ids =
    str "api-gateway-introspection"
    ∷ str "third-party-fapi-mtls"
    ∷ str "third-party-fapi-pkj-mtls"
    ∷ []

abbrev pub Lookups : Type 0
Lookups = List (Text × Json)

abbrev pub is_list_value : Json → Bool
is_list_value (arr _) = true
is_list_value _ = false

-- The loop over the client IDs; the result is `matches_by_client_id`.
unfoldable pub lookup_clients : Json → List Text → Admin Lookups
unfolding clients_query
lookup_clients token [] = done []
lookup_clients token (client_id ∷ ids) = do
  path ← clients_query client_id
  matches ← request_get token path
  check (is_list_value matches)
      (runtime (str "Keycloak client lookup is malformed for " ++ client_id))
  rest ← lookup_clients token ids
  done ((client_id, matches) ∷ rest)

-- `matches_by_client_id.get(client_id)`
unfoldable pub matches_in : Lookups → Text → Option Json
matches_in [] client_id = none
matches_in ((name, matches) ∷ rest) client_id =
    if name == client_id then some matches else matches_in rest client_id

-- An action of the plan with its `mapper_plan`.
abbrev pub ClientAction : Type 0
ClientAction = Clients.Action × List Mappers.Action

-- The live mappers of the client of an action: none are asked for before it is created.
abbrev pub live_mappers : Json → Clients.Action → Admin Json
live_mappers token (Clients.create _ _) = done (arr nil)
live_mappers token (Clients.noop _ client_uuid _ _) = do
  path ← mappers_path client_uuid
  request_get token path
live_mappers token (Clients.update _ client_uuid _ _) = do
  path ← mappers_path client_uuid
  request_get token path

-- `desired["protocolMappers"]`, which client_admin_payload has found to be a list.
abbrev pub desired_mappers : Json → Option (List Json)
desired_mappers (obj fs) = as_list (value_or (get (str "protocolMappers") fs) Json.null)
desired_mappers _ = none

-- The loop over `zip(plan, desired_clients)`.
unfoldable pub plan_all_mappers : Json → List Clients.Action → List Json → Admin (List ClientAction)
plan_all_mappers token [] clients = done []
plan_all_mappers token (action ∷ plan) [] = done []
plan_all_mappers token (action ∷ plan) (desired ∷ clients) = do
  live ← live_mappers token action
  wanted ← from (desired_mappers desired) other
  mapper_plan ← pure_step (plan_mapper_sync wanted live)
  rest ← plan_all_mappers token plan clients
  done ((action, mapper_plan) ∷ rest)

unfoldable pub prepare_client_sync : Json → Json → Admin (List ClientAction)
unfolding lookup_clients matches_in plan_all_mappers
prepare_client_sync desired_clients token = do
  lookups ← lookup_clients token sorted_client_ids
  plan ← pure_step (plan_client_sync desired_clients (matches_in lookups))
  clients ← from (as_list desired_clients) other
  plan_all_mappers token plan clients

abbrev pub no_mapper_actions : List Mappers.Action → Bool
no_mapper_actions [] = true
no_mapper_actions (_ ∷ _) = false

-- `action["operation"] != "noop" or action["mapper_plan"]` for no action.
abbrev pub is_settled : ClientAction → Bool
is_settled (Clients.noop _ _ _ _, mapper_plan) = no_mapper_actions mapper_plan
is_settled _ = false

unfoldable pub verify_client_sync : Json → Json → Admin (Unit {0})
unfolding prepare_client_sync
verify_client_sync desired_clients token = do
  plan ← prepare_client_sync desired_clients token
  check (not (any (λ action. not (is_settled action)) plan))
      (runtime (str "Keycloak client configuration did not converge"))

unfoldable pub prepare_realm_sync : Json → Json → Admin Fields
prepare_realm_sync desired_realm token = do
  current ← request_get token realm_path
  live ← from (as_object current) (runtime (str "Keycloak realm representation is malformed"))
  pure_step (realm_admin_payload (obj live) desired_realm)

abbrev pub is_empty : Fields → Bool
is_empty end = true
is_empty (field _ _ _) = false

unfoldable pub verify_realm_sync : Json → Json → Admin (Unit {0})
unfolding prepare_realm_sync
verify_realm_sync desired_realm token = do
  remaining ← prepare_realm_sync desired_realm token
  check (is_empty remaining) (runtime (str "Keycloak realm configuration did not converge"))
