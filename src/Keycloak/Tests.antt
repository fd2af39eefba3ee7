-- ===== src/Keycloak/Tests.antt =====
-- The plans for a small realm.
use konnect_oidc_fapi2_keycl.Common.{
  ◌≡◌, refl, true, false, Option, some, if◌then◌else◌, List, [], ◌∷◌, ok,
}
use konnect_oidc_fapi2_keycl.Python.Int.{pos}
use konnect_oidc_fapi2_keycl.Python.Text.{Text, str, ◌==◌}
use konnect_oidc_fapi2_keycl.Python.Json.{
  as_object, Json, Fields, text, obj, arr, nil, cons, dict, get, has_key, keys, items,
}
use konnect_oidc_fapi2_keycl.Python.Json.Equality.{json_eq}
use konnect_oidc_fapi2_keycl.Keycloak.Values.{
  is_distinct, to_items, project, put, merge_fields, is_member, has_only,
}
use konnect_oidc_fapi2_keycl.Keycloak.Mappers.{
  Action, create, update, find, plan_current, plan_mapper, plan_mappers, plan_mapper_sync,
  mapper_payloads, mapper_admin_payload, index_live,
}
use konnect_oidc_fapi2_keycl.Keycloak.Merge.{
  Entry, merge_entry, merge_entries, realm_admin_payload, merge_group, merge_named_entries,
  name_entries, changed, plain_payload, entries,
}
use konnect_oidc_fapi2_keycl.Keycloak.KeyProvider.{
  noop, managed_payload, managed_name, managed_id, managed_config, key_provider_type,
  plan_key_provider_sync, plan_existing, matching, is_managed_payload,
}
use konnect_oidc_fapi2_keycl.Keycloak.InSync.{IsMapperPlan, plan_mapper_sync-IsMapperPlan}
use konnect_oidc_fapi2_keycl.Keycloak.Managed.{IsMerge, merge_named_entries-IsMerge}
use konnect_oidc_fapi2_keycl.Keycloak.Clients
use konnect_oidc_fapi2_keycl.Keycloak.Clients.{
  plan_client_sync, desired_ids, is_inventory, plan_clients, plan_client, client_admin_payload,
  mapper_names, plan_found, current_payload,
}
use konnect_oidc_fapi2_keycl.Keycloak.Additive.{IsClientPlan, plan_client_sync-IsClientPlan}
use konnect_oidc_fapi2_keycl.Keycloak.Changed.{AllFields, IsChange, realm_admin_payload-IsChange}
use konnect_oidc_fapi2_keycl.Keycloak.Single.{IsLookup, plan_key_provider_sync-IsLookup}

abbrev mapper : Text → Text → List (Text × Json) → Fields
mapper name value more = dict (
    (str "name", text name)
    ∷ (str "protocol", text (str "openid-connect"))
    ∷ (str "protocolMapper", text (str "oidc-audience-mapper"))
    ∷ (str "config", obj (dict ((str "claim", text value) ∷ [])))
    ∷ more)

abbrev actions : List Action
actions =
    update (str "m-2") (mapper (str "route") (str "new") [])
    ∷ create (mapper (str "department") (str "d") [])
    ∷ []

-- Two live mappers; three are wanted: one of them, the other changed, and a new one.
abbrev live_mappers : Json
live_mappers = arr (
    cons (obj (mapper (str "aud") (str "api") ((str "id", text (str "m-1")) ∷ [])))
      (cons (obj (mapper (str "route") (str "old") ((str "id", text (str "m-2")) ∷ []))) nil))

abbrev wanted_mappers : List Json
wanted_mappers =
    obj (mapper (str "aud") (str "api") [])
    ∷ obj (mapper (str "route") (str "new") [])
    ∷ obj (mapper (str "department") (str "d") [])
    ∷ []

all_planned : plan_mapper_sync wanted_mappers live_mappers ≡ ok actions
unfolding plan_mapper_sync mapper_payloads mapper_admin_payload index_live plan_mappers plan_mapper
    plan_current find project json_eq get dict has_key has_only is_member is_distinct items keys str
    ◌==◌
all_planned = refl

plan_mapper_sync-IsMapperPlan_example : IsMapperPlan wanted_mappers live_mappers actions
plan_mapper_sync-IsMapperPlan_example =
    plan_mapper_sync-IsMapperPlan wanted_mappers live_mappers actions all_planned

abbrev pub policy : Text → Text → Fields
policy name value = dict ((str "name", text name) ∷ (str "value", text value) ∷ [])

abbrev merged : List Entry
merged =
    (str "own", policy (str "own") (str "1")) ∷ (str "fapi", policy (str "fapi") (str "new")) ∷ []

abbrev live_policies : Json
live_policies =
    arr
      (cons (obj (policy (str "own") (str "1"))) (cons (obj (policy (str "fapi") (str "old"))) nil))

abbrev wanted_policies : Json
wanted_policies = arr (cons (obj (policy (str "fapi") (str "new"))) nil)

all-merged :
    merge_named_entries live_policies wanted_policies (str "client policy") ≡ ok (entries merged)
unfolding merge_named_entries name_entries merge_entries merge_entry merge_fields put is_member get
    dict items str ◌==◌
all-merged = refl

merge_named_entries-IsMerge_example :
    IsMerge live_policies wanted_policies (str "client policy") (entries merged)
merge_named_entries-IsMerge_example =
    merge_named_entries-IsMerge live_policies wanted_policies (str "client policy") (entries merged)
      all-merged

abbrev pub provider : Fields
provider = dict (
    (str "id", text (str "k-1"))
    ∷ (str "name", text managed_name)
    ∷ (str "providerId", text managed_id)
    ∷ (str "providerType", text key_provider_type)
    ∷ (str "config", obj managed_config)
    ∷ [])

abbrev pub providers : Json
providers = arr (cons (obj provider) nil)

provider_planned : plan_key_provider_sync (obj managed_payload) providers ≡ ok (noop (str "k-1"))
unfolding plan_key_provider_sync plan_existing matching is_managed_payload json_eq get dict has_key
    keys items has_only is_member str ◌==◌
provider_planned = refl

plan_key_provider_sync-IsLookup_example :
    IsLookup (obj managed_payload) providers (noop (str "k-1"))
plan_key_provider_sync-IsLookup_example =
    plan_key_provider_sync-IsLookup (obj managed_payload) providers (noop (str "k-1"))
      provider_planned

abbrev pub client : Text → List (Text × Json) → Fields
client id more = dict (
    (str "clientId", text id)
    ∷ (str "name", text id)
    ∷ (str "enabled", Json.bool true)
    ∷ (str "protocol", text (str "openid-connect"))
    ∷ (str "publicClient", Json.bool false)
    ∷ (str "consentRequired", Json.bool false)
    ∷ (str "fullScopeAllowed", Json.bool false)
    ∷ (str "clientAuthenticatorType", text (str "client-x509"))
    ∷ (str "standardFlowEnabled", Json.bool true)
    ∷ (str "implicitFlowEnabled", Json.bool false)
    ∷ (str "directAccessGrantsEnabled", Json.bool false)
    ∷ (str "serviceAccountsEnabled", Json.bool false)
    ∷ (str "redirectUris", arr nil)
    ∷ (str "webOrigins", arr nil)
    ∷ (str "attributes", obj (dict ((str "a", text (str "1")) ∷ [])))
    ∷ more)

abbrev pub wanted_client : Text → Json
wanted_client id = obj (client id ((str "protocolMappers", arr nil) ∷ []))

abbrev pub wanted_clients : Json
wanted_clients = arr (
    cons (wanted_client (str "third-party-fapi-mtls")) (
      cons (wanted_client (str "third-party-fapi-pkj-mtls"))
        (cons (wanted_client (str "api-gateway-introspection")) nil)))

abbrev live_client : Fields
live_client = client (str "third-party-fapi-mtls") ((str "id", text (str "c-1")) ∷ [])

-- Only the first client is there, with the values that are wanted.
lookup_client : Text → Option Json
lookup_client id =
    if id == str "third-party-fapi-mtls"
    then some (arr (cons (obj live_client) nil))
    else some (arr nil)

abbrev client_plan : List Clients.Action
client_plan =
    Clients.noop (str "third-party-fapi-mtls") (str "c-1") (client (str "third-party-fapi-mtls") [])
      live_client
    ∷ Clients.create (str "third-party-fapi-pkj-mtls") (client (str "third-party-fapi-pkj-mtls") [])
    ∷ Clients.create (str "api-gateway-introspection") (client (str "api-gateway-introspection") [])
    ∷ []

clients-planned : plan_client_sync wanted_clients lookup_client ≡ ok client_plan
unfolding plan_client_sync desired_ids is_inventory plan_clients plan_client client_admin_payload
    mapper_names plan_found current_payload lookup_client project put json_eq get dict has_key keys
    items has_only is_member is_distinct str ◌==◌
clients-planned = refl

plan_client_sync-IsClientPlan_example : IsClientPlan wanted_clients lookup_client client_plan
plan_client_sync-IsClientPlan_example =
    plan_client_sync-IsClientPlan wanted_clients lookup_client client_plan clients-planned

abbrev pub plain_realm : Text → List (Text × Json) → Json
plain_realm ssl more = obj (
    dict (
      (str "realm", text (str "fapi-demo"))
      ∷ (str "enabled", Json.bool true)
      ∷ (str "sslRequired", text ssl)
      ∷ (str "defaultSignatureAlgorithm", text (str "PS256"))
      ∷ (str "accessCodeLifespan", Json.int (pos 60))
      ∷ (str "revokeRefreshToken", Json.bool true)
      ∷ (str "refreshTokenMaxReuse", Json.int (pos 0))
      ∷ more))

abbrev pub wanted_groups : List (Text × Json)
wanted_groups =
    (str "clientPolicies", obj (dict ((str "policies", arr nil) ∷ [])))
    ∷ (str "clientProfiles", obj (dict ((str "profiles", arr nil) ∷ [])))
    ∷ []

abbrev pub ssl_change : Fields
ssl_change = dict ((str "sslRequired", text (str "all")) ∷ [])

realm-changed :
    realm_admin_payload
      (plain_realm (str "external") wanted_groups)
      (plain_realm (str "all") wanted_groups)
    ≡ ok ssl_change
unfolding realm_admin_payload merge_group merge_named_entries name_entries merge_entries changed
    plain_payload to_items put json_eq get dict has_key keys items str ◌==◌
realm-changed = refl

realm_admin_payload-IsChange_example :
    (live : Fields) × (as_object (plain_realm (str "external") wanted_groups) ≡ some live)
    × AllFields (IsChange live) ssl_change
realm_admin_payload-IsChange_example =
    realm_admin_payload-IsChange (plain_realm (str "external") wanted_groups)
      (plain_realm (str "all") wanted_groups) ssl_change realm-changed
