-- ===== src/Keycloak/RunTests.antt =====
-- A run of the synchronization against a Keycloak that gives its replies in order.
use konnect_oidc_fapi2_keycl.Common.{
  ◌≡◌, refl, ℕ, suc, ◌≤◌, ◌+◌, true, false, some, List, [], ◌∷◌, ◌++◌, All, ok, err, length,
}
use konnect_oidc_fapi2_keycl.Python.Text.{Text, str, ◌==◌}
use konnect_oidc_fapi2_keycl.Python.Json.{
  Json, Fields, null, text, obj, arr, nil, cons, dict, get, has_key, keys, items,
}
use konnect_oidc_fapi2_keycl.Program.{AllCalls, run, trace, count, ◌>>=◌, ◌>>◌}
use konnect_oidc_fapi2_keycl.Keycloak.KeyProvider.{
  key_provider_type, managed_name, managed_id, managed_config, matching, key_provider_admin_payload,
  is_managed_payload, plan_existing, plan_key_provider_sync,
}
use konnect_oidc_fapi2_keycl.Keycloak.Request.{
  Call, Reply, Error, url_error, client_path, mappers_path, clients_query,
}
use konnect_oidc_fapi2_keycl.Keycloak.Main.{
  Summary, Secrets, sync_realm, start, wait_for_keycloak, make_plans, carry_out,
}
use konnect_oidc_fapi2_keycl.Keycloak.Tests.{
  client, wanted_clients, plain_realm, wanted_groups, providers,
}
use konnect_oidc_fapi2_keycl.Keycloak.Prepare.{
  ClientAction, prepare_key_provider_sync, verify_key_provider_sync, lookup_clients, matches_in,
  plan_all_mappers, prepare_client_sync, verify_client_sync, prepare_realm_sync, verify_realm_sync,
}
use konnect_oidc_fapi2_keycl.Keycloak.Apply.{
  with_id, update_body, apply_mapper, apply_key_provider_sync, apply_client, apply_clients, uuid_of,
  apply_mappers, apply_all_mappers, changed_clients, apply_client_sync, apply_realm_sync,
}
use konnect_oidc_fapi2_keycl.Keycloak.Clients.{
  mapper_names, client_admin_payload, desired_ids, is_inventory, current_payload, plan_found,
  plan_client, plan_clients, plan_client_sync,
}
use konnect_oidc_fapi2_keycl.Keycloak.Mappers.{
  mapper_admin_payload, mapper_payloads, find, index_live, plan_current, plan_mapper, plan_mappers,
  plan_mapper_sync,
}
use konnect_oidc_fapi2_keycl.Keycloak.Merge.{
  name_entries, merge_entry, merge_entries, merge_named_entries, merge_group, changed,
  plain_payload, realm_admin_payload,
}
use konnect_oidc_fapi2_keycl.Keycloak.Values.{
  is_member, has_only, is_distinct, project, put, merge_fields, to_items,
}
use konnect_oidc_fapi2_keycl.Python.Url.{
  is_unreserved, hex_digit, quote_bytes, quote, quote_plus_bytes, quote_plus, query_item,
}
use konnect_oidc_fapi2_keycl.Python.Utf8.{is_surrogate, encode_char, encode_utf8}
use konnect_oidc_fapi2_keycl.Python.Json.Equality.{json_eq}
use konnect_oidc_fapi2_keycl.Keycloak.Mappers
use konnect_oidc_fapi2_keycl.Keycloak.Clients
use konnect_oidc_fapi2_keycl.Keycloak.ReadOnly.{IsRead}
use konnect_oidc_fapi2_keycl.Keycloak.PlansFirst.{IsKept, start-IsKept, sync_realm-plans}
use konnect_oidc_fapi2_keycl.Keycloak.Converged.{IsConverged, sync_realm-IsConverged}
use konnect_oidc_fapi2_keycl.Keycloak.Waiting.{
  IsRetried, not_ready, wait_for_keycloak-bound, wait_for_keycloak-exhausted,
}
use konnect_oidc_fapi2_keycl.Keycloak.Writes.{is_write, mapper_actions, apply_client_sync-writes}

-- The replies that are left; a URLError after the last one.
serve : Call → List Reply → Reply × List Reply
serve c [] = (err url_error, [])
serve c (reply ∷ replies) = (reply, replies)

abbrev desired_provider : Json
desired_provider = obj (
    dict (
      (str "name", text managed_name)
      ∷ (str "providerId", text managed_id)
      ∷ (str "config", obj managed_config)
      ∷ []))

abbrev desired : Json
desired = plain_realm (str "all") (
    (str "clients", wanted_clients)
    ∷ (str "components", obj (dict ((key_provider_type, arr (cons desired_provider nil)) ∷ [])))
    ∷ wanted_groups)

abbrev found : Text → Text → Reply
found id uuid = ok (arr (cons (obj (client id ((str "id", text uuid) ∷ []))) nil))

-- The lookups of the three clients, which are as they should be, and their mappers.
abbrev client_replies : List Reply
client_replies =
    found (str "api-gateway-introspection") (str "c3")
    ∷ found (str "third-party-fapi-mtls") (str "c1")
    ∷ found (str "third-party-fapi-pkj-mtls") (str "c2")
    ∷ ok (arr nil)
    ∷ ok (arr nil)
    ∷ ok (arr nil)
    ∷ []

abbrev realm_reply : Text → Reply
realm_reply ssl = ok (plain_realm ssl wanted_groups)

-- The realm needs one change, which a PUT makes.
abbrev replies : List Reply
replies =
    (realm_reply (str "external") ∷ client_replies)
    ++ (ok providers ∷ ok null ∷ client_replies)
    ++ (realm_reply (str "all") ∷ ok providers ∷ [])

abbrev summary : Summary
summary = record {
  synced_clients = 0;
  synced_mappers = 0;
  realm_changed = true;
  key_provider_changed = false;
}

synced : (run serve (sync_realm desired null) replies).0 ≡ ok summary
unfolding run serve sync_realm dict str prepare_key_provider_sync verify_key_provider_sync
    lookup_clients matches_in plan_all_mappers prepare_client_sync verify_client_sync
    prepare_realm_sync verify_realm_sync apply_key_provider_sync apply_client apply_clients uuid_of
    apply_mappers apply_all_mappers changed_clients apply_client_sync apply_realm_sync make_plans
    carry_out client_path mappers_path clients_query mapper_names client_admin_payload desired_ids
    is_inventory current_payload plan_found plan_client plan_clients plan_client_sync
    mapper_admin_payload mapper_payloads find index_live plan_current plan_mapper plan_mappers
    plan_mapper_sync name_entries merge_entry merge_entries merge_named_entries merge_group changed
    plain_payload realm_admin_payload matching key_provider_admin_payload is_managed_payload
    plan_existing plan_key_provider_sync is_member has_only is_distinct project put merge_fields
    to_items is_unreserved hex_digit quote_bytes quote quote_plus_bytes quote_plus query_item
    is_surrogate encode_char encode_utf8 get has_key keys items json_eq ◌==◌ ◌>>=◌ ◌>>◌
synced = refl

sync_realm-IsConverged_example : IsConverged serve null desired replies
sync_realm-IsConverged_example = sync_realm-IsConverged serve null desired replies summary synced

abbrev plans_trace : List Call
plans_trace = trace serve (make_plans desired null) replies

sync_realm-plans_example :
    (rest : List Call) × (trace serve (sync_realm desired null) replies ≡ plans_trace ++ rest)
    × All IsRead plans_trace
    × ((e : Error) → (run serve (make_plans desired null) replies).0 ≡ err e → rest ≡ [])
sync_realm-plans_example = sync_realm-plans serve desired null replies

abbrev secrets : Secrets
secrets = record { username = some (str "admin"); password = some (str "pw") }

start-IsKept_example : AllCalls IsKept (start secrets desired)
start-IsKept_example = start-IsKept secrets desired

-- Keycloak cannot be reached.
down : Call → ℕ → Reply × ℕ
down c n = (err url_error, suc n)

down-IsRetried : (c : Call) (n : ℕ) → IsRetried (down c n).0
unfolding down
down-IsRetried c n = tt

wait_for_keycloak-bound_example : length (trace down (wait_for_keycloak secrets) 0) ≤ 30
wait_for_keycloak-bound_example = wait_for_keycloak-bound down secrets 0

wait_for_keycloak-exhausted_example :
    ((run down (wait_for_keycloak secrets) 0).0 ≡ err not_ready)
    × (length (trace down (wait_for_keycloak secrets) 0) ≡ 30)
wait_for_keycloak-exhausted_example =
    wait_for_keycloak-exhausted down (str "admin") (str "pw") down-IsRetried 0

-- One client to update, with one mapper to create.
abbrev payload : Fields
payload = dict ((str "attributes", obj (dict ((str "a", text (str "1")) ∷ []))) ∷ [])

abbrev live : Fields
live = dict ((str "id", text (str "c1")) ∷ [])

abbrev small_plan : List ClientAction
small_plan =
    (
      Clients.update (str "third-party-fapi-mtls") (str "c1") payload live,
      Mappers.create payload ∷ [],
    )
    ∷ []

abbrev accepted : List Reply
accepted = ok null ∷ ok null ∷ []

two-applied : (run serve (apply_client_sync small_plan null) accepted).0 ≡ ok (1, 1)
unfolding run serve dict str with_id update_body apply_mapper prepare_key_provider_sync
    verify_key_provider_sync lookup_clients matches_in plan_all_mappers prepare_client_sync
    verify_client_sync prepare_realm_sync verify_realm_sync apply_key_provider_sync apply_client
    apply_clients uuid_of apply_mappers apply_all_mappers changed_clients apply_client_sync
    apply_realm_sync make_plans carry_out client_path mappers_path clients_query mapper_names
    client_admin_payload desired_ids is_inventory current_payload plan_found plan_client
    plan_clients plan_client_sync mapper_admin_payload mapper_payloads find index_live plan_current
    plan_mapper plan_mappers plan_mapper_sync name_entries merge_entry merge_entries
    merge_named_entries merge_group changed plain_payload realm_admin_payload matching
    key_provider_admin_payload is_managed_payload plan_existing plan_key_provider_sync is_member
    has_only is_distinct project put merge_fields to_items is_unreserved hex_digit quote_bytes quote
    quote_plus_bytes quote_plus query_item is_surrogate encode_char encode_utf8 get has_key keys
    items json_eq ◌==◌ ◌>>=◌ ◌>>◌
two-applied = refl

apply_client_sync-writes_example :
    (1 ≡ changed_clients small_plan)
    × (1 ≡ mapper_actions small_plan)
    × (count is_write (trace serve (apply_client_sync small_plan null) accepted) ≡ 1 + 1)
apply_client_sync-writes_example =
    apply_client_sync-writes serve null small_plan accepted 1 1 two-applied
