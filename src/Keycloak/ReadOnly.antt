-- ===== src/Keycloak/ReadOnly.antt =====
-- What may be called while the plans are made and verified, and in a whole run.
use konnect_oidc_fapi2_keycl.Common.{◌≡◌, refl, none, List, [], ◌∷◌, ok, err}
use konnect_oidc_fapi2_keycl.Python.Text.{Text}
use konnect_oidc_fapi2_keycl.Python.Json.{Json}
use konnect_oidc_fapi2_keycl.Program.{AllCalls}
use konnect_oidc_fapi2_keycl.Program.Laws.{
  AllCalls->>=, AllCalls->>, AllCalls-lift, AllCalls-from, AllCalls-check,
}
use konnect_oidc_fapi2_keycl.Keycloak.Clients
use konnect_oidc_fapi2_keycl.Keycloak.Request.{
  Call, Reply, answer, request_get, get_method, client_path, mappers_path, clients_query,
}
use konnect_oidc_fapi2_keycl.Keycloak.Main.{make_plans}
use konnect_oidc_fapi2_keycl.Keycloak.Prepare.{
  prepare_key_provider_sync, prepare_client_sync, prepare_realm_sync, verify_key_provider_sync,
  verify_client_sync, verify_realm_sync, lookup_clients, plan_all_mappers, live_mappers,
}

-- A call that reads: it sends no body.
pub record IsRead (c : Call) : Type 0 where
  pub method : c.method ≡ get_method
  pub body : c.body ≡ none
  pub form : c.form ≡ []

module _ (P : Call → Type 0) where
  pub answer-AllCalls : (r : Reply) → AllCalls P (answer r)
  answer-AllCalls (ok j) = tt
  answer-AllCalls (err e) = tt

  pub client_path-AllCalls : (t : Text) → AllCalls P (client_path t)
  unfolding client_path
  client_path-AllCalls t = search (AllCalls->>=, AllCalls-from)

  pub mappers_path-AllCalls : (t : Text) → AllCalls P (mappers_path t)
  unfolding mappers_path
  mappers_path-AllCalls t = search (AllCalls->>=, client_path-AllCalls)

  pub clients_query-AllCalls : (t : Text) → AllCalls P (clients_query t)
  unfolding clients_query
  clients_query-AllCalls t = search (AllCalls->>=, AllCalls-from)

get-IsRead : (token : Json) (path : Text) → AllCalls IsRead (request_get token path)
get-IsRead token path = (record { method = refl; body = refl; form = refl }, answer-AllCalls IsRead)

ruleset read_steps = (
  AllCalls->>=, AllCalls->>, AllCalls-lift, AllCalls-from, AllCalls-check, get-IsRead,
  client_path-AllCalls, mappers_path-AllCalls, clients_query-AllCalls,
)

prepare_key_provider_sync-IsRead :
    (desired token : Json) → AllCalls IsRead (prepare_key_provider_sync desired token)
unfolding prepare_key_provider_sync
prepare_key_provider_sync-IsRead desired token = search read_steps

lookup_clients-IsRead :
    (token : Json) (ids : List Text) → AllCalls IsRead (lookup_clients token ids)
unfolding lookup_clients
lookup_clients-IsRead token [] = tt
lookup_clients-IsRead token (id ∷ ids) = search (read_steps, lookup_clients-IsRead token ids)

live_mappers-IsRead :
    (token : Json) (action : Clients.Action) → AllCalls IsRead (live_mappers token action)
live_mappers-IsRead token (Clients.create _ _) = tt
live_mappers-IsRead token (Clients.noop _ _ _ _) = search read_steps
live_mappers-IsRead token (Clients.update _ _ _ _) = search read_steps

plan_all_mappers-IsRead :
    (token : Json) (plan : List Clients.Action) (clients : List Json)
    → AllCalls IsRead (plan_all_mappers token plan clients)
unfolding plan_all_mappers
plan_all_mappers-IsRead token [] clients = tt
plan_all_mappers-IsRead token (action ∷ plan) [] = tt
plan_all_mappers-IsRead token (action ∷ plan) (desired ∷ clients) =
    search
      (read_steps, live_mappers-IsRead token action, plan_all_mappers-IsRead token plan clients)

prepare_client_sync-IsRead :
    (desired token : Json) → AllCalls IsRead (prepare_client_sync desired token)
unfolding prepare_client_sync
prepare_client_sync-IsRead desired token =
    search (read_steps, lookup_clients-IsRead, plan_all_mappers-IsRead)

prepare_realm_sync-IsRead :
    (desired token : Json) → AllCalls IsRead (prepare_realm_sync desired token)
unfolding prepare_realm_sync
prepare_realm_sync-IsRead desired token = search read_steps

pub make_plans-IsRead : (desired token : Json) → AllCalls IsRead (make_plans desired token)
unfolding make_plans
make_plans-IsRead desired token = search (
  read_steps, prepare_key_provider_sync-IsRead, prepare_client_sync-IsRead,
  prepare_realm_sync-IsRead,
)

-- The three verifications, one after another.
pub verify-IsRead :
    (clients desired token : Json)
    → AllCalls IsRead (verify_client_sync clients token)
      × AllCalls IsRead (verify_realm_sync desired token)
      × AllCalls IsRead (verify_key_provider_sync desired token)
unfolding verify_client_sync verify_realm_sync verify_key_provider_sync
verify-IsRead clients desired token = (
  search (read_steps, prepare_client_sync-IsRead),
  search (read_steps, prepare_realm_sync-IsRead),
  search (read_steps, prepare_key_provider_sync-IsRead),
)
