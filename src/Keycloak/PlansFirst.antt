-- ===== src/Keycloak/PlansFirst.antt =====
-- The order of reads and writes in a run of the synchronization.
use konnect_oidc_fapi2_keycl.Common.{
  ◌≡◌, refl, ◌⊎◌, inl, inr, ℕ, zero, suc, List, [], ◌∷◌, ◌++◌, All, err,
}
use konnect_oidc_fapi2_keycl.Python.Text.{Text}
use konnect_oidc_fapi2_keycl.Python.Json.{Json, Fields, end, field}
use konnect_oidc_fapi2_keycl.Program.{AllCalls, run, trace}
use konnect_oidc_fapi2_keycl.Program.Laws.{
  AllCalls->>=, AllCalls->>, AllCalls-catch, AllCalls-lift, AllCalls-from, AllCalls-check,
  AllCalls-mono, All-trace, trace->>=,
}
use konnect_oidc_fapi2_keycl.Keycloak.Mappers
use konnect_oidc_fapi2_keycl.Keycloak.Clients
use konnect_oidc_fapi2_keycl.Keycloak.KeyProvider
use konnect_oidc_fapi2_keycl.Keycloak.Request.{
  Call, Reply, Error, runtime, url_error, other, Admin, request_get, request_body, post, put_method,
}
use konnect_oidc_fapi2_keycl.Keycloak.Prepare.{
  ClientAction, verify_client_sync, verify_realm_sync, verify_key_provider_sync,
}
use konnect_oidc_fapi2_keycl.Keycloak.Apply.{
  apply_key_provider_sync, apply_client_sync, apply_realm_sync, apply_clients, apply_client,
  created_uuid, apply_all_mappers, apply_mappers, apply_mapper, Uuids,
}
use konnect_oidc_fapi2_keycl.Keycloak.Main.{
  Secrets, admin_token, attempt, retry, wait_for_keycloak, make_plans, carry_out, sync_realm, start,
  Plans,
}
use konnect_oidc_fapi2_keycl.Keycloak.ReadOnly.{
  IsRead, make_plans-IsRead, verify-IsRead, answer-AllCalls, client_path-AllCalls,
  mappers_path-AllCalls, clients_query-AllCalls,
}

-- A call that reads, creates or updates; none deletes.
abbrev pub IsKept : Call → Type 0
IsKept c = IsRead c ⊎ (c.method ≡ post) ⊎ (c.method ≡ put_method)

read-IsKept : (c : Call) → IsRead c → IsKept c
read-IsKept c r = inl r

get-IsKept : (token : Json) (path : Text) → AllCalls IsKept (request_get token path)
get-IsKept token path =
    (inl (record { method = refl; body = refl; form = refl }), answer-AllCalls IsKept)

post-IsKept :
    (token : Json) (path : Text) (body : Fields)
    → AllCalls IsKept (request_body post token path body)
post-IsKept token path body = (inr (inl refl), answer-AllCalls IsKept)

put-IsKept :
    (token : Json) (path : Text) (body : Fields)
    → AllCalls IsKept (request_body put_method token path body)
put-IsKept token path body = (inr (inr refl), answer-AllCalls IsKept)

ruleset kept_steps = (
  AllCalls->>=, AllCalls->>, AllCalls-lift, AllCalls-from, AllCalls-check, get-IsKept, post-IsKept,
  put-IsKept, client_path-AllCalls, mappers_path-AllCalls, clients_query-AllCalls,
)

apply_key_provider_sync-IsKept :
    (plan : KeyProvider.Plan) (token : Json) → AllCalls IsKept (apply_key_provider_sync plan token)
unfolding apply_key_provider_sync
apply_key_provider_sync-IsKept (KeyProvider.noop _) token = tt
apply_key_provider_sync-IsKept (KeyProvider.create _) token = search kept_steps
apply_key_provider_sync-IsKept (KeyProvider.update _ _) token = search kept_steps

created_uuid-IsKept : (id : Text) (created : Json) → AllCalls IsKept (created_uuid id created)
unfolding created_uuid
created_uuid-IsKept id created = search kept_steps

apply_client-IsKept :
    (token : Json) (action : Clients.Action) → AllCalls IsKept (apply_client token action)
unfolding apply_client
apply_client-IsKept token (Clients.noop _ _ _ _) = tt
apply_client-IsKept token (Clients.create _ _) = search (kept_steps, created_uuid-IsKept)
apply_client-IsKept token (Clients.update _ _ _ _) = search kept_steps

apply_clients-IsKept :
    (token : Json) (uuids : Uuids) (plan : List ClientAction)
    → AllCalls IsKept (apply_clients token uuids plan)
unfolding apply_clients
apply_clients-IsKept token uuids [] = tt
apply_clients-IsKept token uuids ((action, _) ∷ plan) =
    AllCalls->>= IsKept _ _ (apply_client-IsKept token action)
      λ uuid. apply_clients-IsKept token (_ ∷ uuids) plan

apply_mapper-IsKept :
    (token : Json) (uuid : Text) (action : Mappers.Action)
    → AllCalls IsKept (apply_mapper token uuid action)
unfolding apply_mapper
apply_mapper-IsKept token uuid (Mappers.create _) = search kept_steps
apply_mapper-IsKept token uuid (Mappers.update _ _) = search kept_steps

apply_mappers-IsKept :
    (token : Json) (uuid : Text) (plan : List Mappers.Action)
    → AllCalls IsKept (apply_mappers token uuid plan)
unfolding apply_mappers
apply_mappers-IsKept token uuid [] = tt
apply_mappers-IsKept token uuid (action ∷ plan) =
    search (kept_steps, apply_mapper-IsKept, apply_mappers-IsKept token uuid plan)

apply_all_mappers-IsKept :
    (token : Json) (uuids : Uuids) (plan : List ClientAction)
    → AllCalls IsKept (apply_all_mappers token uuids plan)
unfolding apply_all_mappers
apply_all_mappers-IsKept token uuids [] = tt
apply_all_mappers-IsKept token uuids ((action, mapper_plan) ∷ plan) =
    search (kept_steps, apply_mappers-IsKept, apply_all_mappers-IsKept token uuids plan)

apply_client_sync-IsKept :
    (plan : List ClientAction) (token : Json) → AllCalls IsKept (apply_client_sync plan token)
unfolding apply_client_sync
apply_client_sync-IsKept plan token =
    search (kept_steps, apply_clients-IsKept, apply_all_mappers-IsKept)

apply_realm_sync-IsKept :
    (payload : Fields) (token : Json) → AllCalls IsKept (apply_realm_sync payload token)
unfolding apply_realm_sync
apply_realm_sync-IsKept end token = tt
apply_realm_sync-IsKept (field _ _ _) token = search kept_steps

make_plans-IsKept : (desired token : Json) → AllCalls IsKept (make_plans desired token)
make_plans-IsKept desired token =
    AllCalls-mono IsRead IsKept _ read-IsKept (make_plans-IsRead desired token)

verify_client_sync-IsKept :
    (clients token : Json) → AllCalls IsKept (verify_client_sync clients token)
verify_client_sync-IsKept clients token =
    AllCalls-mono IsRead IsKept _ read-IsKept (verify-IsRead clients clients token).0

verify_realm_sync-IsKept :
    (desired token : Json) → AllCalls IsKept (verify_realm_sync desired token)
verify_realm_sync-IsKept desired token =
    AllCalls-mono IsRead IsKept _ read-IsKept (verify-IsRead desired desired token).1

verify_key_provider_sync-IsKept :
    (desired token : Json) → AllCalls IsKept (verify_key_provider_sync desired token)
verify_key_provider_sync-IsKept desired token =
    AllCalls-mono IsRead IsKept _ read-IsKept (verify-IsRead desired desired token).2

carry_out-IsKept :
    (desired token : Json) (plans : Plans) → AllCalls IsKept (carry_out desired token plans)
unfolding carry_out
carry_out-IsKept desired token plans =
    AllCalls->>= IsKept _ _ (apply_key_provider_sync-IsKept plans.key_provider_plan token) λ _.
      AllCalls->>= IsKept _ _ (apply_client_sync-IsKept plans.client_plan token) λ _.
        AllCalls->>= IsKept _ _ (apply_realm_sync-IsKept plans.realm_plan token) λ _.
          AllCalls->> IsKept _ _ (verify_client_sync-IsKept plans.clients token) (
            AllCalls->> IsKept _ _ (verify_realm_sync-IsKept desired token)
              (AllCalls->> IsKept _ _ (verify_key_provider_sync-IsKept desired token) tt))

admin_token-IsKept : (secrets : Secrets) → AllCalls IsKept (admin_token secrets)
unfolding admin_token
admin_token-IsKept secrets =
    AllCalls->>= IsKept _ _ (AllCalls-from (λ _. Reply) IsKept secrets.username other) λ username.
      AllCalls->>= IsKept _ _ (AllCalls-from (λ _. Reply) IsKept secrets.password other) λ password.
        AllCalls->>= IsKept _ _ (inr (inl refl), answer-AllCalls IsKept) λ reply. search kept_steps

retry-IsKept :
    (e : Error) (again : Admin Json) → AllCalls IsKept again → AllCalls IsKept (retry e again)
retry-IsKept (runtime _) again p = p
retry-IsKept url_error again p = p
retry-IsKept other again p = tt

attempt-IsKept : (n : ℕ) (secrets : Secrets) → AllCalls IsKept (attempt n secrets)
unfolding attempt
attempt-IsKept zero secrets = tt
attempt-IsKept (suc n) secrets =
    AllCalls-catch IsKept (admin_token secrets) _ (admin_token-IsKept secrets)
      λ e. retry-IsKept e (attempt n secrets) (attempt-IsKept n secrets)

-- Every request of a run from the token to the last verification, whatever the replies, is a GET, a
-- POST or a PUT, so nothing is deleted.
pub start-IsKept : (secrets : Secrets) (desired : Json) → AllCalls IsKept (start secrets desired)
unfolding start wait_for_keycloak sync_realm
start-IsKept secrets desired =
    search (kept_steps, attempt-IsKept, make_plans-IsKept, carry_out-IsKept)

-- A run of the synchronization makes its plans by reads only; all that it does after them comes
-- after all three plans are made, and nothing does where one of them fails.
pub sync_realm-plans :
    {S : Type 0} (serve : Call → S → Reply × S) (desired token : Json) (s : S)
    → (rest : List Call) × (trace serve (sync_realm desired token) s
        ≡ trace serve (make_plans desired token) s ++ rest)
      × All IsRead (trace serve (make_plans desired token) s)
      × ((e : Error) → (run serve (make_plans desired token) s).0 ≡ err e → rest ≡ [])
unfolding sync_realm
sync_realm-plans serve desired token s =
    let (rest, split, stop) =
      trace->>= serve (make_plans desired token) (carry_out desired token) s in
    (rest, split, All-trace serve IsRead _ s (make_plans-IsRead desired token), stop)
