-- ===== src/Keycloak/Converged.antt =====
-- What holds of the live realm where the verifications of the synchronization pass.
use konnect_oidc_fapi2_keycl.Common.{
  ◌≡◌, refl, sym, ap, subst, ◌∙◌, true, not, any, Option, some, List, [], ◌∷◌, ◌++◌, All, ok, arith,
}
use konnect_oidc_fapi2_keycl.Python.Text.{Text, str}
use konnect_oidc_fapi2_keycl.Python.Url.{query_item}
use konnect_oidc_fapi2_keycl.Python.Json.{Json, obj, Fields, end, field, as_object}
use konnect_oidc_fapi2_keycl.Program.{run, after}
use konnect_oidc_fapi2_keycl.Program.Laws.{
  run->>=, run->>, run-lift, run-from, run-check, run-done, run-lift_then, run-from_then,
}
use konnect_oidc_fapi2_keycl.Keycloak.Values.{as_list}
use konnect_oidc_fapi2_keycl.Keycloak.Clients
use konnect_oidc_fapi2_keycl.Keycloak.Clients.{plan_client_sync}
use konnect_oidc_fapi2_keycl.Keycloak.Mappers
use konnect_oidc_fapi2_keycl.Keycloak.Mappers.{plan_mapper_sync}
use konnect_oidc_fapi2_keycl.Keycloak.Merge.{realm_admin_payload}
use konnect_oidc_fapi2_keycl.Keycloak.Distinct.{as_object-obj}
use konnect_oidc_fapi2_keycl.Keycloak.Settled.{IsRealmSettled, realm_admin_payload-IsRealmSettled}
use konnect_oidc_fapi2_keycl.Keycloak.KeyProvider
use konnect_oidc_fapi2_keycl.Keycloak.KeyProvider.{
  key_provider_admin_payload, managed_name, plan_key_provider_sync,
}
use konnect_oidc_fapi2_keycl.Keycloak.InSync.{IsMapperPlan, IsInSync, plan_mapper_sync-IsMapperPlan}
use konnect_oidc_fapi2_keycl.Keycloak.Additive.{
  IsPlannedClient, ArePlanned, IsClientPlan, plan_client_sync-IsClientPlan,
}
use konnect_oidc_fapi2_keycl.Keycloak.Single.{IsLookup, plan_key_provider_sync-IsLookup}
use konnect_oidc_fapi2_keycl.Keycloak.Request.{Call, Reply, request_get, realm_path, runtime, other}
use konnect_oidc_fapi2_keycl.Keycloak.Prepare.{
  ClientAction, Lookups, is_settled, is_noop, is_empty, live_mappers, desired_mappers,
  lookup_clients, matches_in, plan_all_mappers, prepare_client_sync, prepare_realm_sync,
  prepare_key_provider_sync, sorted_client_ids, verify_client_sync, verify_realm_sync,
  verify_key_provider_sync,
}
use konnect_oidc_fapi2_keycl.Keycloak.Apply.{
  apply_key_provider_sync, apply_client_sync, apply_realm_sync,
}
use konnect_oidc_fapi2_keycl.Keycloak.Main.{
  Plans, Summary, clients_of, make_plans, carry_out, sync_realm,
}

some-injective : {A : Type 0} {a b : A} → some a ≡ some b → a ≡ b
some-injective h = cc

is_empty-end : (fs : Fields) → is_empty fs ≡ true → fs ≡ end
is_empty-end end h = refl
is_empty-end (field _ _ _) h = cc

noop_plan :
    (plan : KeyProvider.Plan) → is_noop plan ≡ true → (id : Text) × (plan ≡ KeyProvider.noop id)
noop_plan (KeyProvider.noop id) h = (id, refl)
noop_plan (KeyProvider.create _) h = cc
noop_plan (KeyProvider.update _ _) h = cc

-- An action that is settled does nothing, to the client or to its mappers.
record IsNoop (action : ClientAction) : Type 0 where
  client_id : Text
  client_uuid : Text
  payload : Fields
  current : Fields
  same : action.0 ≡ Clients.noop client_id client_uuid payload current
  no_mappers : action.1 ≡ []

settled-IsNoop : (action : ClientAction) → is_settled action ≡ true → IsNoop action
settled-IsNoop (Clients.noop id uuid payload current, []) h = record {
  client_id = id;
  client_uuid = uuid;
  payload = payload;
  current = current;
  same = refl;
  no_mappers = refl;
}
settled-IsNoop (Clients.noop _ _ _ _, _ ∷ _) h = cc
settled-IsNoop (Clients.create _ _, _) h = cc
settled-IsNoop (Clients.update _ _ _ _, _) h = cc

settled_cons :
    (action : ClientAction) (plan : List ClientAction)
    → not (any (λ a. not (is_settled a)) (action ∷ plan)) ≡ true
    → (is_settled action ≡ true) × (not (any (λ a. not (is_settled a)) plan) ≡ true)
settled_cons action plan h = (ground (arith, h), ground (arith, h))

module _ {S : Type 0} (serve : Call → S → Reply × S) (token : Json) where
  -- The lookup of a desired client found one live client, with the managed values of the payload,
  -- and the live mappers that are received for it at the moment are all in sync.
  pub record IsClientSynced (matches : Text → Option Json) (desired : Json)
      (action : Clients.Action) (moment : S) : Type 0 where
    pub client_id : Text
    pub client_uuid : Text
    pub payload : Fields
    pub current : Fields
    pub is_noop : action ≡ Clients.noop client_id client_uuid payload current
    pub found : IsPlannedClient matches desired (Clients.noop client_id client_uuid payload current)
    pub wanted : List Json
    pub live : Json
    pub received : (run serve (live_mappers token action) moment).0 ≡ ok live
    pub asked : desired_mappers desired ≡ some wanted
    pub mapper_plan : IsMapperPlan wanted live []
    pub synced : All (IsInSync mapper_plan.named) mapper_plan.payloads

  -- The clients, of which each is read after the one before it.
  abbrev pub AreSynced : (Text → Option Json) → List Json → List Clients.Action → S → Type 0
  AreSynced matches [] [] s = Unit
  AreSynced matches (desired ∷ clients) (action ∷ plan) s =
      IsClientSynced matches desired action s
      × AreSynced matches clients plan (after serve (live_mappers token action) s)
  AreSynced matches _ _ s = ⊥

  client-IsClientSynced :
      (matches : Text → Option Json) (desired live : Json) (action : Clients.Action)
      (mapper_plan : List Mappers.Action) (wanted : List Json) (s : S)
      → IsNoop (action, mapper_plan)
      → IsPlannedClient matches desired action
      → (run serve (live_mappers token action) s).0 ≡ ok live
      → desired_mappers desired ≡ some wanted
      → plan_mapper_sync wanted live ≡ ok mapper_plan
      → IsClientSynced matches desired action s
  client-IsClientSynced matches desired live action mapper_plan wanted s noop planned received asked
        plan =
      let one : IsMapperPlan wanted live [] =
        plan_mapper_sync-IsMapperPlan wanted live [] (plan ∙ ap ok noop.no_mappers) in
      record {
        client_id = noop.client_id;
        client_uuid = noop.client_uuid;
        payload = noop.payload;
        current = noop.current;
        is_noop = noop.same;
        found = subst (IsPlannedClient matches desired) noop.same planned;
        wanted = wanted;
        live = live;
        received = received;
        asked = asked;
        mapper_plan = one;
        synced = one.none_iff.0 refl;
      }

  plan_all_mappers-AreSynced :
      (matches : Text → Option Json) (plan : List Clients.Action) (clients : List Json)
      (actions : List ClientAction) (s : S)
      → ArePlanned matches clients plan
      → (run serve (plan_all_mappers token plan clients) s).0 ≡ ok actions
      → not (any (λ a. not (is_settled a)) actions) ≡ true
      → AreSynced matches clients plan s
  unfolding plan_all_mappers
  plan_all_mappers-AreSynced matches [] [] actions s planned h settled = tt
  plan_all_mappers-AreSynced matches [] (_ ∷ _) actions s planned h settled = absurd planned
  plan_all_mappers-AreSynced matches (_ ∷ _) [] actions s planned h settled = absurd planned
  plan_all_mappers-AreSynced matches (action ∷ plan) (desired ∷ clients) actions s (planned, more) h
        settled =
      let (live, received, h₁) = run->>= serve (live_mappers token action) _ s h in
      let (wanted, asked, h₂) = run-from_then serve (desired_mappers desired) _ _ _ h₁ in
      let (mapper_plan, made, h₃) =
        run-lift_then serve runtime (plan_mapper_sync wanted live) _ _ h₂ in
      let (rest, h_rest, h₄) = run->>= serve (plan_all_mappers token plan clients) _ _ h₃ in
      let (now, later) =
        settled_cons (action, mapper_plan) rest
          (subst (λ x. not (any (λ a. not (is_settled a)) x) ≡ true) (sym (run-done serve _ _ h₄))
            settled) in
      (
        client-IsClientSynced matches desired live action mapper_plan wanted s
            (settled-IsNoop (action, mapper_plan) now) planned received asked made,
        plan_all_mappers-AreSynced matches plan clients rest _ more h_rest later,
      )

  -- The lookups of all managed clients, and the desired clients with what they found.
  pub record AreClientsSynced (desired : Json) (s : S) : Type 0 where
    pub clients : List Json
    pub lookups : Lookups
    pub plan : List Clients.Action
    pub received : (run serve (lookup_clients token sorted_client_ids) s).0 ≡ ok lookups
    pub is_listed : as_list desired ≡ some clients
    pub planned : IsClientPlan desired (matches_in lookups) plan
    pub synced :
        AreSynced
          (matches_in lookups)
          clients
          plan
          (after serve (lookup_clients token sorted_client_ids) s)

  verify_client_sync-AreClientsSynced :
      (desired : Json) (s : S) {u : Unit {0}}
      → (run serve (verify_client_sync desired token) s).0 ≡ ok u
      → AreClientsSynced desired s
  unfolding verify_client_sync prepare_client_sync
  verify_client_sync-AreClientsSynced desired s h =
      let (actions, h₀, checked) = run->>= serve (prepare_client_sync desired token) _ s h in
      let (lookups, received, h₁) = run->>= serve (lookup_clients token sorted_client_ids) _ s h₀ in
      let (plan, made, h₂) =
        run-lift_then serve runtime (plan_client_sync desired (matches_in lookups)) _ _ h₁ in
      let (clients, is_listed, h₃) = run-from_then serve (as_list desired) _ _ _ h₂ in
      let planned : IsClientPlan desired (matches_in lookups) plan =
        plan_client_sync-IsClientPlan desired (matches_in lookups) plan made in
      record {
        clients = clients;
        lookups = lookups;
        plan = plan;
        received = received;
        is_listed = is_listed;
        planned = planned;
        synced =
            plan_all_mappers-AreSynced (matches_in lookups) plan clients actions _
              (subst (λ x. ArePlanned (matches_in lookups) x plan)
                (some-injective (sym planned.is_listed ∙ is_listed)) planned.planned)
              h₃ (run-check serve _ _ _ checked);
      }

  -- The realm was received, and no managed field of it differs from the desired one.
  pub record IsRealmSynced (desired : Json) (s : S) : Type 0 where
    pub live : Fields
    pub received : (run serve (request_get token realm_path) s).0 ≡ ok (obj live)
    pub settled : IsRealmSettled live desired

  verify_realm_sync-IsRealmSynced :
      (desired : Json) (s : S) {u : Unit {0}}
      → (run serve (verify_realm_sync desired token) s).0 ≡ ok u
      → IsRealmSynced desired s
  unfolding verify_realm_sync prepare_realm_sync
  verify_realm_sync-IsRealmSynced desired s h =
      let (remaining, h₀, checked) = run->>= serve (prepare_realm_sync desired token) _ s h in
      let (current, received, h₁) = run->>= serve (request_get token realm_path) _ s h₀ in
      let (live, is_obj, h₂) = run->>= serve _ _ _ h₁ in
      record {
        live = live;
        received =
            received
            ∙ ap ok (as_object-obj current live (run-from serve (as_object current) _ _ is_obj));
        settled = realm_admin_payload-IsRealmSettled (obj live) desired live refl (
            run-lift serve runtime (realm_admin_payload (obj live) desired) _ h₂
            ∙ ap ok (is_empty-end remaining (run-check serve _ _ _ checked)));
      }

  -- The components of the managed name were received, and the plan for them is to do nothing.
  pub record IsKeyProviderSynced (desired : Json) (s : S) : Type 0 where
    pub payload : Fields
    pub query : Text
    pub live : Json
    pub component_id : Text
    pub is_payload : key_provider_admin_payload desired ≡ ok payload
    pub is_query : query_item (str "name") managed_name ≡ some query
    pub received :
        (run serve (request_get token (realm_path ++ str "/components?" ++ query)) s).0 ≡ ok live
    pub found : IsLookup (obj payload) live (KeyProvider.noop component_id)

  verify_key_provider_sync-IsKeyProviderSynced :
      (desired : Json) (s : S) {u : Unit {0}}
      → (run serve (verify_key_provider_sync desired token) s).0 ≡ ok u
      → IsKeyProviderSynced desired s
  unfolding verify_key_provider_sync prepare_key_provider_sync
  verify_key_provider_sync-IsKeyProviderSynced desired s h =
      let (plan, h₀, checked) = run->>= serve (prepare_key_provider_sync desired token) _ s h in
      let (payload, projected, h₁) =
        run-lift_then serve runtime (key_provider_admin_payload desired) _ s h₀ in
      let (query, quoted, h₂) =
        run-from_then serve (query_item (str "name") managed_name) _ _ s h₁ in
      let (live, received, h₃) = run->>= serve _ _ _ h₂ in
      let (id, same) = noop_plan plan (run-check serve _ _ _ checked) in
      record {
        payload = payload;
        query = query;
        live = live;
        component_id = id;
        is_payload = projected;
        is_query = quoted;
        received = received;
        found =
            plan_key_provider_sync-IsLookup (obj payload) live (KeyProvider.noop id) (
              run-lift serve runtime (plan_key_provider_sync (obj payload) live) _ h₃ ∙ ap ok same);
      }

  -- The state after the three writes.
  abbrev pub after_writes : Plans → S → S
  after_writes plans s =
      let s₁ = (run serve (apply_key_provider_sync plans.key_provider_plan token) s).1 in
      let s₂ = (run serve (apply_client_sync plans.client_plan token) s₁).1 in
      (run serve (apply_realm_sync plans.realm_plan token) s₂).1

  -- What a run of the synchronization from `s` that ends without an exception has verified at its
  -- end.
  pub record IsConverged (desired : Json) (s : S) : Type 0 where
    pub plans : Plans
    pub planned : (run serve (make_plans desired token) s).0 ≡ ok plans
    pub written : S
    pub is_written : after_writes plans (run serve (make_plans desired token) s).1 ≡ written
    pub is_clients : clients_of desired ≡ some plans.clients
    pub clients_synced : AreClientsSynced plans.clients written
    pub read_clients : S
    pub is_read_clients :
        (run serve (verify_client_sync plans.clients token) written).1 ≡ read_clients
    pub realm_synced : IsRealmSynced desired read_clients
    pub key_provider_synced :
        IsKeyProviderSynced desired (run serve (verify_realm_sync desired token) read_clients).1

  make_plans-clients :
      (desired : Json) (s : S) (plans : Plans)
      → (run serve (make_plans desired token) s).0 ≡ ok plans
      → clients_of desired ≡ some plans.clients
  unfolding make_plans
  make_plans-clients desired s plans h =
      let (realm, h_realm, h₁) = run->>= serve (prepare_realm_sync desired token) _ s h in
      let (clients, given, h₂) = run->>= serve _ _ _ h₁ in
      let (client_plan, h_client, h₃) = run->>= serve _ _ _ h₂ in
      let (provider, h_provider, h₄) = run->>= serve _ _ _ h₃ in
      run-from serve (clients_of desired) other _ given
      ∙ ap (λ (p : Plans). some p.clients) (run-done serve _ _ h₄)

  -- Where a run of the synchronization ends without an exception, whatever Keycloak answered, the
  -- requests of the verifications have received these, from the state that the writes left on and
  -- one after the other: for every desired client, exactly one live client of its ID, which has the
  -- managed values, and then, client by client, live protocol mappers with the values of all the
  -- desired ones; the realm, whose plain managed fields have the values of the desired one, and
  -- whose client policies and profiles are what merging the desired ones into them gives; and a
  -- single key provider of the managed name and type with the managed values, in the answer to the
  -- query for that name.
  pub sync_realm-IsConverged :
      (desired : Json) (s : S) (summary : Summary)
      → (run serve (sync_realm desired token) s).0 ≡ ok summary
      → IsConverged desired s
  unfolding sync_realm carry_out
  sync_realm-IsConverged desired s summary h =
      let (plans, made, h₁) = run->>= serve (make_plans desired token) _ s h in
      let (changed, _, h₂) =
        run->>= serve (apply_key_provider_sync plans.key_provider_plan token) _ _ h₁ in
      let (synced, _, h₃) = run->>= serve (apply_client_sync plans.client_plan token) _ _ h₂ in
      let (realm, _, h₄) = run->>= serve (apply_realm_sync plans.realm_plan token) _ _ h₃ in
      let (_, checked₁, h₅) = run->> serve (verify_client_sync plans.clients token) _ _ h₄ in
      let (_, checked₂, h₆) = run->> serve (verify_realm_sync desired token) _ _ h₅ in
      let (_, checked₃, _) = run->> serve (verify_key_provider_sync desired token) _ _ h₆ in
      record {
        plans = plans;
        planned = made;
        written = _;
        is_written = refl;
        read_clients = _;
        is_read_clients = refl;
        is_clients = make_plans-clients desired s plans made;
        clients_synced = verify_client_sync-AreClientsSynced plans.clients _ checked₁;
        realm_synced = verify_realm_sync-IsRealmSynced desired _ checked₂;
        key_provider_synced = verify_key_provider_sync-IsKeyProviderSynced desired _ checked₃;
      }
