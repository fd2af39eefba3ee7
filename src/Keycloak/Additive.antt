-- ===== src/Keycloak/Additive.antt =====
-- What plan_client_sync plans for each of the managed clients.
use konnect_oidc_fapi2_keycl.Common.{
  ◌≡◌, ◌≢◌, inl, inr, refl, subst, Bool, true, false, Option, some, List, [], ◌∷◌, arith, Result,
  ok, >>=-eq-ok, or_raise-bind, require-bind, ok-injective, Bool-cases, if◌then◌else◌,
}
use konnect_oidc_fapi2_keycl.Python.Text.{Text, str, truthy}
use konnect_oidc_fapi2_keycl.Python.Text.Laws.{truthy_iff}
use konnect_oidc_fapi2_keycl.Python.Json.{
  Json, null, obj, Fields, get, as_object, as_text, equals_text,
}
use konnect_oidc_fapi2_keycl.Python.Json.Equality.{json_eq}
use konnect_oidc_fapi2_keycl.Keycloak.Values.{value_or, as_list}
use konnect_oidc_fapi2_keycl.Keycloak.Clients.{
  Action, create, noop, update, client_admin_payload, current_payload, plan_found, plan_matches,
  plan_client, plan_clients, plan_client_sync, desired_ids, is_inventory,
}

-- The one live client of the ID, with its internal ID; its managed values are those of the payload
-- or not.
pub record IsFound (listed : List Json) (client_id client_uuid : Text) (payload current : Fields)
    (synced : Bool) : Type 0 where
  pub found : Json
  pub only : listed ≡ found ∷ []
  pub is_object : as_object found ≡ some current
  pub same_id : equals_text (get (str "clientId") current) client_id ≡ true
  pub identified : as_text (get (str "id") current) ≡ some client_uuid
  pub not_empty : client_uuid ≢ []
  pub compared : json_eq (obj (current_payload current payload)) (obj payload) ≡ synced

abbrev pub IsAction : Text → Fields → List Json → Action → Type 0
IsAction client_id payload listed (create id given) =
    (id ≡ client_id) × (given ≡ payload) × (listed ≡ [])
IsAction client_id payload listed (noop id uuid given current) =
    (id ≡ client_id) × (given ≡ payload) × IsFound listed client_id uuid payload current true
IsAction client_id payload listed (update id uuid given current) =
    (id ≡ client_id) × (given ≡ payload) × IsFound listed client_id uuid payload current false

taken :
    (b : Bool) (x y : Action) {action : Action}
    → b ≡ true
    → ◌≡◌ {A = Result Text Action} (ok (if b then x else y)) (ok action)
    → x ≡ action
taken b x y e h = ground (arith, e, ok-injective h)

otherwise :
    (b : Bool) (x y : Action) {action : Action}
    → b ≡ false
    → ◌≡◌ {A = Result Text Action} (ok (if b then x else y)) (ok action)
    → y ≡ action
otherwise b x y e h = ground (arith, e, ok-injective h)

plan_found-IsAction :
    (client_id : Text) (payload current : Fields) (found : Json) (action : Action)
    → as_object found ≡ some current
    → equals_text (get (str "clientId") current) client_id ≡ true
    → plan_found client_id payload current ≡ ok action
    → IsAction client_id payload (found ∷ []) action
unfolding plan_found
plan_found-IsAction client_id payload current found action object same_id h =
    let (uuid, identified, h₁) = or_raise-bind (as_text (get (str "id") current)) _ _ h in
    let (full, h₂) = require-bind (truthy uuid) _ _ h₁ in
    let one : (synced : Bool)
        → json_eq (obj (current_payload current payload)) (obj payload) ≡ synced
        → IsFound (found ∷ []) client_id uuid payload current synced =
      λ synced compared. record {
        found = found;
        only = refl;
        is_object = object;
        same_id = same_id;
        identified = identified;
        not_empty = (truthy_iff uuid).0 full;
        compared = compared;
      } in
    elim (Bool-cases (json_eq (obj (current_payload current payload)) (obj payload))) [
      | inl same ↦
          subst (IsAction client_id payload (found ∷ [])) (taken _ _ _ same h₂)
            (refl, refl, one true same)
      | inr other ↦
          subst (IsAction client_id payload (found ∷ [])) (otherwise _ _ _ other h₂)
            (refl, refl, one false other)
    ]

plan_matches-IsAction :
    (client_id : Text) (payload : Fields) (listed : List Json) (action : Action)
    → plan_matches client_id payload listed ≡ ok action
    → IsAction client_id payload listed action
plan_matches-IsAction client_id payload [] action h =
    subst (IsAction client_id payload []) (ok-injective h) (refl, refl, refl)
plan_matches-IsAction client_id payload (found ∷ []) action h =
    let (current, object, h₁) = or_raise-bind (as_object found) _ _ h in
    let (same_id, h₂) =
      require-bind (equals_text (get (str "clientId") current) client_id) _ _ h₁ in
    plan_found-IsAction client_id payload current found action object same_id h₂
plan_matches-IsAction client_id payload (_ ∷ _ ∷ _) action h = cc

-- What one desired client gets.
pub record IsPlannedClient (matches : Text → Option Json) (desired : Json) (action : Action)
    : Type 0 where
  pub payload : Fields
  pub client_id : Text
  pub listed : List Json
  pub projected : client_admin_payload desired ≡ ok payload
  pub named : as_text (get (str "clientId") payload) ≡ some client_id
  pub is_listed : as_list (value_or (matches client_id) null) ≡ some listed
  pub planned : IsAction client_id payload listed action

plan_client-IsPlannedClient :
    (matches : Text → Option Json) (desired : Json) (action : Action)
    → plan_client matches desired ≡ ok action
    → IsPlannedClient matches desired action
unfolding plan_client
plan_client-IsPlannedClient matches desired action h =
    let (payload, projected, h₁) = >>=-eq-ok (client_admin_payload desired) _ h in
    let (client_id, named, h₂) = or_raise-bind (as_text (get (str "clientId") payload)) _ _ h₁ in
    let (listed, is_listed, h₃) =
      or_raise-bind (as_list (value_or (matches client_id) null)) _ _ h₂ in
    record {
      payload = payload;
      client_id = client_id;
      listed = listed;
      projected = projected;
      named = named;
      is_listed = is_listed;
      planned = plan_matches-IsAction client_id payload listed action h₃;
    }

-- One action for each desired client, in their order.
abbrev pub ArePlanned : (Text → Option Json) → List Json → List Action → Type 0
ArePlanned matches [] [] = Unit
ArePlanned matches [] (_ ∷ _) = ⊥
ArePlanned matches (_ ∷ _) [] = ⊥
ArePlanned matches (desired ∷ clients) (action ∷ plan) =
    IsPlannedClient matches desired action × ArePlanned matches clients plan

plan_clients-ArePlanned :
    (matches : Text → Option Json) (clients : List Json) (plan : List Action)
    → plan_clients matches clients ≡ ok plan
    → ArePlanned matches clients plan
unfolding plan_clients
plan_clients-ArePlanned matches [] plan h = subst (ArePlanned matches []) (ok-injective h) tt
plan_clients-ArePlanned matches (desired ∷ clients) plan h =
    let (action, h_action, h₁) = >>=-eq-ok (plan_client matches desired) _ h in
    let (more, h_more, h₂) = >>=-eq-ok (plan_clients matches clients) _ h₁ in
    subst (ArePlanned matches (desired ∷ clients)) (ok-injective h₂) (
      plan_client-IsPlannedClient matches desired action h_action,
      plan_clients-ArePlanned matches clients more h_more,
    )

-- The desired clients of a plan that was made.
pub record IsClientPlan (desired : Json) (matches : Text → Option Json) (plan : List Action)
    : Type 0 where
  pub clients : List Json
  pub ids : List Text
  pub is_listed : as_list desired ≡ some clients
  pub identified : desired_ids clients ≡ some ids
  pub inventory : is_inventory ids ≡ true
  pub planned : ArePlanned matches clients plan

-- A plan for the clients is made only where the desired clients are the managed ones, each once,
-- and has one action for each, with its managed fields as the payload: the client is created only
-- if the lookup of its ID found none, and otherwise nothing is done or it is updated, by its
-- internal ID, for the one client found, which has the client ID: nothing if its managed values are
-- those of the payload, an update if they are not.
pub plan_client_sync-IsClientPlan :
    (desired : Json) (matches : Text → Option Json) (plan : List Action)
    → plan_client_sync desired matches ≡ ok plan
    → IsClientPlan desired matches plan
unfolding plan_client_sync
plan_client_sync-IsClientPlan desired matches plan h =
    let (clients, is_listed, h₁) = or_raise-bind (as_list desired) _ _ h in
    let (ids, identified, h₂) = or_raise-bind (desired_ids clients) _ _ h₁ in
    let (inventory, h₃) = require-bind (is_inventory ids) _ _ h₂ in
    record {
      clients = clients;
      ids = ids;
      is_listed = is_listed;
      identified = identified;
      inventory = inventory;
      planned = plan_clients-ArePlanned matches clients plan h₃;
    }
