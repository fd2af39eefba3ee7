-- ===== src/Keycloak/Single.antt =====
-- What is planned for the managed key provider, of plan_key_provider_sync.
use konnect_oidc_fapi2_keycl.Common.{
  ◌≡◌, ◌≢◌, inl, inr, refl, subst, Bool, true, false, ◌&&◌, some, List, [], ◌∷◌, arith, Result, ok,
  >>=-eq-ok, or_raise-bind, require-bind, ok-injective, Bool-cases, if◌then◌else◌,
}
use konnect_oidc_fapi2_keycl.Python.Text.{Text, str, truthy}
use konnect_oidc_fapi2_keycl.Python.Text.Laws.{truthy_iff}
use konnect_oidc_fapi2_keycl.Python.Json.{Json, Fields, get, as_object, as_text, equals_text}
use konnect_oidc_fapi2_keycl.Keycloak.Values.{value_or, as_list}
use konnect_oidc_fapi2_keycl.Keycloak.KeyProvider.{
  managed_id, managed_config, key_provider_type, is_managed_payload, Plan, create, noop, update,
  plan_existing, plan_matches, plan_key_provider_sync, config_within, has_text_lists, matching,
}

-- The only live provider of the managed name: it has an ID and the managed type, and its config
-- holds the managed values or not.
pub record IsOnly (matches : List Fields) (id : Text) (synced : Bool) : Type 0 where
  pub current : Fields
  pub config : Fields
  pub only : matches ≡ current ∷ []
  pub identified : as_text (get (str "id") current) ≡ some id
  pub not_empty : id ≢ []
  pub managed :
      (equals_text (get (str "providerId") current) managed_id
        && equals_text (get (str "providerType") current) key_provider_type)
      ≡ true
  pub configured : as_object (value_or (get (str "config") current) Json.null) ≡ some config
  pub compared : config_within managed_config config ≡ synced

abbrev pub IsPlanned : Fields → List Fields → Plan → Type 0
IsPlanned payload matches (create p) = (p ≡ payload) × (matches ≡ [])
IsPlanned payload matches (noop id) = IsOnly matches id true
IsPlanned payload matches (update id p) = (p ≡ payload) × IsOnly matches id false

taken :
    (b : Bool) (x y : Plan) {plan : Plan}
    → b ≡ true
    → ◌≡◌ {A = Result Text Plan} (ok (if b then x else y)) (ok plan)
    → x ≡ plan
taken b x y e h = ground (arith, e, ok-injective h)

left :
    (b : Bool) (x y : Plan) {plan : Plan}
    → b ≡ false
    → ◌≡◌ {A = Result Text Plan} (ok (if b then x else y)) (ok plan)
    → y ≡ plan
left b x y e h = ground (arith, e, ok-injective h)

plan_existing-IsPlanned :
    (payload current : Fields) (plan : Plan)
    → plan_existing payload current ≡ ok plan
    → IsPlanned payload (current ∷ []) plan
unfolding plan_existing
plan_existing-IsPlanned payload current plan h =
    let (id, has_id, h₁) = or_raise-bind (as_text (get (str "id") current)) _ _ h in
    let (full, h₂) = require-bind (truthy id) _ _ h₁ in
    let (is_managed, h₃) = require-bind _ _ _ h₂ in
    let (config, has_config, h₄) =
      or_raise-bind (as_object (value_or (get (str "config") current) Json.null)) _ _ h₃ in
    let (lists, h₅) = require-bind (has_text_lists config) _ _ h₄ in
    let one : (synced : Bool)
        → config_within managed_config config ≡ synced
        → IsOnly (current ∷ []) id synced =
      λ synced compared. record {
        current = current;
        config = config;
        only = refl;
        identified = has_id;
        not_empty = (truthy_iff id).0 full;
        managed = is_managed;
        configured = has_config;
        compared = compared;
      } in
    elim (Bool-cases (config_within managed_config config)) [
      | inl same ↦ subst (IsPlanned payload (current ∷ [])) (taken _ _ _ same h₅) (one true same)
      | inr other ↦
          subst (IsPlanned payload (current ∷ [])) (left _ _ _ other h₅) (refl, one false other)
    ]

plan_matches-IsPlanned :
    (payload : Fields) (matches : List Fields) (plan : Plan)
    → plan_matches payload matches ≡ ok plan
    → IsPlanned payload matches plan
plan_matches-IsPlanned payload [] plan h =
    subst (IsPlanned payload []) (ok-injective h) (refl, refl)
plan_matches-IsPlanned payload (current ∷ []) plan h =
    plan_existing-IsPlanned payload current plan h
plan_matches-IsPlanned payload (_ ∷ _ ∷ _) plan h = cc

-- What the lookup of a plan that was made has found.
pub record IsLookup (desired live : Json) (plan : Plan) : Type 0 where
  pub payload : Fields
  pub listed : List Json
  pub matches : List Fields
  pub wanted : as_object desired ≡ some payload
  pub is_managed : is_managed_payload payload ≡ true
  pub is_listed : as_list live ≡ some listed
  pub is_matching :
      matching (str "Keycloak managed key provider lookup is malformed") listed ≡ ok matches
  pub planned : IsPlanned payload matches plan

-- A plan for the key provider is made from the managed payload only. It creates the provider only
-- if no live provider has the managed name, and does nothing or updates only by the ID of the one
-- live provider of that name, which is of the managed type: nothing if its config has the managed
-- values, an update with the payload if it has not.
pub plan_key_provider_sync-IsLookup :
    (desired live : Json) (plan : Plan)
    → plan_key_provider_sync desired live ≡ ok plan
    → IsLookup desired live plan
unfolding plan_key_provider_sync
plan_key_provider_sync-IsLookup desired live plan h =
    let (payload, wanted, h₁) = or_raise-bind (as_object desired) _ _ h in
    let (is_managed, h₂) = require-bind (is_managed_payload payload) _ _ h₁ in
    let (listed, is_listed, h₃) = or_raise-bind (as_list live) _ _ h₂ in
    let (matches, is_matching, h₄) =
      >>=-eq-ok (matching (str "Keycloak managed key provider lookup is malformed") listed) _ h₃ in
    record {
      payload = payload;
      listed = listed;
      matches = matches;
      wanted = wanted;
      is_managed = is_managed;
      is_listed = is_listed;
      is_matching = is_matching;
      planned = plan_matches-IsPlanned payload matches plan h₄;
    }
