-- ===== src/Keycloak/InSync.antt =====
-- What a plan for the protocol mappers does, and when there is nothing to do.
use konnect_oidc_fapi2_keycl.Common.{
  ◌≡◌, ◌≢◌, ◌↔◌, ◌⊎◌, inl, inr, sym, ap, subst, ◌∙◌, Bool, true, false, none, some, List, [], ◌∷◌,
  ◌++◌, arith, All, ok, >>=-eq-ok, or_raise-bind, require-bind, ok-injective, Option-cases,
  Bool-cases, map,
}
use konnect_oidc_fapi2_keycl.Python.Text.{Text, str, truthy}
use konnect_oidc_fapi2_keycl.Python.Text.Laws.{truthy_iff}
use konnect_oidc_fapi2_keycl.Python.Json.{Json, obj, Fields, get, as_text}
use konnect_oidc_fapi2_keycl.Python.Json.Equality.{json_eq}
use konnect_oidc_fapi2_keycl.Keycloak.Values.{mapper_admin_fields, project, is_distinct, as_list}
use konnect_oidc_fapi2_keycl.Keycloak.Mappers.{
  Action, create, update, Named, name_of, find, plan_current, plan_mapper, plan_mappers,
  mapper_payloads, index_live, plan_mapper_sync,
}

-- The live mapper of the name of `desired`, with its ID.
pub record IsLive (live : Named) (desired current : Fields) (id : Text) : Type 0 where
  pub found : find (name_of desired) live ≡ some current
  pub identified : as_text (get (str "id") current) ≡ some id
  pub not_empty : id ≢ []

abbrev same_mapper : Fields → Fields → Bool
same_mapper current desired = json_eq (obj (project mapper_admin_fields current)) (obj desired)

-- The live mapper has the desired values.
pub record IsInSync (live : Named) (desired : Fields) : Type 0 where
  pub current : Fields
  pub id : Text
  pub is_live : IsLive live desired current id
  pub same : same_mapper current desired ≡ true

-- An action is needed: it creates a mapper whose name is free, or updates, by its ID, the live one
-- of the same name, which differs.
abbrev pub IsNeeded : Named → Action → Type 0
IsNeeded live (create desired) = find (name_of desired) live ≡ none
IsNeeded live (update id desired) =
    (current : Fields) × IsLive live desired current id × (same_mapper current desired ≡ false)

plan_current_cases :
    (live : Named) (desired current : Fields) (actions : List Action)
    → find (name_of desired) live ≡ some current
    → plan_current desired current ≡ ok actions
    → ((actions ≡ []) × IsInSync live desired)
      ⊎ ((a : Action) × (actions ≡ a ∷ []) × IsNeeded live a)
unfolding plan_current
plan_current_cases live desired current actions found h =
    let (id, has_id, h₁) = or_raise-bind (as_text (get (str "id") current)) _ _ h in
    let (full, h₂) = require-bind (truthy id) _ _ h₁ in
    let live_one : IsLive live desired current id = record {
      found = found;
      identified = has_id;
      not_empty = (truthy_iff id).0 full;
    } in
    elim (Bool-cases (same_mapper current desired)) [
      | inl same ↦ inl (
        ground (arith, same, h₂),
        record { current = current; id = id; is_live = live_one; same = same },
      )
      | inr other ↦ inr (update id desired, ground (arith, other, h₂), (current, live_one, other))
    ]

cons_not_nil : (a : Action) (more : List Action) → (a ∷ more) ≢ []
cons_not_nil a more e = cc

one_not_none : (a : Action) → [] ≢ (a ∷ [])
one_not_none a e = cc

module _ (live : Named) where
  plan_mapper_cases :
      (desired : Fields) (actions : List Action)
      → plan_mapper live desired ≡ ok actions
      → ((actions ≡ []) × IsInSync live desired)
        ⊎ ((a : Action) × (actions ≡ a ∷ []) × IsNeeded live a)
  unfolding plan_mapper plan_current
  plan_mapper_cases desired actions h = elim (Option-cases (find (name_of desired) live)) [
    | inl free ↦ inr (create desired, ground (arith, free), free)
    | inr (current, found) ↦
        plan_current_cases live desired current actions found (ground (arith, found, h))
  ]

  in_sync-plan_mapper :
      (desired : Fields) → IsInSync live desired → plan_mapper live desired ≡ ok []
  unfolding plan_mapper plan_current
  in_sync-plan_mapper desired synced =
      let one : IsLive live desired synced.current synced.id = synced.is_live in
      let full : truthy synced.id ≡ true = (truthy_iff synced.id).1 one.not_empty in
      ground (arith, one.found, one.identified, full, synced.same)

  joined :
      (desired : Fields) (rest : List Fields) (now more actions : List Action)
      → now ++ more ≡ actions
      → plan_mapper live desired ≡ ok now
      → ((now ≡ []) × IsInSync live desired) ⊎ ((a : Action) × (now ≡ a ∷ []) × IsNeeded live a)
      → All (IsNeeded live) more × ((more ≡ []) ↔ All (IsInSync live) rest)
      → All (IsNeeded live) actions × ((actions ≡ []) ↔ All (IsInSync live) (desired ∷ rest))
  joined desired rest now more actions e planned (inl (nothing, synced)) (needed, none_iff) =
      let same : more ≡ actions = ap (λ x. x ++ more) (sym nothing) ∙ e in
      (
        subst (All (IsNeeded live)) same needed,
        (λ stop. (synced, none_iff.0 (same ∙ stop)), λ all. sym same ∙ none_iff.1 all.1),
      )
  joined desired rest now more actions e planned (inr (a, single, need)) (needed, none_iff) =
      let same : a ∷ more ≡ actions = ap (λ x. x ++ more) (sym single) ∙ e in
      (
        subst (All (IsNeeded live)) same (need, needed),
        (
          λ stop. absurd (cons_not_nil a more (same ∙ stop)),
          λ all. absurd (
              one_not_none a
                (sym (ok-injective (sym planned ∙ in_sync-plan_mapper desired all.0)) ∙ single)),
        ),
      )

  -- Every action of a successful plan for protocol mappers is needed: it creates a mapper whose
  -- name is free, or updates, by its ID, the live mapper of the name, which differs in a managed
  -- field; and the plan is empty exactly if each desired payload has a live mapper of its name with
  -- an ID and the same values.
  pub plan_mappers-IsNeeded :
      (payloads : List Fields) (actions : List Action)
      → plan_mappers live payloads ≡ ok actions
      → All (IsNeeded live) actions × ((actions ≡ []) ↔ All (IsInSync live) payloads)
  unfolding plan_mappers
  plan_mappers-IsNeeded [] actions h =
      let e : actions ≡ [] = cc in (subst (All (IsNeeded live)) (sym e) tt, (λ _. tt, λ _. e))
  plan_mappers-IsNeeded (desired ∷ rest) actions h =
      let (now, h_now, h₁) = >>=-eq-ok (plan_mapper live desired) _ h in
      let (more, h_more, h₂) = >>=-eq-ok (plan_mappers live rest) _ h₁ in
      joined desired rest now more actions (ok-injective h₂) h_now
        (plan_mapper_cases desired now h_now) (plan_mappers-IsNeeded rest more h_more)

-- The plan of a whole list of desired mappers.
pub record IsMapperPlan (desired : List Json) (live : Json) (actions : List Action) : Type 0 where
  pub payloads : List Fields
  pub listed : List Json
  pub named : Named
  pub projected : mapper_payloads desired ≡ ok payloads
  pub distinct : is_distinct (map name_of payloads) ≡ true
  pub is_listed : as_list live ≡ some listed
  pub indexed : index_live [] listed ≡ ok named
  pub needed : All (IsNeeded named) actions
  pub none_iff : (actions ≡ []) ↔ All (IsInSync named) payloads

-- A plan for protocol mappers is made only where the desired payloads have distinct names and the
-- live list is well-formed. Every action is needed: it creates a mapper whose name is free, or
-- updates, by its ID, the live mapper of the name, which differs in a managed field; and the plan
-- is empty exactly if each desired payload has a live mapper of its name with an ID and the same
-- values.
pub plan_mapper_sync-IsMapperPlan :
    (desired : List Json) (live : Json) (actions : List Action)
    → plan_mapper_sync desired live ≡ ok actions
    → IsMapperPlan desired live actions
unfolding plan_mapper_sync
plan_mapper_sync-IsMapperPlan desired live actions h =
    let (payloads, projected, h₁) = >>=-eq-ok (mapper_payloads desired) _ h in
    let (distinct, h₂) = require-bind (is_distinct (map name_of payloads)) _ _ h₁ in
    let (listed, is_listed, h₃) = or_raise-bind (as_list live) _ _ h₂ in
    let (named, indexed, h₄) = >>=-eq-ok (index_live [] listed) _ h₃ in
    let (needed, none_iff) = plan_mappers-IsNeeded named payloads actions h₄ in
    record {
      payloads = payloads;
      listed = listed;
      named = named;
      projected = projected;
      distinct = distinct;
      is_listed = is_listed;
      indexed = indexed;
      needed = needed;
      none_iff = none_iff;
    }
