-- ===== src/Keycloak/Mappers.antt =====
-- The protocol mappers of a client: mapper_admin_payload and plan_mapper_sync.
use konnect_oidc_fapi2_keycl.Common.{
  Bool, true, false, not, ◌&&◌, Option, none, some, List, [], ◌∷◌, ◌++◌, all, map, ok, require,
  or_raise, ◌>>=◌, ◌>>◌, if◌then◌else◌,
}
use konnect_oidc_fapi2_keycl.Python.Text.{Text, str, ◌==◌, truthy}
use konnect_oidc_fapi2_keycl.Python.Json.{
  Json, text, obj, Fields, end, field, get, as_text, as_object,
}
use konnect_oidc_fapi2_keycl.Python.Json.Equality.{json_eq}
use konnect_oidc_fapi2_keycl.Keycloak.Values.{
  Sync, mapper_admin_fields, mapper_identity_fields, has_all, has_only, is_named_text, project,
  is_distinct, as_list,
}

abbrev is_text : Json → Bool
is_text (text _) = true
is_text _ = false

abbrev has_text_values : Fields → Bool
has_text_values end = true
has_text_values (field k v fs) = is_text v && has_text_values fs

abbrev is_text_object : Option Json → Bool
is_text_object (some (obj fs)) = has_text_values fs
is_text_object _ = false

unfoldable pub mapper_admin_payload : Json → Sync Fields
mapper_admin_payload desired = do
  fields ←
      or_raise (as_object desired)
        (str "desired Keycloak protocol mapper fields are incomplete or unexpected")
  require (has_only mapper_admin_fields fields && has_all mapper_admin_fields fields)
      (str "desired Keycloak protocol mapper fields are incomplete or unexpected")
  require (all (λ name. is_named_text (get name fields)) mapper_identity_fields)
      (str "desired Keycloak protocol mapper identity is malformed")
  require (is_text_object (get (str "config") fields))
      (str "desired Keycloak protocol mapper config is malformed")
  ok (project mapper_admin_fields fields)

unfoldable pub mapper_payloads : List Json → Sync (List Fields)
mapper_payloads [] = ok []
mapper_payloads (desired ∷ rest) = do
  payload ← mapper_admin_payload desired
  payloads ← mapper_payloads rest
  ok (payload ∷ payloads)

abbrev or_empty : Option Text → Text
or_empty none = []
or_empty (some t) = t

-- `mapper["name"]` of a payload, whose name is a string.
abbrev pub name_of : Fields → Text
name_of fs = or_empty (as_text (get (str "name") fs))

-- `live_by_name`: the live mappers by their names, in the order of the list.
abbrev pub Named : Type 0
Named = List (Text × Fields)

unfoldable pub find : Text → Named → Option Fields
find name [] = none
find name ((n, fs) ∷ rest) = if n == name then some fs else find name rest

abbrev is_found : Option Fields → Bool
is_found none = false
is_found (some _) = true

unfoldable pub index_live : Named → List Json → Sync Named
unfolding find
index_live seen [] = ok seen
index_live seen (mapper ∷ rest) = do
  fields ← or_raise (as_object mapper) (str "Keycloak protocol mapper list is malformed")
  name ←
      or_raise (as_text (get (str "name") fields))
        (str "Keycloak protocol mapper list is malformed")
  require (not (is_found (find name seen))) (str "duplicate Keycloak protocol mapper names found")
  index_live (seen ++ (name, fields) ∷ []) rest

pub data Action : Type 0 where
  create : Fields → Action
  update : Text → Fields → Action

-- What is planned for a live mapper of the wanted name.
unfoldable pub plan_current : Fields → Fields → Sync (List Action)
plan_current desired current = do
  let message = str "Keycloak protocol mapper ID is missing for " ++ name_of desired
  id ← or_raise (as_text (get (str "id") current)) message
  require (truthy id) message
  ok (
      if json_eq (obj (project mapper_admin_fields current)) (obj desired)
      then []
      else update id desired ∷ [])

-- One round of the loop over the desired payloads.
unfoldable pub plan_mapper : Named → Fields → Sync (List Action)
unfolding plan_current
plan_mapper live desired = elim (find (name_of desired) live) [
  | none ↦ ok (create desired ∷ [])
  | some current ↦ plan_current desired current
]

unfoldable pub plan_mappers : Named → List Fields → Sync (List Action)
unfolding plan_mapper
plan_mappers live [] = ok []
plan_mappers live (desired ∷ rest) = do
  actions ← plan_mapper live desired
  more ← plan_mappers live rest
  ok (actions ++ more)

unfoldable pub plan_mapper_sync : List Json → Json → Sync (List Action)
unfolding mapper_payloads index_live
plan_mapper_sync desired_mappers live_mappers = do
  payloads ← mapper_payloads desired_mappers
  require (is_distinct (map name_of payloads))
      (str "desired Keycloak protocol mapper names are duplicated")
  listed ← or_raise (as_list live_mappers) (str "Keycloak protocol mapper list is malformed")
  live ← index_live [] listed
  plan_mappers live payloads
