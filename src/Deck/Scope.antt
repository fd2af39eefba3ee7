-- ===== src/Deck/Scope.antt =====
-- Whether the operations of a diff are exactly those of a reviewed plan: validate_backend_scope.
use konnect_oidc_fapi2_keycl.Common.{
  ℕ, ◌+◌, Bool, true, false, ◌&&◌, List, [], ◌∷◌, Option, none, some, Result, or_raise, require,
  ◌>>=◌, ◌>>◌, eqb, length, if◌then◌else◌,
}
use konnect_oidc_fapi2_keycl.Python.Int.{pos}
use konnect_oidc_fapi2_keycl.Python.Text.{Text, str}
use konnect_oidc_fapi2_keycl.Python.Json.{
  Json, null, obj, Fields, end, field, get, as_object, as_text,
}
use konnect_oidc_fapi2_keycl.Python.Json.Equality.{json_eq}
use konnect_oidc_fapi2_keycl.Keycloak.Values.{has_all, has_only, value_or, as_list}
use konnect_oidc_fapi2_keycl.Deck.Identities.{
  Identity, Plan, plan_of, same_set, same_identities, sorted,
}

-- `set(d) == set(names)`
abbrev pub has_exactly : List Text → Fields → Bool
has_exactly names fs = has_all names fs && has_only names fs

abbrev pub operation_names : List Text
operation_names = str "creating" ∷ str "updating" ∷ str "deleting" ∷ []

-- `entry["kind"], entry["name"]` of a dict with these two keys and strings
abbrev pub identity_of : Json → Option Identity
identity_of (obj fs) =
    if has_exactly (str "kind" ∷ str "name" ∷ []) fs
    then elim (as_text (get (str "kind") fs)) [
      | none ↦ none
      | some kind ↦ elim (as_text (get (str "name") fs)) [
        | none ↦ none
        | some name ↦ some (kind, name)
      ]
    ]
    else none
identity_of _ = none

unfoldable pub identities_of : List Json → Option (List Identity)
identities_of [] = some []
identities_of (entry ∷ rest) = elim (identity_of entry) [
  | none ↦ none
  | some i ↦ elim (identities_of rest) [ none ↦ none | some is ↦ some (i ∷ is) ]
]

abbrev is_int : Json → Bool
is_int (Json.int _) = true
is_int _ = false

abbrev pub has_ints : Fields → Bool
has_ints end = true
has_ints (field k v fs) = is_int v && has_ints fs

abbrev number : ℕ → Json
number n = Json.int (pos n)

-- The lengths of the three sets, and their sum.
unfoldable pub plan_summary : Plan → Fields
plan_summary plan =
    let c = length plan.creating in
    let u = length plan.updating in
    let d = length plan.deleting in
    field (str "creating") (number c) (
      field (str "updating") (number u)
        (field (str "deleting") (number d) (field (str "total") (number (c + u + d)) end)))

abbrev pub malformed : Text
malformed = str "backend runtime operation identities are malformed"

abbrev pub not_reviewed : Text
not_reviewed = str "backend runtime identities differ from the exact reviewed scope"

-- One round of the loop over the operations: the identities of the entries are the expected ones,
-- each once and in their order.
unfoldable pub check_operation : Fields → Text → List Identity → Result Text (Unit {0})
unfolding identities_of
check_operation actual operation expected = do
  entries ← or_raise (as_list (value_or (get operation actual) null)) malformed
  identities ← or_raise (identities_of entries) malformed
  require
      (eqb (length identities) (length expected)
        && same_set identities expected
        && same_identities identities (sorted identities))
      not_reviewed

unfoldable pub validate_backend_scope : Json → Json → Result Text (Unit {0})
unfolding check_operation plan_summary
validate_backend_scope operations plan_type = do
  let invalid = str "backend runtime operation scope is invalid"
  name ← or_raise (as_text (some plan_type)) invalid
  expected ← or_raise (plan_of name) invalid
  fields ← or_raise (as_object operations) invalid
  require (has_exactly (str "summary" ∷ str "operations" ∷ []) fields) invalid
  actual ← or_raise (as_object (value_or (get (str "operations") fields) null)) malformed
  require (has_exactly operation_names actual) malformed
  check_operation actual (str "creating") expected.creating
  check_operation actual (str "updating") expected.updating
  check_operation actual (str "deleting") expected.deleting
  let differs = str "backend runtime summary differs from the exact reviewed scope"
  summary ← or_raise (as_object (value_or (get (str "summary") fields) null)) differs
  require (json_eq (obj summary) (obj (plan_summary expected)) && has_ints summary) differs
