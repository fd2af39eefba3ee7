-- ===== src/Deck/Exact.antt =====
-- What validate_backend_scope lets pass.
use konnect_oidc_fapi2_keycl.Common.{
  ℕ, ◌+◌, ◌≡◌, ◌↔◌, ◌∙◌, refl, sym, ap, subst, Bool, Option, none, true, false, List, [], ◌∷◌, some,
  ok, or_raise-bind, require-bind, >>=-eq-ok, require, eqb_iff, and_left, and_right, length,
}
use konnect_oidc_fapi2_keycl.Python.Int.{pos}
use konnect_oidc_fapi2_keycl.Python.Text.{Text, str}
use konnect_oidc_fapi2_keycl.Python.Json.{
  has_key, Json, null, text, obj, end, field, Fields, get, as_object, as_text,
}
use konnect_oidc_fapi2_keycl.Python.Json.Equality.{json_eq}
use konnect_oidc_fapi2_keycl.Keycloak.Distinct.{as_object-obj}
use konnect_oidc_fapi2_keycl.Keycloak.Values.{has_only, value_or, as_list}
use konnect_oidc_fapi2_keycl.Deck.Identities.{Identity, Plan, plan_of, sorted}
use konnect_oidc_fapi2_keycl.Deck.Order.{
  AreSame, IsOrdered, same_set-AreSame, same_identities-eq, sorted-IsOrdered,
}
use konnect_oidc_fapi2_keycl.Deck.Entries.{
  AreEntries, OnlyKeys, has_only-OnlyKeys, identities_of-AreEntries,
}
use konnect_oidc_fapi2_keycl.Deck.Complete.{
  AreEntries-identities_of, AreSame-same_set, IsOrdered-same_identities, OnlyKeys-has_only,
  get-has_key, found_not_none,
}
use konnect_oidc_fapi2_keycl.Deck.Scope.{
  has_exactly, has_ints, operation_names, identities_of, plan_summary, check_operation, malformed,
  not_reviewed, validate_backend_scope,
}

-- The entries of an operation are dicts of a kind and a name only, one for each of the expected
-- identities, and ordered by them.
pub record IsOperation (actual : Fields) (operation : Text) (expected : List Identity)
    : Type 0 where
  pub entries : List Json
  pub identities : List Identity
  pub listed : as_list (value_or (get operation actual) null) ≡ some entries
  pub identified : AreEntries entries identities
  pub as_many : length identities ≡ length expected
  pub same : AreSame identities expected
  pub ordered : IsOrdered identities

require-true : (b : Bool) (e : Text) {u : Unit {0}} → require b e ≡ ok u → b ≡ true
require-true true e h = refl
require-true false e h = cc

check_operation-IsOperation :
    (actual : Fields) (operation : Text) (expected : List Identity) {u : Unit {0}}
    → check_operation actual operation expected ≡ ok u
    → IsOperation actual operation expected
unfolding check_operation
check_operation-IsOperation actual operation expected h =
    let (entries, listed, h₁) =
      or_raise-bind (as_list (value_or (get operation actual) null)) malformed _ h in
    let (identities, identified, h₂) = or_raise-bind (identities_of entries) malformed _ h₁ in
    let tests = require-true _ not_reviewed h₂ in
    let both = and_left _ _ tests in
    record {
      entries = entries;
      identities = identities;
      listed = listed;
      identified = identities_of-AreEntries entries identities identified;
      as_many = (eqb_iff _ _).0 (and_left _ _ both);
      same = same_set-AreSame identities expected (and_right _ _ both);
      ordered =
          subst IsOrdered
            (sym (same_identities-eq identities (sorted identities) (and_right _ _ tests)))
            (sorted-IsOrdered identities);
    }

not_a_list : {entries : List Json} → none ≡ some entries → ⊥
not_a_list h = cc

IsOperation-check_operation :
    (actual : Fields) (operation : Text) (expected : List Identity)
    → IsOperation actual operation expected
    → check_operation actual operation expected ≡ ok tt
unfolding check_operation
IsOperation-check_operation actual operation expected o = simp (
  o.listed,
  AreEntries-identities_of o.entries o.identities o.identified,
  (eqb_iff _ _).1 o.as_many,
  AreSame-same_set o.identities expected o.same,
  IsOrdered-same_identities o.identities o.ordered,
)

listed-has_key :
    (actual : Fields) (operation : Text) (expected : List Identity)
    → IsOperation actual operation expected
    → has_key operation actual ≡ true
listed-has_key actual operation expected o =
    get-has_key operation actual
      λ missing. not_a_list (sym (ap (λ x. as_list (value_or x null)) missing) ∙ o.listed)

as_text-text : (j : Json) (t : Text) → as_text (some j) ≡ some t → j ≡ text t
as_text-text (text u) t h = cc
as_text-text null t h = cc
as_text-text (Json.bool _) t h = cc
as_text-text (Json.int _) t h = cc
as_text-text (Json.float _) t h = cc
as_text-text (Json.arr _) t h = cc
as_text-text (obj _) t h = cc

-- The value of a field that is an object.
object_in :
    (o : Option Json) (fs : Fields) → as_object (value_or o null) ≡ some fs → o ≡ some (obj fs)
object_in none fs h = cc
object_in (some j) fs h = ap some (as_object-obj j fs h)

abbrev number : ℕ → Json
number n = Json.int (pos n)

-- How many identities the plan has for each operation, and how many in all.
abbrev pub counts_of : Plan → Json
counts_of plan = obj (
    field (str "creating") (number (length plan.creating)) (
      field (str "updating") (number (length plan.updating)) (
        field (str "deleting") (number (length plan.deleting)) (
          field (str "total")
            (number (length plan.creating + length plan.updating + length plan.deleting)) end))))

-- The operations of a diff are those of a plan that is fixed in the code.
pub record IsScope (operations plan_type : Json) : Type 0 where
  pub name : Text
  pub plan : Plan
  pub fields : Fields
  pub actual : Fields
  pub summary : Fields
  pub named : plan_type ≡ text name
  pub fixed : plan_of name ≡ some plan
  pub is_object : operations ≡ obj fields
  pub only_fields : OnlyKeys (str "summary" ∷ str "operations" ∷ []) fields
  pub has_operations : get (str "operations") fields ≡ some (obj actual)
  pub only_operations : OnlyKeys (str "creating" ∷ str "updating" ∷ str "deleting" ∷ []) actual
  pub creating : IsOperation actual (str "creating") plan.creating
  pub updating : IsOperation actual (str "updating") plan.updating
  pub deleting : IsOperation actual (str "deleting") plan.deleting
  pub has_summary : get (str "summary") fields ≡ some (obj summary)
  pub counted : json_eq (obj summary) (counts_of plan) ≡ true
  pub is_counts : has_ints summary ≡ true

validate_backend_scope_sound :
    (operations plan_type : Json) {u : Unit {0}}
    → validate_backend_scope operations plan_type ≡ ok u
    → IsScope operations plan_type
unfolding validate_backend_scope plan_summary
validate_backend_scope_sound operations plan_type h =
    let (name, named, h₁) = or_raise-bind (as_text (some plan_type)) _ _ h in
    let (plan, fixed, h₂) = or_raise-bind (plan_of name) _ _ h₁ in
    let (fields, is_obj, h₃) = or_raise-bind (as_object operations) _ _ h₂ in
    let (exact, h₄) =
      require-bind (has_exactly (str "summary" ∷ str "operations" ∷ []) fields) _ _ h₃ in
    let (actual, has_actual, h₅) =
      or_raise-bind (as_object (value_or (get (str "operations") fields) null)) _ _ h₄ in
    let (only, h₆) = require-bind (has_exactly operation_names actual) _ _ h₅ in
    let (_, created, h₇) = >>=-eq-ok (check_operation actual (str "creating") plan.creating) _ h₆ in
    let (_, updated, h₈) = >>=-eq-ok (check_operation actual (str "updating") plan.updating) _ h₇ in
    let (_, deleted, h₉) = >>=-eq-ok (check_operation actual (str "deleting") plan.deleting) _ h₈ in
    let (summary, has_summary, k₁) =
      or_raise-bind (as_object (value_or (get (str "summary") fields) null)) _ _ h₉ in
    let counts = require-true _ _ k₁ in
    record {
      name = name;
      plan = plan;
      fields = fields;
      actual = actual;
      summary = summary;
      named = as_text-text plan_type name named;
      fixed = fixed;
      is_object = as_object-obj operations fields is_obj;
      only_fields = has_only-OnlyKeys _ fields (and_right _ _ exact);
      has_operations = object_in (get (str "operations") fields) actual has_actual;
      only_operations = has_only-OnlyKeys _ actual (and_right _ _ only);
      creating = check_operation-IsOperation actual (str "creating") plan.creating created;
      updating = check_operation-IsOperation actual (str "updating") plan.updating updated;
      deleting = check_operation-IsOperation actual (str "deleting") plan.deleting deleted;
      has_summary = object_in (get (str "summary") fields) summary has_summary;
      counted = and_left _ _ counts;
      is_counts = and_right _ _ counts;
    }

validate_backend_scope_complete :
    (operations plan_type : Json)
    → IsScope operations plan_type
    → validate_backend_scope operations plan_type ≡ ok tt
unfolding validate_backend_scope plan_summary
validate_backend_scope_complete operations plan_type s =
    let has_summary_key = get-has_key (str "summary") s.fields (found_not_none s.has_summary) in
    let has_operations_key =
      get-has_key (str "operations") s.fields (found_not_none s.has_operations) in
    let only : has_only (str "summary" ∷ str "operations" ∷ []) s.fields ≡ true =
      OnlyKeys-has_only (str "summary" ∷ str "operations" ∷ []) s.fields s.only_fields in
    let only_operations : has_only operation_names s.actual ≡ true =
      OnlyKeys-has_only operation_names s.actual s.only_operations in
    simp (
      s.named,
      s.fixed,
      s.is_object,
      has_summary_key,
      has_operations_key,
      only,
      s.has_operations,
      listed-has_key s.actual (str "creating") s.plan.creating s.creating,
      listed-has_key s.actual (str "updating") s.plan.updating s.updating,
      listed-has_key s.actual (str "deleting") s.plan.deleting s.deleting,
      only_operations,
      IsOperation-check_operation s.actual (str "creating") s.plan.creating s.creating,
      IsOperation-check_operation s.actual (str "updating") s.plan.updating s.updating,
      IsOperation-check_operation s.actual (str "deleting") s.plan.deleting s.deleting,
      s.has_summary,
      s.counted,
      s.is_counts,
    )

-- Operations pass exactly if the type of the plan is the name of one that is fixed in the code,
-- they have nothing but a summary and the three operations, for each of creating, updating and
-- deleting the entries have a kind and a name and nothing else, are as many as the identities of
-- that plan, name the same identities and are ordered by them, and the summary has the numbers of
-- the plan, as integers.
pub validate_backend_scope-IsScope :
    (operations plan_type : Json)
    → (validate_backend_scope operations plan_type ≡ ok tt) ↔ IsScope operations plan_type
validate_backend_scope-IsScope operations plan_type = (
  validate_backend_scope_sound operations plan_type,
  validate_backend_scope_complete operations plan_type,
)
