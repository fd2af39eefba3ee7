-- ===== src/Python/Json.antt =====
-- The values that `json.loads` returns and `json.dumps` takes: Python's None, bool, int, float, str,
-- list and dict. A dict is its items in insertion order; `loads` builds one by an
-- `object_pairs_hook` that refuses a repeated key.
pub mod Laws
pub mod Equality
pub mod Unique
use konnect_oidc_fapi2_keycl.Common.{
  ℕ, Bool, true, false, ◌&&◌, ◌||◌, List, [], ◌∷◌, Option, none, some, if◌then◌else◌,
}
use konnect_oidc_fapi2_keycl.Python.Int.{ℤ}
use konnect_oidc_fapi2_keycl.Python.Text.{Text, ◌==◌}

-- `float` holds the 64 bits of an IEEE double.
mutual
  pub data Json : Type 0 where
    null : Json
    bool : Bool → Json
    int : ℤ → Json
    float : ℕ → Json
    text : Text → Json
    arr : Items → Json
    obj : Fields → Json

  pub data Items : Type 0 where
    nil : Items
    cons : Json → Items → Items

  pub data Fields : Type 0 where
    end : Fields
    field : Text → Json → Fields → Fields

-- `d.get(k)`
unfoldable pub get : Text → Fields → Option Json
get k end = none
get k (field j v fs) = if j == k then some v else get k fs

unfoldable pub has_key : Text → Fields → Bool
has_key k end = false
has_key k (field j v fs) = j == k || has_key k fs

unfoldable pub keys : Fields → List Text
keys end = []
keys (field j v fs) = j ∷ keys fs

unfoldable pub items : Items → List Json
items nil = []
items (cons j js) = j ∷ items js

-- A dict display with constant keys.
unfoldable pub dict : List (Text × Json) → Fields
dict [] = end
dict ((k, v) ∷ kvs) = field k v (dict kvs)

-- `isinstance(v, str)`, and the string
abbrev pub as_text : Option Json → Option Text
as_text (some (text t)) = some t
as_text _ = none

abbrev pub as_object : Json → Option Fields
as_object (obj fs) = some fs
as_object _ = none

-- `d.get(k) == t` for a string `t`
abbrev pub equals_text : Option Json → Text → Bool
equals_text (some (text s)) t = s == t
equals_text _ t = false

-- `result[k] = v` for a new key
abbrev add_field : Fields → Text → Json → Fields
add_field end k v = field k v end
add_field (field j w fs) k v = field j w (add_field fs k v)

unique_from : Fields → Fields → Option Fields
unique_from result end = some result
unique_from result (field k v pairs) =
    let rest = unique_from (add_field result k v) pairs in if has_key k result then none else rest

-- `object_pairs_hook=unique_object` of the programs: a repeated key raises.
unfoldable pub unique_object : Fields → Option Fields
unfolding unique_from
unique_object pairs = unique_from end pairs

abbrev is_unique : Fields → Bool
is_unique fs = elim (unique_object fs) [ none ↦ false | some _ ↦ true ]

-- `json.loads` runs the hook on every object of the document, the inner ones first.
unfoldable mutual
  pub passes_hook : Json → Bool
  passes_hook null = true
  passes_hook (bool b) = true
  passes_hook (int n) = true
  passes_hook (float n) = true
  passes_hook (text t) = true
  passes_hook (arr js) = items_pass_hook js
  passes_hook (obj fs) = fields_pass_hook fs && is_unique fs

  pub items_pass_hook : Items → Bool
  items_pass_hook nil = true
  items_pass_hook (cons j js) = passes_hook j && items_pass_hook js

  pub fields_pass_hook : Fields → Bool
  fields_pass_hook end = true
  fields_pass_hook (field k v fs) = passes_hook v && fields_pass_hook fs
