-- ===== src/Deck/Report.antt =====
-- The report of `deck gateway diff`: parse_sanitized_runtime_diff.
use konnect_oidc_fapi2_keycl.Common.{
  ℕ, ◌+◌, Bool, true, false, not, ◌&&◌, ◌||◌, List, [], ◌∷◌, ◌++◌, Option, some, Result, ok,
  or_raise, require, ◌>>=◌, ◌>>◌, eqb, leb, ltb, length, any, map, if◌then◌else◌,
}
use konnect_oidc_fapi2_keycl.Python.Int.{pos, int_eq}
use konnect_oidc_fapi2_keycl.Python.Text.{Text, str, ◌==◌, truthy}
use konnect_oidc_fapi2_keycl.Python.Json.{
  Json, null, text, obj, arr, nil, Fields, get, as_object, as_text, passes_hook, dict,
}
use konnect_oidc_fapi2_keycl.Keycloak.Values.{value_or, as_list, is_member, to_items}
use konnect_oidc_fapi2_keycl.Deck.Identities.{Identity, has_identity, sorted_by}
use konnect_oidc_fapi2_keycl.Deck.Sanitize.{sanitize_output}
use konnect_oidc_fapi2_keycl.Deck.Scope.{has_exactly, operation_names}

abbrev pub kinds : List Text
kinds = str "service" ∷ str "route" ∷ str "plugin" ∷ str "certificate" ∷ str "ca_certificate" ∷ []

-- An entry of the report: its kind, its name, the name with secrets removed, and the entry itself.
pub record Entry : Type 0 where
  pub kind : Text
  pub name : Text
  pub safe_name : Text
  pub whole : Json

abbrev pub has_control : Text → Bool
has_control name = any (λ c. ltb c 0x20 || eqb c 0x7f) name

abbrev is_dict : Json → Bool
is_dict (obj _) = true
is_dict _ = false

abbrev is_none : Json → Bool
is_none null = true
is_none _ = false

-- The test of the bodies for each operation, and its message.
unfoldable pub check_body : Text → Json → Json → Result Text (Unit {0})
check_body operation old new =
    if operation == str "creating"
    then require (is_none old && is_dict new)
        (str "third-party runtime diff create body is malformed")
    else if operation == str "updating"
    then require (is_dict old && is_dict new)
        (str "third-party runtime diff update body is malformed")
    else require (is_none old && is_dict new)
        (str "third-party runtime diff delete body is malformed")

-- One entry of an operation.
unfoldable pub read_entry : Text → List Text → Json → Result Text Entry
unfolding check_body
read_entry operation secrets entry = do
  let bad = str "third-party runtime diff entity is malformed"
  fields ← or_raise (as_object entry) bad
  require (has_exactly (str "kind" ∷ str "name" ∷ str "body" ∷ []) fields) bad
  kind ← or_raise (as_text (get (str "kind") fields)) bad
  require (is_member kind kinds) bad
  name ← or_raise (as_text (get (str "name") fields)) bad
  require (truthy name && leb (length name) 256 && not (has_control name)) bad
  body ← or_raise (as_object (value_or (get (str "body") fields) null)) bad
  require (has_exactly (str "old" ∷ str "new" ∷ []) body) bad
  check_body operation (value_or (get (str "old") body) null) (value_or (get (str "new") body) null)
  ok (record { kind = kind; name = name; safe_name = sanitize_output name secrets; whole = entry })

-- The loop over the entries, with the identities seen so far.
unfoldable pub read_entries :
    Text → List Text → List Identity → List Json → Result Text (List Entry)
unfolding read_entry has_identity
read_entries operation secrets seen [] = ok []
read_entries operation secrets seen (entry ∷ entries) = do
  one ← read_entry operation secrets entry
  require (not (has_identity (one.kind, one.safe_name) seen))
      (str "third-party runtime diff contains duplicate operation identities")
  rest ← read_entries operation secrets ((one.kind, one.safe_name) ∷ seen) entries
  ok (one ∷ rest)

-- `type(value) is int and value == n`
abbrev pub is_count : Option Json → ℕ → Bool
is_count (some (Json.int i)) n = int_eq i (pos n)
is_count _ n = false

abbrev pub safe_identity : Entry → Identity
safe_identity e = (e.kind, e.safe_name)

abbrev raw_identity : Entry → Identity
raw_identity e = (e.kind, e.name)

abbrev safe_json : Entry → Json
safe_json e = obj (dict ((str "kind", text e.kind) ∷ (str "name", text e.safe_name) ∷ []))

-- One operation: its entries.
unfoldable pub read_operation : List Text → Fields → Fields → Text → Result Text (List Entry)
unfolding read_entries
read_operation secrets changes summary operation = do
  entries ←
      or_raise (as_list (value_or (get operation changes) null))
        (str "third-party runtime diff operation list is malformed")
  read ← read_entries operation secrets [] entries
  require (is_count (get operation summary) (length read))
      (str "third-party runtime diff summary does not match its operation identities")
  ok read

-- The lists of the three operations.
pub record Changes : Type 0 where
  pub creating : List Entry
  pub updating : List Entry
  pub deleting : List Entry

unfoldable pub read_changes : List Text → Fields → Fields → Result Text Changes
unfolding read_operation
read_changes secrets changes summary = do
  creating ← read_operation secrets changes summary (str "creating")
  updating ← read_operation secrets changes summary (str "updating")
  deleting ← read_operation secrets changes summary (str "deleting")
  ok (record { creating = creating; updating = updating; deleting = deleting })

abbrev list_json : List Json → Json
list_json js = arr (to_items js)

unfoldable pub safe_list : List Entry → Json
unfolding sorted_by to_items
safe_list es = list_json (map safe_json (sorted_by safe_identity es))

unfoldable pub raw_list : List Entry → Json
unfolding sorted_by to_items
raw_list es = list_json (map (λ e. e.whole) (sorted_by raw_identity es))

abbrev three : Json → Json → Json → Fields
three c u d = dict ((str "creating", c) ∷ (str "updating", u) ∷ (str "deleting", d) ∷ [])

abbrev total : Changes → ℕ
total c = length c.creating + length c.updating + length c.deleting

abbrev number : ℕ → Json
number n = Json.int (pos n)

unfoldable pub counts : Changes → Fields
unfolding dict
counts c = dict (
    (str "creating", number (length c.creating))
    ∷ (str "updating", number (length c.updating))
    ∷ (str "deleting", number (length c.deleting))
    ∷ (str "total", number (total c))
    ∷ [])

-- The value that is returned, which has only kinds and safe names.
unfoldable pub safe_operations : Changes → Json
unfolding counts safe_list
safe_operations c = obj (
    dict (
      (str "summary", obj (counts c))
      ∷ (
        str "operations",
        obj (three (safe_list c.creating) (safe_list c.updating) (safe_list c.deleting)),
      )
      ∷ []))

-- The value whose digest is returned.
unfoldable pub full_report : Changes → Json
unfolding counts raw_list
full_report c = obj (
    dict (
      (str "changes", obj (three (raw_list c.creating) (raw_list c.updating) (raw_list c.deleting)))
      ∷ (str "summary", obj (counts c))
      ∷ (str "warnings", arr nil)
      ∷ (str "errors", arr nil)
      ∷ []))

abbrev is_empty_list : Option Json → Bool
is_empty_list (some (arr nil)) = true
is_empty_list _ = false

-- What is under the report's changes and its summary.
unfoldable pub read_report : Fields → Result Text (Fields × Fields)
read_report report = do
  let unexpected =
      str "third-party runtime diff report contains errors, warnings, or unexpected fields"
  require
      (has_exactly (str "changes" ∷ str "summary" ∷ str "warnings" ∷ str "errors" ∷ []) report
        && is_empty_list (get (str "warnings") report)
        && is_empty_list (get (str "errors") report))
      unexpected
  let structure = str "third-party runtime diff report structure is malformed"
  changes ← or_raise (as_object (value_or (get (str "changes") report) null)) structure
  require (has_exactly operation_names changes) structure
  summary ← or_raise (as_object (value_or (get (str "summary") report) null)) structure
  require (has_exactly (operation_names ++ str "total" ∷ []) summary) structure
  ok (changes, summary)

-- `loads` is `json.loads` that raises at NaN and Infinity, none where it raises a ValueError; the
-- digest is canonical_sha256.
unfoldable pub parse_sanitized_runtime_diff :
    (Text → Option Json) → (Json → Text) → Text → List Text → Result Text (Json × Text)
unfolding read_report read_changes safe_operations full_report
parse_sanitized_runtime_diff loads canonical_sha256 raw_output secrets = do
  let invalid = str "third-party runtime diff did not return valid JSON"
  parsed ← or_raise (loads raw_output) invalid
  require (passes_hook parsed) invalid
  report ←
      or_raise (as_object parsed)
        (str "third-party runtime diff report contains errors, warnings, or unexpected fields")
  parts ← read_report report
  changes ← read_changes secrets parts.0 parts.1
  require (is_count (get (str "total") parts.1) (total changes))
      (str "third-party runtime diff total is malformed")
  ok (safe_operations changes, canonical_sha256 (full_report changes))
