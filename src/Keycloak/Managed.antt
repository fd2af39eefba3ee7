-- ===== src/Keycloak/Managed.antt =====
-- Merging the named entries leaves alone what is not managed.
use mathlib.Core.List.{append-nil}
use konnect_oidc_fapi2_keycl.Common.{
  ◌≡◌, refl, sym, ap, subst, ◌∙◌, Bool, true, false, not, Option, none, some, List, [], ◌∷◌, arith,
  ok, or_raise-bind, require-bind, ok-injective, if◌then◌else◌, >>=-eq-ok,
}
use konnect_oidc_fapi2_keycl.Python.Text.{Text, str, ◌==◌}
use konnect_oidc_fapi2_keycl.Python.Text.Laws.{==_iff, ==_refl}
use konnect_oidc_fapi2_keycl.Python.Json.{Json, Fields, get, as_text, as_object}
use konnect_oidc_fapi2_keycl.Keycloak.Values.{is_member, merge_fields, as_list}
use konnect_oidc_fapi2_keycl.Keycloak.Distinct.{
  AreDistinct, IsExtended, IsNamed, names, merge_entry-AreDistinct, IsExtended-merge_entry,
  name_entries-IsNamed,
}
use konnect_oidc_fapi2_keycl.Keycloak.Merge.{
  Entry, merge_entry, merge_entries, name_entries, merge_named_entries, entries,
}

-- The fields of the first entry of a name.
unfoldable pub lookup_entry : Text → List Entry → Option Fields
lookup_entry name [] = none
lookup_entry name ((n, fs) ∷ rest) = if n == name then some fs else lookup_entry name rest

unfoldable pub merge_or : Option Fields → Fields → Fields
merge_or none fields = fields
merge_or (some current) fields = merge_fields current fields

not-eq-true : (b : Bool) → not b ≡ true → b ≡ false
not-eq-true true h = cc
not-eq-true false h = refl

if_false : {A : Type 0} (b : Bool) (x y : A) → b ≡ false → (if b then x else y) ≡ y
if_false b x y e = simp (e)

-- One entry merged: under its name the two dicts are merged, other names are as before.
lookup-merge_entry :
    (other name : Text) (fields : Fields) (merged : List Entry)
    → lookup_entry other (merge_entry (name, fields) merged) ≡ (
        if name == other
        then some (merge_or (lookup_entry name merged) fields)
        else lookup_entry other merged)
unfolding lookup_entry merge_entry merge_or
lookup-merge_entry other name fields [] = ground arith
lookup-merge_entry other name fields ((n, fs) ∷ rest) = ground (
  arith,
  ==_iff n name,
  ==_iff n other,
  ==_iff name other,
  ==_refl other,
  lookup-merge_entry other name fields rest,
)

-- The fields of the first desired entry of a name.
unfoldable pub lookup_wanted : Text → List Json → Option Fields
lookup_wanted name [] = none
lookup_wanted name (j ∷ js) = elim (as_object j) [
  | none ↦ lookup_wanted name js
  | some fs ↦ elim (as_text (get (str "name") fs)) [
    | none ↦ lookup_wanted name js
    | some n ↦ if n == name then some fs else lookup_wanted name js
  ]
]

unfoldable pub merge_option : Option Fields → Option Fields → Option Fields
merge_option live none = live
merge_option live (some wanted) = some (merge_or live wanted)

wanted-cons :
    (other : Text) (entry : Json) (rest : List Json) (fields : Fields) (name : Text)
    → as_object entry ≡ some fields
    → as_text (get (str "name") fields) ≡ some name
    → lookup_wanted other (entry ∷ rest)
      ≡ (if name == other then some fields else lookup_wanted other rest)
unfolding lookup_wanted
wanted-cons other entry rest fields name is_obj named = ground (arith, is_obj, named)

-- One round of the second loop that raises nothing.
record IsStep (label : Text) (seen : List Text) (merged result : List Entry) (entry : Json)
    (rest : List Json) : Type 0 where
  fields : Fields
  name : Text
  is_obj : as_object entry ≡ some fields
  named : as_text (get (str "name") fields) ≡ some name
  unseen : is_member name seen ≡ false
  rest_ok : merge_entries label (name ∷ seen) (merge_entry (name, fields) merged) rest ≡ ok result

merge_entries-IsStep :
    (label : Text) (seen : List Text) (merged result : List Entry) (entry : Json) (rest : List Json)
    → merge_entries label seen merged (entry ∷ rest) ≡ ok result
    → IsStep label seen merged result entry rest
unfolding merge_entries
merge_entries-IsStep label seen merged result entry rest h =
    let (fields, is_obj, h₁) = or_raise-bind (as_object entry) _ _ h in
    let (name, named, h₂) = or_raise-bind (as_text (get (str "name") fields)) _ _ h₁ in
    let (new, h₃) = require-bind (not (is_member name seen)) _ _ h₂ in
    record {
      fields = fields;
      name = name;
      is_obj = is_obj;
      named = named;
      unseen = not-eq-true _ new;
      rest_ok = h₃;
    }

seen_other :
    (name other : Text) (seen : List Text)
    → is_member other seen ≡ true
    → is_member name seen ≡ false
    → (name == other) ≡ false
seen_other name other seen member unseen = ground (arith, ==_iff name other)

seen_later :
    (other name : Text) (seen : List Text)
    → is_member other seen ≡ true
    → is_member other (name ∷ seen) ≡ true
unfolding is_member
seen_later other name seen member = ground (arith, member)

seen_now :
    (other name : Text) (seen : List Text)
    → (name == other) ≡ true
    → is_member other (name ∷ seen) ≡ true
unfolding is_member
seen_now other name seen same = ground (arith, same)

-- A name that was seen is not desired again.
seen-lookup_wanted :
    (label other : Text) (seen : List Text) (merged result : List Entry) (wanted : List Json)
    → merge_entries label seen merged wanted ≡ ok result
    → is_member other seen ≡ true
    → lookup_wanted other wanted ≡ none
unfolding lookup_wanted
seen-lookup_wanted label other seen merged result [] h member = refl
seen-lookup_wanted label other seen merged result (entry ∷ rest) h member =
    let s = merge_entries-IsStep label seen merged result entry rest h in
    wanted-cons other entry rest s.fields s.name s.is_obj s.named
    ∙ if_false _ _ _ (seen_other s.name other seen member s.unseen)
    ∙ seen-lookup_wanted label other (s.name ∷ seen) (merge_entry (s.name, s.fields) merged) result
        rest s.rest_ok (seen_later other s.name seen member)

combine :
    (b : Bool) (was later : Option Fields) (fields : Fields) (live : Option Fields)
    → (b ≡ true → (later ≡ none) × (live ≡ was))
    → merge_option (if b then some (merge_or live fields) else was) later
      ≡ merge_option was (if b then some fields else later)
unfolding merge_option merge_or
combine true was later fields live h = let (e, d) = h refl in simp (e, d)
combine false was later fields live h = refl

-- Where the merge of the desired entries raises nothing, each name stands for the live fields with
-- those of the desired entry of that name put over them, for the fields of the desired entry where
-- no live entry has the name, and for the live fields as they were where no desired entry has it.
pub merge_entries-lookup :
    (label other : Text) (seen : List Text) (merged result : List Entry) (wanted : List Json)
    → merge_entries label seen merged wanted ≡ ok result
    → lookup_entry other result
      ≡ merge_option (lookup_entry other merged) (lookup_wanted other wanted)
unfolding lookup_wanted merge_option merge_entries
merge_entries-lookup label other seen merged result [] h =
    ap (lookup_entry other) (sym (ok-injective h))
merge_entries-lookup label other seen merged result (entry ∷ rest) h =
    let s = merge_entries-IsStep label seen merged result entry rest h in
    let after : List Entry = merge_entry (s.name, s.fields) merged in
    merge_entries-lookup label other (s.name ∷ seen) after result rest s.rest_ok
    ∙ ap (λ x. merge_option x (lookup_wanted other rest))
        (lookup-merge_entry other s.name s.fields merged)
    ∙ combine (s.name == other) (lookup_entry other merged) (lookup_wanted other rest) s.fields
        (lookup_entry s.name merged)
        (λ same. (
          seen-lookup_wanted label other (s.name ∷ seen) after result rest s.rest_ok
              (seen_now other s.name seen same),
          ap (λ n. lookup_entry n merged) ((==_iff s.name other).0 same),
        ))
    ∙ ap (merge_option (lookup_entry other merged))
        (sym (wanted-cons other entry rest s.fields s.name s.is_obj s.named))

-- The names stay distinct, and those there were come first.
merge_entries-AreDistinct :
    (label : Text) (seen : List Text) (merged result : List Entry) (wanted : List Json)
    → merge_entries label seen merged wanted ≡ ok result
    → AreDistinct merged
    → AreDistinct result × IsExtended merged result
unfolding merge_entries
merge_entries-AreDistinct label seen merged result [] h distinct =
    subst (λ x. AreDistinct x × IsExtended merged x) (ok-injective h)
      (distinct, ([], sym (append-nil (names merged))))
merge_entries-AreDistinct label seen merged result (entry ∷ rest) h distinct =
    let s = merge_entries-IsStep label seen merged result entry rest h in
    let after : List Entry = merge_entry (s.name, s.fields) merged in
    let (still, extended) =
      merge_entries-AreDistinct label (s.name ∷ seen) after result rest s.rest_ok
        (merge_entry-AreDistinct s.name s.fields merged distinct) in
    (still, IsExtended-merge_entry s.name s.fields merged result extended)

-- A merge of two lists of entries, by their names.
pub record IsMerge (current desired : Json) (label : Text) (result : List Json) : Type 0 where
  pub live : List Json
  pub wanted : List Json
  pub named : List Entry
  pub merged : List Entry
  pub is_live : as_list current ≡ some live
  pub is_wanted : as_list desired ≡ some wanted
  pub is_named : IsNamed live named
  pub is_result : result ≡ entries merged
  pub distinct : AreDistinct merged
  pub extended : IsExtended named merged
  pub looked_up :
      (name : Text)
      → lookup_entry name merged
        ≡ merge_option (lookup_entry name named) (lookup_wanted name wanted)

-- Where the merge of two lists of entries raises nothing, the live entries have distinct names, and
-- the result is the entries, again of distinct names with the live ones first, in which each name
-- stands for the live fields with those of the desired entry of that name put over them, for the
-- fields of the desired entry where no live entry has the name, and for the live fields as they
-- were where no desired entry has it.
pub merge_named_entries-IsMerge :
    (current desired : Json) (label : Text) (result : List Json)
    → merge_named_entries current desired label ≡ ok result
    → IsMerge current desired label result
unfolding merge_named_entries
merge_named_entries-IsMerge current desired label result h =
    let (live, is_live, h₁) = or_raise-bind (as_list current) _ _ h in
    let (wanted, is_wanted, h₂) = or_raise-bind (as_list desired) _ _ h₁ in
    let (named, is_named, h₃) = >>=-eq-ok (name_entries label [] live) _ h₂ in
    let (merged, is_merged, h₄) = >>=-eq-ok (merge_entries label [] named wanted) _ h₃ in
    let live_named = name_entries-IsNamed label live named is_named in
    let (distinct, extended) =
      merge_entries-AreDistinct label [] named merged wanted is_merged live_named.distinct in
    record {
      live = live;
      wanted = wanted;
      named = named;
      merged = merged;
      is_live = is_live;
      is_wanted = is_wanted;
      is_named = live_named;
      is_result = sym (ok-injective h₄);
      distinct = distinct;
      extended = extended;
      looked_up = λ name. merge_entries-lookup label name [] named merged wanted is_merged;
    }
