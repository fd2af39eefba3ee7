-- ===== src/Keycloak/Distinct.antt =====
-- The names of the entries that merge_named_entries gives.
use konnect_oidc_fapi2_keycl.Common.{
  ◌≡◌, refl, sym, ap, subst, ◌∙◌, Bool, true, false, not, inl, inr, some, List, [], ◌∷◌, ◌++◌, All,
  arith, ok, or_raise-bind, require-bind, ok-injective, >>=-eq-ok, Bool-cases,
}
use mathlib.Core.List.{append_assoc, append-nil}
use konnect_oidc_fapi2_keycl.Python.Text.{Text, str, ◌==◌}
use konnect_oidc_fapi2_keycl.Python.Json.{Json, obj, Fields, get, as_text, as_object}
use konnect_oidc_fapi2_keycl.Keycloak.Values.{is_member}
use konnect_oidc_fapi2_keycl.Keycloak.Merge.{Entry, merge_entry, name_entries, entries}

abbrev pub names : List Entry → List Text
names [] = []
names ((name, _) ∷ rest) = name ∷ names rest

-- None of the names is this one.
abbrev pub IsNew : Text → List Entry → Type 0
IsNew name [] = Unit
IsNew name ((n, _) ∷ rest) = ((name == n) ≡ false) × IsNew name rest

abbrev pub AreDistinct : List Entry → Type 0
AreDistinct [] = Unit
AreDistinct ((name, _) ∷ rest) = IsNew name rest × AreDistinct rest

merge_entry-IsNew :
    (other name : Text) (fields : Fields) (merged : List Entry)
    → (other == name) ≡ false
    → IsNew other merged
    → IsNew other (merge_entry (name, fields) merged)
unfolding merge_entry
merge_entry-IsNew other name fields [] e new = (e, tt)
merge_entry-IsNew other name fields ((n, current) ∷ rest) e (first, new) =
    elim (Bool-cases (n == name)) [
      | inl same ↦ rw same (first, new)
      | inr differs ↦ rw differs (first, merge_entry-IsNew other name fields rest e new)
    ]

pub merge_entry-AreDistinct :
    (name : Text) (fields : Fields) (merged : List Entry)
    → AreDistinct merged
    → AreDistinct (merge_entry (name, fields) merged)
unfolding merge_entry
merge_entry-AreDistinct name fields [] distinct = (tt, tt)
merge_entry-AreDistinct name fields ((n, current) ∷ rest) (new, distinct) =
    elim (Bool-cases (n == name)) [
      | inl same ↦ rw same (new, distinct)
      | inr differs ↦ rw differs (
        merge_entry-IsNew n name fields rest differs new,
        merge_entry-AreDistinct name fields rest distinct,
      )
    ]

-- The names there were come first.
pub names-merge_entry :
    (name : Text) (fields : Fields) (merged : List Entry)
    → (added : List Text) × (names (merge_entry (name, fields) merged) ≡ names merged ++ added)
unfolding merge_entry
names-merge_entry name fields [] = (name ∷ [], refl)
names-merge_entry name fields ((n, current) ∷ rest) = elim (Bool-cases (n == name)) [
  | inl same ↦ ([], rw same (sym (append-nil (n ∷ names rest))))
  | inr differs ↦
      let (added, e) = names-merge_entry name fields rest in
      (added, rw differs (ap (λ (x : List Text). n ∷ x) e))
]

unseen-IsNew :
    (name : Text) (seen : List Text) (named : List Entry)
    → All (λ (e : Entry). is_member e.0 (name ∷ seen) ≡ false) named
    → IsNew name named × All (λ (e : Entry). is_member e.0 seen ≡ false) named
unfolding is_member
unseen-IsNew name seen [] h = (tt, tt)
unseen-IsNew name seen ((n, _) ∷ named) (h, hs) =
    let (new, unseen) = unseen-IsNew name seen named hs in
    ((ground (arith, h), new), (ground (arith, h), unseen))

-- The live entries under their names, which are distinct.
pub record IsNamed (live : List Json) (named : List Entry) : Type 0 where
  pub same_entries : entries named ≡ live
  pub have_names : All (λ (e : Entry). as_text (get (str "name") e.1) ≡ some e.0) named
  pub distinct : AreDistinct named

some-injective : {A : Type 0} {a b : A} → some a ≡ some b → a ≡ b
some-injective h = cc

pub as_object-obj : (j : Json) (fs : Fields) → as_object j ≡ some fs → j ≡ obj fs
as_object-obj (obj fs) gs h = ap obj (some-injective h)
as_object-obj Json.null gs h = cc
as_object-obj (Json.bool _) gs h = cc
as_object-obj (Json.int _) gs h = cc
as_object-obj (Json.float _) gs h = cc
as_object-obj (Json.text _) gs h = cc
as_object-obj (Json.arr _) gs h = cc

not-eq-true : (b : Bool) → not b ≡ true → b ≡ false
not-eq-true true h = cc
not-eq-true false h = refl

name_entries-unseen :
    (label : Text) (seen : List Text) (live : List Json) (named : List Entry)
    → name_entries label seen live ≡ ok named
    → IsNamed live named × All (λ (e : Entry). is_member e.0 seen ≡ false) named
unfolding name_entries
name_entries-unseen label seen [] named h =
    subst (λ x. IsNamed [] x × All (λ (e : Entry). is_member e.0 seen ≡ false) x) (ok-injective h)
      (record { same_entries = refl; have_names = tt; distinct = tt }, tt)
name_entries-unseen label seen (entry ∷ rest) named h =
    let (fields, is_obj, h₁) = or_raise-bind (as_object entry) _ _ h in
    let (name, has_name, h₂) = or_raise-bind (as_text (get (str "name") fields)) _ _ h₁ in
    let (new, h₃) = require-bind (not (is_member name seen)) _ _ h₂ in
    let (more, is_more, h₄) = >>=-eq-ok (name_entries label (name ∷ seen) rest) _ h₃ in
    let (later, unseen) = name_entries-unseen label (name ∷ seen) rest more is_more in
    let (is_new, unseen_later) = unseen-IsNew name seen more unseen in
    subst (λ x. IsNamed (entry ∷ rest) x × All (λ (e : Entry). is_member e.0 seen ≡ false) x)
      (ok-injective h₄)
      (
        record {
          same_entries =
              ap (λ x. obj fields ∷ x) later.same_entries
              ∙ ap (λ x. x ∷ rest) (sym (as_object-obj entry fields is_obj));
          have_names = (has_name, later.have_names);
          distinct = (is_new, later.distinct);
        },
        (not-eq-true _ new, unseen_later),
      )

pub name_entries-IsNamed :
    (label : Text) (live : List Json) (named : List Entry)
    → name_entries label [] live ≡ ok named
    → IsNamed live named
name_entries-IsNamed label live named h = (name_entries-unseen label [] live named h).0

-- A list of names that begins with those there were.
abbrev pub IsExtended : List Entry → List Entry → Type 0
IsExtended before after = (added : List Text) × (names after ≡ names before ++ added)

pub IsExtended-merge_entry :
    (name : Text) (fields : Fields) (merged result : List Entry)
    → IsExtended (merge_entry (name, fields) merged) result
    → IsExtended merged result
IsExtended-merge_entry name fields merged result (later, e) =
    let (added, d) = names-merge_entry name fields merged in
    (
      added ++ later,
      e ∙ ap (λ (x : List Text). x ++ later) d ∙ append_assoc (names merged) added later,
    )
