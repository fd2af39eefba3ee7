-- ===== src/Deck/Entries.antt =====
-- The identities that validate_backend_scope reads from the entries of an operation, and how it
-- compares them: identity_of, same_set and sorted against descriptions of their own.
use konnect_oidc_fapi2_keycl.Common.{
  ◌≡◌, ◌⊎◌, refl, sym, ap, subst, inl, inr, true, List, [], ◌∷◌, Option, none, some, arith,
  and_left, and_right, Bool-cases, Option-cases,
}
use konnect_oidc_fapi2_keycl.Python.Text.{Text, str, ◌==◌}
use konnect_oidc_fapi2_keycl.Python.Text.Laws.{==_iff}
use konnect_oidc_fapi2_keycl.Python.Json.{Json, text, obj, Fields, end, field, get, keys, as_text}
use konnect_oidc_fapi2_keycl.Keycloak.Values.{has_only, is_member}
use konnect_oidc_fapi2_keycl.Deck.Identities.{Identity}
use konnect_oidc_fapi2_keycl.Deck.Scope.{has_exactly, identity_of, identities_of}

abbrev pub IsOneOf : Text → List Text → Type 0
IsOneOf k [] = ⊥
IsOneOf k (name ∷ names) = (k ≡ name) ⊎ IsOneOf k names

-- Every key is one of the names.
abbrev pub OnlyKeys : List Text → Fields → Type 0
OnlyKeys names end = Unit
OnlyKeys names (field k _ fs) = IsOneOf k names × OnlyKeys names fs

-- An entry with the kind and the name, as strings, and nothing else.
pub record IsEntry (entry : Json) (i : Identity) : Type 0 where
  pub fields : Fields
  pub is_obj : entry ≡ obj fields
  pub kind : get (str "kind") fields ≡ some (text i.0)
  pub name : get (str "name") fields ≡ some (text i.1)
  pub only : OnlyKeys (str "kind" ∷ str "name" ∷ []) fields

-- The entries, one for each of the identities and in their order.
abbrev pub AreEntries : List Json → List Identity → Type 0
AreEntries [] [] = Unit
AreEntries (entry ∷ entries) (i ∷ is) = IsEntry entry i × AreEntries entries is
AreEntries _ _ = ⊥

some-injective : {A : Type 0} {a b : A} → some a ≡ some b → a ≡ b
some-injective h = cc

as_text-text : (o : Option Json) (t : Text) → as_text o ≡ some t → o ≡ some (text t)
as_text-text (some (text u)) t h = ap (λ x. some (text x)) (some-injective h)
as_text-text none t h = cc
as_text-text (some Json.null) t h = cc
as_text-text (some (Json.bool _)) t h = cc
as_text-text (some (Json.int _)) t h = cc
as_text-text (some (Json.float _)) t h = cc
as_text-text (some (Json.arr _)) t h = cc
as_text-text (some (obj _)) t h = cc

is_member-IsOneOf : (k : Text) (names : List Text) → is_member k names ≡ true → IsOneOf k names
unfolding is_member
is_member-IsOneOf k [] h = cc
is_member-IsOneOf k (name ∷ names) h = elim (Bool-cases (name == k)) [
  | inl same ↦ inl (sym ((==_iff name k).0 same))
  | inr other ↦ inr (is_member-IsOneOf k names (ground (arith, other, h)))
]

pub has_only-OnlyKeys :
    (names : List Text) (fs : Fields) → has_only names fs ≡ true → OnlyKeys names fs
unfolding has_only keys
has_only-OnlyKeys names end h = tt
has_only-OnlyKeys names (field k v fs) h =
    (is_member-IsOneOf k names (and_left _ _ h), has_only-OnlyKeys names fs (and_right _ _ h))

identity_of-IsEntry : (entry : Json) (i : Identity) → identity_of entry ≡ some i → IsEntry entry i
identity_of-IsEntry (obj fs) i h =
    elim (Bool-cases (has_exactly (str "kind" ∷ str "name" ∷ []) fs)) [
      | inr other ↦ ground (arith, other, h)
      | inl exact ↦ elim (Option-cases (as_text (get (str "kind") fs))) [
        | inl missing ↦ ground (arith, exact, missing, h)
        | inr (kind, has_kind) ↦ elim (Option-cases (as_text (get (str "name") fs))) [
          | inl missing ↦ ground (arith, exact, has_kind, missing, h)
          | inr (name, has_name) ↦
              let same : (kind, name) ≡ i = ground (arith, exact, has_kind, has_name, h) in
              subst (IsEntry (obj fs)) same (record {
                fields = fs;
                is_obj = refl;
                kind = as_text-text (get (str "kind") fs) kind has_kind;
                name = as_text-text (get (str "name") fs) name has_name;
                only = has_only-OnlyKeys _ fs (and_right _ _ exact);
              })
        ]
      ]
    ]
identity_of-IsEntry Json.null i h = cc
identity_of-IsEntry (Json.bool _) i h = cc
identity_of-IsEntry (Json.int _) i h = cc
identity_of-IsEntry (Json.float _) i h = cc
identity_of-IsEntry (text _) i h = cc
identity_of-IsEntry (Json.arr _) i h = cc

pub identities_of-AreEntries :
    (entries : List Json) (is : List Identity)
    → identities_of entries ≡ some is
    → AreEntries entries is
unfolding identities_of
identities_of-AreEntries [] is h = subst (AreEntries []) (some-injective h) tt
identities_of-AreEntries (entry ∷ rest) is h = elim (Option-cases (identity_of entry)) [
  | inl bad ↦ ground (arith, bad, h)
  | inr (i, good) ↦ elim (Option-cases (identities_of rest)) [
    | inl bad ↦ ground (arith, good, bad, h)
    | inr (later, all_good) ↦
        let same : (i ∷ later) ≡ is = ground (arith, good, all_good, h) in
        subst (AreEntries (entry ∷ rest)) same
          (identity_of-IsEntry entry i good, identities_of-AreEntries rest later all_good)
  ]
]
