-- ===== src/Deck/Complete.antt =====
-- The converse of what Entries and Order say: entries, sets and orders that are as described are
-- accepted by the tests of the code.
use konnect_oidc_fapi2_keycl.Common.{
  ◌≡◌, ◌≢◌, refl, sym, ap, subst, ◌∙◌, inl, inr, Bool, true, ◌&&◌, List, [], ◌∷◌, Option, none,
  some, all, arith, Bool-cases,
}
use konnect_oidc_fapi2_keycl.Python.Text.{Text, str, ◌==◌}
use konnect_oidc_fapi2_keycl.Python.Text.Laws.{==_iff, ==_refl}
use konnect_oidc_fapi2_keycl.Python.Json.{Json, Fields, end, field, get, has_key, keys, as_text}
use konnect_oidc_fapi2_keycl.Keycloak.Values.{has_only, is_member}
use konnect_oidc_fapi2_keycl.Deck.Identities.{
  Identity, same_identity, has_identity, same_identities, same_set, insert_by, sorted_by, sorted,
}
use konnect_oidc_fapi2_keycl.Deck.Scope.{identity_of, identities_of}
use konnect_oidc_fapi2_keycl.Deck.Entries.{IsEntry, AreEntries, IsOneOf, OnlyKeys}
use konnect_oidc_fapi2_keycl.Deck.Order.{IsIn, AreSame, IsOrdered}

both : {a b : Bool} → a ≡ true → b ≡ true → (a && b) ≡ true
both h k = ground (arith, h, k)

IsOneOf-is_member : (k : Text) (names : List Text) → IsOneOf k names → is_member k names ≡ true
unfolding is_member
IsOneOf-is_member k [] h = absurd h
IsOneOf-is_member k (name ∷ names) (inl e) =
    let same = (==_iff name k).1 (sym e) in ground (arith, same)
IsOneOf-is_member k (name ∷ names) (inr h) =
    let later = IsOneOf-is_member k names h in ground (arith, later)

pub OnlyKeys-has_only :
    (names : List Text) (fs : Fields) → OnlyKeys names fs → has_only names fs ≡ true
unfolding has_only keys
OnlyKeys-has_only names end h = refl
OnlyKeys-has_only names (field k v fs) (h, hs) =
    both (IsOneOf-is_member k names h) (OnlyKeys-has_only names fs hs)

pub get-has_key : (k : Text) (fs : Fields) → get k fs ≢ none → has_key k fs ≡ true
unfolding get has_key
get-has_key k end h = absurd (h refl)
get-has_key k (field j v fs) h = elim (Bool-cases (j == k)) [
  | inl same ↦ ground (arith, same)
  | inr other ↦
      let later = get-has_key k fs (λ e. h (ground (arith, other, e))) in ground (arith, later)
]

pub found_not_none : {A : Type 0} {o : Option A} {a : A} → o ≡ some a → o ≢ none
found_not_none e h = cc

abbrev with_kind : Text → Option Text → Option Identity
with_kind kind none = none
with_kind kind (some name) = some (kind, name)

IsEntry-identity_of : (entry : Json) (i : Identity) → IsEntry entry i → identity_of entry ≡ some i
IsEntry-identity_of entry i e =
    let only : has_only (str "kind" ∷ str "name" ∷ []) e.fields ≡ true =
      OnlyKeys-has_only (str "kind" ∷ str "name" ∷ []) e.fields e.only in
    let has_kind = get-has_key (str "kind") e.fields (found_not_none e.kind) in
    let has_name = get-has_key (str "name") e.fields (found_not_none e.name) in
    let kind : as_text (get (str "kind") e.fields) ≡ some i.0 = ap as_text e.kind in
    let name : as_text (get (str "name") e.fields) ≡ some i.1 = ap as_text e.name in
    ap identity_of e.is_obj ∙ simp (only, has_kind, has_name, kind) (ap (with_kind i.0) name)

pub AreEntries-identities_of :
    (entries : List Json) (is : List Identity)
    → AreEntries entries is
    → identities_of entries ≡ some is
unfolding identities_of
AreEntries-identities_of [] [] h = refl
AreEntries-identities_of [] (_ ∷ _) h = absurd h
AreEntries-identities_of (_ ∷ _) [] h = absurd h
AreEntries-identities_of (entry ∷ entries) (i ∷ is) (h, hs) =
    let first : identity_of entry ≡ some i = IsEntry-identity_of entry i h in
    let later : identities_of entries ≡ some is = AreEntries-identities_of entries is hs in
    ground (arith, first, later)

same_identity_refl : (i : Identity) → same_identity i i ≡ true
same_identity_refl (kind, name) = both (==_refl kind) (==_refl name)

IsIn-has_identity : (i : Identity) (js : List Identity) → IsIn i js → has_identity i js ≡ true
unfolding has_identity
IsIn-has_identity i [] h = absurd h
IsIn-has_identity i (j ∷ js) (inl e) =
    let same : same_identity j i ≡ true =
      subst (λ x. same_identity j x ≡ true) e (same_identity_refl j) in
    ground (arith, same)
IsIn-has_identity i (j ∷ js) (inr h) = let later = IsIn-has_identity i js h in ground (arith, later)

all-has_identity :
    (is js : List Identity)
    → ((i : Identity) → IsIn i is → IsIn i js)
    → all (λ i. has_identity i js) is ≡ true
all-has_identity [] js h = refl
all-has_identity (i ∷ is) js h =
    both (IsIn-has_identity i js (h i (inl refl)))
      (all-has_identity is js (λ x member. h x (inr member)))

pub AreSame-same_set : (is js : List Identity) → AreSame is js → same_set is js ≡ true
unfolding same_set
AreSame-same_set is js h =
    both (all-has_identity is js (λ i. (h i).0)) (all-has_identity js is (λ i. (h i).1))

same_identities_refl : (is : List Identity) → same_identities is is ≡ true
unfolding same_identities
same_identities_refl [] = refl
same_identities_refl (i ∷ is) = both (same_identity_refl i) (same_identities_refl is)

IsOrdered-sorted : (is : List Identity) → IsOrdered is → sorted is ≡ is
unfolding sorted sorted_by insert_by
IsOrdered-sorted [] h = refl
IsOrdered-sorted (i ∷ []) h = refl
IsOrdered-sorted (i ∷ j ∷ is) (h, hs) =
    ap (insert_by (λ x. x) i) (IsOrdered-sorted (j ∷ is) hs) ∙ simp (h)

pub IsOrdered-same_identities :
    (is : List Identity) → IsOrdered is → same_identities is (sorted is) ≡ true
IsOrdered-same_identities is h =
    subst (λ x. same_identities is x ≡ true) (sym (IsOrdered-sorted is h)) (same_identities_refl is)
