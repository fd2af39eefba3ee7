-- ===== src/Deck/Order.antt =====
-- The identities as sets, and their order: same_set and sorted.
use konnect_oidc_fapi2_keycl.Common.{
  ◌≡◌, ◌↔◌, ◌⊎◌, refl, ap, subst, ◌∙◌, inl, inr, Bool, true, false, List, [], ◌∷◌, all, arith,
  and_left, and_right, Bool-cases, if◌then◌else◌,
}
use konnect_oidc_fapi2_keycl.Python.Text.{Text, ◌==◌}
use konnect_oidc_fapi2_keycl.Python.Text.Laws.{==_iff}
use konnect_oidc_fapi2_keycl.Deck.Identities.{
  Identity, same_identity, has_identity, same_identities, same_set, text_before, identity_before,
  insert_by, sorted_by, sorted,
}

abbrev pub IsIn : Identity → List Identity → Type 0
IsIn i [] = ⊥
IsIn i (j ∷ js) = (j ≡ i) ⊎ IsIn i js

-- The identities in one list are those in the other.
abbrev pub AreSame : List Identity → List Identity → Type 0
AreSame is js = (i : Identity) → IsIn i is ↔ IsIn i js

-- No identity comes before the one that precedes it: by the kind, and by the name in a kind.
abbrev pub IsOrdered : List Identity → Type 0
IsOrdered [] = Unit
IsOrdered (i ∷ []) = Unit
IsOrdered (i ∷ j ∷ rest) = (identity_before i j ≡ true) × IsOrdered (j ∷ rest)

same_identity-eq : (i j : Identity) → same_identity i j ≡ true → i ≡ j
same_identity-eq (kind, name) (k, n) h =
    ap (λ x. (x, name)) ((==_iff kind k).0 (and_left _ _ h))
    ∙ ap (λ x. (k, x)) ((==_iff name n).0 (and_right (kind == k) _ h))

has_identity-IsIn : (i : Identity) (js : List Identity) → has_identity i js ≡ true → IsIn i js
unfolding has_identity
has_identity-IsIn i [] h = cc
has_identity-IsIn i (j ∷ js) h = elim (Bool-cases (same_identity j i)) [
  | inl same ↦ inl (same_identity-eq j i same)
  | inr other ↦ inr (has_identity-IsIn i js (ground (arith, other, h)))
]

all-IsIn :
    (is js : List Identity) (i : Identity)
    → all (λ x. has_identity x js) is ≡ true
    → IsIn i is
    → IsIn i js
all-IsIn [] js i h member = absurd member
all-IsIn (x ∷ is) js i h (inl same) =
    subst (λ y. IsIn y js) same (has_identity-IsIn x js (and_left _ _ h))
all-IsIn (x ∷ is) js i h (inr member) = all-IsIn is js i (and_right (has_identity x js) _ h) member

pub same_set-AreSame : (is js : List Identity) → same_set is js ≡ true → AreSame is js
unfolding same_set
same_set-AreSame is js h i = (
  all-IsIn is js i (and_left _ _ h),
  all-IsIn js is i (and_right (all (λ x. has_identity x js) is) _ h),
)

pub same_identities-eq : (is js : List Identity) → same_identities is js ≡ true → is ≡ js
unfolding same_identities
same_identities-eq [] [] h = refl
same_identities-eq [] (_ ∷ _) h = cc
same_identities-eq (_ ∷ _) [] h = cc
same_identities-eq (i ∷ is) (j ∷ js) h =
    ap (λ x. x ∷ is) (same_identity-eq i j (and_left _ _ h))
    ∙ ap (λ x. j ∷ x) (same_identities-eq is js (and_right (same_identity i j) _ h))

text_before_total : (s t : Text) → text_before s t ≡ false → text_before t s ≡ true
unfolding text_before
text_before_total [] t h = cc
text_before_total (x ∷ s) [] h = refl
text_before_total (x ∷ s) (y ∷ t) h =
    let later : text_before s t ≡ false → text_before t s ≡ true = text_before_total s t in
    elim (Bool-cases (text_before s t)) [
      | inl before ↦ ground (arith, before, h)
      | inr after ↦ let e = later after in ground (arith, after, e, h)
    ]

identity_before_total : (i j : Identity) → identity_before i j ≡ false → identity_before j i ≡ true
unfolding identity_before
identity_before_total (kind, name) (k, n) h = elim (Bool-cases (kind == k)) [
  | inl same ↦
      let e = text_before_total name n (ground (arith, same, h)) in
      ground (arith, same, e, ==_iff kind k, ==_iff k kind)
  | inr other ↦
      let e = text_before_total kind k (ground (arith, other, h)) in
      ground (arith, other, e, ==_iff kind k, ==_iff k kind)
]

abbrev itself : Identity → Identity
itself i = i

after_head_by :
    (b : Bool) (i j k : Identity) (rest inserted : List Identity)
    → identity_before j k ≡ true
    → identity_before j i ≡ true
    → IsOrdered (if b then i ∷ k ∷ rest else k ∷ inserted)
    → IsOrdered (j ∷ (if b then i ∷ k ∷ rest else k ∷ inserted))
after_head_by true i j k rest inserted first total ordered = (total, ordered)
after_head_by false i j k rest inserted first total ordered = (first, ordered)

after_head :
    (i j k : Identity) (rest : List Identity)
    → identity_before j k ≡ true
    → identity_before j i ≡ true
    → IsOrdered (insert_by itself i (k ∷ rest))
    → IsOrdered (j ∷ insert_by itself i (k ∷ rest))
unfolding insert_by
after_head i j k rest first total =
    after_head_by (identity_before i k) i j k rest (insert_by itself i rest) first total

insert_by-IsOrdered :
    (i : Identity) (is : List Identity) → IsOrdered is → IsOrdered (insert_by itself i is)
unfolding insert_by
insert_by-IsOrdered i [] ordered = tt
insert_by-IsOrdered i (j ∷ []) ordered = elim (Bool-cases (identity_before i j)) [
  | inl before ↦ rw before (before, tt)
  | inr after ↦ rw after (identity_before_total i j after, tt)
]
insert_by-IsOrdered i (j ∷ k ∷ rest) (first, ordered) = elim (Bool-cases (identity_before i j)) [
  | inl before ↦ rw before (before, (first, ordered))
  | inr after ↦
      let later : IsOrdered (insert_by itself i (k ∷ rest)) =
        insert_by-IsOrdered i (k ∷ rest) ordered in
      rw after (after_head i j k rest first (identity_before_total i j after) later)
]

pub sorted-IsOrdered : (is : List Identity) → IsOrdered (sorted is)
unfolding sorted sorted_by
sorted-IsOrdered [] = tt
sorted-IsOrdered (i ∷ is) = insert_by-IsOrdered i _ (sorted-IsOrdered is)
