-- ===== src/Python/Json/Unique.antt =====
-- Which documents the hook of `json.loads` lets pass.
use konnect_oidc_fapi2_keycl.Common.{
  ◌≡◌, ◌≢◌, ◌↔◌, refl, sym, ◌∙◌, inl, inr, Bool, true, false, ◌&&◌, ◌||◌, Option, none, some, arith,
  Bool-cases, and_left, and_right,
}
use konnect_oidc_fapi2_keycl.Python.Text.{Text, ◌==◌}
use konnect_oidc_fapi2_keycl.Python.Text.Laws.{==_iff}
use konnect_oidc_fapi2_keycl.Python.Json.{
  Json, null, bool, int, float, text, arr, obj, Items, nil, cons, Fields, end, field, has_key,
  add_field, unique_from, unique_object, is_unique, passes_hook, items_pass_hook, fields_pass_hook,
}

-- No field has the key.
abbrev pub IsAbsent : Text → Fields → Type 0
IsAbsent key end = Unit
IsAbsent key (field k _ fs) = (key ≢ k) × IsAbsent key fs

-- The keys of the fields are distinct.
abbrev pub AreOnce : Fields → Type 0
AreOnce end = Unit
AreOnce (field k _ fs) = IsAbsent k fs × AreOnce fs

-- No object of the document, at whatever depth, repeats a key.
unfoldable mutual
  pub NoRepeats : Json → Type 0
  NoRepeats null = Unit
  NoRepeats (bool b) = Unit
  NoRepeats (int n) = Unit
  NoRepeats (float n) = Unit
  NoRepeats (text t) = Unit
  NoRepeats (arr js) = NoItemRepeats js
  NoRepeats (obj fs) = NoFieldRepeats fs × AreOnce fs

  pub NoItemRepeats : Items → Type 0
  NoItemRepeats nil = Unit
  NoItemRepeats (cons j js) = NoRepeats j × NoItemRepeats js

  pub NoFieldRepeats : Fields → Type 0
  NoFieldRepeats end = Unit
  NoFieldRepeats (field _ v fs) = NoRepeats v × NoFieldRepeats fs

-- No key of the fields is one of the result so far.
abbrev AreNew : Fields → Fields → Type 0
AreNew result end = Unit
AreNew result (field k _ fs) = (has_key k result ≡ false) × AreNew result fs

has_key-add_field :
    (n k : Text) (v : Json) (result : Fields)
    → has_key n (add_field result k v) ≡ has_key n result || (k == n)
unfolding has_key
has_key-add_field n k v end = ground arith
has_key-add_field n k v (field j w fs) = ground (arith, has_key-add_field n k v fs)

contradiction : {b : Bool} → b ≡ false → b ≡ true → ⊥
contradiction e h = cc

differ : (k n : Text) → (k == n) ≡ false → k ≢ n
differ k n h e = contradiction h ((==_iff k n).1 e)

differ-eq : (k n : Text) → k ≢ n → (k == n) ≡ false
differ-eq k n h = elim (Bool-cases (k == n)) [
  | inl same ↦ absurd (h ((==_iff k n).0 same))
  | inr other ↦ other
]

-- A field added to the result: the later keys are new to it exactly if they are new to the result
-- and none is the key added.
AreNew-add_field :
    (k : Text) (v : Json) (result fs : Fields)
    → AreNew (add_field result k v) fs
    → AreNew result fs × IsAbsent k fs
AreNew-add_field k v result end h = (tt, tt)
AreNew-add_field k v result (field n _ fs) (h, hs) =
    let (new, absent) = AreNew-add_field k v result fs hs in
    let e = has_key-add_field n k v result in
    ((ground (arith, e, h), new), (differ k n (ground (arith, e, h)), absent))

add_field-AreNew :
    (k : Text) (v : Json) (result fs : Fields)
    → AreNew result fs
    → IsAbsent k fs
    → AreNew (add_field result k v) fs
add_field-AreNew k v result end new absent = tt
add_field-AreNew k v result (field n _ fs) (h, hs) (other, absent) =
    let e = has_key-add_field n k v result in
    let d = differ-eq k n other in
    (ground (arith, e, h, d), add_field-AreNew k v result fs hs absent)

abbrev is_some : Option Fields → Bool
is_some none = false
is_some (some _) = true

unique_from_sound :
    (result fs : Fields) → is_some (unique_from result fs) ≡ true → AreOnce fs × AreNew result fs
unfolding unique_from
unique_from_sound result end h = (tt, tt)
unique_from_sound result (field k v fs) h = elim (Bool-cases (has_key k result)) [
  | inl repeated ↦ ground (arith, repeated, h)
  | inr new ↦
      let (once, later) = unique_from_sound (add_field result k v) fs (ground (arith, new, h)) in
      let (news, absent) = AreNew-add_field k v result fs later in ((absent, once), (new, news))
]

unique_from_complete :
    (result fs : Fields) → AreOnce fs → AreNew result fs → is_some (unique_from result fs) ≡ true
unfolding unique_from
unique_from_complete result end once new = refl
unique_from_complete result (field k v fs) (absent, once) (new, news) =
    let later =
      unique_from_complete (add_field result k v) fs once
        (add_field-AreNew k v result fs news absent) in
    ground (arith, new, later)

new_to_end : (fs : Fields) → AreNew end fs
unfolding has_key
new_to_end end = tt
new_to_end (field _ _ fs) = (refl, new_to_end fs)

is_some-eq : (o : Option Fields) → (elim o [ none ↦ false | some _ ↦ true ]) ≡ is_some o
is_some-eq none = refl
is_some-eq (some _) = refl

is_unique_iff : (fs : Fields) → (is_unique fs ≡ true) ↔ AreOnce fs
unfolding unique_object
is_unique_iff fs = (
  λ h. (unique_from_sound end fs (sym (is_some-eq (unique_from end fs)) ∙ h)).0,
  λ once. is_some-eq (unique_from end fs) ∙ unique_from_complete end fs once (new_to_end fs),
)

mutual
  unfolding passes_hook NoRepeats

  passes_hook_sound : (j : Json) → passes_hook j ≡ true → NoRepeats j
  passes_hook_sound null h = tt
  passes_hook_sound (bool b) h = tt
  passes_hook_sound (int n) h = tt
  passes_hook_sound (float n) h = tt
  passes_hook_sound (text t) h = tt
  passes_hook_sound (arr js) h = items_pass_hook_sound js h
  passes_hook_sound (obj fs) h = (
    fields_pass_hook_sound fs (and_left (fields_pass_hook fs) (is_unique fs) h),
    (is_unique_iff fs).0 (and_right (fields_pass_hook fs) (is_unique fs) h),
  )

  items_pass_hook_sound : (js : Items) → items_pass_hook js ≡ true → NoItemRepeats js
  items_pass_hook_sound nil h = tt
  items_pass_hook_sound (cons j js) h = (
    passes_hook_sound j (and_left (passes_hook j) (items_pass_hook js) h),
    items_pass_hook_sound js (and_right (passes_hook j) (items_pass_hook js) h),
  )

  fields_pass_hook_sound : (fs : Fields) → fields_pass_hook fs ≡ true → NoFieldRepeats fs
  fields_pass_hook_sound end h = tt
  fields_pass_hook_sound (field k v fs) h = (
    passes_hook_sound v (and_left (passes_hook v) (fields_pass_hook fs) h),
    fields_pass_hook_sound fs (and_right (passes_hook v) (fields_pass_hook fs) h),
  )

both : {a b : Bool} → a ≡ true → b ≡ true → (a && b) ≡ true
both h k = ground (arith, h, k)

mutual
  unfolding passes_hook NoRepeats

  passes_hook_complete : (j : Json) → NoRepeats j → passes_hook j ≡ true
  passes_hook_complete null h = refl
  passes_hook_complete (bool b) h = refl
  passes_hook_complete (int n) h = refl
  passes_hook_complete (float n) h = refl
  passes_hook_complete (text t) h = refl
  passes_hook_complete (arr js) h = items_pass_hook_complete js h
  passes_hook_complete (obj fs) (h, once) =
      both (fields_pass_hook_complete fs h) ((is_unique_iff fs).1 once)

  items_pass_hook_complete : (js : Items) → NoItemRepeats js → items_pass_hook js ≡ true
  items_pass_hook_complete nil h = refl
  items_pass_hook_complete (cons j js) (h, hs) =
      both (passes_hook_complete j h) (items_pass_hook_complete js hs)

  fields_pass_hook_complete : (fs : Fields) → NoFieldRepeats fs → fields_pass_hook fs ≡ true
  fields_pass_hook_complete end h = refl
  fields_pass_hook_complete (field k v fs) (h, hs) =
      both (passes_hook_complete v h) (fields_pass_hook_complete fs hs)

-- The hook lets a document pass exactly if no object in it repeats a key.
pub passes_hook_iff : (j : Json) → (passes_hook j ≡ true) ↔ NoRepeats j
passes_hook_iff j = (passes_hook_sound j, passes_hook_complete j)
