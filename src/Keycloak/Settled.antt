-- ===== src/Keycloak/Settled.antt =====
-- What holds of the live realm where realm_admin_payload finds nothing to change.
use konnect_oidc_fapi2_keycl.Common.{
  ◌≡◌, inl, inr, sym, subst, ◌∙◌, Bool, true, false, some, List, [], ◌∷◌, All, ok, >>=-eq-ok,
  or_raise-bind, require-bind, ok-injective, Bool-cases, if◌then◌else◌,
}
use konnect_oidc_fapi2_keycl.Python.Text.{Text, str, ◌==◌}
use konnect_oidc_fapi2_keycl.Python.Json.{
  Json, null, obj, arr, nil, Fields, end, field, get, as_object,
}
use konnect_oidc_fapi2_keycl.Python.Json.Equality.{json_eq}
use konnect_oidc_fapi2_keycl.Keycloak.Values.{has_all, put, value_or, to_items, realm_admin_fields}
use konnect_oidc_fapi2_keycl.Keycloak.Merge.{
  changed, same_in, plain_payload, merge_group, merge_named_entries, realm_admin_payload,
}
use konnect_oidc_fapi2_keycl.Keycloak.Managed.{IsMerge, merge_named_entries-IsMerge}
use konnect_oidc_fapi2_keycl.Keycloak.Changed.{AllFields, candidate}

-- The live realm has the value in the field, where a missing field counts as null.
abbrev pub IsValue : Fields → Text → Json → Type 0
IsValue live name value = json_eq (value_or (get name live) null) value ≡ true

not_end : {k : Text} {v : Json} {fs : Fields} → field k v fs ≡ end → ⊥
not_end h = cc

chosen_first :
    {A : Type 0} (b : Bool) (x y : A) {z : A} → b ≡ true → (if b then x else y) ≡ z → x ≡ z
chosen_first true x y e h = h
chosen_first false x y e h = cc

chosen_second :
    {A : Type 0} (b : Bool) (x y : A) {z : A} → b ≡ false → (if b then x else y) ≡ z → y ≡ z
chosen_second false x y e h = h
chosen_second true x y e h = cc

some-injective : {A : Type 0} {a b : A} → some a ≡ some b → a ≡ b
some-injective h = cc

unchanged-AllFields :
    (live payload : Fields) → changed live payload ≡ end → AllFields (IsValue live) payload
unfolding changed
unchanged-AllFields live end h = tt
unchanged-AllFields live (field name value payload) h =
    elim (Bool-cases (same_in live name value)) [
      | inl same ↦ (same, unchanged-AllFields live payload (chosen_first _ _ _ same h))
      | inr other ↦ absurd (not_end (chosen_second _ _ _ other h))
    ]

-- The plain fields of the realm that are managed.
abbrev pub plain_names : List Text
plain_names =
    str "realm"
    ∷ str "enabled"
    ∷ str "sslRequired"
    ∷ str "defaultSignatureAlgorithm"
    ∷ str "accessCodeLifespan"
    ∷ str "revokeRefreshToken"
    ∷ str "refreshTokenMaxReuse"
    ∷ []

-- A group of named entries, the collection in a field: what merging the desired entries into the
-- live ones gives is what is there.
pub record IsGroupSettled (live wanted : Fields) (name collection label : Text) : Type 0 where
  pub group : Fields
  pub desired : Fields
  pub merged : List Json
  pub is_group : as_object (value_or (get name live) (obj end)) ≡ some group
  pub is_desired : as_object (value_or (get name wanted) null) ≡ some desired
  pub is_merge :
      IsMerge
        (value_or (get collection group) (arr nil))
        (value_or (get collection desired) (arr nil))
        label
        merged
  pub is_same : IsValue live name (obj (put collection (arr (to_items merged)) group))

merge_group-IsGroupSettled :
    (live wanted merged : Fields) (name collection label : Text)
    → merge_group live wanted name collection label ≡ ok merged
    → IsValue live name (obj merged)
    → IsGroupSettled live wanted name collection label
unfolding merge_group
merge_group-IsGroupSettled live wanted merged name collection label h same =
    let (group, is_group, h₁) =
      or_raise-bind (as_object (value_or (get name live) (obj end))) _ _ h in
    let (desired, is_desired, h₂) =
      or_raise-bind (as_object (value_or (get name wanted) null)) _ _ h₁ in
    let (result, is_result, h₃) =
      >>=-eq-ok
        (merge_named_entries (value_or (get collection group) (arr nil))
          (value_or (get collection desired) (arr nil)) label)
        _ h₂ in
    record {
      group = group;
      desired = desired;
      merged = result;
      is_group = is_group;
      is_desired = is_desired;
      is_merge = merge_named_entries-IsMerge _ _ label result is_result;
      is_same = subst (λ x. IsValue live name (obj x)) (sym (ok-injective h₃)) same;
    }

-- No managed field of the live realm differs from the desired realm.
pub record IsRealmSettled (live : Fields) (desired : Json) : Type 0 where
  pub wanted : Fields
  pub is_wanted : as_object desired ≡ some wanted
  pub plain : All (λ name. IsValue live name (value_or (get name wanted) null)) plain_names
  pub policies :
      IsGroupSettled live wanted (str "clientPolicies") (str "policies") (str "client policy")
  pub profiles :
      IsGroupSettled live wanted (str "clientProfiles") (str "profiles") (str "client profile")

settled_fields :
    (live wanted : Fields) (policies profiles : Json)
    → AllFields (IsValue live) (candidate wanted policies profiles)
    → All (λ name. IsValue live name (value_or (get name wanted) null)) plain_names
      × IsValue live (str "clientPolicies") policies
      × IsValue live (str "clientProfiles") profiles
unfolding put plain_payload str ◌==◌
settled_fields live wanted policies profiles (a, (b, (c, (d, (e, (f, (g, (h, (i, _))))))))) =
    ((a, (b, (c, (d, (e, (f, (g, tt))))))), h, i)

pub realm_admin_payload-IsRealmSettled :
    (current desired : Json) (live : Fields)
    → as_object current ≡ some live
    → realm_admin_payload current desired ≡ ok end
    → IsRealmSettled live desired
unfolding realm_admin_payload
realm_admin_payload-IsRealmSettled current desired live is_live h =
    let (found, is_found, h₁) = or_raise-bind (as_object current) _ _ h in
    let (wanted, is_wanted, h₂) = or_raise-bind (as_object desired) _ _ h₁ in
    let (_, h₃) = require-bind (has_all realm_admin_fields wanted) _ _ h₂ in
    let (policies, h_policies, h₄) =
      >>=-eq-ok
        (merge_group found wanted (str "clientPolicies") (str "policies") (str "client policy")) _
        h₃ in
    let (profiles, h_profiles, h₅) =
      >>=-eq-ok
        (merge_group found wanted (str "clientProfiles") (str "profiles") (str "client profile")) _
        h₄ in
    let (plain, same_policies, same_profiles) =
      settled_fields found wanted (obj policies) (obj profiles)
        (unchanged-AllFields found _ (ok-injective h₅)) in
    let settled : IsRealmSettled found desired = record {
      wanted = wanted;
      is_wanted = is_wanted;
      plain = plain;
      policies = merge_group-IsGroupSettled found wanted policies _ _ _ h_policies same_policies;
      profiles = merge_group-IsGroupSettled found wanted profiles _ _ _ h_profiles same_profiles;
    } in
    subst (λ x. IsRealmSettled x desired) (some-injective (sym is_found ∙ is_live)) settled
