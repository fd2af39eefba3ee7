-- ===== src/Keycloak/Changed.antt =====
-- What realm_admin_payload sends to the realm.
use konnect_oidc_fapi2_keycl.Common.{
  ◌≡◌, inl, inr, refl, subst, true, false, some, ok, >>=-eq-ok, or_raise-bind, require-bind,
  ok-injective, Bool-cases,
}
use konnect_oidc_fapi2_keycl.Python.Text.{Text, str, ◌==◌}
use konnect_oidc_fapi2_keycl.Python.Json.{Json, obj, Fields, end, field, as_object}
use konnect_oidc_fapi2_keycl.Keycloak.Values.{
  is_member, has_all, put, realm_plain_fields, realm_admin_fields,
}
use konnect_oidc_fapi2_keycl.Keycloak.Merge.{
  changed, same_in, plain_payload, merge_group, realm_admin_payload,
}

abbrev pub AllFields : (Text → Json → Type 0) → Fields → Type 0
AllFields P end = Unit
AllFields P (field k v fs) = P k v × AllFields P fs

abbrev pub IsManaged : Text → Json → Type 0
IsManaged name value = is_member name realm_admin_fields ≡ true

-- A managed field whose live value is another one.
abbrev pub IsChange : Fields → Text → Json → Type 0
IsChange live name value = IsManaged name value × (same_in live name value ≡ false)

changed-AllFields :
    (live payload : Fields)
    → AllFields IsManaged payload
    → AllFields (IsChange live) (changed live payload)
unfolding changed
changed-AllFields live end p = tt
changed-AllFields live (field name value payload) (p, ps) =
    elim (Bool-cases (same_in live name value)) [
      | inl same ↦ rw same (changed-AllFields live payload ps)
      | inr other ↦ rw other ((p, other), changed-AllFields live payload ps)
    ]

-- The fields before those that did not change are left out.
abbrev pub candidate : Fields → Json → Json → Fields
candidate wanted policies profiles =
    put (str "clientProfiles") profiles
      (put (str "clientPolicies") policies (plain_payload realm_plain_fields wanted))

candidate-IsManaged :
    (wanted : Fields) (policies profiles : Json)
    → AllFields IsManaged (candidate wanted policies profiles)
unfolding put plain_payload is_member str ◌==◌
candidate-IsManaged wanted policies profiles =
    (refl, (refl, (refl, (refl, (refl, (refl, (refl, (refl, (refl, tt)))))))))

-- Every field of the payload for the realm is one of the managed fields, and its live value is
-- another one.
pub realm_admin_payload-IsChange :
    (current desired : Json) (payload : Fields)
    → realm_admin_payload current desired ≡ ok payload
    → (live : Fields) × (as_object current ≡ some live) × AllFields (IsChange live) payload
unfolding realm_admin_payload
realm_admin_payload-IsChange current desired payload h =
    let (live, is_live, h₁) = or_raise-bind (as_object current) _ _ h in
    let (wanted, is_wanted, h₂) = or_raise-bind (as_object desired) _ _ h₁ in
    let (complete, h₃) = require-bind (has_all realm_admin_fields wanted) _ _ h₂ in
    let (policies, h_policies, h₄) =
      >>=-eq-ok
        (merge_group live wanted (str "clientPolicies") (str "policies") (str "client policy")) _
        h₃ in
    let (profiles, h_profiles, h₅) =
      >>=-eq-ok
        (merge_group live wanted (str "clientProfiles") (str "profiles") (str "client profile")) _
        h₄ in
    (
      live,
      is_live,
      subst (AllFields (IsChange live)) (ok-injective h₅)
          (changed-AllFields live _ (candidate-IsManaged wanted (obj policies) (obj profiles))),
    )
