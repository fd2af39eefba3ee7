-- ===== src/Backend/Allowlist/Exact.antt =====
-- The projection accepts exactly the documents that hold evidence of the expected route.
use konnect_oidc_fapi2_keycl.Common.{
  ◌≡◌, ◌↔◌, refl, sym, ap, ◌∙◌, subst, All-append, ok-injective, Bool, true, Option, none, some,
  ◌++◌, arith, ok, >>=-eq-ok, require-bind,
}
use konnect_oidc_fapi2_keycl.Python.Text.{Text, str}
use konnect_oidc_fapi2_keycl.Python.Text.Laws.{==_iff, ==_refl}
use konnect_oidc_fapi2_keycl.Python.Json.{Fields, bool, text, dict}
use konnect_oidc_fapi2_keycl.Backend.Config.{
  Expected, text_fields, thumbprint_fields, verification_fields, invalid_text, invalid_thumbprint,
  invalid_verification,
}
use konnect_oidc_fapi2_keycl.Backend.Project.{
  Items, identity_of, identity_fields, copy_fields, valid_text, valid_thumbprint,
  valid_verification, is_thumbprint, is_consistent_binding, is_consistent_headers, project_object,
}
use konnect_oidc_fapi2_keycl.Backend.Allowlist.{
  Evidence, or_null, evidence_items, HasItems, IsSafeText, IsThumbprint, IsEvidence,
}
use konnect_oidc_fapi2_keycl.Backend.Allowlist.Steps.{
  identity_sound, texts_sound, thumbprints_sound, verifications_sound, signature_name, binding_name,
}
use konnect_oidc_fapi2_keycl.Backend.Allowlist.Consistent.{
  fields_of, binding_of, headers_of, match_test_sound, match_test_complete,
}

valid_text-or_null :
    (t : Option Text) → IsSafeText t → valid_text (some (or_null t)) ≡ some (or_null t)
unfolding valid_text
valid_text-or_null none s = refl
valid_text-or_null (some t) s = ground arith

valid_thumbprint-text :
    (t : Text) → IsThumbprint t → valid_thumbprint (some (text t)) ≡ some (text t)
unfolding valid_thumbprint is_thumbprint
valid_thumbprint-text t s = ground arith

verification_signature :
    valid_verification (str "token_signature_verified") (some (bool true)) ≡ some (bool true)
unfolding valid_verification
verification_signature = rw signature_name

verification_binding :
    valid_verification (str "binding_verified") (some (bool true)) ≡ some (bool true)
unfolding valid_verification
verification_binding = rw binding_name

verification_match :
    (m : Bool) → valid_verification (str "header_claims_match") (some (bool m)) ≡ some (bool m)
unfolding valid_verification
verification_match m = rw (==_refl (str "header_claims_match"))

-- The evidence `e` stands in the document, is well formed, and names the expected route.
pub record Holds (source : Fields) (expected : Expected) (e : Evidence) : Type 0 where
  pub present : HasItems source (evidence_items expected e)
  pub well_formed : IsEvidence e

module _ (source : Fields) (expected : Expected) where
  parts :
      (result : Items)
      → project_object source expected ≡ ok result
      → (i ts ps vs : Items) × (identity_fields source (identity_of expected) ≡ ok i)
        × (copy_fields (λ _. valid_text) invalid_text source text_fields ≡ ok ts)
        × (copy_fields (λ _. valid_thumbprint) invalid_thumbprint source thumbprint_fields ≡ ok ps)
        × (copy_fields valid_verification invalid_verification source verification_fields ≡ ok vs)
        × (is_consistent_binding (dict (i ++ ts ++ ps ++ vs)) ≡ true)
        × (is_consistent_headers (dict (i ++ ts ++ ps ++ vs)) ≡ true)
        × (i ++ ts ++ ps ++ vs ≡ result)
  unfolding project_object
  parts result h =
      let (i, hi, h1) = >>=-eq-ok (identity_fields source (identity_of expected)) _ h in
      let (ts, ht, h2) =
        >>=-eq-ok (copy_fields (λ _. valid_text) invalid_text source text_fields) _ h1 in
      let (ps, hp, h3) =
        >>=-eq-ok (copy_fields (λ _. valid_thumbprint) invalid_thumbprint source thumbprint_fields)
          _ h2 in
      let (vs, hv, h4) =
        >>=-eq-ok (copy_fields valid_verification invalid_verification source verification_fields) _
          h3 in
      let (binding, h5) =
        require-bind (is_consistent_binding (dict (i ++ ts ++ ps ++ vs))) _ _ h4 in
      let (headers, h6) =
        require-bind (is_consistent_headers (dict (i ++ ts ++ ps ++ vs))) _ _ h5 in
      (i, ts, ps, vs, hi, ht, hp, hv, binding, headers, ok-injective h6)

  -- The fields copied, the tests on them give the rest.
  assemble :
      (a b c d : Option Text) (t f p : Text) (m : Bool)
      → HasItems source (fields_of expected a b c d t f p m)
      → IsSafeText a
      → IsSafeText b
      → IsSafeText c
      → IsSafeText d
      → IsThumbprint t
      → IsThumbprint p
      → is_consistent_binding (dict (fields_of expected a b c d t f p m)) ≡ true
      → is_consistent_headers (dict (fields_of expected a b c d t f p m)) ≡ true
      → (e : Evidence) × Holds source expected e
        × (fields_of expected a b c d t f p m ≡ evidence_items expected e)
  assemble a b c d t f p m present sa sb sc sd st sp binding headers =
      let same : t ≡ f = (==_iff t f).0 (sym (binding_of expected a b c d t f p m) ∙ binding) in
      let (match_a, match_b) =
        match_test_sound m a b c d (sym (headers_of expected a b c d t f p m) ∙ headers) in
      let again : f ≡ t = sym same in
      (
        record {
          department = a;
          logical_route = b;
          department_header = c;
          logical_route_header = d;
          thumbprint = t;
          peer_thumbprint = p;
          header_claims_match = m;
        },
        record {
          present = subst (λ x. HasItems source (fields_of expected a b c d t x p m)) again present;
          well_formed = record {
            department = sa;
            logical_route = sb;
            department_header = sc;
            logical_route_header = sd;
            thumbprint = st;
            peer_thumbprint = sp;
            department_match = match_a;
            route_match = match_b;
          };
        },
        ap (λ x. fields_of expected a b c d t x p m) again,
      )

  join :
      {i ts ps vs i' ts' ps' vs' : Items}
      → i ≡ i'
      → ts ≡ ts'
      → ps ≡ ps'
      → vs ≡ vs'
      → i ++ ts ++ ps ++ vs ≡ i' ++ ts' ++ ps' ++ vs'
  join p q r s = cc

  project_object_sound :
      (result : Items)
      → project_object source expected ≡ ok result
      → (e : Evidence) × Holds source expected e × (result ≡ evidence_items expected e)
  project_object_sound result h =
      let (i, ts, ps, vs, hi, ht, hp, hv, binding, headers, last) = parts result h in
      let (shape_i, has_i) = identity_sound source expected i hi in
      let (a, b, c, d, shape_t, has_t, sa, sb, sc, sd) = texts_sound source ts ht in
      let (t, f, p, shape_p, has_p, st, sf, sp) = thumbprints_sound source ps hp in
      let (m, shape_v, has_v) = verifications_sound source vs hv in
      let whole : i ++ ts ++ ps ++ vs ≡ fields_of expected a b c d t f p m =
        join shape_i shape_t shape_p shape_v in
      let present : HasItems source (fields_of expected a b c d t f p m) =
        subst (HasItems source) whole (
          All-append _ (i ++ ts ++ ps) vs
            (All-append _ (i ++ ts) ps (All-append _ i ts has_i has_t) has_p) has_v) in
      let (e, holds, shape) =
        assemble a b c d t f p m present sa sb sc sd st sp
          (subst (λ x. is_consistent_binding (dict x) ≡ true) whole binding)
          (subst (λ x. is_consistent_headers (dict x) ≡ true) whole headers) in
      (e, holds, sym last ∙ whole ∙ shape)

  project_object_complete :
      (e : Evidence)
      → Holds source expected e
      → project_object source expected ≡ ok (evidence_items expected e)
  unfolding project_object identity_fields copy_fields
  project_object_complete e h =
      let w = h.well_formed in
      simp (
        h.present.0,
        h.present.1.0,
        h.present.1.1.0,
        h.present.1.1.1.0,
        h.present.1.1.1.1.0,
        h.present.1.1.1.1.1.0,
        h.present.1.1.1.1.1.1.0,
        h.present.1.1.1.1.1.1.1.0,
        h.present.1.1.1.1.1.1.1.1.0,
        h.present.1.1.1.1.1.1.1.1.1.0,
        h.present.1.1.1.1.1.1.1.1.1.1.0,
        h.present.1.1.1.1.1.1.1.1.1.1.1.0,
        h.present.1.1.1.1.1.1.1.1.1.1.1.1.0,
        ==_refl expected.route,
        ==_refl expected.azp,
        ==_refl expected.client_authentication,
        valid_text-or_null e.department w.department,
        valid_text-or_null e.logical_route w.logical_route,
        valid_text-or_null e.department_header w.department_header,
        valid_text-or_null e.logical_route_header w.logical_route_header,
        valid_thumbprint-text e.thumbprint w.thumbprint,
        valid_thumbprint-text e.peer_thumbprint w.peer_thumbprint,
        verification_signature,
        verification_binding,
        verification_match e.header_claims_match,
        binding_of expected e.department e.logical_route e.department_header e.logical_route_header
            e.thumbprint e.thumbprint e.peer_thumbprint e.header_claims_match,
        ==_refl e.thumbprint,
        headers_of expected e.department e.logical_route e.department_header e.logical_route_header
            e.thumbprint e.thumbprint e.peer_thumbprint e.header_claims_match,
        match_test_complete e.header_claims_match e.department e.logical_route e.department_header
            e.logical_route_header w.department_match w.route_match,
      )

-- A parsed object is projected to a result exactly when it holds well-formed evidence of the
-- expected route, and the result is the thirteen fields of that evidence and nothing else.
pub project_object_iff :
    (source : Fields) (expected : Expected) (result : Items)
    → (project_object source expected ≡ ok result)
      ↔ ((e : Evidence) × Holds source expected e × (result ≡ evidence_items expected e))
project_object_iff source expected result = (
  project_object_sound source expected result,
  λ (e, holds, shape). rw shape (project_object_complete source expected e holds),
)
