-- ===== src/Backend/Allowlist/Consistent.antt =====
-- The last tests of the projection on a result with all its fields.
use konnect_oidc_fapi2_keycl.Common.{
  ◌≡◌, refl, Bool, true, false, not, ◌&&◌, ◌||◌, Option, none, some, [], ◌∷◌, arith,
}
use konnect_oidc_fapi2_keycl.Python.Text.{Text, str, ◌==◌}
use konnect_oidc_fapi2_keycl.Python.Text.Laws.{==_iff, ==_refl, truthy_iff}
use konnect_oidc_fapi2_keycl.Python.Json.{bool, text, get, dict}
use konnect_oidc_fapi2_keycl.Backend.Config.{Expected}
use konnect_oidc_fapi2_keycl.Backend.Project.{
  Items, is_consistent_binding, is_consistent_headers, truthy_value, same_value,
}
use konnect_oidc_fapi2_keycl.Backend.Allowlist.{or_null, IsMatching}

-- The thirteen fields before the two thumbprints of the binding are compared.
abbrev pub fields_of :
    Expected
    → Option Text
    → Option Text
    → Option Text
    → Option Text
    → Text
    → Text
    → Text
    → Bool
    → Items
fields_of expected a b c d t f p m =
    (str "route", text expected.route)
    ∷ (str "azp", text expected.azp)
    ∷ (str "client_authentication", text expected.client_authentication)
    ∷ (str "department", or_null a)
    ∷ (str "logical_route", or_null b)
    ∷ (str "department_header", or_null c)
    ∷ (str "logical_route_header", or_null d)
    ∷ (str "token_certificate_thumbprint", text t)
    ∷ (str "forwarded_client_certificate_thumbprint", text f)
    ∷ (str "api_gateway_tls_peer_certificate_thumbprint", text p)
    ∷ (str "token_signature_verified", bool true)
    ∷ (str "binding_verified", bool true)
    ∷ (str "header_claims_match", bool m)
    ∷ []

module _ (expected : Expected) (a b c d : Option Text) (t f p : Text) (m : Bool) where
  pub binding_of : is_consistent_binding (dict (fields_of expected a b c d t f p m)) ≡ (t == f)
  unfolding is_consistent_binding dict get str ◌==◌
  binding_of = refl

  pub headers_of : is_consistent_headers (dict (fields_of expected a b c d t f p m)) ≡ (
      not m
      || (truthy_value (some (or_null a))
          && (truthy_value (some (or_null b))
              && (truthy_value (some (or_null c)) && (truthy_value (some (or_null d)) && true))))
        && same_value (some (or_null a)) (some (or_null c))
        && same_value (some (or_null b)) (some (or_null d)))
  unfolding is_consistent_headers dict get str ◌==◌
  headers_of = refl

abbrev pub match_test : Bool → Option Text → Option Text → Option Text → Option Text → Bool
match_test m a b c d =
    not m
    || (truthy_value (some (or_null a))
        && (truthy_value (some (or_null b))
            && (truthy_value (some (or_null c)) && (truthy_value (some (or_null d)) && true))))
      && same_value (some (or_null a)) (some (or_null c))
      && same_value (some (or_null b)) (some (or_null d))

pub match_test_sound :
    (m : Bool) (a b c d : Option Text)
    → match_test m a b c d ≡ true
    → IsMatching m a c × IsMatching m b d
match_test_sound false a b c d h = (tt, tt)
match_test_sound true (some a) (some b) (some c) (some d) h = (
  (a, (truthy_iff a).0 (ground arith), refl, ground (arith, ==_iff a c)),
  (b, (truthy_iff b).0 (ground arith), refl, ground (arith, ==_iff b d)),
)
match_test_sound true none b c d h = ground arith
match_test_sound true (some a) none c d h = ground arith
match_test_sound true (some a) (some b) none d h = ground arith
match_test_sound true (some a) (some b) (some c) none h = ground arith

pub match_test_complete :
    (m : Bool) (a b c d : Option Text)
    → IsMatching m a c
    → IsMatching m b d
    → match_test m a b c d ≡ true
match_test_complete false a b c d p q = refl
match_test_complete true a b c d (s, ns, ea, ec) (t, nt, eb, ed) =
    rw (ea, ec, eb, ed) (simp ((truthy_iff s).1 ns, (truthy_iff t).1 nt, ==_refl s, ==_refl t))
