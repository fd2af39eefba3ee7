-- ===== src/Verifier/Claims.antt =====
-- When an access token is accepted.
use konnect_oidc_fapi2_keycl.Common.{
  ◌≡◌, ◌≢◌, ◌∙◌, ◌↔◌, ◌⊎◌, refl, true, Option, none, some, List, [], ◌∷◌, arith, All, ok,
  or_raise-bind, require-bind,
}
use konnect_oidc_fapi2_keycl.Python.Text.{Text, str, split_words, truthy}
use konnect_oidc_fapi2_keycl.Python.Text.Laws.{==_iff, truthy_iff}
use konnect_oidc_fapi2_keycl.Python.Json.{Json, Fields, text, obj, get, as_text}
use konnect_oidc_fapi2_keycl.Verifier.Config.{Config, Platform, azp_routes, is_member}
use konnect_oidc_fapi2_keycl.Verifier.Token.{
  verify_access_token, jwt_options, is_subset, member_of, known_azp,
}

abbrev pub Listed : Text → List Text → Type 0
Listed t [] = ⊥
Listed t (s ∷ ss) = (t ≡ s) ⊎ Listed t ss

pub is_member_iff : (t : Text) (ss : List Text) → (is_member t ss ≡ true) ↔ Listed t ss
unfolding is_member
is_member_iff t [] = (λ h. cc, λ h. absurd h)
is_member_iff t (s ∷ ss) = ground (arith, ==_iff s t, is_member_iff t ss)

pub is_subset_iff :
    (required granted : List Text)
    → (is_subset required granted ≡ true) ↔ All (λ scope. Listed scope granted) required
unfolding is_subset
is_subset_iff [] granted = ground arith
is_subset_iff (s ∷ ss) granted = ground (arith, is_member_iff s granted, is_subset_iff ss granted)

-- The claims `claims` of a token whose signature, times, issuer and audience the library has
-- checked: they grant every required scope, name a known client and bind the token to a thumbprint.
pub record IsAccepted (config : Config) (platform : Platform) (token : Text) (claims : Fields)
    (thumbprint : Text) : Type 0 where
  pub decoded : platform.decode_jwt (jwt_options config) token ≡ some claims
  pub scope : Text
  pub scope_claim : get (str "scope") claims ≡ some (text scope)
  pub granted : All (λ s. Listed s (split_words scope)) config.required_scopes
  pub azp : Text
  pub azp_claim : get (str "azp") claims ≡ some (text azp)
  pub azp_known : azp_routes azp ≢ none
  pub cnf : Fields
  pub cnf_claim : get (str "cnf") claims ≡ some (obj cnf)
  pub bound : get (str "x5t#S256") cnf ≡ some (text thumbprint)
  pub not_empty : thumbprint ≢ []

as_text-eq-some : (o : Option Json) {t : Text} → as_text o ≡ some t → o ≡ some (text t)
as_text-eq-some (some (text s)) h = ground arith
as_text-eq-some _ h = cc

member_of-eq-some :
    (o : Option Json) (key : Text) {v : Json}
    → member_of o key ≡ some v
    → (fs : Fields) × (o ≡ some (obj fs)) × (get key fs ≡ some v)
member_of-eq-some (some (obj fs)) key h = (fs, refl, h)
member_of-eq-some none key h = cc
member_of-eq-some _ key h = cc

pub known_azp_iff : (azp : Text) → (known_azp azp ≡ true) ↔ (azp_routes azp ≢ none)
known_azp_iff azp = ground arith

module _ (config : Config) (platform : Platform) (token : Text) where
  verify_access_token_sound :
      (claims : Fields) (thumbprint : Text)
      → verify_access_token config platform token ≡ ok (claims, thumbprint)
      → IsAccepted config platform token claims thumbprint
  unfolding verify_access_token
  verify_access_token_sound claims thumbprint h =
      let (fs, decoded, h1) =
        or_raise-bind (platform.decode_jwt (jwt_options config) token) _ _ h in
      let (scope, scoped, h2) = or_raise-bind (as_text (get (str "scope") fs)) _ _ h1 in
      let (subset, h3) =
        require-bind (is_subset config.required_scopes (split_words scope)) _ _ h2 in
      let (azp, azped, h4) = or_raise-bind (as_text (get (str "azp") fs)) _ _ h3 in
      let (known, h5) = require-bind (known_azp azp) _ _ h4 in
      let (t, bound, h6) =
        or_raise-bind (as_text (member_of (get (str "cnf") fs) (str "x5t#S256"))) _ _ h5 in
      let (full, h7) = require-bind (truthy t) _ _ h6 in
      let same : fs ≡ claims = cc in
      let same_t : t ≡ thumbprint = cc in
      let (cnf, cnf_claim, x5t) = member_of-eq-some _ _ (as_text-eq-some _ bound) in
      record {
        decoded = cc;
        scope = scope;
        scope_claim = cc (as_text-eq-some _ scoped);
        granted = (is_subset_iff _ _).0 subset;
        azp = azp;
        azp_claim = cc (as_text-eq-some _ azped);
        azp_known = (known_azp_iff azp).0 known;
        cnf = cnf;
        cnf_claim = cc;
        bound = cc;
        not_empty = λ e. (truthy_iff t).0 full (same_t ∙ e);
      }

  verify_access_token_complete :
      (claims : Fields) (thumbprint : Text)
      → IsAccepted config platform token claims thumbprint
      → verify_access_token config platform token ≡ ok (claims, thumbprint)
  unfolding verify_access_token
  verify_access_token_complete claims thumbprint a = simp (
    a.decoded,
    a.scope_claim,
    (is_subset_iff _ _).1 a.granted,
    a.azp_claim,
    (known_azp_iff a.azp).1 a.azp_known,
    a.cnf_claim,
    a.bound,
    (truthy_iff _).1 a.not_empty,
  )

  -- An access token passes with these claims and this thumbprint exactly if the library decodes it
  -- to the claims, they grant every required scope, name a known client, and have the thumbprint,
  -- which is not empty, as `cnf` member `x5t#S256`.
  pub verify_access_token_iff :
      (claims : Fields) (thumbprint : Text)
      → (verify_access_token config platform token ≡ ok (claims, thumbprint))
        ↔ IsAccepted config platform token claims thumbprint
  verify_access_token_iff claims thumbprint =
      (verify_access_token_sound claims thumbprint, verify_access_token_complete claims thumbprint)
