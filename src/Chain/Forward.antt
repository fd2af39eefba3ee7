-- ===== src/Chain/Forward.antt =====
-- What the backend sends is what the verifier reads, and their tables of routes agree.
use konnect_oidc_fapi2_keycl.Common.{
  ℕ, ◌≡◌, refl, true, false, ◌&&◌, some, [], ◌∷◌, arith, eqb, Bool-cases, and_left, and_right, inl,
  inr, all, ◌⊎◌,
}
use konnect_oidc_fapi2_keycl.Python.Text.{Text, str, ◌==◌, lower, partition, contains, truthy}
use konnect_oidc_fapi2_keycl.Python.Headers.{get_all}
use konnect_oidc_fapi2_keycl.Verifier.Config.{azp_routes}
use konnect_oidc_fapi2_keycl.Verifier.Token
use konnect_oidc_fapi2_keycl.Verifier.Token.{bearer_value}
use konnect_oidc_fapi2_keycl.Backend.Config.{Expected, routes, route_a, route_b}
use konnect_oidc_fapi2_keycl.Backend.Bearer.{is_token, is_token_char, is_token_tail}
use konnect_oidc_fapi2_keycl.Backend.Fetch.{upstream_request}

padding-contains : (s : Text) → all (λ d. eqb d b'=') s ≡ true → contains b' ' s ≡ false
padding-contains [] h = refl
padding-contains (c ∷ s) h = ground (arith, padding-contains s)

token_char-ne-space : (c : ℕ) → is_token_char c ≡ true → eqb b' ' c ≡ false
unfolding is_token_char
token_char-ne-space c h = ground arith

token_tail-contains : (s : Text) → is_token_tail s ≡ true → contains b' ' s ≡ false
unfolding is_token_tail
token_tail-contains [] h = refl
token_tail-contains (c ∷ s) h = elim (Bool-cases (is_token_char c && is_token_tail s)) [
  | inl both ↦
      rw (token_char-ne-space c (and_left _ (is_token_tail s) both))
        (token_tail-contains s (and_right (is_token_char c) _ both))
  | inr other ↦
      let padding : (eqb c b'=' && all (λ d. eqb d b'=') s) ≡ true = rw other at h in
      padding-contains (c ∷ s) padding
]

token-contains : (s : Text) → is_token s ≡ true → (contains b' ' s ≡ false) × (truthy s ≡ true)
unfolding is_token
token-contains [] h = cc
token-contains (c ∷ s) h = (
  rw (token_char-ne-space c (and_left _ (is_token_tail s) h))
      (token_tail-contains s (and_right (is_token_char c) _ h)),
  refl,
)

-- The request that the backend sends for a token of the bearer syntax gives the verifier the same
-- token.
pub verifier-bearer_token :
    (token : Text) (expected : Expected)
    → is_token token ≡ true
    → Token.bearer_token (upstream_request token expected).headers ≡ some token
unfolding Token.bearer_token bearer_value upstream_request get_all lower str ◌==◌ partition
verifier-bearer_token token expected h =
    let (one_word, full) = token-contains token h in simp (one_word, full)

routes-cases :
    (path : Text) (expected : Expected)
    → routes path ≡ some expected
    → (expected ≡ route_a) ⊎ (expected ≡ route_b)
unfolding routes
routes-cases path expected h = ground arith

azp_routes-route_a : azp_routes route_a.azp ≡ some (route_a.route, route_a.client_authentication)
unfolding azp_routes str ◌==◌
azp_routes-route_a = refl

azp_routes-route_b : azp_routes route_b.azp ≡ some (route_b.route, route_b.client_authentication)
unfolding azp_routes str ◌==◌
azp_routes-route_b = refl

-- For every path that the backend routes, the verifier's table gives the client of that route the
-- same route and client authentication.
pub routes-azp_routes :
    (path : Text) (expected : Expected)
    → routes path ≡ some expected
    → azp_routes expected.azp ≡ some (expected.route, expected.client_authentication)
routes-azp_routes path expected h = elim (routes-cases path expected h) [
  | inl a ↦ rw a azp_routes-route_a
  | inr b ↦ rw b azp_routes-route_b
]
