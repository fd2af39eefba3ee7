-- ===== src/Chain.antt =====
-- The two programs together: what the verifier answers is what the backend lets through.
pub mod Forward
mod Tests
use konnect_oidc_fapi2_keycl.Common.{
  ℕ, ◌≤◌, ◌≡◌, refl, sym, ap, ◌∙◌, Bool, true, false, ◌&&◌, Option, none, some, List, [], ◌∷◌, ◌++◌,
  arith, ok, subst, length, any, eqb, leb, Bool-cases, and_left, and_right, inl, inr, all, ◌⊎◌,
}
use konnect_oidc_fapi2_keycl.Python.Text.{
  Text, Bytes, str, ◌==◌, lower, partition, contains, truthy,
}
use konnect_oidc_fapi2_keycl.Python.Text.Laws.{==_iff, ==_refl, truthy_iff}
use konnect_oidc_fapi2_keycl.Python.Json.{Json, Fields, text, bool, get, dict, as_text}
use konnect_oidc_fapi2_keycl.Python.Headers.{Headers, get_all, get_header}
use konnect_oidc_fapi2_keycl.Verifier.Config.{
  Config, Platform, azp_routes, department_claim, route_claim,
}
use konnect_oidc_fapi2_keycl.Verifier.Token
use konnect_oidc_fapi2_keycl.Verifier.Token.{bearer_value}
use konnect_oidc_fapi2_keycl.Verifier.Compare.{base64url_sha256, constant_time_text_equal}
use konnect_oidc_fapi2_keycl.Verifier.Binding.{
  IsDigest, base64url_sha256-is_word, constant_time_text_equal_iff,
}
use konnect_oidc_fapi2_keycl.Verifier.Evidence.{
  Routing, routing_texts, routing_evidence, header_claims_match, build_evidence, safe_evidence_text,
  truthy_text,
}
use konnect_oidc_fapi2_keycl.Verifier.Authorization.{
  IsAuthorized, do_get-evidence, evidence_response-eq,
}
use konnect_oidc_fapi2_keycl.Verifier.Peer.{peer_complete}
use konnect_oidc_fapi2_keycl.Verifier.Server.{Request, do_get, json_response}
use konnect_oidc_fapi2_keycl.Backend.Config.{Expected, routes, route_a, route_b}
use konnect_oidc_fapi2_keycl.Backend.Bearer.{is_token, is_token_char, is_token_tail}
use konnect_oidc_fapi2_keycl.Backend.Project.{is_control, project_object}
use konnect_oidc_fapi2_keycl.Backend.Fetch.{upstream_request}
use konnect_oidc_fapi2_keycl.Backend.Allowlist.{
  Evidence, evidence_items, HasItems, IsEvidence, IsSafeText, IsThumbprint, IsMatching,
}
use konnect_oidc_fapi2_keycl.Backend.Allowlist.Exact.{project_object_iff}
use konnect_oidc_fapi2_keycl.Chain.Forward.{routes-azp_routes}

abbrev pub evidence_of : Routing → Text → Text → Evidence
evidence_of r thumbprint peer_thumbprint = record {
  department = r.department;
  logical_route = r.logical_route;
  department_header = r.department_header;
  logical_route_header = r.logical_route_header;
  thumbprint = thumbprint;
  peer_thumbprint = peer_thumbprint;
  header_claims_match = header_claims_match r;
}

abbrev pub HasNoControl : Option Text → Type 0
HasNoControl none = Unit
HasNoControl (some t) = any is_control t ≡ false

-- None of the four texts holds a control character, which the verifier does not test.
pub record IsPrintable (r : Routing) : Type 0 where
  pub department : HasNoControl r.department
  pub logical_route : HasNoControl r.logical_route
  pub department_header : HasNoControl r.department_header
  pub logical_route_header : HasNoControl r.logical_route_header

safe_evidence_text-IsSafeText :
    (o : Option Text) → HasNoControl (safe_evidence_text o) → IsSafeText (safe_evidence_text o)
unfolding safe_evidence_text
safe_evidence_text-IsSafeText none h = tt
safe_evidence_text-IsSafeText (some t) h = elim (Bool-cases (leb (length t) 256)) [
  | inl short ↦ rw short (ground arith)
  | inr long ↦ rw long tt
]

no_text : (s : Text) → ¬ (constant_time_text_equal (some s) none ≡ true)
unfolding constant_time_text_equal
no_text s h = cc

matching :
    (m : Bool) (a b : Option Text)
    → (m ≡ true → truthy_text a ≡ true)
    → (m ≡ true → constant_time_text_equal a b ≡ true)
    → IsMatching m a b
matching false a b f g = tt
matching true (some s) (some t) f g =
    let (same, _) = (constant_time_text_equal_iff s t).0 (g refl) in
    (s, (truthy_iff s).0 (f refl), refl, ap some (sym same))
matching true none b f g = cc (f refl)
matching true (some s) none f g = absurd (no_text s (g refl))

claimed :
    (r : Routing)
    → header_claims_match r ≡ true
    → (truthy_text r.department ≡ true)
      × (truthy_text r.logical_route ≡ true)
      × (constant_time_text_equal r.department r.department_header ≡ true)
      × (constant_time_text_equal r.logical_route r.logical_route_header ≡ true)
unfolding header_claims_match
claimed r h = ground arith

header_claims_match-IsMatching :
    (r : Routing)
    → IsMatching (header_claims_match r) r.department r.department_header
      × IsMatching (header_claims_match r) r.logical_route r.logical_route_header
header_claims_match-IsMatching r = (
  matching _ _ _ (λ h. (claimed r h).0) (λ h. (claimed r h).2),
  matching _ _ _ (λ h. (claimed r h).1) (λ h. (claimed r h).3),
)

module _ (headers : Headers) (claims : Fields) (thumbprint peer : Text) (expected : Expected) where
  abbrev answered : Evidence
  answered = evidence_of (routing_texts headers claims) thumbprint peer

  abbrev answered_items : List (Text × Json)
  answered_items =
      ((str "azp", text expected.azp)
        ∷ (str "route", text expected.route)
        ∷ (str "client_authentication", text expected.client_authentication)
        ∷ (str "token_certificate_thumbprint", text thumbprint)
        ∷ (str "forwarded_client_certificate_thumbprint", text thumbprint)
        ∷ (str "api_gateway_tls_peer_certificate_thumbprint", text peer)
        ∷ (str "token_signature_verified", bool true)
        ∷ (str "binding_verified", bool true)
        ∷ [])
      ++ routing_evidence headers claims

  built :
      get (str "azp") claims ≡ some (text expected.azp)
      → azp_routes expected.azp ≡ some (expected.route, expected.client_authentication)
      → build_evidence headers claims thumbprint thumbprint peer ≡ ok answered_items
  unfolding build_evidence
  built e k = simp (e, k)

  answered-HasItems : HasItems (dict answered_items) (evidence_items expected answered)
  unfolding routing_evidence dict get str ◌==◌
  answered-HasItems = (
    refl,
    (
      refl,
      (refl, (refl, (refl, (refl, (refl, (refl, (refl, (refl, (refl, (refl, (refl, tt))))))))))),
    ),
  )

  answered-IsEvidence :
      IsThumbprint thumbprint
      → IsThumbprint peer
      → IsPrintable (routing_texts headers claims)
      → IsEvidence answered
  unfolding routing_texts
  answered-IsEvidence p q r =
      let (department_match, route_match) =
        header_claims_match-IsMatching (routing_texts headers claims) in
      record {
        department =
            safe_evidence_text-IsSafeText (as_text (get department_claim claims)) r.department;
        logical_route =
            safe_evidence_text-IsSafeText (as_text (get route_claim claims)) r.logical_route;
        department_header =
            safe_evidence_text-IsSafeText (get_header (str "X-Demo-Department") headers)
              r.department_header;
        logical_route_header =
            safe_evidence_text-IsSafeText (get_header (str "X-Demo-Route") headers)
              r.logical_route_header;
        thumbprint = p;
        peer_thumbprint = q;
        department_match = department_match;
        route_match = route_match;
      }

-- Where SHA-256 gives 32 bytes, the path `/evidence` is asked by an authorized request whose client
-- is that of the route, and none of the four texts of the evidence holds a control character, the
-- body of the verifier's answer passes the projection of the backend for that route, which returns
-- the evidence of the request.
pub verifier-accepted :
    (config : Config) (platform : Platform) (pinned : Bytes) (request : Request) (path : Text)
    (expected : Expected)
    → IsDigest platform
    → request.path ≡ str "/evidence"
    → routes path ≡ some expected
    → (a : IsAuthorized config platform pinned request) → a.accepted.azp ≡ expected.azp
    → IsPrintable (routing_texts request.headers a.claims)
    → project_object (do_get config platform pinned request).body expected
      ≡ ok (
          evidence_items expected (
            evidence_of
              (routing_texts request.headers a.claims)
              a.thumbprint
              (base64url_sha256 platform pinned)))
verifier-accepted config platform pinned request path expected d at_evidence route a client
      printable =
    let peer = base64url_sha256 platform pinned in
    let made =
      built request.headers a.claims a.thumbprint peer expected
        (a.accepted.azp_claim ∙ ap (λ t. some (text t)) client)
        (routes-azp_routes path expected route) in
    let answer =
      do_get-evidence config platform pinned request peer a.token at_evidence
        (peer_complete platform pinned request a.peer) a.bearer
      ∙ evidence_response-eq config platform pinned request peer _ d a made in
    let token_words = base64url_sha256-is_word platform a.der d in
    let peer_words = base64url_sha256-is_word platform pinned d in
    let thumbprint : IsThumbprint a.thumbprint =
      subst IsThumbprint (sym a.bound) (token_words.1, token_words.0) in
    rw answer (
      unfold json_response in
      (project_object_iff _ expected _).1 (
        answered request.headers a.claims a.thumbprint peer expected,
        record {
          present = answered-HasItems request.headers a.claims a.thumbprint peer expected;
          well_formed =
              answered-IsEvidence request.headers a.claims a.thumbprint peer expected thumbprint
                (peer_words.1, peer_words.0) printable;
        },
        refl,
      ))
