-- ===== src/Verifier/Peer.antt =====
-- Which TLS peers are trusted, of verify_api_gateway_peer.
use konnect_oidc_fapi2_keycl.Common.{
  ◌≡◌, ◌≢◌, inl, inr, refl, ◌&&◌, some, List, [], ◌∷◌, arith, Result, ok, err, ◌>>=◌, require-bind,
  or_raise-bind, and_left, and_right, Option-cases,
}
use konnect_oidc_fapi2_keycl.Python.Text.{Text, Bytes, ◌==◌, truthy}
use konnect_oidc_fapi2_keycl.Python.Text.Laws.{==_iff, ==_refl, truthy_iff}
use konnect_oidc_fapi2_keycl.Verifier.Config.{
  Platform, Certificate, Failure, Reason, LoadError, api_upstream_common_name,
}
use konnect_oidc_fapi2_keycl.Verifier.Compare.{base64url_sha256}
use konnect_oidc_fapi2_keycl.Verifier.Certificates.{verify_api_gateway_peer, loaded, single}
use konnect_oidc_fapi2_keycl.Verifier.Server.{Request}

-- The TLS peer presents the pinned certificate, byte for byte, and it names the API Gateway.
pub record IsPinnedPeer (platform : Platform) (pinned : Bytes) (request : Request) : Type 0 where
  pub presented : request.peer ≡ some pinned
  pub not_empty : pinned ≢ []
  pub certificate : Certificate
  pub parsed : platform.load_der_x509_certificate pinned ≡ ok certificate
  pub named : certificate.common_names ≡ api_upstream_common_name ∷ []

pub single-eq-some : (ts : List Text) {t : Text} → single ts ≡ some t → ts ≡ t ∷ []
single-eq-some (t ∷ []) h = ground arith
single-eq-some [] h = cc
single-eq-some (_ ∷ _ ∷ _) h = cc

pub loaded-bind :
    {B : Type 0} (r : Result LoadError Certificate) (reason : Reason)
    (f : Certificate → Result Failure B) {b : B}
    → (loaded r reason >>= f) ≡ ok b
    → (c : Certificate) × (r ≡ ok c) × (f c ≡ ok b)
loaded-bind (ok c) reason f h = (c, refl, h)
loaded-bind (err e) reason f h = cc

module _ (platform : Platform) (pinned : Bytes) where
  pub peer_sound :
      (request : Request) (thumbprint : Text)
      → verify_api_gateway_peer platform request.peer pinned ≡ ok thumbprint
      → IsPinnedPeer platform pinned request × (thumbprint ≡ base64url_sha256 platform pinned)
  unfolding verify_api_gateway_peer
  peer_sound request thumbprint h = elim (Option-cases request.peer) [
    | inl absent ↦ cc
    | inr (peer, present) ↦
        let g : verify_api_gateway_peer platform (some peer) pinned ≡ ok thumbprint =
          rw present at h in
        let (full, h1) = require-bind (truthy peer && truthy pinned) _ _ g in
        let (c, parsed, h2) = loaded-bind (platform.load_der_x509_certificate peer) _ _ h1 in
        let (name, named, h3) = or_raise-bind (single c.common_names) _ _ h2 in
        let (same, h4) =
          require-bind (name == api_upstream_common_name && (peer == pinned)) _ _ h3 in
        let is_pinned : peer ≡ pinned =
          (==_iff peer pinned).0 (and_right (name == api_upstream_common_name) _ same) in
        let is_named : name ≡ api_upstream_common_name =
          (==_iff name api_upstream_common_name).0 (and_left _ _ same) in
        (
          record {
            presented = cc;
            not_empty = (truthy_iff pinned).0 (and_right (truthy peer) _ full);
            certificate = c;
            parsed = cc;
            named = cc (single-eq-some _ named);
          },
          cc,
        )
  ]

  pub peer_complete :
      (request : Request)
      → IsPinnedPeer platform pinned request
      → verify_api_gateway_peer platform request.peer pinned ≡ ok (base64url_sha256 platform pinned)
  unfolding verify_api_gateway_peer
  peer_complete request p = rw p.presented (
      simp (
        (truthy_iff pinned).1 p.not_empty,
        p.parsed,
        p.named,
        ==_refl api_upstream_common_name,
        ==_refl pinned,
      ))
