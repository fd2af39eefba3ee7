-- ===== src/Deck/Named.antt =====
-- The name of the control plane that a preparation ends with.
use konnect_oidc_fapi2_keycl.Common.{◌≡◌, ap, ◌∙◌, subst, some, ok}
use konnect_oidc_fapi2_keycl.Python.Text.{Text, str}
use konnect_oidc_fapi2_keycl.Python.Json.{Json, text, obj, Fields, get, as_text}
use konnect_oidc_fapi2_keycl.Program.{call, run}
use konnect_oidc_fapi2_keycl.Program.Laws.{
  run->>=, run->>, run-done, run-from, run-from_then, run-lift_then, run-call_then, run-check_then,
}
use konnect_oidc_fapi2_keycl.Deck.Request.{
  Ask, Answer, Parts, Info, returned, local_manifest, is_file, read_env,
}
use konnect_oidc_fapi2_keycl.Deck.Prepare.{
  Args, Prepared, prepare, state_file, check_switches, read_roles, read_receipts, text_of,
  is_runtime,
}
use konnect_oidc_fapi2_keycl.Deck.Unchanged.{local_manifest-answer}

as_text-text : (j : Json) (t : Text) → as_text (some j) ≡ some t → j ≡ text t
as_text-text (text u) t h = cc
as_text-text Json.null t h = cc
as_text-text (Json.bool _) t h = cc
as_text-text (Json.int _) t h = cc
as_text-text (Json.float _) t h = cc
as_text-text (Json.arr _) t h = cc
as_text-text (obj _) t h = cc

module _ {S : Type 0} (serve : (o : Ask) → S → Answer o × S) where
  -- The name is that of the target in the manifest that the preparation reads first.
  pub record IsNamed (args : Args) (s : S) (name : Text) : Type 0 where
    pub info : Info
    pub manifest : (serve (local_manifest args.gateway args.stage args.mode) s).0 ≡ ok info
    pub has_name : get (str "control_plane_name") info.target ≡ some (text name)

  text_of-get :
      (name : Text) (fields : Fields) (s : S) {t : Text}
      → (run serve (text_of name fields) s).0 ≡ ok t
      → get name fields ≡ some (text t)
  unfolding text_of
  text_of-get name fields s {t = t} h =
      let (value, found, h₁) = run-from_then serve (get name fields) _ _ s h in
      found ∙ ap some (as_text-text value t (run-from serve (as_text (some value)) _ _ h₁))

  pub prepare-IsNamed :
      (parts : Parts) (args : Args) (ready : Prepared) (s : S)
      → (run serve (prepare parts args) s).0 ≡ ok ready
      → IsNamed args s ready.control_plane_name
  unfolding prepare
  prepare-IsNamed parts args ready s h =
      let (info, manifest, h₁) =
        run->>= serve (call (local_manifest args.gateway args.stage args.mode) returned) _ s h in
      let (state, _, h₂) = run-lift_then serve _ (state_file args) _ _ h₁ in
      let h₃ = run-call_then serve (is_file state) _ _ h₂ in
      let (_, h₄) = run-check_then serve _ _ _ _ h₃ in
      let (_, _, h₅) = run->> serve (check_switches args) _ _ h₄ in
      let (role_values, _, h₆) =
        run->>= serve (read_roles parts args.gateway (is_runtime args)) _ _ h₅ in
      let (receipts, _, h₇) =
        run->>= serve (read_receipts parts args info.target state role_values) _ _ h₆ in
      let (config, _, h₈) = run->>= serve (call (read_env (str ".env")) returned) _ _ h₇ in
      let (token, _, h₉) = run->>= serve _ _ _ h₈ in
      let (_, _, k₁) = run->> serve _ _ _ h₉ in
      let (url, _, k₂) = run->>= serve _ _ _ k₁ in
      let (_, _, k₃) = run->> serve _ _ _ k₂ in
      let (generated, _, k₄) = run->>= serve _ _ _ k₃ in
      let (own, _, k₅) = run->>= serve _ _ _ k₄ in
      let (name, named, k₆) =
        run->>= serve (text_of (str "control_plane_name") info.target) _ _ k₅ in
      subst (λ (r : Prepared). IsNamed args s r.control_plane_name) (run-done serve _ _ k₆)
        (record {
          info = info;
          manifest = local_manifest-answer serve parts args s manifest;
          has_name = text_of-get (str "control_plane_name") info.target _ named;
        })
