-- ===== src/Deck/Approved.antt =====
-- What was approved before a sync of the third-party runtime is prepared.
use konnect_oidc_fapi2_keycl.Common.{
  ◌≡◌, refl, sym, ap, subst, Bool, true, false, ◌&&◌, none, some, ok, and_right, if◌then◌else◌,
}
use konnect_oidc_fapi2_keycl.Python.Text.{Text, str, ◌==◌}
use konnect_oidc_fapi2_keycl.Python.Text.Laws.{==_iff}
use konnect_oidc_fapi2_keycl.Python.Json.{Fields}
use konnect_oidc_fapi2_keycl.Program.{done, call, run, after}
use konnect_oidc_fapi2_keycl.Program.Laws.{
  run->>=, run->>, run-check, run-done, run-when, run-then, run-else, run-check_then, run-lift_then,
  run-call_then,
}
use konnect_oidc_fapi2_keycl.Deck.Request.{
  Ask, Answer, Script, Parts, Env, Info, returned, local_manifest, environ_get, read_env, is_file,
}
use konnect_oidc_fapi2_keycl.Deck.Approval.{read_backend_runtime_approval}
use konnect_oidc_fapi2_keycl.Deck.Prepare.{
  Args, Prepared, prepare, check_switches, is_yes, third_party_switch, is_third_party_sync,
  is_runtime, read_roles, Receipts, read_receipts, is_api_sync, migration_receipts, wp5_receipts,
  is_runtime_sync, state_file,
}
use konnect_oidc_fapi2_keycl.Deck.Unchanged.{
  IsReceipt, read_backend_runtime_approval-IsReceipt, roles_moment, local_manifest-answer,
}

and_false : (b : Bool) → (b && false) ≡ false
and_false true = refl
and_false false = refl

third_party-not_api : (args : Args) → is_third_party_sync args ≡ true → is_api_sync args ≡ false
unfolding ◌==◌ str
third_party-not_api args h =
    let is_tp : args.gateway ≡ str "third-party" =
      (==_iff args.gateway (str "third-party")).0 (and_right _ _ h) in
    subst (λ g. (is_runtime_sync args && g == str "api") ≡ false) (sym is_tp) (and_false _)

module _ {S : Type 0} (serve : (o : Ask) → S → Answer o × S) (parts : Parts) where
  -- The moments in a preparation that begins at `s`: when the switch is read, and when the receipt
  -- is.
  abbrev pub switch_moment : Args → Text → S → S
  switch_moment args state s = (serve (is_file state) (roles_moment serve parts args s)).1

  abbrev pub approval_moment : Args → Text → S → S
  approval_moment args state s =
      after serve (read_roles parts args.gateway (is_runtime args))
        (after serve (check_switches args) (switch_moment args state s))

  -- The switch of the environment was on, and a receipt was accepted for the target of the manifest,
  -- the state file and the role inputs that are used.
  pub record IsApproved (args : Args) (ready : Prepared) (receipt : Fields) (s : S) : Type 0 where
    pub info : Info
    pub manifest : (serve (local_manifest args.gateway args.stage args.mode) s).0 ≡ ok info
    pub target : ready.target ≡ info.target
    pub fixed_state : state_file args ≡ ok ready.state
    pub is_present : (serve (is_file ready.state) (roles_moment serve parts args s)).0 ≡ true
    pub switched :
        is_yes (serve (environ_get third_party_switch) (switch_moment args ready.state s)).0 ≡ true
    pub roles :
        (run serve
          (read_roles parts args.gateway (is_runtime args))
          (after serve (check_switches args) (switch_moment args ready.state s))).0
        ≡ ok ready.role_values
    pub has_receipt : ready.receipts.wp5 ≡ some receipt
    pub approved :
        IsReceipt serve parts ready.target ready.state ready.role_values receipt
          (approval_moment args ready.state s)

  check_switches-yes :
      (args : Args) (s : S) {u : Unit {0}}
      → is_third_party_sync args ≡ true
      → (run serve (check_switches args) s).0 ≡ ok u
      → is_yes (serve (environ_get third_party_switch) s).0 ≡ true
  unfolding check_switches run
  check_switches-yes args s is_tp h =
      let (_, first, _) = run->> serve _ _ s h in
      run-check serve _ _ _ (run-when serve (is_third_party_sync args) _ s first is_tp)

  read_receipts-IsReceipt :
      (args : Args) (target : Fields) (state : Text) (role_values : Env) (receipts : Receipts)
      (s : S)
      → is_third_party_sync args ≡ true
      → (run serve (read_receipts parts args target state role_values) s).0 ≡ ok receipts
      → (receipt : Fields) × (receipts.wp5 ≡ some receipt)
        × IsReceipt serve parts target state role_values receipt s
  unfolding read_receipts wp5_receipts
  read_receipts-IsReceipt args target state role_values receipts s is_tp h =
      let no_receipts : Receipts = record { migration = none; wp5 = none } in
      let later : Script Receipts = wp5_receipts parts target state role_values in
      let h₀ =
        run-else serve (is_api_sync args) (migration_receipts target role_values)
          (if is_third_party_sync args then later else done no_receipts) s h
          (third_party-not_api args is_tp) in
      let h₁ = run-then serve (is_third_party_sync args) later (done no_receipts) s h₀ is_tp in
      let (receipt, read, e) =
        run->>= serve (read_backend_runtime_approval parts target state role_values) _ s h₁ in
      (
        receipt,
        ap (λ (r : Receipts). r.wp5) (sym (run-done serve _ _ e)),
        read_backend_runtime_approval-IsReceipt serve parts target state role_values receipt s read,
      )

  pub prepare-IsApproved :
      (args : Args) (ready : Prepared) (s : S)
      → is_third_party_sync args ≡ true
      → (run serve (prepare parts args) s).0 ≡ ok ready
      → (receipt : Fields) × IsApproved args ready receipt s
  unfolding prepare
  prepare-IsApproved args ready s is_tp h =
      let (info, manifest, h₁) =
        run->>= serve (call (local_manifest args.gateway args.stage args.mode) returned) _ s h in
      let (state, fixed, h₂) = run-lift_then serve _ (state_file args) _ _ h₁ in
      let h₃ = run-call_then serve (is_file state) _ _ h₂ in
      let (present, h₄) = run-check_then serve _ _ _ _ h₃ in
      let (_, switches, h₅) = run->> serve (check_switches args) _ _ h₄ in
      let (role_values, roles, h₆) =
        run->>= serve (read_roles parts args.gateway (is_runtime args)) _ _ h₅ in
      let (receipts, read, h₇) =
        run->>= serve (read_receipts parts args info.target state role_values) _ _ h₆ in
      let (config, _, h₈) = run->>= serve (call (read_env (str ".env")) returned) _ _ h₇ in
      let (token, _, h₉) = run->>= serve _ _ _ h₈ in
      let (_, _, k₁) = run->> serve _ _ _ h₉ in
      let (url, _, k₂) = run->>= serve _ _ _ k₁ in
      let (_, _, k₃) = run->> serve _ _ _ k₂ in
      let (own, _, k₄) = run->>= serve _ _ _ k₃ in
      let (envs, _, k₅) = run->>= serve _ _ _ k₄ in
      let (name, _, k₆) = run->>= serve _ _ _ k₅ in
      let e = run-done serve _ _ k₆ in
      let (receipt, has, approved) =
        read_receipts-IsReceipt args info.target state role_values receipts _ is_tp read in
      (
        receipt,
        subst (λ (r : Prepared). IsApproved args r receipt s) e
            (record {
              info = info;
              manifest = local_manifest-answer serve parts args s manifest;
              target = refl;
              fixed_state = fixed;
              is_present = present;
              switched = check_switches-yes args _ is_tp switches;
              roles = roles;
              has_receipt = has;
              approved = approved;
            }),
      )
