-- ===== src/Deck/Unchanged.antt =====
-- What holds where a sync of the third-party runtime is started at all.
use konnect_oidc_fapi2_keycl.Common.{
  ◌≡◌, refl, ap, subst, ◌∙◌, Bool, true, false, not, ◌&&◌, some, ◌∷◌, ok, ok-injective,
  or_raise-bind, require-bind,
}
use konnect_oidc_fapi2_keycl.Python.Text.{Text, str}
use konnect_oidc_fapi2_keycl.Python.Json.{Json, text, obj, Fields, get, equals_text, as_object}
use konnect_oidc_fapi2_keycl.Python.Json.Equality.{json_eq}
use konnect_oidc_fapi2_keycl.Program.{call, run, after, catch}
use konnect_oidc_fapi2_keycl.Program.Laws.{
  run->>=, run->>, run-lift, run-check, run-done, run-check_then, run-lift_then, run-call_then,
}
use konnect_oidc_fapi2_keycl.Deck.Request.{
  Ask, Answer, Parts, Env, Info, value_error, returned, local_manifest, is_symlink, file_sha256,
  canonical_sha256,
}
use konnect_oidc_fapi2_keycl.Deck.Approval.{
  read_backend_runtime_approval, env_json, load_receipt, hide_value_error,
}
use konnect_oidc_fapi2_keycl.Deck.Prepare.{Args, Prepared, read_roles}
use konnect_oidc_fapi2_keycl.Deck.Review.{check_state, check_canonical, review_inputs, field_of}
use konnect_oidc_fapi2_keycl.Deck.Scope.{has_exactly}
use konnect_oidc_fapi2_keycl.Deck.Files.{generated, is_safe_directory}
use konnect_oidc_fapi2_keycl.Deck.Receipt.{
  check_header, check_receipt, backend_scope, is_two, is_true, wp5_approval_fields, evidence,
}
use konnect_oidc_fapi2_keycl.Deck.Reviewed.{field-text, run-returned}

-- The fields of a receipt whose header was accepted.
pub record IsHeader (receipt : Fields) : Type 0 where
  pub fields : has_exactly (str "plan_type" ∷ wp5_approval_fields) receipt ≡ true
  pub accepted :
      (is_two (get (str "schema_version") receipt)
        && equals_text (get (str "scope") receipt) backend_scope
        && is_true (get (str "approved") receipt))
      ≡ true

check_header-IsHeader :
    (parsed : Json) (receipt : Fields) → check_header parsed ≡ ok receipt → IsHeader receipt
unfolding check_header
check_header-IsHeader parsed receipt h =
    let (found, is_obj, h₁) = or_raise-bind (as_object parsed) _ _ h in
    let (exact, h₂) =
      require-bind (has_exactly (str "plan_type" ∷ wp5_approval_fields) found) _ _ h₁ in
    let (header, h₃) =
      require-bind
        (is_two (get (str "schema_version") found)
          && equals_text (get (str "scope") found) backend_scope
          && is_true (get (str "approved") found))
        _ _ h₂ in
    subst IsHeader (ok-injective h₃) (record { fields = exact; accepted = header })

pub not-eq-true : (b : Bool) → not b ≡ true → b ≡ false
not-eq-true true h = cc
not-eq-true false h = refl

module _ {S : Type 0} (serve : (o : Ask) → S → Answer o × S) (parts : Parts) where
  -- The moment at which the receipt has been loaded, where its reading begins at `start`.
  abbrev pub loaded : S → S
  loaded start =
      after serve (catch (load_receipt parts) hide_value_error)
        (after serve (is_safe_directory evidence) (after serve (is_safe_directory generated) start))

  -- A receipt that was read from `start` on and accepted for a target, a state file and role inputs.
  pub record IsReceipt (target : Fields) (state : Text) (role_values : Env) (receipt : Fields)
      (start : S) : Type 0 where
    pub parsed : Json
    pub state_sha256 : Text
    pub safe : (run serve (is_safe_directory generated) start).0 ≡ ok true
    pub safe_evidence :
        (run serve (is_safe_directory evidence) (after serve (is_safe_directory generated) start)).0
        ≡ ok true
    pub read :
        (run serve (catch (load_receipt parts) hide_value_error) (
          after serve
            (is_safe_directory evidence)
            (after serve (is_safe_directory generated) start))).0
        ≡ ok parsed
    pub is_receipt : check_header parsed ≡ ok receipt
    pub header : IsHeader receipt
    pub hashed : (serve (file_sha256 state) (loaded start)).0 ≡ ok state_sha256
    pub bound :
        check_receipt
          (record {
            target_sha256 = canonical_sha256 parts (obj target);
            state_sha256 = state_sha256;
            role_inputs_sha256 = canonical_sha256 parts (obj (env_json role_values));
          })
          receipt
        ≡ ok tt

  pub file_sha256-answer :
      (state : Text) (s : S) {t : Text}
      → (run serve (call (file_sha256 state) returned) s).0 ≡ ok t
      → (serve (file_sha256 state) s).0 ≡ ok t
  unfolding run
  file_sha256-answer state s h = run-returned serve _ (serve (file_sha256 state) s).1 h

  pub local_manifest-answer :
      (args : Args) (s : S) {info : Info}
      → (run serve (call (local_manifest args.gateway args.stage args.mode) returned) s).0 ≡ ok info
      → (serve (local_manifest args.gateway args.stage args.mode) s).0 ≡ ok info
  unfolding run
  local_manifest-answer args s h =
      run-returned serve _ (serve (local_manifest args.gateway args.stage args.mode) s).1 h

  pub read_backend_runtime_approval-IsReceipt :
      (target : Fields) (state : Text) (role_values : Env) (receipt : Fields) (s : S)
      → (run serve (read_backend_runtime_approval parts target state role_values) s).0 ≡ ok receipt
      → IsReceipt target state role_values receipt s
  unfolding read_backend_runtime_approval
  read_backend_runtime_approval-IsReceipt target state role_values receipt s h =
      let (outer, is_safe, h₁) = run->>= serve (is_safe_directory generated) _ s h in
      let (first, h₂) = run-check_then serve outer _ _ _ h₁ in
      let (inner, is_safe₁, h₃) = run->>= serve (is_safe_directory evidence) _ _ h₂ in
      let (second, h₄) = run-check_then serve inner _ _ _ h₃ in
      let (parsed, is_read, h₅) =
        run->>= serve (catch (load_receipt parts) hide_value_error) _ _ h₄ in
      let (found, header, h₆) = run-lift_then serve value_error (check_header parsed) _ _ h₅ in
      let (digest, hashed, h₇) = run->>= serve (call (file_sha256 state) returned) _ _ h₆ in
      let (_, bound, h₈) = run->> serve _ _ _ h₇ in
      subst (λ r. IsReceipt target state role_values r s) (run-done serve _ _ h₈)
        (record {
          parsed = parsed;
          state_sha256 = digest;
          safe = is_safe ∙ ap ok first;
          safe_evidence = is_safe₁ ∙ ap ok second;
          read = is_read;
          is_receipt = header;
          header = check_header-IsHeader parsed found header;
          hashed = file_sha256-answer state _ hashed;
          bound = run-lift serve value_error (check_receipt _ found) _ bound;
        })

  -- The moments in a reading of the inputs that begins at `start`: when the role inputs are read,
  -- when the receipt is, and when the state file is.
  abbrev pub roles_moment : Args → S → S
  roles_moment args start =
      after serve (call (local_manifest args.gateway args.stage args.mode) returned) start

  abbrev pub receipt_moment : Args → S → S
  receipt_moment args start =
      after serve (read_roles parts args.gateway true) (roles_moment args start)

  abbrev pub state_moment : Args → Fields → Text → Env → S → S
  state_moment args target state role_values start =
      after serve (read_backend_runtime_approval parts target state role_values)
        (receipt_moment args start)

  -- The inputs, read again from `start` on, have the digests of the receipt, and the receipt that is
  -- read again is the same.
  pub record IsUnchanged (args : Args) (ready : Prepared) (receipt : Fields) (start : S)
      : Type 0 where
    pub fresh : Info
    pub role_values : Env
    pub again : Fields
    pub state_sha256 : Text
    pub manifest : (serve (local_manifest args.gateway args.stage args.mode) start).0 ≡ ok fresh
    pub roles :
        (run serve (read_roles parts args.gateway true) (roles_moment args start)).0
        ≡ ok role_values
    pub approved : IsReceipt fresh.target ready.state role_values again (receipt_moment args start)
    pub same_receipt : json_eq (obj again) (obj receipt) ≡ true
    pub no_link :
        (serve
          (is_symlink ready.state)
          (state_moment args fresh.target ready.state role_values start)).0
        ≡ false
    pub hashed :
        (serve
          (file_sha256 ready.state)
          (serve
            (is_symlink ready.state)
            (state_moment args fresh.target ready.state role_values start)).1).0
        ≡ ok state_sha256
    pub same_state : get (str "state_sha256") receipt ≡ some (text state_sha256)
    pub same_roles :
        get (str "role_inputs_sha256") receipt
        ≡ some (text (canonical_sha256 parts (obj (env_json role_values))))
    pub same_target :
        get (str "target_sha256") receipt ≡ some (text (canonical_sha256 parts (obj fresh.target)))

  pub check_canonical-digest :
      (message : Text) (value : Json) (name : Text) (receipt : Fields) (s : S) {u : Unit {0}}
      → (run serve (check_canonical parts message value name receipt) s).0 ≡ ok u
      → get name receipt ≡ some (text (canonical_sha256 parts value))
  unfolding check_canonical
  check_canonical-digest message value name receipt s h =
      let (reviewed, h₀, h₁) = run->>= serve (field_of name receipt) _ s h in
      field-text serve name receipt (canonical_sha256 parts value) reviewed s h₀
        (run-check serve _ _ _ h₁)

  pub review_inputs-IsUnchanged :
      (args : Args) (ready : Prepared) (receipt : Fields) (s : S) {u : Unit {0}}
      → (run serve (review_inputs parts args ready receipt) s).0 ≡ ok u
      → IsUnchanged args ready receipt s
  unfolding review_inputs check_state
  review_inputs-IsUnchanged args ready receipt s h =
      let (fresh, manifest, h₁) =
        run->>= serve (call (local_manifest args.gateway args.stage args.mode) returned) _ s h in
      let (role_values, roles, h₂) = run->>= serve (read_roles parts args.gateway true) _ _ h₁ in
      let (again, reread, h₃) =
        run->>= serve (read_backend_runtime_approval parts fresh.target ready.state role_values) _ _
          h₂ in
      let (same, h₄) = run-check_then serve _ _ _ _ h₃ in
      let (_, state, h₅) = run->> serve (check_state _ ready.state receipt) _ _ h₄ in
      let s₁ = run-call_then serve (is_symlink ready.state) _ _ state in
      let (no_link, s₂) = run-check_then serve _ _ _ _ s₁ in
      let (digest, hashed, s₃) = run->>= serve (call (file_sha256 ready.state) returned) _ _ s₂ in
      let (reviewed, has_state, s₄) =
        run->>= serve (field_of (str "state_sha256") receipt) _ _ s₃ in
      let (_, same_roles, h₆) = run->> serve _ _ _ h₅ in
      record {
        fresh = fresh;
        role_values = role_values;
        again = again;
        state_sha256 = digest;
        manifest = local_manifest-answer args s manifest;
        roles = roles;
        approved =
            read_backend_runtime_approval-IsReceipt fresh.target ready.state role_values again _
              reread;
        same_receipt = same;
        no_link = not-eq-true _ no_link;
        hashed = file_sha256-answer ready.state _ hashed;
        same_state =
            field-text serve (str "state_sha256") receipt digest reviewed _ has_state
              (run-check serve _ _ _ s₄);
        same_roles = check_canonical-digest _ _ (str "role_inputs_sha256") receipt _ same_roles;
        same_target = check_canonical-digest _ _ (str "target_sha256") receipt _ h₆;
      }
