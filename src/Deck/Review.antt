-- ===== src/Deck/Review.antt =====
-- The last tests before a sync of a runtime: that decK still plans what was reviewed, and that
-- nothing it uses was changed.
use konnect_oidc_fapi2_keycl.Common.{
  Bool, true, not, ◌&&◌, List, [], ◌∷◌, ◌++◌, none, some, if◌then◌else◌,
}
use konnect_oidc_fapi2_keycl.Python.Int.{ℤ, pos, int_eq}
use konnect_oidc_fapi2_keycl.Python.Text.{Text, str, ◌==◌, truthy, strip}
use konnect_oidc_fapi2_keycl.Python.Json.{Json, null, text, obj, Fields, get}
use konnect_oidc_fapi2_keycl.Python.Json.Equality.{json_eq}
use konnect_oidc_fapi2_keycl.Program.{done, fail, call, from, lift, check, catch, ◌>>=◌, ◌>>◌}
use konnect_oidc_fapi2_keycl.Deck.Scope.{validate_backend_scope}
use konnect_oidc_fapi2_keycl.Deck.Report.{parse_sanitized_runtime_diff}
use konnect_oidc_fapi2_keycl.Deck.Request.{
  Script, Parts, Fault, value_error, key_error, other, returned, local_manifest, is_symlink,
  file_sha256, canonical_sha256,
}
use konnect_oidc_fapi2_keycl.Deck.Approval.{read_backend_runtime_approval, env_json}
use konnect_oidc_fapi2_keycl.Deck.Launch.{Completed, run_deck_subprocess}
use konnect_oidc_fapi2_keycl.Deck.Prepare.{
  Args, Prepared, is_runtime, is_runtime_sync, is_third_party_sync, read_roles,
}

abbrev pub is_zero : ℤ → Bool
is_zero code = int_eq code (pos 0)

abbrev pub is_clean : Completed → Bool
is_clean result = is_zero result.returncode && not (truthy (strip result.stderr))

-- `common_command` with its third word. The path of the state is relative to the root.
unfoldable pub command : Args → Prepared → Text → List Text → List Text
command args ready word more =
    let parallelism : List Text =
      if is_runtime args && args.gateway == str "third-party"
      then str "--parallelism" ∷ str "1" ∷ []
      else [] in
    (str "deck"
      ∷ str "gateway"
      ∷ word
      ∷ ready.state
      ∷ str "--konnect-addr"
      ∷ ready.base
      ∷ str "--konnect-control-plane-name"
      ∷ ready.control_plane_name
      ∷ parallelism)
    ++ more

unfoldable pub run_deck : Args → Prepared → Text → List Text → Text → Script Completed
unfolding command run_deck_subprocess
run_deck args ready word more purpose =
    run_deck_subprocess (command args ready word more) ready.environment
      (record { stage = args.stage; mode = word; purpose = purpose; gateway = args.gateway })

abbrev pub validation_flags : List Text
validation_flags = str "--online-entities-list" ∷ str "Routes" ∷ str "--no-color" ∷ []

abbrev pub diff_flags : List Text
diff_flags = str "--json-output" ∷ str "--no-color" ∷ str "--no-mask-deck-env-vars-value" ∷ []

abbrev pub validation_failed : Fault
validation_failed = value_error (str "third-party route validation failed; sync was not attempted")

abbrev pub refuse_validation : Fault → Script Completed
refuse_validation (value_error _) = fail validation_failed
refuse_validation e = fail e

unfoldable pub validate_routes : Args → Prepared → Script (Unit {0})
unfolding run_deck
validate_routes args ready = do
  result ←
      catch
        (run_deck args ready (str "validate") validation_flags (str "third-party route validation"))
        refuse_validation
  check (is_clean result) validation_failed

abbrev pub field_of : Text → Fields → Script Json
field_of name receipt = from (get name receipt) key_error

abbrev pub value_in : Text → Json → Json
value_in name (obj fs) = elim (get name fs) [ none ↦ null | some v ↦ v ]
value_in name _ = null

-- The operations and their digest are those of the receipt.
unfoldable pub check_reviewed : Text → Json → Text → Fields → Script (Unit {0})
check_reviewed message operations digest receipt = do
  reviewed_digest ← field_of (str "diff_sha256") receipt
  check (json_eq (text digest) reviewed_digest) (value_error message)
  reviewed_summary ← field_of (str "summary") receipt
  check (json_eq (value_in (str "summary") operations) reviewed_summary) (value_error message)
  reviewed_operations ← field_of (str "operations") receipt
  check (json_eq (value_in (str "operations") operations) reviewed_operations) (value_error message)

-- The state file is no symbolic link, and has the digest of the receipt.
unfoldable pub check_state : Text → Text → Fields → Script (Unit {0})
check_state message state receipt = do
  link ← call (is_symlink state) done
  check (not link) (value_error message)
  digest ← call (file_sha256 state) returned
  reviewed ← field_of (str "state_sha256") receipt
  check (json_eq (text digest) reviewed) (value_error message)

-- The canonical digest of a value is that of the receipt.
unfoldable pub check_canonical : Parts → Text → Json → Text → Fields → Script (Unit {0})
unfolding canonical_sha256
check_canonical parts message value name receipt = do
  reviewed ← field_of name receipt
  check (json_eq (text (canonical_sha256 parts value)) reviewed) (value_error message)

-- A fresh diff, compared with the receipt.
unfoldable pub review_diff : Parts → Args → Prepared → Fields → Script (Unit {0})
unfolding run_deck parse_sanitized_runtime_diff validate_backend_scope check_reviewed
review_diff parts args ready receipt = do
  diff ← run_deck args ready (str "diff") diff_flags (str "third-party pre-sync diff")
  check (is_clean diff)
      (value_error (str "third-party runtime pre-sync diff failed; sync was not attempted"))
  current ← lift value_error (
      parse_sanitized_runtime_diff parts.loads_report (canonical_sha256 parts) diff.stdout
        ready.sensitive_values)
  plan_type ← field_of (str "plan_type") receipt
  lift value_error (validate_backend_scope current.0 plan_type)
  check_reviewed (str "third-party runtime diff changed after Root review; sync was not attempted")
      current.0 current.1 receipt

abbrev pub inputs_changed : Text
inputs_changed =
    str "third-party runtime target, state, or role inputs changed after review; "
    ++ str "sync was not attempted"

-- The inputs, read again.
unfoldable pub review_inputs : Parts → Args → Prepared → Fields → Script (Unit {0})
unfolding read_roles read_backend_runtime_approval check_state check_canonical
review_inputs parts args ready receipt = do
  fresh ← call (local_manifest args.gateway args.stage args.mode) returned
  role_values ← read_roles parts args.gateway true
  again ← read_backend_runtime_approval parts fresh.target ready.state role_values
  check (json_eq (obj again) (obj receipt)) (value_error inputs_changed)
  check_state inputs_changed ready.state receipt
  check_canonical parts inputs_changed (obj (env_json role_values)) (str "role_inputs_sha256")
      receipt
  check_canonical parts inputs_changed (obj fresh.target) (str "target_sha256") receipt

unfoldable pub review_third_party : Parts → Args → Prepared → Script (Unit {0})
unfolding validate_routes review_diff review_inputs
review_third_party parts args ready = do
  validate_routes args ready
  receipt ← from ready.receipts.wp5 other
  review_diff parts args ready receipt
  review_inputs parts args ready receipt

unfoldable pub review_api : Parts → Args → Prepared → Script (Unit {0})
unfolding run_deck check_reviewed read_roles check_state check_canonical
review_api parts args ready = do
  diff ←
      run_deck args ready (str "diff") (str "--json-output" ∷ str "--no-color" ∷ [])
        (str "migration pre-sync diff")
  check (is_zero diff.returncode)
      (value_error (str "API runtime migration diff failed; sync was not attempted"))
  check (not (truthy (strip diff.stderr))) (
      value_error
        (str "API runtime migration diff returned unexpected diagnostics; sync was not attempted"))
  current ← lift (λ e. e) (parts.parse_deck_diff_report diff.stdout)
  receipt ← from ready.receipts.migration (
      value_error (str "API runtime migration diff changed after approval; sync was not attempted"))
  check_reviewed (str "API runtime migration diff changed after approval; sync was not attempted")
      current.0 current.1 receipt
  role_values ← read_roles parts args.gateway true
  let message =
      str "API runtime state or certificate role inputs changed after approval; "
      ++ str "sync was not attempted"
  check_state message ready.state receipt
  check_canonical parts message (obj (env_json role_values)) (str "role_inputs_sha256") receipt

unfoldable pub review : Parts → Args → Prepared → Script (Unit {0})
unfolding review_third_party review_api
review parts args ready =
    if is_third_party_sync args
    then review_third_party parts args ready
    else if is_runtime_sync args
    then review_api parts args ready
    else done tt
