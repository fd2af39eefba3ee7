-- ===== src/Deck/Main.antt =====
-- main of scripts/run-deck.py.
use konnect_oidc_fapi2_keycl.Common.{Bool, not, ◌&&◌, List, [], ◌∷◌, ◌++◌, if◌then◌else◌}
use konnect_oidc_fapi2_keycl.Python.Int.{ℤ}
use konnect_oidc_fapi2_keycl.Python.Text.{Text, str, ◌==◌, truthy, strip}
use konnect_oidc_fapi2_keycl.Python.Json.{obj}
use konnect_oidc_fapi2_keycl.Program.{done, fail, call, lift, check, when, ◌>>=◌, ◌>>◌}
use konnect_oidc_fapi2_keycl.Deck.Sanitize.{sanitize_output}
use konnect_oidc_fapi2_keycl.Deck.Report.{parse_sanitized_runtime_diff}
use konnect_oidc_fapi2_keycl.Deck.Request.{
  Script, Parts, Fault, value_error, returned, file_sha256, print, write_stdout, write_stderr,
  canonical_sha256,
}
use konnect_oidc_fapi2_keycl.Deck.Approval.{env_json}
use konnect_oidc_fapi2_keycl.Deck.Launch.{Completed, label_of}
use konnect_oidc_fapi2_keycl.Deck.Prepare.{
  Args, Prepared, prepare, is_runtime, is_runtime_sync, is_third_party_sync,
}
use konnect_oidc_fapi2_keycl.Deck.Review.{review, run_deck, is_zero}

abbrev pub is_runtime_diff : Args → Bool
is_runtime_diff args = is_runtime args && args.mode == str "diff"

abbrev pub requested_flags : Args → List Text
requested_flags args =
    if is_runtime_diff args
    then str "--json-output"
      ∷ str "--no-color"
      ∷ (if args.gateway == str "third-party" then str "--no-mask-deck-env-vars-value" ∷ [] else [])
    else []

-- `print(f"{name}={value}")`
abbrev pub print_value : Text → Text → Script (Unit {0})
print_value name value = call (print (name ++ str "=" ++ value)) λ _. done tt

-- What is shown of a diff of a runtime.
unfoldable pub show_diff : Parts → Args → Prepared → Completed → Script (Unit {0})
unfolding sanitize_output parse_sanitized_runtime_diff canonical_sha256
show_diff parts args ready result = do
  check (is_zero result.returncode) (value_error (args.gateway ++ str " runtime diff failed"))
  check (not (truthy (strip (sanitize_output result.stderr ready.sensitive_values))))
      (value_error (args.gateway ++ str " runtime diff returned unexpected diagnostics"))
  let role_digest = canonical_sha256 parts (obj (env_json ready.role_values))
  let is_api = args.gateway == str "api"
  parsed ←
      if is_api
      then lift (λ e. e) (parts.parse_deck_diff_report result.stdout)
      else lift value_error (
          parse_sanitized_runtime_diff parts.loads_report (canonical_sha256 parts) result.stdout
            ready.sensitive_values)
  call (print (parts.dumps parsed.0)) done
  when is_api (print_value (str "WP3_MIGRATION_DIFF_SHA256") parsed.1)
  state_digest ← call (file_sha256 ready.state) returned
  let prefix = if is_api then str "WP3_API_RUNTIME_" else str "TP_BACKEND_RUNTIME_V2_"
  print_value (prefix ++ str "STATE_SHA256") state_digest
  print_value (prefix ++ str "ROLE_INPUTS_SHA256") role_digest
  when (not is_api)
      (print_value (prefix ++ str "TARGET_SHA256") (canonical_sha256 parts (obj ready.target)))
  when (not is_api) (print_value (prefix ++ str "DIFF_SHA256") parsed.1)

abbrev pub sync_completed : Text
sync_completed =
    str "third-party runtime sync completed for the approved backend runtime v2 scope; "
    ++ str "decK output withheld"

abbrev pub exited_nonzero : Args → Fault
exited_nonzero args = value_error (
    label_of args.gateway
    ++ str " sync exited nonzero; outcome is unknown; inspect current state before any retry")

abbrev pub write_output : Prepared → Completed → Script (Unit {0})
write_output ready result =
    call (write_stdout (sanitize_output result.stdout ready.sensitive_values))
      λ _. call (write_stderr (sanitize_output result.stderr ready.sensitive_values)) done

-- What follows the end of the requested command.
unfoldable pub report : Parts → Args → Prepared → Completed → Script (Unit {0})
unfolding show_diff sanitize_output
report parts args ready result =
    if is_runtime_diff args
    then show_diff parts args ready result
    else if is_runtime_sync args && not (is_zero result.returncode)
    then fail (exited_nonzero args)
    else if is_third_party_sync args
    then call (print sync_completed) done
    else write_output ready result

abbrev pub announcement : Args → Text → Text
announcement args name =
    str "decK "
    ++ args.mode
    ++ str ": gateway="
    ++ args.gateway
    ++ str ", stage="
    ++ args.stage
    ++ str ", target="
    ++ name

-- The requested command; the result is the code of the exit.
unfoldable pub launch : Parts → Args → Prepared → Script ℤ
unfolding run_deck report
launch parts args ready = do
  call (print (announcement args ready.control_plane_name)) done
  result ← run_deck args ready args.mode (requested_flags args) (str "requested command")
  report parts args ready result
  done result.returncode

unfoldable pub main : Parts → Args → Script ℤ
unfolding prepare review launch
main parts args = do ready ← prepare parts args; review parts args ready; launch parts args ready
