-- ===== src/Deck/Tests.antt =====
-- Runs of the gates on small inputs.
use konnect_oidc_fapi2_keycl.Common.{
  ◌≡◌, ◌↔◌, refl, ℕ, ◌+◌, true, false, some, List, All, [], ◌∷◌, ok, any, map, replicate,
}
use konnect_oidc_fapi2_keycl.Python.Int.{pos}
use konnect_oidc_fapi2_keycl.Program.{◌>>=◌, ◌>>◌, catch, finally, run, trace}
use konnect_oidc_fapi2_keycl.Deck.Identities.{
  has_identity, same_identities, same_set, text_before, identity_before, insert_by, sorted_by,
  sorted, plan_of, Identity,
}
use konnect_oidc_fapi2_keycl.Deck.Scope.{
  identities_of, plan_summary, check_operation, validate_backend_scope,
}
use konnect_oidc_fapi2_keycl.Deck.Sanitize.{
  replace_from, replace, label_length, drop, boundary, to_end, pem_length, redact_from,
  safe_secrets, insert_longest, longest_first, redact_secrets, sanitize_output,
}
use konnect_oidc_fapi2_keycl.Deck.Report.{
  check_body, read_entry, read_entries, read_operation, read_changes, safe_list, raw_list, counts,
  safe_operations, full_report, read_report, parse_sanitized_runtime_diff,
}
use konnect_oidc_fapi2_keycl.Deck.Request.{
  canonical_sha256, Ask, Answer, Parts, Info, Stat, finished, local_manifest, is_file, is_dir,
  is_symlink, open_nofollow, fstat, read, close, environ_get, environ, read_env, file_sha256,
  read_migration_approval, verify_remote_target, verify_shared_api_ca, check_schemas, deck, print,
  write_stdout, write_stderr,
}
use konnect_oidc_fapi2_keycl.Deck.Files.{
  read_bounded, read_wp5_approval_bytes, is_safe_directory, load_role_file, read_private_role_file,
}
use konnect_oidc_fapi2_keycl.Deck.Receipt.{check_receipt, check_header, backend_scope}
use konnect_oidc_fapi2_keycl.Deck.Approval.{load_receipt, read_backend_runtime_approval}
use konnect_oidc_fapi2_keycl.Deck.Launch.{timeout_message, start_message, run_deck_subprocess}
use konnect_oidc_fapi2_keycl.Deck.Prepare.{
  lookup, assign, update, remove, state_file, check_switches, read_roles, migration_receipts,
  wp5_receipts, read_receipts, text_of, check_shared_ca, check_remote, deck_environment, prepare,
  Args, is_third_party_sync, is_api_sync,
}
use konnect_oidc_fapi2_keycl.Deck.Review.{
  command, run_deck, validate_routes, check_reviewed, check_state, check_canonical, review_diff,
  review_inputs, review_third_party, review_api, review,
}
use konnect_oidc_fapi2_keycl.Deck.Main.{show_diff, report, launch, main}
use konnect_oidc_fapi2_keycl.Backend.Ready.{is_hex_of}
use konnect_oidc_fapi2_keycl.Python.Text.{
  ◌==◌, strip, strip_left, strip_right, starts_with, Text, str,
}
use konnect_oidc_fapi2_keycl.Python.Json.{
  Fields, get, has_key, keys, items, unique_object, passes_hook, Json, text, null, obj, arr, nil,
  cons, end, dict,
}
use konnect_oidc_fapi2_keycl.Python.Json.Equality.{json_eq}
use konnect_oidc_fapi2_keycl.Keycloak.Values.{is_member, has_only, to_items}
use konnect_oidc_fapi2_keycl.Deck.Exact.{IsScope, validate_backend_scope-IsScope}
use konnect_oidc_fapi2_keycl.Deck.Quiet.{is_sync}
use konnect_oidc_fapi2_keycl.Deck.Withheld.{IsWithheld, main-IsWithheld}
use konnect_oidc_fapi2_keycl.Deck.ApiGate.{IsApiReviewed, api_sync-IsApiReviewed}
use konnect_oidc_fapi2_keycl.Deck.Gate.{IsReviewed, sync-IsReviewed}

abbrev number : ℕ → Json
number n = Json.int (pos n)

abbrev summary : Json
summary = obj (
    dict (
      (str "creating", number 2)
      ∷ (str "updating", number 4)
      ∷ (str "deleting", number 0)
      ∷ (str "total", number 6)
      ∷ []))

abbrev list_json : List Json → Json
list_json [] = arr nil
list_json (j ∷ js) = elim (list_json js) [ arr more ↦ arr (cons j more) | _ ↦ null ]

abbrev identity_json : Identity → Json
identity_json (kind, name) = obj (dict ((str "kind", text kind) ∷ (str "name", text name) ∷ []))

-- The updates in their order.
abbrev updated : List Identity
updated =
    (str "plugin", str "cors for service third-party-route-a-api")
    ∷ (str "plugin", str "cors for service third-party-route-b-api")
    ∷ (str "plugin", str "openid-connect for service third-party-route-a-api")
    ∷ (str "plugin", str "openid-connect for service third-party-route-b-api")
    ∷ []

abbrev created : List Identity
created =
    (str "plugin", str "request-transformer for service third-party-static-ui")
    ∷ (str "route", str "third-party-static-ui")
    ∷ []

abbrev listed : (Identity → Json) → Json
listed entry = obj (
    dict (
      (str "creating", list_json (map entry created))
      ∷ (str "updating", list_json (map entry updated))
      ∷ (str "deleting", arr nil)
      ∷ []))

abbrev operations : Json
operations = obj (dict ((str "summary", summary) ∷ (str "operations", listed identity_json) ∷ []))

recovery-scoped : validate_backend_scope operations (text (str "migration-recovery")) ≡ ok tt
unfolding str dict ◌>>=◌ ◌>>◌ catch finally has_identity same_identities same_set text_before
    identity_before insert_by sorted_by sorted plan_of identities_of plan_summary check_operation
    validate_backend_scope replace_from replace label_length drop boundary to_end pem_length
    redact_from safe_secrets insert_longest longest_first redact_secrets sanitize_output check_body
    read_entry read_entries read_operation read_changes safe_list raw_list counts safe_operations
    full_report read_report parse_sanitized_runtime_diff canonical_sha256 read_bounded
    read_wp5_approval_bytes is_safe_directory load_role_file read_private_role_file check_receipt
    check_header load_receipt read_backend_runtime_approval timeout_message start_message
    run_deck_subprocess lookup assign update remove state_file check_switches read_roles
    migration_receipts wp5_receipts read_receipts text_of check_shared_ca check_remote
    deck_environment prepare command run_deck validate_routes check_reviewed check_state
    check_canonical review_diff review_inputs review_third_party review_api review show_diff report
    launch main is_hex_of ◌==◌ strip strip_left strip_right starts_with get has_key keys items
    unique_object passes_hook json_eq is_member has_only to_items
recovery-scoped = refl

validate_backend_scope-IsScope_example :
    (validate_backend_scope operations (text (str "migration-recovery")) ≡ ok tt)
    ↔ IsScope operations (text (str "migration-recovery"))
validate_backend_scope-IsScope_example =
    validate_backend_scope-IsScope operations (text (str "migration-recovery"))

recovery-IsScope : IsScope operations (text (str "migration-recovery"))
recovery-IsScope =
    (validate_backend_scope-IsScope operations (text (str "migration-recovery"))).0 recovery-scoped

-- Every digest is this one.
abbrev digest : Text
digest = replicate 64 b'a'

abbrev receipt_fields : Fields
receipt_fields =
    (dict (
      (str "schema_version", number 2)
      ∷ (str "scope", text backend_scope)
      ∷ (str "approved", Json.bool true)
      ∷ (str "target_sha256", text digest)
      ∷ (str "state_sha256", text digest)
      ∷ (str "role_inputs_sha256", text digest)
      ∷ (str "diff_sha256", text digest)
      ∷ (str "summary", summary)
      ∷ (str "operations", listed identity_json)
      ∷ (str "plan_type", text (str "migration-recovery"))
      ∷ []))

abbrev receipt : Json
receipt = obj receipt_fields

abbrev body_of : Json → Json
body_of old = obj (dict ((str "old", old) ∷ (str "new", obj end) ∷ []))

abbrev change_json : Json → Identity → Json
change_json old (kind, name) =
    obj (dict ((str "kind", text kind) ∷ (str "name", text name) ∷ (str "body", body_of old) ∷ []))

abbrev changes : Json
changes = obj (
    dict (
      (str "creating", list_json (map (change_json null) created))
      ∷ (str "updating", list_json (map (change_json (obj end)) updated))
      ∷ (str "deleting", arr nil)
      ∷ []))

abbrev diff_report : Json
diff_report = obj (
    dict (
      (str "changes", changes)
      ∷ (str "summary", summary)
      ∷ (str "warnings", arr nil)
      ∷ (str "errors", arr nil)
      ∷ []))

abbrev parts : Parts
parts = record {
  has_nofollow = true;
  loads = λ _. some receipt;
  loads_last = λ _. some (obj end);
  loads_report = λ _. some diff_report;
  dumps = λ _. [];
  sha256_hex = λ _. digest;
  validate_role_values = λ _ _. ok ((str "DECK_FAPI_CA_CERT_YAML", str "ca") ∷ []);
  parse_deck_diff_report = λ _. ok (operations, digest);
}

abbrev info : Info
info = record {
  manifest = dict ((str "konnect_server_url", text (str "https://eu.api.konghq.com/")) ∷ []);
  target = dict (
      (str "control_plane_id", text (str "cp-1"))
      ∷ (str "control_plane_name", text (str "demo"))
      ∷ []);
}

abbrev private_file : Stat
private_file = record { is_regular = true; mode = 0o600; size = 10 }

-- What has been started.
serve : (o : Ask) → ℕ → Answer o × ℕ
serve (local_manifest _ _ _) n = (ok info, n)
serve (is_file _) n = (true, n)
serve (is_dir _) n = (true, n)
serve (is_symlink _) n = (false, n)
serve (open_nofollow _) n = (ok 3, n)
serve (fstat _) n = (ok private_file, n)
serve (read _ _) n = (ok [], n)
serve (close _) n = (ok tt, n)
serve (environ_get _) n = (some (str "YES"), n)
serve environ n = ([], n)
serve (read_env _) n = (ok ((str "KONNECT_TOKEN", str "kpat_token") ∷ []), n)
serve (file_sha256 _) n = (ok digest, n)
serve (read_migration_approval _ _) n = (ok receipt_fields, n)
serve (verify_remote_target _ _ _) n = (ok tt, n)
serve (verify_shared_api_ca _ _ _ _) n = (ok tt, n)
serve (check_schemas _ _ _ _) n = (ok tt, n)
serve (deck _ _) n = (finished (pos 0) [] [], 1 + n)
serve (print _) n = (tt, n)
serve (write_stdout _) n = (tt, n)
serve (write_stderr _) n = (tt, n)

abbrev args : Args
args = record { mode = str "sync"; gateway = str "third-party"; stage = str "runtime" }

-- decK is started three times, and the exit code is that of the last one.
all-run : run serve (main parts args) 0 ≡ (ok (pos 0), 3)
unfolding run serve str dict ◌>>=◌ ◌>>◌ catch finally has_identity same_identities same_set
    text_before identity_before insert_by sorted_by sorted plan_of identities_of plan_summary
    check_operation validate_backend_scope replace_from replace label_length drop boundary to_end
    pem_length redact_from safe_secrets insert_longest longest_first redact_secrets sanitize_output
    check_body read_entry read_entries read_operation read_changes safe_list raw_list counts
    safe_operations full_report read_report parse_sanitized_runtime_diff canonical_sha256
    read_bounded read_wp5_approval_bytes is_safe_directory load_role_file read_private_role_file
    check_receipt check_header load_receipt read_backend_runtime_approval timeout_message
    start_message run_deck_subprocess lookup assign update remove state_file check_switches
    read_roles migration_receipts wp5_receipts read_receipts text_of check_shared_ca check_remote
    deck_environment prepare command run_deck validate_routes check_reviewed check_state
    check_canonical review_diff review_inputs review_third_party review_api review show_diff report
    launch main is_hex_of ◌==◌ strip strip_left strip_right starts_with get has_key keys items
    unique_object passes_hook json_eq is_member has_only to_items
all-run = refl

is_sync_run : is_third_party_sync args ≡ true
unfolding str ◌==◌
is_sync_run = refl

was_synced : any is_sync (trace serve (main parts args) 0) ≡ true
unfolding trace run serve str dict ◌>>=◌ ◌>>◌ catch finally has_identity same_identities same_set
    text_before identity_before insert_by sorted_by sorted plan_of identities_of plan_summary
    check_operation validate_backend_scope replace_from replace label_length drop boundary to_end
    pem_length redact_from safe_secrets insert_longest longest_first redact_secrets sanitize_output
    check_body read_entry read_entries read_operation read_changes safe_list raw_list counts
    safe_operations full_report read_report parse_sanitized_runtime_diff canonical_sha256
    read_bounded read_wp5_approval_bytes is_safe_directory load_role_file read_private_role_file
    check_receipt check_header load_receipt read_backend_runtime_approval timeout_message
    start_message run_deck_subprocess lookup assign update remove state_file check_switches
    read_roles migration_receipts wp5_receipts read_receipts text_of check_shared_ca check_remote
    deck_environment prepare command run_deck validate_routes check_reviewed check_state
    check_canonical review_diff review_inputs review_third_party review_api review show_diff report
    launch main is_hex_of ◌==◌ strip strip_left strip_right starts_with get has_key keys items
    unique_object passes_hook json_eq is_member has_only to_items
was_synced = refl

sync-IsReviewed_example : IsReviewed serve parts args 0
sync-IsReviewed_example = sync-IsReviewed serve parts args 0 is_sync_run was_synced

main-IsWithheld_example : All (IsWithheld serve args 0) (trace serve (main parts args) 0)
main-IsWithheld_example = main-IsWithheld serve parts args 0 is_sync_run

abbrev api_args : Args
api_args = record { mode = str "sync"; gateway = str "api"; stage = str "runtime" }

is_api_run : is_api_sync api_args ≡ true
unfolding str ◌==◌
is_api_run = refl

was_migrated : any is_sync (trace serve (main parts api_args) 0) ≡ true
unfolding trace run serve str dict ◌>>=◌ ◌>>◌ catch finally has_identity same_identities same_set
    text_before identity_before insert_by sorted_by sorted plan_of identities_of plan_summary
    check_operation validate_backend_scope replace_from replace label_length drop boundary to_end
    pem_length redact_from safe_secrets insert_longest longest_first redact_secrets sanitize_output
    check_body read_entry read_entries read_operation read_changes safe_list raw_list counts
    safe_operations full_report read_report parse_sanitized_runtime_diff canonical_sha256
    read_bounded read_wp5_approval_bytes is_safe_directory load_role_file read_private_role_file
    check_receipt check_header load_receipt read_backend_runtime_approval timeout_message
    start_message run_deck_subprocess lookup assign update remove state_file check_switches
    read_roles migration_receipts wp5_receipts read_receipts text_of check_shared_ca check_remote
    deck_environment prepare command run_deck validate_routes check_reviewed check_state
    check_canonical review_diff review_inputs review_third_party review_api review show_diff report
    launch main is_hex_of ◌==◌ strip strip_left strip_right starts_with get has_key keys items
    unique_object passes_hook json_eq is_member has_only to_items
was_migrated = refl

api_sync-IsApiReviewed_example : IsApiReviewed serve parts api_args 0
api_sync-IsApiReviewed_example =
    api_sync-IsApiReviewed serve parts api_args 0 is_api_run was_migrated
