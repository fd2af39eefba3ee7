-- ===== src/Deck/Prepare.antt =====
-- What main of scripts/run-deck.py does before it runs decK for the first time.
use konnect_oidc_fapi2_keycl.Common.{
  Bool, false, ◌&&◌, List, [], ◌∷◌, ◌++◌, Option, none, some, Result, ok, err, eqb, map,
  if◌then◌else◌,
}
use konnect_oidc_fapi2_keycl.Python.Text.{Text, str, ◌==◌, truthy, strip_right}
use konnect_oidc_fapi2_keycl.Python.Json.{Fields, get, as_text}
use konnect_oidc_fapi2_keycl.Program.{done, call, from, lift, check, when, ◌>>=◌, ◌>>◌}
use konnect_oidc_fapi2_keycl.Deck.Request.{
  Script, Parts, Env, Fault, value_error, key_error, other, returned, local_manifest, is_file,
  environ_get, environ, read_env, read_migration_approval, verify_remote_target,
  verify_shared_api_ca, check_schemas,
}
use konnect_oidc_fapi2_keycl.Deck.Files.{read_private_role_file}
use konnect_oidc_fapi2_keycl.Deck.Approval.{read_backend_runtime_approval}

-- The arguments of the command line; the parser admits only `diff` and `sync`, and only `api` and
-- `third-party`.
pub record Args : Type 0 where
  pub mode : Text
  pub gateway : Text
  pub stage : Text

abbrev pub is_runtime : Args → Bool
is_runtime args = args.stage == str "runtime"

abbrev pub is_runtime_sync : Args → Bool
is_runtime_sync args = is_runtime args && args.mode == str "sync"

abbrev pub is_third_party_sync : Args → Bool
is_third_party_sync args = is_runtime_sync args && args.gateway == str "third-party"

abbrev pub is_api_sync : Args → Bool
is_api_sync args = is_runtime_sync args && args.gateway == str "api"

-- FOUNDATION_FILES and RUNTIME_FILES of wp1_target.py
abbrev pub foundation_files : Env
foundation_files =
    (str "api", str "kong/foundation/api.yaml")
    ∷ (str "third-party", str "kong/foundation/third-party.yaml")
    ∷ []

abbrev pub runtime_files : Env
runtime_files =
    (str "api", str "kong/api-gateway.yaml")
    ∷ (str "third-party", str "kong/third-party-gateway.yaml")
    ∷ []

-- `d.get(name)` of a dict of strings
unfoldable pub lookup : Text → Env → Option Text
lookup name [] = none
lookup name ((n, value) ∷ env) =
    let rest = lookup name env in if n == name then some value else rest

-- `d[name] = value`
unfoldable pub assign : Text → Text → Env → Env
assign name value [] = (name, value) ∷ []
assign name value ((n, v) ∷ env) =
    let rest = assign name value env in if n == name then (n, value) ∷ env else (n, v) ∷ rest

-- `d.update(more)`
unfoldable pub update : Env → Env → Env
unfolding assign
update env [] = env
update env ((name, value) ∷ more) = update (assign name value env) more

-- `d.pop(name, None)` of a dict, whose names are distinct
unfoldable pub remove : Text → Env → Env
remove name [] = []
remove name ((n, v) ∷ env) = let rest = remove name env in if n == name then rest else (n, v) ∷ rest

abbrev pub values : Env → List Text
values env = map (λ entry. entry.1) env

unfoldable pub state_file : Args → Result Fault Text
unfolding lookup
state_file args =
    let or_key_error : Option Text → Result Fault Text =
      λ found. elim found [ none ↦ err key_error | some path ↦ ok path ] in
    if args.stage == str "foundation"
    then or_key_error (lookup args.gateway foundation_files)
    else if args.stage == str "runtime"
    then or_key_error (lookup args.gateway runtime_files)
    else err
        (value_error (str "fixed decK state is unavailable for the selected gateway and stage"))

abbrev pub is_yes : Option Text → Bool
is_yes none = false
is_yes (some value) = value == str "YES"

-- `os.environ.get(name) != "YES"` raises.
abbrev pub require_yes : Text → Text → Script (Unit {0})
require_yes name message =
    call (environ_get name) λ value. check (is_yes value) (value_error message)

abbrev pub third_party_switch : Text
third_party_switch = str "TP_BACKEND_RUNTIME_V2_APPROVED"

abbrev pub api_switch : Text
api_switch = str "WP3_API_RUNTIME_MIGRATION_APPROVED"

unfoldable pub check_switches : Args → Script (Unit {0})
check_switches args = do
  when (is_third_party_sync args) (
      require_yes third_party_switch (
        str
          "third-party runtime sync requires TP_BACKEND_RUNTIME_V2_APPROVED=YES after Root review"))
  when (is_api_sync args) (
      require_yes api_switch (
        str "API runtime sync is a separate live migration; it requires "
        ++ str "WP3_API_RUNTIME_MIGRATION_APPROVED=YES after root review"))

abbrev pub role_file : Text → Text
role_file gateway = str ".generated/runtime-" ++ gateway ++ str ".json"

-- `validate_role_values(gateway, read_private_role_file(…))`
unfoldable pub read_roles : Parts → Text → Bool → Script Env
unfolding read_private_role_file
read_roles parts gateway require_private_mode = do
  raw ← read_private_role_file parts (role_file gateway) require_private_mode
  lift (λ e. e) (parts.validate_role_values gateway raw)

-- `migration_receipt` and `wp5_receipt`
pub record Receipts : Type 0 where
  pub migration : Option Fields
  pub wp5 : Option Fields

unfoldable pub migration_receipts : Fields → Env → Script Receipts
migration_receipts target role_values = do
  id ← from (get (str "control_plane_id") target) key_error
  receipt ← call (read_migration_approval id role_values) returned
  done (record { migration = some receipt; wp5 = none })

unfoldable pub wp5_receipts : Parts → Fields → Text → Env → Script Receipts
unfolding read_backend_runtime_approval
wp5_receipts parts target state role_values = do
  receipt ← read_backend_runtime_approval parts target state role_values
  done (record { migration = none; wp5 = some receipt })

unfoldable pub read_receipts : Parts → Args → Fields → Text → Env → Script Receipts
unfolding migration_receipts wp5_receipts
read_receipts parts args target state role_values =
    if is_api_sync args
    then migration_receipts target role_values
    else if is_third_party_sync args
    then wp5_receipts parts target state role_values
    else done (record { migration = none; wp5 = none })

-- `d[name]`, where a value that is not a string is of no use for what follows.
unfoldable pub text_of : Text → Fields → Script Text
text_of name fields = do value ← from (get name fields) key_error; from (as_text (some value)) other

-- The three checks of what is at Konnect.
-- `verify_shared_api_ca(base, target, token, role_values["DECK_FAPI_CA_CERT_YAML"])`
unfoldable pub check_shared_ca : Text → Fields → Text → Env → Script (Unit {0})
unfolding lookup
check_shared_ca base target token role_values = do
  certificate ← from (lookup (str "DECK_FAPI_CA_CERT_YAML") role_values) key_error
  call (verify_shared_api_ca base target token certificate) returned

unfoldable pub check_remote : Args → Text → Fields → Text → Env → Script (Unit {0})
unfolding check_shared_ca
check_remote args base target token role_values = do
  call (verify_remote_target base target token) returned
  when (args.gateway == str "api") (check_shared_ca base target token role_values)
  call (check_schemas args.gateway base target token) returned

-- The environment of decK.
unfoldable pub deck_environment : Env → Env → Env → Text → Text → Text → Env
unfolding update remove
deck_environment own generated role_values token base name = remove (str "KONNECT_TOKEN") (
    update (update (update own generated) role_values) (
      (str "DECK_KONNECT_TOKEN", token)
      ∷ (str "KONNECT_SERVER_URL", base)
      ∷ (str "KONNECT_CONTROL_PLANE_NAME", name)
      ∷ []))

-- The variables of main that are used after that.
pub record Prepared : Type 0 where
  pub state : Text
  pub target : Fields
  pub role_values : Env
  pub receipts : Receipts
  pub base : Text
  pub control_plane_name : Text
  pub environment : Env
  pub sensitive_values : List Text

unfoldable pub prepare : Parts → Args → Script Prepared
unfolding state_file check_switches read_roles read_receipts lookup text_of check_remote
    deck_environment strip_right
prepare parts args = do
  info ← call (local_manifest args.gateway args.stage args.mode) returned
  state ← lift (λ e. e) (state_file args)
  present ← call (is_file state) done
  check present (value_error (str "fixed " ++ args.stage ++ str " state is unavailable"))
  check_switches args
  role_values ← read_roles parts args.gateway (is_runtime args)
  receipts ← read_receipts parts args info.target state role_values
  config ← call (read_env (str ".env")) returned
  let no_token = value_error (str "KONNECT_TOKEN is required after local target validation")
  token ← from (lookup (str "KONNECT_TOKEN") config) no_token
  check (truthy token) no_token
  url ← text_of (str "konnect_server_url") info.manifest
  let base = strip_right (eqb b'/') url
  check_remote args base info.target token role_values
  generated ← call (read_env (str ".generated/deck.env")) returned
  own ← call environ done
  name ← text_of (str "control_plane_name") info.target
  done (record {
    state = state;
    target = info.target;
    role_values = role_values;
    receipts = receipts;
    base = base;
    control_plane_name = name;
    environment = deck_environment own generated role_values token base name;
    sensitive_values = token ∷ (values generated ++ values role_values);
  })
