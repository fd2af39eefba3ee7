-- ===== src/Deck/Quiet.antt =====
-- Nothing is synced before the review has ended.
use konnect_oidc_fapi2_keycl.Common.{
  ◌≡◌, refl, ℕ, Bool, true, false, Option, none, some, ◌∷◌, Result, ok, err, if◌then◌else◌,
}
use konnect_oidc_fapi2_keycl.Python.Text.{Text, str, ◌==◌}
use konnect_oidc_fapi2_keycl.Python.Json.{Fields}
use konnect_oidc_fapi2_keycl.Program.{done, call, catch, when, AllCalls}
use konnect_oidc_fapi2_keycl.Program.Laws.{
  AllCalls->>=, AllCalls->>, AllCalls-catch, AllCalls-finally, AllCalls-lift, AllCalls-from,
  AllCalls-check,
}
use konnect_oidc_fapi2_keycl.Deck.Request.{
  Ask, Answer, Script, Parts, Env, Stat, deck, is_dir, print, write_stdout, write_stderr, Fault,
  value_error, os_error, key_error, other, returned, unless_os_error,
}
use konnect_oidc_fapi2_keycl.Deck.Files.{
  read_bounded, read_wp5_approval_bytes, is_safe_directory, load_role_file, read_private_role_file,
}
use konnect_oidc_fapi2_keycl.Deck.Approval.{
  load_receipt, hide_value_error, read_backend_runtime_approval,
}
use konnect_oidc_fapi2_keycl.Deck.Prepare.{
  Args, prepare, check_switches, require_yes, is_yes, third_party_switch, api_switch,
  is_third_party_sync, is_api_sync, read_roles, read_receipts, migration_receipts, wp5_receipts,
  text_of, check_remote, check_shared_ca,
}

-- A start of decK whose third word is `sync`.
abbrev pub is_sync : Ask → Bool
is_sync (deck (_ ∷ _ ∷ word ∷ _) _) = word == str "sync"
is_sync _ = false

-- What a call writes for the user.
abbrev pub output_of : Ask → Option Text
output_of (print shown) = some shown
output_of (write_stdout shown) = some shown
output_of (write_stderr shown) = some shown
output_of _ = none

-- Nothing is synced, and nothing shown.
abbrev pub IsQuiet : Ask → Type 0
IsQuiet o = (is_sync o ≡ false) × (output_of o ≡ none)

pub returned-IsQuiet : {A : Type 0} (r : Result Fault A) → AllCalls IsQuiet (returned r)
returned-IsQuiet (ok a) = tt
returned-IsQuiet (err e) = tt

pub unless_os_error-IsQuiet :
    {A : Type 0} (message : Text) (r : Result Fault A)
    → AllCalls IsQuiet (unless_os_error message r)
unless_os_error-IsQuiet message (ok a) = tt
unless_os_error-IsQuiet message (err (value_error _)) = tt
unless_os_error-IsQuiet message (err os_error) = tt
unless_os_error-IsQuiet message (err key_error) = tt
unless_os_error-IsQuiet message (err other) = tt

pub when-IsQuiet :
    (b : Bool) (m : Script (Unit {0})) → AllCalls IsQuiet m → AllCalls IsQuiet (when b m)
when-IsQuiet true m h = h
when-IsQuiet false m h = tt

pub ruleset quiet_steps = (
  AllCalls->>=, AllCalls->>, AllCalls-finally, AllCalls-lift, AllCalls-from, AllCalls-check,
  returned-IsQuiet, unless_os_error-IsQuiet, when-IsQuiet,
)

read_bounded-IsQuiet :
    (d : ℕ) (test : Stat → Bool) (limit : ℕ) (message : Text)
    → AllCalls IsQuiet (read_bounded d test limit message)
unfolding read_bounded
read_bounded-IsQuiet d test limit message = search quiet_steps

read_wp5_approval_bytes-IsQuiet :
    (parts : Parts) (path : Text) → AllCalls IsQuiet (read_wp5_approval_bytes parts path)
unfolding read_wp5_approval_bytes
read_wp5_approval_bytes-IsQuiet parts path = search (quiet_steps, read_bounded-IsQuiet)

load_role_file-IsQuiet :
    (parts : Parts) (b : Bool) (d : ℕ) → AllCalls IsQuiet (load_role_file parts b d)
unfolding load_role_file
load_role_file-IsQuiet parts b d = search (quiet_steps, read_bounded-IsQuiet)

link-IsQuiet :
    (link : Bool) (path : Text)
    → AllCalls {R = Answer} {E = Fault} IsQuiet
        (if link then done false else call (is_dir path) done)
link-IsQuiet true path = tt
link-IsQuiet false path = ((refl, refl), λ r. tt)

is_safe_directory-IsQuiet : (path : Text) → AllCalls IsQuiet (is_safe_directory path)
unfolding is_safe_directory
is_safe_directory-IsQuiet path = ((refl, refl), λ link. link-IsQuiet link path)

read_private_role_file-IsQuiet :
    (parts : Parts) (path : Text) (b : Bool)
    → AllCalls IsQuiet (read_private_role_file parts path b)
unfolding read_private_role_file
read_private_role_file-IsQuiet parts path b =
    search (quiet_steps, load_role_file-IsQuiet, is_safe_directory-IsQuiet) depth 9

hide_value_error-IsQuiet : (e : Fault) → AllCalls IsQuiet (hide_value_error e)
hide_value_error-IsQuiet (value_error _) = tt
hide_value_error-IsQuiet os_error = tt
hide_value_error-IsQuiet key_error = tt
hide_value_error-IsQuiet other = tt

load_receipt-IsQuiet : (parts : Parts) → AllCalls IsQuiet (load_receipt parts)
unfolding load_receipt
load_receipt-IsQuiet parts = search (quiet_steps, read_wp5_approval_bytes-IsQuiet)

load-IsQuiet : (parts : Parts) → AllCalls IsQuiet (catch (load_receipt parts) hide_value_error)
load-IsQuiet parts =
    AllCalls-catch IsQuiet _ hide_value_error (load_receipt-IsQuiet parts) hide_value_error-IsQuiet

pub read_backend_runtime_approval-IsQuiet :
    (parts : Parts) (target : Fields) (state : Text) (role_values : Env)
    → AllCalls IsQuiet (read_backend_runtime_approval parts target state role_values)
unfolding read_backend_runtime_approval
read_backend_runtime_approval-IsQuiet parts target state role_values =
    search (quiet_steps, is_safe_directory-IsQuiet, load-IsQuiet) depth 9

require_yes-IsQuiet : (name message : Text) → AllCalls IsQuiet (require_yes name message)
require_yes-IsQuiet name message =
    ((refl, refl), λ value. AllCalls-check Answer IsQuiet (is_yes value) (value_error message))

check_switches-IsQuiet : (args : Args) → AllCalls IsQuiet (check_switches args)
unfolding check_switches
check_switches-IsQuiet args =
    AllCalls->> IsQuiet _ _
      (when-IsQuiet (is_third_party_sync args) _ (require_yes-IsQuiet third_party_switch _))
      (when-IsQuiet (is_api_sync args) _ (require_yes-IsQuiet api_switch _))

pub read_roles-IsQuiet :
    (parts : Parts) (gateway : Text) (b : Bool) → AllCalls IsQuiet (read_roles parts gateway b)
unfolding read_roles
read_roles-IsQuiet parts gateway b = search (quiet_steps, read_private_role_file-IsQuiet)

text_of-IsQuiet : (name : Text) (fields : Fields) → AllCalls IsQuiet (text_of name fields)
unfolding text_of
text_of-IsQuiet name fields = search quiet_steps

pub if-IsQuiet :
    {A : Type 0} (b : Bool) (m n : Script A)
    → AllCalls IsQuiet m
    → AllCalls IsQuiet n
    → AllCalls IsQuiet (if b then m else n)
if-IsQuiet true m n p q = p
if-IsQuiet false m n p q = q

migration_receipts-IsQuiet :
    (target : Fields) (role_values : Env) → AllCalls IsQuiet (migration_receipts target role_values)
unfolding migration_receipts
migration_receipts-IsQuiet target role_values = search quiet_steps

wp5_receipts-IsQuiet :
    (parts : Parts) (target : Fields) (state : Text) (role_values : Env)
    → AllCalls IsQuiet (wp5_receipts parts target state role_values)
unfolding wp5_receipts
wp5_receipts-IsQuiet parts target state role_values =
    search (quiet_steps, read_backend_runtime_approval-IsQuiet)

read_receipts-IsQuiet :
    (parts : Parts) (args : Args) (target : Fields) (state : Text) (role_values : Env)
    → AllCalls IsQuiet (read_receipts parts args target state role_values)
unfolding read_receipts
read_receipts-IsQuiet parts args target state role_values =
    if-IsQuiet (is_api_sync args) _ _ (migration_receipts-IsQuiet target role_values) (
      if-IsQuiet (is_third_party_sync args) _ _
        (wp5_receipts-IsQuiet parts target state role_values) tt)

check_shared_ca-IsQuiet :
    (base : Text) (target : Fields) (token : Text) (role_values : Env)
    → AllCalls IsQuiet (check_shared_ca base target token role_values)
unfolding check_shared_ca
check_shared_ca-IsQuiet base target token role_values = search quiet_steps

check_remote-IsQuiet :
    (args : Args) (base : Text) (target : Fields) (token : Text) (role_values : Env)
    → AllCalls IsQuiet (check_remote args base target token role_values)
unfolding check_remote
check_remote-IsQuiet args base target token role_values =
    search (quiet_steps, check_shared_ca-IsQuiet)

ruleset prepare_steps = (
  quiet_steps, check_switches-IsQuiet, read_roles-IsQuiet, read_receipts-IsQuiet, text_of-IsQuiet,
  check_remote-IsQuiet,
)

pub prepare-IsQuiet : (parts : Parts) (args : Args) → AllCalls IsQuiet (prepare parts args)
unfolding prepare
prepare-IsQuiet parts args = search prepare_steps depth 20
