-- ===== src/Deck/Request.antt =====
-- What scripts/run-deck.py calls on: files, its environment, decK, and the checks of its sibling
-- scripts wp1_target.py and wp3_runtime.py.
use konnect_oidc_fapi2_keycl.Common.{ℕ, Bool, List, Option, Result, ok, err}
use konnect_oidc_fapi2_keycl.Python.Int.{ℤ}
use konnect_oidc_fapi2_keycl.Python.Text.{Text, Bytes}
use konnect_oidc_fapi2_keycl.Python.Json.{Json, Fields}
use konnect_oidc_fapi2_keycl.Program.{Program, done, fail}

-- A ValueError with its message, an OSError, a KeyError, or any other exception.
pub data Fault : Type 0 where
  value_error : Text → Fault
  os_error key_error other : Fault

-- A dict of strings.
abbrev pub Env : Type 0
Env = List (Text × Text)

-- What local_manifest returns.
pub record Info : Type 0 where
  pub manifest : Fields
  pub target : Fields

-- What `os.fstat` returns.
pub record Stat : Type 0 where
  pub is_regular : Bool
  pub mode : ℕ
  pub size : ℕ

-- How a subprocess ends.
pub data Ran : Type 0 where
  finished : (code : ℤ) (stdout stderr : Text) → Ran
  timed_out not_started : Ran
  raised : Fault → Ran

-- The calls. A path is relative to the root.
pub data Ask : Type 0 where
  local_manifest : (gateway stage mode : Text) → Ask
  is_file is_dir is_symlink : (path : Text) → Ask
  open_nofollow : (path : Text) → Ask
  fstat : (descriptor : ℕ) → Ask
  read : (descriptor size : ℕ) → Ask
  close : (descriptor : ℕ) → Ask
  environ_get : (name : Text) → Ask
  environ : Ask
  read_env : (path : Text) → Ask
  file_sha256 : (path : Text) → Ask
  read_migration_approval : (control_plane_id : Json) (role_values : Env) → Ask
  verify_remote_target : (base : Text) (target : Fields) (token : Text) → Ask
  verify_shared_api_ca : (base : Text) (target : Fields) (token certificate : Text) → Ask
  check_schemas : (gateway base : Text) (target : Fields) (token : Text) → Ask
  deck : (command : List Text) (environment : Env) → Ask
  print write_stdout write_stderr : (text : Text) → Ask

abbrev pub Answer : Ask → Type 0
Answer (local_manifest _ _ _) = Result Fault Info
Answer (is_file _) = Bool
Answer (is_dir _) = Bool
Answer (is_symlink _) = Bool
Answer (open_nofollow _) = Result Fault ℕ
Answer (fstat _) = Result Fault Stat
Answer (read _ _) = Result Fault Bytes
Answer (close _) = Result Fault (Unit {0})
Answer (environ_get _) = Option Text
Answer environ = Env
Answer (read_env _) = Result Fault Env
Answer (file_sha256 _) = Result Fault Text
Answer (read_migration_approval _ _) = Result Fault Fields
Answer (verify_remote_target _ _ _) = Result Fault (Unit {0})
Answer (verify_shared_api_ca _ _ _ _) = Result Fault (Unit {0})
Answer (check_schemas _ _ _ _) = Result Fault (Unit {0})
Answer (deck _ _) = Ran
Answer (print _) = Unit
Answer (write_stdout _) = Unit
Answer (write_stderr _) = Unit

abbrev pub Script : Type 0 → Type 0
Script A = Program Ask Answer Fault A

-- The result of a call, or the exception that it raises.
abbrev pub returned : {A : Type 0} → Result Fault A → Script A
returned (ok a) = done a
returned (err e) = fail e

-- `except OSError: raise ValueError(message)`
abbrev pub unless_os_error : {A : Type 0} → Text → Result Fault A → Script A
unless_os_error message (ok a) = done a
unless_os_error message (err os_error) = fail (value_error message)
unless_os_error message (err e) = fail e

-- What the standard library computes (json and hashlib, and whether the platform has O_NOFOLLOW),
-- and two checks of the sibling scripts that read nothing but their arguments.
pub record Parts : Type 0 where
  pub has_nofollow : Bool
  -- `json.loads` of the UTF-8 text, none where decoding or parsing raises; dicts keep repeated keys.
  pub loads : Bytes → Option Json
  -- The same, where a repeated key overwrites. Text nested so deeply that parsing it raises a
  -- RecursionError, which the role file's reader does not catch, is outside the model.
  pub loads_last : Bytes → Option Json
  -- `json.loads` of a text that raises at NaN and Infinity; dicts keep repeated keys. It is none
  -- where that raises a ValueError; the RecursionError of a text nested too deeply is outside the
  -- model here too.
  pub loads_report : Text → Option Json
  -- `json.dumps` with sorted keys and no spaces; it is ASCII.
  pub dumps : Json → Text
  pub sha256_hex : Bytes → Text
  pub validate_role_values : Text → Json → Result Fault Env
  pub parse_deck_diff_report : Text → Result Fault (Json × Text)

unfoldable pub canonical_sha256 : Parts → Json → Text
canonical_sha256 parts value = parts.sha256_hex (parts.dumps value)
