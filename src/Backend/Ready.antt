-- ===== src/Backend/Ready.antt =====
-- The readiness socket: its status, the check of it, and the server's answer.
use konnect_oidc_fapi2_keycl.Common.{
  ℕ, Bool, true, false, not, ◌&&◌, ◌||◌, Option, none, some, List, [], ◌∷◌, ◌++◌, all, any, eqb,
  leb, ltb, length, Result, ok, require, or_raise, ◌>>=◌, ◌>>◌, if◌then◌else◌,
}
use konnect_oidc_fapi2_keycl.Python.Int.{ℤ, pos, int_eq, is_positive}
use konnect_oidc_fapi2_keycl.Python.Text.{Text, Bytes, str, ◌==◌}
use konnect_oidc_fapi2_keycl.Python.Json.{
  Json, Fields, bool, int, text, get, keys, dict, as_object, passes_hook,
}

-- `value in values`
unfoldable pub is_member : Text → List Text → Bool
is_member t ss = any (λ s. s == t) ss

-- `set(keys) == names` for two lists with no element twice
unfoldable pub same_set : List Text → List Text → Bool
unfolding is_member
same_set ss ts = all (λ s. is_member s ts) ss && all (λ t. is_member t ss) ts

-- The class [0-9a-f], `n` times.
unfoldable pub is_hex_of : ℕ → Text → Bool
is_hex_of n t =
    eqb (length t) n && all (λ c. leb b'0' c && leb c b'9' || leb b'a' c && leb c b'f') t

abbrev pub status_keys : List Text
status_keys =
    str "schema_version" ∷ str "ready" ∷ str "generation" ∷ str "config_sha256" ∷ str "pid" ∷ []

abbrev is_int : (ℤ → Bool) → Option Json → Bool
is_int test (some (int n)) = test n
is_int test _ = false

abbrev is_true : Option Json → Bool
is_true (some (bool b)) = b
is_true _ = false

abbrev is_hex_text : ℕ → Option Json → Bool
is_hex_text n (some (text t)) = is_hex_of n t
is_hex_text n _ = false

pub data ReadyError : Type 0 where
  invalid_status os_error : ReadyError

unfoldable pub validate_ready_status : Json → Result ReadyError Fields
validate_ready_status value = do
  fields ← or_raise (as_object value) invalid_status
  require (same_set (keys fields) status_keys) invalid_status
  require
      (is_int (λ n. int_eq n (pos 1)) (get (str "schema_version") fields)
        && is_true (get (str "ready") fields)
        && is_int is_positive (get (str "pid") fields)
        && is_hex_text 32 (get (str "generation") fields)
        && is_hex_text 64 (get (str "config_sha256") fields))
      invalid_status
  ok fields

-- The state of a ReadyServer.
pub record ReadyServer : Type 0 where
  pub config_hash : Text
  pub generation : Text
  pub pid : ℤ

abbrev pub ready_request : Bytes
ready_request = str "READY\n"

-- ReadyHandler.handle, on what `recv` returned: `current` is `public_config_hash` of the files, none
-- where loading them raises. No status means that the connection is closed without an answer.
unfoldable pub handle : ReadyServer → Bytes → Option Text → Option Fields
handle server received current =
    if received == ready_request
    then elim current [
      | none ↦ none
      | some hash ↦
          if hash == server.config_hash
          then some (
              dict (
                (str "schema_version", int (pos 1))
                ∷ (str "ready", bool true)
                ∷ (str "generation", text server.generation)
                ∷ (str "config_sha256", text server.config_hash)
                ∷ (str "pid", int server.pid)
                ∷ []))
          else none
    ]
    else none

-- The loop of check_ready over what `recv` returns; the empty chunk ends it.
unfoldable pub collect : Bytes → List Bytes → Bytes
collect chunks [] = chunks
collect chunks (chunk ∷ rest) =
    let more = collect (chunks ++ chunk) rest in
    if ltb 4096 (length chunks) then chunks else elim chunk [ [] ↦ chunks | _ ∷ _ ↦ more ]

-- `received` are the chunks that the socket gives, none where connecting or reading raises OSError.
unfoldable pub check_ready : (Bytes → Option Json) → Option (List Bytes) → Result ReadyError Fields
unfolding collect
check_ready parse received = do
  chunks ← or_raise received os_error
  let reply = collect [] chunks
  require (not (ltb 4096 (length reply))) invalid_status
  value ← or_raise (parse reply) invalid_status
  require (passes_hook value) invalid_status
  validate_ready_status value
