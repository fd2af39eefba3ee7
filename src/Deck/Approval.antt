-- ===== src/Deck/Approval.antt =====
-- The receipt of the review that a sync of the third-party runtime needs:
-- read_backend_runtime_approval.
use konnect_oidc_fapi2_keycl.Common.{[], ◌∷◌}
use konnect_oidc_fapi2_keycl.Python.Text.{Text, str}
use konnect_oidc_fapi2_keycl.Python.Json.{Json, text, obj, Fields, end, field, passes_hook}
use konnect_oidc_fapi2_keycl.Program.{done, fail, call, from, lift, check, catch, ◌>>=◌, ◌>>◌}
use konnect_oidc_fapi2_keycl.Deck.Request.{
  file_sha256, Script, Parts, Fault, value_error, Env, returned, canonical_sha256,
}
use konnect_oidc_fapi2_keycl.Deck.Files.{generated, is_safe_directory, read_wp5_approval_bytes}
use konnect_oidc_fapi2_keycl.Deck.Receipt.{
  check_header, check_receipt, Digests, evidence, backend_approval,
}

abbrev pub env_json : Env → Fields
env_json [] = end
env_json ((name, value) ∷ env) = field name (text value) (env_json env)

abbrev pub receipt_bad : Fault
receipt_bad = value_error (str "backend runtime approval receipt is missing, unsafe, or malformed")

-- `except (UnicodeError, ValueError)`
abbrev pub hide_value_error : Fault → Script Json
hide_value_error (value_error _) = fail receipt_bad
hide_value_error e = fail e

-- `json.loads(_read_wp5_approval_bytes(path).decode("utf-8"), object_pairs_hook=unique)`
unfoldable pub load_receipt : Parts → Script Json
unfolding read_wp5_approval_bytes
load_receipt parts = do
  raw ← read_wp5_approval_bytes parts backend_approval
  parsed ← from (parts.loads raw) receipt_bad
  check (passes_hook parsed) receipt_bad
  done parsed

unfoldable pub read_backend_runtime_approval : Parts → Fields → Text → Env → Script Fields
unfolding is_safe_directory load_receipt canonical_sha256
read_backend_runtime_approval parts target state role_values = do
  let directory =
      value_error (str "backend runtime approval receipt directory is missing or unsafe")
  outer ← is_safe_directory generated
  check outer directory
  inner ← is_safe_directory evidence
  check inner directory
  parsed ← catch (load_receipt parts) hide_value_error
  receipt ← lift value_error (check_header parsed)
  state_sha256 ← call (file_sha256 state) returned
  let digests : Digests = record {
    target_sha256 = canonical_sha256 parts (obj target);
    state_sha256 = state_sha256;
    role_inputs_sha256 = canonical_sha256 parts (obj (env_json role_values));
  }
  lift value_error (check_receipt digests receipt)
  done receipt
