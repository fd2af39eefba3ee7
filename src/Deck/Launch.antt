-- ===== src/Deck/Launch.antt =====
-- The start of decK, and the messages for one that does not end: run_deck_subprocess.
use konnect_oidc_fapi2_keycl.Common.{Bool, ◌&&◌, List, ◌++◌, if◌then◌else◌}
use konnect_oidc_fapi2_keycl.Python.Int.{ℤ}
use konnect_oidc_fapi2_keycl.Python.Text.{Text, str, ◌==◌}
use konnect_oidc_fapi2_keycl.Program.{done, fail, call}
use konnect_oidc_fapi2_keycl.Deck.Request.{
  deck, Script, Env, Ran, finished, timed_out, not_started, raised, value_error,
}

-- What a subprocess that ended returns.
pub record Completed : Type 0 where
  pub returncode : ℤ
  pub stdout : Text
  pub stderr : Text

-- The keyword arguments of a start.
pub record Purpose : Type 0 where
  pub stage : Text
  pub mode : Text
  pub purpose : Text
  pub gateway : Text

abbrev pub is_runtime_sync : Purpose → Bool
is_runtime_sync why = why.stage == str "runtime" && why.mode == str "sync"

abbrev pub label_of : Text → Text
label_of gateway =
    if gateway == str "api" then str "API runtime migration" else str "third-party runtime"

unfoldable pub timeout_message : Purpose → Text
timeout_message why =
    if is_runtime_sync why
    then label_of why.gateway
      ++ str " sync timed out; outcome is unknown; inspect current state before any retry"
    else if why.purpose == str "migration pre-sync diff"
    then str "API runtime migration diff timed out; sync was not attempted"
    else str "decK " ++ why.mode ++ str " timed out; no raw subprocess output was retained"

unfoldable pub start_message : Purpose → Text
start_message why =
    if is_runtime_sync why
    then label_of why.gateway
      ++ str " sync transport failed; outcome is unknown; inspect current state before any retry"
    else str "decK "
      ++ why.mode
      ++ str " could not be started; no raw subprocess output was retained"

abbrev pub completed : Purpose → Ran → Script Completed
completed why (finished code stdout stderr) =
    done (record { returncode = code; stdout = stdout; stderr = stderr })
completed why timed_out = fail (value_error (timeout_message why))
completed why not_started = fail (value_error (start_message why))
completed why (raised e) = fail e

unfoldable pub run_deck_subprocess : List Text → Env → Purpose → Script Completed
run_deck_subprocess command environment why = call (deck command environment) (completed why)
