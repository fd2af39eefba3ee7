-- ===== src/Deck/QuietReview.antt =====
-- The review syncs nothing.
use konnect_oidc_fapi2_keycl.Common.{◌≡◌, refl, false, List}
use konnect_oidc_fapi2_keycl.Python.Text.{Text, str, ◌==◌}
use konnect_oidc_fapi2_keycl.Python.Json.{Json, Fields}
use konnect_oidc_fapi2_keycl.Program.{done, AllCalls}
use konnect_oidc_fapi2_keycl.Program.Laws.{AllCalls->>=, AllCalls-catch, AllCalls-check}
use konnect_oidc_fapi2_keycl.Deck.Request.{
  Answer, Parts, Ran, finished, timed_out, not_started, raised, Fault, value_error, os_error,
  key_error, other,
}
use konnect_oidc_fapi2_keycl.Deck.Launch.{Purpose, completed, run_deck_subprocess}
use konnect_oidc_fapi2_keycl.Deck.Prepare.{is_runtime_sync, Args, Prepared, is_third_party_sync}
use konnect_oidc_fapi2_keycl.Deck.Review.{
  refuse_validation, validation_flags, is_clean, validation_failed, run_deck, command,
  validate_routes, review_diff, review_inputs, review_third_party, review_api, review,
  check_reviewed, check_state, check_canonical,
}
use konnect_oidc_fapi2_keycl.Deck.Quiet.{
  IsQuiet, quiet_steps, if-IsQuiet, read_roles-IsQuiet, read_backend_runtime_approval-IsQuiet,
}

refuse_validation-IsQuiet : (e : Fault) → AllCalls IsQuiet (refuse_validation e)
refuse_validation-IsQuiet (value_error _) = tt
refuse_validation-IsQuiet os_error = tt
refuse_validation-IsQuiet key_error = tt
refuse_validation-IsQuiet other = tt

completed-IsQuiet : (why : Purpose) (r : Ran) → AllCalls IsQuiet (completed why r)
completed-IsQuiet why (finished _ _ _) = tt
completed-IsQuiet why timed_out = tt
completed-IsQuiet why not_started = tt
completed-IsQuiet why (raised _) = tt

module _ (args : Args) (ready : Prepared) where
  run_deck-IsQuiet :
      (word : Text) (more : List Text) (purpose : Text)
      → (word == str "sync") ≡ false
      → AllCalls IsQuiet (run_deck args ready word more purpose)
  unfolding run_deck command run_deck_subprocess
  run_deck-IsQuiet word more purpose h = ((h, refl), completed-IsQuiet _)

  validate-IsQuiet :
      (more : List Text) (purpose : Text)
      → AllCalls IsQuiet (run_deck args ready (str "validate") more purpose)
  unfolding str ◌==◌
  validate-IsQuiet more purpose = run_deck-IsQuiet (str "validate") more purpose refl

  diff-IsQuiet :
      (more : List Text) (purpose : Text)
      → AllCalls IsQuiet (run_deck args ready (str "diff") more purpose)
  unfolding str ◌==◌
  diff-IsQuiet more purpose = run_deck-IsQuiet (str "diff") more purpose refl

  validate_routes-IsQuiet : AllCalls IsQuiet (validate_routes args ready)
  unfolding validate_routes
  validate_routes-IsQuiet =
      AllCalls->>= IsQuiet _ _
        (AllCalls-catch IsQuiet _ refuse_validation
          (validate-IsQuiet validation_flags (str "third-party route validation"))
          refuse_validation-IsQuiet)
        λ result. AllCalls-check Answer IsQuiet (is_clean result) validation_failed

  check_reviewed-IsQuiet :
      (message : Text) (operations : Json) (digest : Text) (receipt : Fields)
      → AllCalls IsQuiet (check_reviewed message operations digest receipt)
  unfolding check_reviewed
  check_reviewed-IsQuiet message operations digest receipt = search quiet_steps depth 9

  check_state-IsQuiet :
      (message state : Text) (receipt : Fields)
      → AllCalls IsQuiet (check_state message state receipt)
  unfolding check_state
  check_state-IsQuiet message state receipt = search quiet_steps depth 9

  module _ (parts : Parts) where
    check_canonical-IsQuiet :
        (message : Text) (value : Json) (name : Text) (receipt : Fields)
        → AllCalls IsQuiet (check_canonical parts message value name receipt)
    unfolding check_canonical
    check_canonical-IsQuiet message value name receipt = search quiet_steps

    review_diff-IsQuiet :
        (receipt : Fields) → AllCalls IsQuiet (review_diff parts args ready receipt)
    unfolding review_diff
    review_diff-IsQuiet receipt =
        search (quiet_steps, diff-IsQuiet, check_reviewed-IsQuiet) depth 12

    review_inputs-IsQuiet :
        (receipt : Fields) → AllCalls IsQuiet (review_inputs parts args ready receipt)
    unfolding review_inputs
    review_inputs-IsQuiet receipt =
        search
          (
            quiet_steps, read_roles-IsQuiet, read_backend_runtime_approval-IsQuiet,
            check_state-IsQuiet, check_canonical-IsQuiet,
          )
          depth 12

    review_third_party-IsQuiet : AllCalls IsQuiet (review_third_party parts args ready)
    unfolding review_third_party
    review_third_party-IsQuiet =
        search (quiet_steps, validate_routes-IsQuiet, review_diff-IsQuiet, review_inputs-IsQuiet)
          depth 12

    review_api-IsQuiet : AllCalls IsQuiet (review_api parts args ready)
    unfolding review_api
    review_api-IsQuiet =
        search
          (
            quiet_steps, diff-IsQuiet, check_reviewed-IsQuiet, read_roles-IsQuiet,
            check_state-IsQuiet, check_canonical-IsQuiet,
          )
          depth 20

    pub review-IsQuiet : AllCalls IsQuiet (review parts args ready)
    unfolding review
    review-IsQuiet =
        if-IsQuiet (is_third_party_sync args) _ _ review_third_party-IsQuiet
          (if-IsQuiet (is_runtime_sync args) _ (done tt) review_api-IsQuiet tt)
