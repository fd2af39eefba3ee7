-- ===== src/Deck/ApiGate.antt =====
-- A sync of the API runtime is started only after its review.
use konnect_oidc_fapi2_keycl.Common.{
  ◌≡◌, refl, sym, subst, Bool, true, false, not, ◌&&◌, some, List, [], ◌∷◌, ◌++◌, any, ok, and_left,
  and_right, if◌then◌else◌,
}
use konnect_oidc_fapi2_keycl.Python.Text.{Text, str, ◌==◌, truthy, strip}
use konnect_oidc_fapi2_keycl.Python.Text.Laws.{==_iff}
use konnect_oidc_fapi2_keycl.Python.Json.{Json, text, obj, Fields, get}
use konnect_oidc_fapi2_keycl.Program.{done, call, run, after, trace}
use konnect_oidc_fapi2_keycl.Program.Laws.{
  run->>=, run->>, run-check, run-then, run-else, run-check_then, run-lift_then, run-from_then,
  run-call_then, run_at,
}
use konnect_oidc_fapi2_keycl.Deck.Request.{
  Ask, Answer, Script, Parts, Env, returned, deck, finished, is_symlink, file_sha256,
  canonical_sha256,
}
use konnect_oidc_fapi2_keycl.Deck.Approval.{env_json}
use konnect_oidc_fapi2_keycl.Deck.Launch.{Completed}
use konnect_oidc_fapi2_keycl.Deck.Prepare.{
  Args, Prepared, prepare, is_runtime_sync, is_third_party_sync, is_api_sync, read_roles,
}
use konnect_oidc_fapi2_keycl.Deck.Review.{
  command, run_deck, review, review_api, review_third_party, is_zero, check_state, check_reviewed,
  field_of,
}
use konnect_oidc_fapi2_keycl.Deck.Main.{main, launch}
use konnect_oidc_fapi2_keycl.Deck.Quiet.{is_sync}
use konnect_oidc_fapi2_keycl.Deck.Reviewed.{
  IsSameDiff, check_reviewed-IsSameDiff, run_deck-finished, state-check_reviewed, field-text,
}
use konnect_oidc_fapi2_keycl.Deck.Unchanged.{
  check_canonical-digest, not-eq-true, file_sha256-answer,
}
use konnect_oidc_fapi2_keycl.Deck.Launched.{IsLaunched, sync-IsLaunched}

abbrev pub api_diff_flags : List Text
api_diff_flags = str "--json-output" ∷ str "--no-color" ∷ []

and_false : (b : Bool) → (b && false) ≡ false
and_false true = refl
and_false false = refl

api-not_third_party : (args : Args) → is_api_sync args ≡ true → is_third_party_sync args ≡ false
unfolding ◌==◌ str
api-not_third_party args h =
    let is_api : args.gateway ≡ str "api" = (==_iff args.gateway (str "api")).0 (and_right _ _ h) in
    subst (λ g. (is_runtime_sync args && g == str "third-party") ≡ false) (sym is_api) (and_false _)

module _ {S : Type 0} (serve : (o : Ask) → S → Answer o × S) (parts : Parts) where
  -- The moment after the diff of the review.
  abbrev pub diffed : Args → Prepared → S → S
  diffed args ready s =
      after serve (run_deck args ready (str "diff") api_diff_flags (str "migration pre-sync diff"))
        s

  -- What stands behind a sync of the API runtime that was started.
  pub record IsApiReviewed (args : Args) (s : S) : Type 0 where
    pub ready : Prepared
    pub receipt : Fields
    pub result : Completed
    pub operations : Json
    pub digest : Text
    pub state_sha256 : Text
    pub role_values : Env
    pub prepared : (run serve (prepare parts args) s).0 ≡ ok ready
    pub has_receipt : ready.receipts.migration ≡ some receipt
    pub ended :
        (serve
          (deck (command args ready (str "diff") api_diff_flags) ready.environment)
          (after serve (prepare parts args) s)).0
        ≡ finished result.returncode result.stdout result.stderr
    pub no_error : is_zero result.returncode ≡ true
    pub no_diagnostics : not (truthy (strip result.stderr)) ≡ true
    pub parsed : parts.parse_deck_diff_report result.stdout ≡ ok (operations, digest)
    pub same : IsSameDiff serve operations digest receipt
    pub roles :
        (run serve
          (read_roles parts args.gateway true)
          (diffed args ready (after serve (prepare parts args) s))).0
        ≡ ok role_values
    pub no_link :
        (serve (is_symlink ready.state) (
          after serve
            (read_roles parts args.gateway true)
            (diffed args ready (after serve (prepare parts args) s)))).0
        ≡ false
    pub hashed :
        (serve
          (file_sha256 ready.state)
          (serve (is_symlink ready.state) (
            after serve
              (read_roles parts args.gateway true)
              (diffed args ready (after serve (prepare parts args) s)))).1).0
        ≡ ok state_sha256
    pub same_state : get (str "state_sha256") receipt ≡ some (text state_sha256)
    pub same_roles :
        get (str "role_inputs_sha256") receipt
        ≡ some (text (canonical_sha256 parts (obj (env_json role_values))))
    pub calls : trace serve (main parts args) s ≡ (
        trace serve (prepare parts args) s
        ++ (trace serve (review parts args ready) (after serve (prepare parts args) s)
            ++ trace serve
                (launch parts args ready)
                (after serve (review parts args ready) (after serve (prepare parts args) s))))
    pub no_sync_in_prepare : any is_sync (trace serve (prepare parts args) s) ≡ false
    pub no_sync_in_review :
        any is_sync (trace serve (review parts args ready) (after serve (prepare parts args) s))
        ≡ false

  api-IsApiReviewed :
      (args : Args) (s : S) (started : IsLaunched serve parts args s) {u : Unit {0}}
      → (run serve (review_api parts args started.ready) (after serve (prepare parts args) s)).0
        ≡ ok u
      → IsApiReviewed args s
  unfolding review_api check_state
  api-IsApiReviewed args s started h =
      let ready = started.ready in
      let (result, ended, h₁) =
        run->>= serve
          (run_deck args ready (str "diff") api_diff_flags (str "migration pre-sync diff")) _ _ h in
      let (no_error, h₂) = run-check_then serve _ _ _ _ h₁ in
      let (no_diagnostics, h₃) = run-check_then serve _ _ _ _ h₂ in
      let (current, parsed, h₄) =
        run-lift_then serve (λ e. e) (parts.parse_deck_diff_report result.stdout) _ _ h₃ in
      let (receipt, has, h₅) = run-from_then serve ready.receipts.migration _ _ _ h₄ in
      let (_, same, h₆) = run->> serve (check_reviewed _ current.0 current.1 receipt) _ _ h₅ in
      let h₇ = run_at serve _ (state-check_reviewed serve _ current.0 current.1 receipt _) h₆ in
      let (role_values, roles, h₈) = run->>= serve (read_roles parts args.gateway true) _ _ h₇ in
      let (_, state, h₉) = run->> serve (check_state _ ready.state receipt) _ _ h₈ in
      let k₁ = run-call_then serve (is_symlink ready.state) _ _ state in
      let (no_link, k₂) = run-check_then serve _ _ _ _ k₁ in
      let (hash, hashed, k₃) = run->>= serve (call (file_sha256 ready.state) returned) _ _ k₂ in
      let (reviewed, has_state, k₄) =
        run->>= serve (field_of (str "state_sha256") receipt) _ _ k₃ in
      record {
        ready = ready;
        receipt = receipt;
        result = result;
        operations = current.0;
        digest = current.1;
        state_sha256 = hash;
        role_values = role_values;
        prepared = started.prepared;
        has_receipt = has;
        ended = run_deck-finished serve args ready _ api_diff_flags _ _ ended;
        no_error = no_error;
        no_diagnostics = no_diagnostics;
        parsed = parsed;
        same = check_reviewed-IsSameDiff serve _ current.0 current.1 receipt _ same;
        roles = roles;
        no_link = not-eq-true _ no_link;
        hashed = file_sha256-answer serve parts ready.state _ hashed;
        same_state =
            field-text serve (str "state_sha256") receipt hash reviewed _ has_state
              (run-check serve _ _ _ k₄);
        same_roles = check_canonical-digest serve parts _ _ (str "role_inputs_sha256") receipt _ h₉;
        calls = started.calls;
        no_sync_in_prepare = started.no_sync_in_prepare;
        no_sync_in_review = started.no_sync_in_review;
      }

  -- Whatever the files, the environment and decK answer, a run of main for the API runtime that
  -- starts decK with `sync` at all has gone through these moments, one after the other. The
  -- preparation, in which no sync is started, ended with a receipt of the migration. In the review,
  -- in which no sync is started either, a diff of decK, without an error or diagnostics, had the
  -- digest and the operations of that receipt; and after that diff the role inputs were read again
  -- and had the digest of the receipt, then the state file was no symbolic link, and then it had
  -- the digest of the receipt.
  pub api_sync-IsApiReviewed :
      (args : Args) (s : S)
      → is_api_sync args ≡ true
      → any is_sync (trace serve (main parts args) s) ≡ true
      → IsApiReviewed args s
  unfolding review
  api_sync-IsApiReviewed args s is_api synced =
      let started = sync-IsLaunched serve parts args s synced in
      let ready = started.ready in
      let api : Script (Unit {0}) = review_api parts args ready in
      let last : Script (Unit {0}) = if is_runtime_sync args then api else done tt in
      let s₁ = (run serve (prepare parts args) s).1 in
      let h₀ =
        run-else serve (is_third_party_sync args) (review_third_party parts args ready) last s₁
          started.reviewed (api-not_third_party args is_api) in
      let h₁ = run-then serve (is_runtime_sync args) api (done tt) s₁ h₀ (and_left _ _ is_api) in
      api-IsApiReviewed args s started h₁
