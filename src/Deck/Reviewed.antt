-- ===== src/Deck/Reviewed.antt =====
-- What a sync of the third-party runtime was reviewed for, in main of scripts/run-deck.py.
use konnect_oidc_fapi2_keycl.Common.{
  ◌≡◌, sym, ap, ◌∙◌, true, some, List, Result, ok, err, ok-injective,
}
use konnect_oidc_fapi2_keycl.Python.Text.{Text, str}
use konnect_oidc_fapi2_keycl.Python.Text.Laws.{==_iff}
use konnect_oidc_fapi2_keycl.Python.Json.{Json, text, obj, Fields, get}
use konnect_oidc_fapi2_keycl.Python.Json.Equality.{json_eq}
use konnect_oidc_fapi2_keycl.Program.{run, after}
use konnect_oidc_fapi2_keycl.Program.Laws.{
  run->>=, run->>, run-lift, run-from, run-check, after_lem, AllCalls->>=, AllCalls->>,
  AllCalls-from, AllCalls-check,
}
use konnect_oidc_fapi2_keycl.Deck.Scope.{validate_backend_scope}
use konnect_oidc_fapi2_keycl.Deck.Exact.{IsScope, validate_backend_scope-IsScope}
use konnect_oidc_fapi2_keycl.Deck.Report.{parse_sanitized_runtime_diff}
use konnect_oidc_fapi2_keycl.Deck.Request.{
  Ask, Answer, Parts, Ran, finished, timed_out, not_started, raised, Fault, value_error, key_error,
  returned, canonical_sha256, deck,
}
use konnect_oidc_fapi2_keycl.Deck.Launch.{Completed, Purpose, completed, run_deck_subprocess}
use konnect_oidc_fapi2_keycl.Deck.Prepare.{Args, Prepared}
use konnect_oidc_fapi2_keycl.Deck.Review.{
  command, run_deck, is_clean, diff_flags, check_reviewed, review_diff, value_in, field_of,
}

text_eq-text : (t : Text) (j : Json) → json_eq (text t) j ≡ true → j ≡ text t
unfolding json_eq
text_eq-text t (text u) h = ap text (sym ((==_iff t u).0 h))
text_eq-text t Json.null h = cc
text_eq-text t (Json.bool _) h = cc
text_eq-text t (Json.int _) h = cc
text_eq-text t (Json.float _) h = cc
text_eq-text t (Json.arr _) h = cc
text_eq-text t (obj _) h = cc

module _ {S : Type 0} (serve : (o : Ask) → S → Answer o × S) where
  pub run-returned :
      {A : Type 0} (r : Result Fault A) (s : S) {a : A}
      → (run serve (returned r) s).0 ≡ ok a
      → r ≡ ok a
  unfolding run
  run-returned (ok a) s h = ap ok (ok-injective h)
  run-returned (err e) s h = cc

  pub run-completed :
      (why : Purpose) (r : Ran) (s : S) {c : Completed}
      → (run serve (completed why r) s).0 ≡ ok c
      → r ≡ finished c.returncode c.stdout c.stderr
  unfolding run
  run-completed why (finished code out errors) s h =
      ap (λ (x : Completed). finished x.returncode x.stdout x.stderr) (ok-injective h)
  run-completed why timed_out s h = cc
  run-completed why not_started s h = cc
  run-completed why (raised _) s h = cc

  pub run_deck-finished :
      (args : Args) (ready : Prepared) (word : Text) (more : List Text) (purpose : Text) (s : S)
      {c : Completed}
      → (run serve (run_deck args ready word more purpose) s).0 ≡ ok c
      → (serve (deck (command args ready word more) ready.environment) s).0
        ≡ finished c.returncode c.stdout c.stderr
  unfolding run_deck run_deck_subprocess run
  run_deck-finished args ready word more purpose s h = run-completed _ _ _ h

  -- The field of the receipt is the text.
  pub field-text :
      (name : Text) (receipt : Fields) (t : Text) (j : Json) (s : S)
      → (run serve (field_of name receipt) s).0 ≡ ok j
      → json_eq (text t) j ≡ true
      → get name receipt ≡ some (text t)
  field-text name receipt t j s h e =
      run-from serve (get name receipt) key_error s h ∙ ap some (text_eq-text t j e)

  -- The operations and the digest of a diff are those of the receipt.
  pub record IsSameDiff (operations : Json) (digest : Text) (receipt : Fields) : Type 0 where
    pub summary : Json
    pub listed : Json
    pub same_digest : get (str "diff_sha256") receipt ≡ some (text digest)
    pub has_summary : get (str "summary") receipt ≡ some summary
    pub same_summary : json_eq (value_in (str "summary") operations) summary ≡ true
    pub has_operations : get (str "operations") receipt ≡ some listed
    pub same_operations : json_eq (value_in (str "operations") operations) listed ≡ true

  pub check_reviewed-IsSameDiff :
      (message : Text) (operations : Json) (digest : Text) (receipt : Fields) (s : S) {u : Unit {0}}
      → (run serve (check_reviewed message operations digest receipt) s).0 ≡ ok u
      → IsSameDiff operations digest receipt
  unfolding check_reviewed
  check_reviewed-IsSameDiff message operations digest receipt s h =
      let (reviewed, h₀, h₁) = run->>= serve (field_of (str "diff_sha256") receipt) _ s h in
      let (_, same, h₂) = run->> serve _ _ _ h₁ in
      let (summary, h₃, h₄) = run->>= serve _ _ _ h₂ in
      let (_, same₁, h₅) = run->> serve _ _ _ h₄ in
      let (listed, h₆, h₇) = run->>= serve _ _ _ h₅ in
      record {
        summary = summary;
        listed = listed;
        same_digest =
            field-text (str "diff_sha256") receipt digest reviewed s h₀
              (run-check serve _ _ _ same);
        has_summary = run-from serve (get (str "summary") receipt) key_error _ h₃;
        same_summary = run-check serve _ _ _ same₁;
        has_operations = run-from serve (get (str "operations") receipt) key_error _ h₆;
        same_operations = run-check serve _ _ _ h₇;
      }

  pub state-check_reviewed :
      (message : Text) (operations : Json) (digest : Text) (receipt : Fields) (s : S)
      → after serve (check_reviewed message operations digest receipt) s ≡ s
  unfolding check_reviewed
  state-check_reviewed message operations digest receipt s =
      after_lem serve _ s
        (search (AllCalls->>=, AllCalls->>, AllCalls-from, AllCalls-check) depth 12)

  -- A diff that decK makes at a moment, without diagnostics, whose operations are those of the
  -- receipt and of a plan that is fixed in the code.
  pub record IsDiffReviewed (parts : Parts) (args : Args) (ready : Prepared) (receipt : Fields)
      (moment : S) : Type 0 where
    pub result : Completed
    pub operations : Json
    pub digest : Text
    pub plan_type : Json
    pub ended :
        (serve (deck (command args ready (str "diff") diff_flags) ready.environment) moment).0
        ≡ finished result.returncode result.stdout result.stderr
    pub clean : is_clean result ≡ true
    pub parsed :
        parse_sanitized_runtime_diff parts.loads_report
          (canonical_sha256 parts)
          result.stdout
          ready.sensitive_values
        ≡ ok (operations, digest)
    pub has_plan_type : get (str "plan_type") receipt ≡ some plan_type
    pub scoped : IsScope operations plan_type
    pub same : IsSameDiff operations digest receipt

  pub review_diff-IsDiffReviewed :
      (parts : Parts) (args : Args) (ready : Prepared) (receipt : Fields) (s : S) {u : Unit {0}}
      → (run serve (review_diff parts args ready receipt) s).0 ≡ ok u
      → IsDiffReviewed parts args ready receipt s
  unfolding review_diff
  review_diff-IsDiffReviewed parts args ready receipt s h =
      let (result, h₀, h₁) =
        run->>= serve
          (run_deck args ready (str "diff") diff_flags (str "third-party pre-sync diff")) _ s h in
      let (_, clean, h₂) = run->> serve _ _ _ h₁ in
      let (current, parsed, h₃) = run->>= serve _ _ _ h₂ in
      let (plan_type, has_type, h₄) = run->>= serve _ _ _ h₃ in
      let (_, scoped, h₅) = run->> serve _ _ _ h₄ in
      record {
        result = result;
        operations = current.0;
        digest = current.1;
        plan_type = plan_type;
        ended = run_deck-finished args ready _ diff_flags _ s h₀;
        clean = run-check serve _ _ _ clean;
        parsed =
            run-lift serve value_error
              (parse_sanitized_runtime_diff parts.loads_report (canonical_sha256 parts)
                result.stdout ready.sensitive_values)
              _ parsed;
        has_plan_type = run-from serve (get (str "plan_type") receipt) key_error _ has_type;
        scoped =
            (validate_backend_scope-IsScope current.0 plan_type).0
              (run-lift serve value_error (validate_backend_scope current.0 plan_type) _ scoped);
        same = check_reviewed-IsSameDiff _ current.0 current.1 receipt _ h₅;
      }
