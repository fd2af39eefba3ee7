-- ===== src/Deck/Withheld.antt =====
-- What a sync of the third-party runtime shows.
use konnect_oidc_fapi2_keycl.Common.{
  ◌≡◌, refl, sym, ◌∙◌, ◌⊎◌, inl, inr, Bool, true, false, not, ◌&&◌, Option, none, some, List, All,
  ok, and_left, and_right, if◌then◌else◌,
}
use konnect_oidc_fapi2_keycl.Python.Text.{Text, str, ◌==◌}
use konnect_oidc_fapi2_keycl.Python.Text.Laws.{==_iff}
use konnect_oidc_fapi2_keycl.Python.Json.{text, get}
use konnect_oidc_fapi2_keycl.Program.{done, fail, call, AllCalls, trace, ◌>>◌}
use konnect_oidc_fapi2_keycl.Program.Laws.{
  AllCalls->>=, AllCalls->>, AllCalls-mono, All-trace, All-trace->>=,
}
use konnect_oidc_fapi2_keycl.Deck.Request.{
  Ask, Answer, Script, Parts, Info, Ran, local_manifest, finished, timed_out, not_started, raised,
  print,
}
use konnect_oidc_fapi2_keycl.Deck.Launch.{Completed, Purpose, completed, run_deck_subprocess}
use konnect_oidc_fapi2_keycl.Deck.Prepare.{
  Args, Prepared, prepare, is_runtime_sync, is_third_party_sync,
}
use konnect_oidc_fapi2_keycl.Deck.Review.{run_deck, is_zero, review}
use konnect_oidc_fapi2_keycl.Deck.Main.{
  main, launch, report, show_diff, write_output, exited_nonzero, announcement, sync_completed,
  is_runtime_diff, requested_flags,
}
use konnect_oidc_fapi2_keycl.Deck.Quiet.{IsQuiet, output_of, prepare-IsQuiet}
use konnect_oidc_fapi2_keycl.Deck.Named.{IsNamed, prepare-IsNamed}
use konnect_oidc_fapi2_keycl.Deck.QuietReview.{review-IsQuiet}

-- One of the two lines that are the script's own, where the control plane has the name.
abbrev IsLine : Args → Text → Text → Type 0
IsLine args name shown = (shown ≡ announcement args name) ⊎ (shown ≡ sync_completed)

-- A call that shows nothing but these.
abbrev IsLineCall : Args → Text → Ask → Type 0
IsLineCall args name o = (shown : Text) → output_of o ≡ some shown → IsLine args name shown

not_both : {t : Text} → none ≡ some t → ⊥
not_both h = cc

some-injective : {a b : Text} → some a ≡ some b → a ≡ b
some-injective h = cc

false_not_true : false ≡ true → ⊥
false_not_true h = cc

other_mode : str "sync" ≡ str "diff" → ⊥
unfolding str ◌==◌
other_mode h = false_not_true ((==_iff (str "sync") (str "diff")).1 h)

nothing-IsLine :
    {o : Option Text} (args : Args) (name shown : Text)
    → o ≡ none
    → o ≡ some shown
    → IsLine args name shown
nothing-IsLine args name shown e h = absurd (not_both (sym e ∙ h))

then-AllCalls :
    {A : Type 0} (P : Ask → Type 0) (b : Bool) (m n : Script A)
    → b ≡ true
    → AllCalls P m
    → AllCalls P (if b then m else n)
then-AllCalls P true m n e h = h
then-AllCalls P false m n e h = cc

else-AllCalls :
    {A : Type 0} (P : Ask → Type 0) (b : Bool) (m n : Script A)
    → (b ≡ true → AllCalls P m)
    → AllCalls P n
    → AllCalls P (if b then m else n)
else-AllCalls P true m n h g = h refl
else-AllCalls P false m n h g = g

module _ (args : Args) (is_tp : is_third_party_sync args ≡ true) (name : Text) where
  not_diff : is_runtime_diff args ≡ true → ⊥
  unfolding str ◌==◌
  not_diff h =
      let synced = (==_iff args.mode (str "sync")).0 (and_right _ _ (and_left _ _ is_tp)) in
      let diffed = (==_iff args.mode (str "diff")).0 (and_right _ _ h) in
      other_mode (sym synced ∙ diffed)

  completed-IsLineCall :
      (why : Purpose) (r : Ran) → AllCalls (IsLineCall args name) (completed why r)
  completed-IsLineCall why (finished _ _ _) = tt
  completed-IsLineCall why timed_out = tt
  completed-IsLineCall why not_started = tt
  completed-IsLineCall why (raised _) = tt

  module _ (parts : Parts) (ready : Prepared) where
    run_deck-IsLineCall :
        (word : Text) (more : List Text) (purpose : Text)
        → AllCalls (IsLineCall args name) (run_deck args ready word more purpose)
    unfolding run_deck run_deck_subprocess
    run_deck-IsLineCall word more purpose =
        (λ shown h. nothing-IsLine args name shown refl h, completed-IsLineCall _)

    report-IsLineCall :
        (result : Completed) → AllCalls (IsLineCall args name) (report parts args ready result)
    unfolding report
    report-IsLineCall result =
        let own : Script (Unit {0}) = call (print sync_completed) done in
        let last : Script (Unit {0}) =
          if is_third_party_sync args then own else write_output ready result in
        else-AllCalls (IsLineCall args name) (is_runtime_diff args)
          (show_diff parts args ready result)
          (if is_runtime_sync args && not (is_zero result.returncode)
            then fail (exited_nonzero args)
            else last)
          (λ h. absurd (not_diff h))
          (else-AllCalls (IsLineCall args name)
            (is_runtime_sync args && not (is_zero result.returncode)) (fail (exited_nonzero args))
            last (λ _. tt)
            (then-AllCalls (IsLineCall args name) (is_third_party_sync args) own
              (write_output ready result) is_tp (λ shown h. inr (some-injective (sym h)), λ _. tt)))

launch-IsLineCall :
    (parts : Parts) (args : Args) (ready : Prepared)
    → is_third_party_sync args ≡ true
    → AllCalls (IsLineCall args ready.control_plane_name) (launch parts args ready)
unfolding launch
launch-IsLineCall parts args ready is_tp =
    let name = ready.control_plane_name in
    AllCalls->> (IsLineCall args name) _ _ (λ shown h. inl (some-injective (sym h)), λ _. tt)
      (AllCalls->>= (IsLineCall args name) _ _
        (run_deck-IsLineCall args is_tp name parts ready args.mode (requested_flags args)
          (str "requested command"))
        λ result.
          AllCalls->> (IsLineCall args name) _ _
            (report-IsLineCall args is_tp name parts ready result) tt)

module _ {S : Type 0} (serve : (o : Ask) → S → Answer o × S) where
  -- The line with the name that the control plane has in the target of the manifest.
  pub record IsAnnounced (args : Args) (s : S) (shown : Text) : Type 0 where
    pub info : Info
    pub name : Text
    pub manifest : (serve (local_manifest args.gateway args.stage args.mode) s).0 ≡ ok info
    pub has_name : get (str "control_plane_name") info.target ≡ some (text name)
    pub is_line : shown ≡ announcement args name

  -- A call that shows nothing but this line and the one that says that the sync is completed.
  abbrev pub IsWithheld : Args → S → Ask → Type 0
  IsWithheld args s o =
      (shown : Text)
      → output_of o ≡ some shown
      → IsAnnounced args s shown ⊎ (shown ≡ sync_completed)

  quiet-IsWithheld : (args : Args) (s : S) (o : Ask) → IsQuiet o → IsWithheld args s o
  quiet-IsWithheld args s o (_, e) shown h = absurd (not_both (sym e ∙ h))

  line-IsWithheld :
      (args : Args) (s : S) (ready : Prepared)
      (named : IsNamed serve args s ready.control_plane_name) (o : Ask)
      → IsLineCall args ready.control_plane_name o
      → IsWithheld args s o
  line-IsWithheld args s ready named o line shown h = elim (line shown h) [
    | inl e ↦ inl (record {
      info = named.info;
      name = ready.control_plane_name;
      manifest = named.manifest;
      has_name = named.has_name;
      is_line = e;
    })
    | inr e ↦ inr e
  ]

  -- Whatever is answered, all that a run of main for a sync of the third-party runtime shows are
  -- two lines of its own: the one with the name that the control plane has in the target of the
  -- manifest that is read first, and the one that says that the sync is completed.
  pub main-IsWithheld :
      (parts : Parts) (args : Args) (s : S)
      → is_third_party_sync args ≡ true
      → All (IsWithheld args s) (trace serve (main parts args) s)
  unfolding main ◌>>◌
  main-IsWithheld parts args s is_tp =
      All-trace->>= serve (IsWithheld args s) (prepare parts args) _ s
        (All-trace serve _ (prepare parts args) s (
          AllCalls-mono IsQuiet (IsWithheld args s) (prepare parts args) (quiet-IsWithheld args s)
            (prepare-IsQuiet parts args)))
        λ ready prepared.
          All-trace->>= serve (IsWithheld args s) (review parts args ready) _ _
            (All-trace serve _ (review parts args ready) _ (
              AllCalls-mono IsQuiet (IsWithheld args s) (review parts args ready)
                (quiet-IsWithheld args s) (review-IsQuiet args ready parts)))
            λ _ _. All-trace serve _ (launch parts args ready) _ (
              AllCalls-mono (IsLineCall args ready.control_plane_name) (IsWithheld args s)
                (launch parts args ready)
                (line-IsWithheld args s ready (prepare-IsNamed serve parts args ready s prepared))
                (launch-IsLineCall parts args ready is_tp))
