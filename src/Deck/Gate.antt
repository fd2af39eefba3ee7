-- ===== src/Deck/Gate.antt =====
-- A sync of the third-party runtime is started only after its review.
use konnect_oidc_fapi2_keycl.Common.{
  ◌≡◌, sym, subst, ◌∙◌, true, some, any, ◌++◌, ok, false, if◌then◌else◌,
}
use konnect_oidc_fapi2_keycl.Python.Json.{Fields}
use konnect_oidc_fapi2_keycl.Program.{done, run, after, trace}
use konnect_oidc_fapi2_keycl.Program.Laws.{run->>, run-from_then, run-then}
use konnect_oidc_fapi2_keycl.Deck.Request.{Ask, Answer, Script, Parts, other}
use konnect_oidc_fapi2_keycl.Deck.Prepare.{
  Args, Prepared, prepare, is_third_party_sync, is_runtime_sync,
}
use konnect_oidc_fapi2_keycl.Deck.Review.{
  review_diff, review_third_party, validate_routes, review, review_api,
}
use konnect_oidc_fapi2_keycl.Deck.Main.{main, launch}
use konnect_oidc_fapi2_keycl.Deck.Quiet.{is_sync}
use konnect_oidc_fapi2_keycl.Deck.Reviewed.{IsDiffReviewed, review_diff-IsDiffReviewed}
use konnect_oidc_fapi2_keycl.Deck.Unchanged.{IsUnchanged, review_inputs-IsUnchanged}
use konnect_oidc_fapi2_keycl.Deck.Approved.{IsApproved, prepare-IsApproved}
use konnect_oidc_fapi2_keycl.Deck.Launched.{sync-IsLaunched}

some-injective : {A : Type 0} {a b : A} → some a ≡ some b → a ≡ b
some-injective h = cc

module _ {S : Type 0} (serve : (o : Ask) → S → Answer o × S) (parts : Parts) where
  -- When the review begins, and when its diff is made.
  abbrev pub prepared_moment : Args → S → S
  prepared_moment args s = after serve (prepare parts args) s

  abbrev pub diff_moment : Args → Prepared → S → S
  diff_moment args ready s = after serve (validate_routes args ready) (prepared_moment args s)

  -- What stands behind a sync of the third-party runtime that was started.
  pub record IsReviewed (args : Args) (s : S) : Type 0 where
    pub ready : Prepared
    pub receipt : Fields
    pub prepared : (run serve (prepare parts args) s).0 ≡ ok ready
    pub approved : IsApproved serve parts args ready receipt s
    pub validated : (run serve (validate_routes args ready) (prepared_moment args s)).0 ≡ ok tt
    pub diff : IsDiffReviewed serve parts args ready receipt (diff_moment args ready s)
    pub unchanged :
        IsUnchanged serve parts args ready receipt
          (after serve (review_diff parts args ready receipt) (diff_moment args ready s))
    pub calls : trace serve (main parts args) s ≡ (
        trace serve (prepare parts args) s
        ++ (trace serve (review parts args ready) (prepared_moment args s)
            ++ trace serve
                (launch parts args ready)
                (after serve (review parts args ready) (prepared_moment args s))))
    pub no_sync_in_prepare : any is_sync (trace serve (prepare parts args) s) ≡ false
    pub no_sync_in_review :
        any is_sync (trace serve (review parts args ready) (prepared_moment args s)) ≡ false

  review-parts :
      (args : Args) (ready : Prepared) (s : S) {u : Unit {0}}
      → is_third_party_sync args ≡ true
      → (run serve (review parts args ready) s).0 ≡ ok u
      → (receipt : Fields) × (ready.receipts.wp5 ≡ some receipt)
        × ((run serve (validate_routes args ready) s).0 ≡ ok tt)
        × IsDiffReviewed serve parts args ready receipt (after serve (validate_routes args ready) s)
        × IsUnchanged serve parts args ready receipt (
            after serve
              (review_diff parts args ready receipt)
              (after serve (validate_routes args ready) s))
  unfolding review review_third_party
  review-parts args ready s is_tp h =
      let other_review : Script (Unit {0}) =
        if is_runtime_sync args then review_api parts args ready else done tt in
      let h₀ =
        run-then serve (is_third_party_sync args) (review_third_party parts args ready) other_review
          s h is_tp in
      let (_, validated, h₁) = run->> serve (validate_routes args ready) _ s h₀ in
      let (receipt, has, h₂) = run-from_then serve ready.receipts.wp5 other _ _ h₁ in
      let (_, diff, h₃) = run->> serve (review_diff parts args ready receipt) _ _ h₂ in
      (
        receipt,
        has,
        validated,
        review_diff-IsDiffReviewed serve parts args ready receipt _ diff,
        review_inputs-IsUnchanged serve parts args ready receipt _ h₃,
      )

  -- Whatever the files, the environment and decK answer, a run of main for the third-party runtime
  -- that starts decK with `sync` at all has gone through these moments, one after the other. In the
  -- preparation, in which no sync is started, the switch of the environment was on, and a receipt
  -- was read and accepted for the target of the manifest, the state file and the role inputs that
  -- are used. In the review, in which no sync is started either, the routes were validated; then a
  -- diff of decK, without diagnostics, had the digest and the operations of that receipt, which are
  -- those of a plan that is fixed in the code; and after that diff the manifest, the role inputs,
  -- the receipt and the state file were read again, in this order: the receipt was accepted for
  -- them and was the same, the state file was no symbolic link, and the target, the state file and
  -- the role inputs had the digests of the receipt.
  pub sync-IsReviewed :
      (args : Args) (s : S)
      → is_third_party_sync args ≡ true
      → any is_sync (trace serve (main parts args) s) ≡ true
      → IsReviewed args s
  sync-IsReviewed args s is_tp synced =
      let started = sync-IsLaunched serve parts args s synced in
      let (receipt, has, validated, diff, unchanged) =
        review-parts args started.ready _ is_tp started.reviewed in
      let (first, approved) =
        prepare-IsApproved serve parts args started.ready s is_tp started.prepared in
      let same : first ≡ receipt = some-injective (sym approved.has_receipt ∙ has) in
      record {
        ready = started.ready;
        receipt = receipt;
        prepared = started.prepared;
        approved = subst (λ r. IsApproved serve parts args started.ready r s) same approved;
        validated = validated;
        diff = diff;
        unchanged = unchanged;
        calls = started.calls;
        no_sync_in_prepare = started.no_sync_in_prepare;
        no_sync_in_review = started.no_sync_in_review;
      }
