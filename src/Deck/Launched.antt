-- ===== src/Deck/Launched.antt =====
-- A sync is started only after the preparation and the review have ended without an exception.
use konnect_oidc_fapi2_keycl.Common.{
  ◌≡◌, refl, ap, ◌∙◌, subst, Bool, true, false, List, [], ◌∷◌, ◌++◌, All, any, ok, arith,
  Result-cases, inl, inr, ◌||◌,
}
use konnect_oidc_fapi2_keycl.Python.Int.{ℤ}
use konnect_oidc_fapi2_keycl.Program.{run, after, trace, ◌>>◌}
use konnect_oidc_fapi2_keycl.Program.Laws.{trace->>=, All-trace, AllCalls-mono, trace-ok}
use konnect_oidc_fapi2_keycl.Deck.Request.{Ask, Answer, Script, Parts}
use konnect_oidc_fapi2_keycl.Deck.Prepare.{Args, Prepared, prepare}
use konnect_oidc_fapi2_keycl.Deck.Review.{review}
use konnect_oidc_fapi2_keycl.Deck.Main.{main, launch}
use konnect_oidc_fapi2_keycl.Deck.Quiet.{is_sync, IsQuiet, prepare-IsQuiet}
use konnect_oidc_fapi2_keycl.Deck.QuietReview.{review-IsQuiet}

empty_none : any is_sync [] ≡ true → ⊥
empty_none h = cc

module _ {O : Type 0} (p : O → Bool) where
  any_append : (xs ys : List O) → any p (xs ++ ys) ≡ any p xs || any p ys
  any_append [] ys = refl
  any_append (x ∷ xs) ys = ground (arith, any_append xs ys)

  any_none : (xs : List O) → All (λ o. p o ≡ false) xs → any p xs ≡ false
  any_none [] h = refl
  any_none (x ∷ xs) (h, hs) = ground (arith, h, any_none xs hs)

  any_later :
      (xs ys : List O) → All (λ o. p o ≡ false) xs → any p (xs ++ ys) ≡ true → any p ys ≡ true
  any_later xs ys none_first h = ground (arith, any_append xs ys, any_none xs none_first, h)

abbrev IsUnsynced : Ask → Type 0
IsUnsynced o = is_sync o ≡ false

no_sync :
    (first rest : List Ask) {calls : List Ask}
    → All IsUnsynced first
    → rest ≡ []
    → calls ≡ first ++ rest
    → any is_sync calls ≡ true
    → ⊥
no_sync first rest quiet stop split synced =
    let late =
      any_later is_sync first rest quiet (subst (λ t. any is_sync t ≡ true) split synced) in
    empty_none (subst (λ t. any is_sync t ≡ true) stop late)

module _ {S : Type 0} (serve : (o : Ask) → S → Answer o × S) (parts : Parts) where
  pub record IsLaunched (args : Args) (s : S) : Type 0 where
    pub ready : Prepared
    pub prepared : (run serve (prepare parts args) s).0 ≡ ok ready
    pub reviewed :
        (run serve (review parts args ready) (run serve (prepare parts args) s).1).0 ≡ ok tt
    pub calls : trace serve (main parts args) s ≡ (
        trace serve (prepare parts args) s
        ++ (trace serve (review parts args ready) (after serve (prepare parts args) s)
            ++ trace serve
                (launch parts args ready)
                (after serve (review parts args ready) (after serve (prepare parts args) s))))
    pub no_sync_in_prepare : any is_sync (trace serve (prepare parts args) s) ≡ false
    pub no_sync_in_review :
        any is_sync (trace serve (review parts args ready) (after serve (prepare parts args) s))
        ≡ false

  -- Where a run of main starts decK with `sync`, what comes before it has raised nothing, and the
  -- call stands in what comes last.
  pub sync-IsLaunched :
      (args : Args) (s : S)
      → any is_sync (trace serve (main parts args) s) ≡ true
      → IsLaunched args s
  unfolding main ◌>>◌
  sync-IsLaunched args s synced =
      let later : Prepared → Script ℤ =
        λ ready. review parts args ready >> launch parts args ready in
      let quiet₀ = All-trace serve IsUnsynced (prepare parts args) s (
        AllCalls-mono IsQuiet IsUnsynced (prepare parts args) (λ o h. h.0)
          (prepare-IsQuiet parts args)) in
      elim (Result-cases (run serve (prepare parts args) s).0) [
        | inr (e, failed) ↦
            let (rest, split, stop) = trace->>= serve (prepare parts args) later s in
            absurd (no_sync _ rest quiet₀ (stop e failed) split synced)
        | inl (ready, prepared) ↦
            let split₀ = trace-ok serve (prepare parts args) later s ready prepared in
            let synced₁ =
              any_later is_sync _ _ quiet₀ (subst (λ t. any is_sync t ≡ true) split₀ synced) in
            let s₁ = (run serve (prepare parts args) s).1 in
            let quiet₁ = All-trace serve IsUnsynced (review parts args ready) s₁ (
              AllCalls-mono IsQuiet IsUnsynced (review parts args ready) (λ o h. h.0)
                (review-IsQuiet args ready parts)) in
            elim (Result-cases (run serve (review parts args ready) s₁).0) [
              | inr (e, failed) ↦
                  let (rest, split, stop) =
                    trace->>= serve (review parts args ready) (λ _. launch parts args ready) s₁ in
                  absurd (no_sync _ rest quiet₁ (stop e failed) split synced₁)
              | inl (u, reviewed) ↦ record {
                ready = ready;
                prepared = prepared;
                reviewed = reviewed;
                calls =
                    split₀
                    ∙ ap (λ (x : List Ask). trace serve (prepare parts args) s ++ x)
                        (trace-ok serve (review parts args ready) (λ _. launch parts args ready) s₁
                          u reviewed);
                no_sync_in_prepare = any_none is_sync _ quiet₀;
                no_sync_in_review = any_none is_sync _ quiet₁;
              }
            ]
      ]
