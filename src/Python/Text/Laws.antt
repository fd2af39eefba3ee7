-- ===== src/Python/Text/Laws.antt =====
-- Equality of texts.
use konnect_oidc_fapi2_keycl.Common.{
  ℕ, ◌≡◌, ◌≢◌, refl, Bool, true, false, [], ◌∷◌, ◌↔◌, arith, eqb, eqb_iff, and_left, and_right,
}
use konnect_oidc_fapi2_keycl.Python.Text.{Text, truthy, ◌==◌, strip_right}

==_sound : (a b : Text) → (a == b) ≡ true → a ≡ b
unfolding ◌==◌
==_sound [] [] h = refl
==_sound [] (y ∷ b) h = cc
==_sound (x ∷ a) [] h = cc
==_sound (x ∷ a) (y ∷ b) h =
    let e : x ≡ y = (eqb_iff x y).0 (and_left _ _ h) in
    let t : a ≡ b = ==_sound a b (and_right (eqb x y) _ h) in cc

pub ==_refl : (a : Text) → (a == a) ≡ true
unfolding ◌==◌
==_refl [] = refl
==_refl (x ∷ a) = ground (arith, ==_refl a)

pub ==_iff : (a b : Text) → ((a == b) ≡ true) ↔ (a ≡ b)
==_iff a b = (==_sound a b, λ e. ground (arith, e, ==_refl a))

-- Stripping stops at a character that stays.
pub strip_right_cons :
    (test : ℕ → Bool) (c : ℕ) (s : Text)
    → test c ≡ false
    → strip_right test (c ∷ s) ≡ c ∷ strip_right test s
unfolding strip_right
strip_right_cons test c s h = ground (arith)

pub truthy_iff : (t : Text) → (truthy t ≡ true) ↔ (t ≢ [])
truthy_iff [] = (λ h. cc, λ h. absurd (h refl))
truthy_iff (c ∷ t) = (λ h e. cc, λ h. refl)
