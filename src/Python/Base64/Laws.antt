-- ===== src/Python/Base64/Laws.antt =====
-- The encoding without its padding: its characters, its length, and that it loses nothing.
use konnect_oidc_fapi2_keycl.Common.{
  ℕ, ◌+◌, ◌*◌, ◌/◌, ◌%◌, ◌<◌, ◌≡◌, refl, Bool, true, false, [], ◌∷◌, arith, eqb, length, all, All,
}
use konnect_oidc_fapi2_keycl.Python.Text.{Bytes, strip_right, is_word}
use konnect_oidc_fapi2_keycl.Python.Text.Laws.{strip_right_cons}
use konnect_oidc_fapi2_keycl.Python.Base64.{alphabet, urlsafe_b64encode}

-- The encoding with no padding.
pub bare : Bytes → Bytes
bare [] = []
bare (a ∷ []) = alphabet (a / 4) ∷ alphabet (a % 4 * 16) ∷ []
bare (a ∷ b ∷ []) = alphabet (a / 4) ∷ alphabet (a % 4 * 16 + b / 16) ∷ alphabet (b % 16 * 4) ∷ []
bare (a ∷ b ∷ c ∷ s) =
    alphabet (a / 4)
    ∷ alphabet (a % 4 * 16 + b / 16)
    ∷ alphabet (b % 16 * 4 + c / 64)
    ∷ alphabet (c % 64)
    ∷ bare s

alphabet-is_word : (n : ℕ) → is_word (alphabet n) ≡ true
unfolding alphabet
alphabet-is_word n = ground arith

alphabet-injective : (m n : ℕ) → m < 64 → n < 64 → alphabet m ≡ alphabet n → m ≡ n
unfolding alphabet
alphabet-injective m n p q h = ground arith

pub bare-is_word : (s : Bytes) → all is_word (bare s) ≡ true
unfolding bare
bare-is_word [] = refl
bare-is_word (a ∷ []) = simp alphabet-is_word
bare-is_word (a ∷ b ∷ []) = simp alphabet-is_word
bare-is_word (a ∷ b ∷ c ∷ s) = simp (alphabet-is_word, bare-is_word s)

pub length-bare : (s : Bytes) → length (bare s) ≡ (4 * length s + 2) / 3
unfolding bare
length-bare [] = omega arith
length-bare (a ∷ []) = omega arith
length-bare (a ∷ b ∷ []) = omega arith
length-bare (a ∷ b ∷ c ∷ s) = omega (arith, length-bare s)

abbrev is_padding : ℕ → Bool
is_padding c = eqb c b'='

alphabet-is_padding : (n : ℕ) → is_padding (alphabet n) ≡ false
unfolding alphabet
alphabet-is_padding n = ground arith

strip-alphabet :
    (n : ℕ) (s : Bytes)
    → strip_right is_padding (alphabet n ∷ s) ≡ alphabet n ∷ strip_right is_padding s
strip-alphabet n s = strip_right_cons is_padding (alphabet n) s (alphabet-is_padding n)

-- `rstrip(b"=")` takes off the padding and no more.
pub strip-urlsafe_b64encode :
    (s : Bytes) → strip_right (λ c. eqb c b'=') (urlsafe_b64encode s) ≡ bare s
unfolding bare urlsafe_b64encode
strip-urlsafe_b64encode [] = unfold strip_right in refl
strip-urlsafe_b64encode (a ∷ []) = simp strip-alphabet (unfold strip_right in refl)
strip-urlsafe_b64encode (a ∷ b ∷ []) = simp strip-alphabet (unfold strip_right in refl)
strip-urlsafe_b64encode (a ∷ b ∷ c ∷ s) = simp (strip-alphabet, strip-urlsafe_b64encode s)

abbrev pub IsBytes : Bytes → Type 0
IsBytes = All (λ b. b < 256)

pub bare-injective : (s t : Bytes) → IsBytes s → IsBytes t → bare s ≡ bare t → s ≡ t
unfolding bare
bare-injective [] [] p q h = refl
bare-injective (a ∷ []) (d ∷ []) p q h =
    ground (arith, alphabet-injective (a / 4) (d / 4), alphabet-injective (a % 4 * 16) (d % 4 * 16))
bare-injective (a ∷ b ∷ []) (d ∷ e ∷ []) p q h = ground (
  arith,
  alphabet-injective (a / 4) (d / 4),
  alphabet-injective (a % 4 * 16 + b / 16) (d % 4 * 16 + e / 16),
  alphabet-injective (b % 16 * 4) (e % 16 * 4),
)
bare-injective (a ∷ b ∷ c ∷ s) (d ∷ e ∷ f ∷ t) p q h = ground (
  arith,
  alphabet-injective (a / 4) (d / 4),
  alphabet-injective (a % 4 * 16 + b / 16) (d % 4 * 16 + e / 16),
  alphabet-injective (b % 16 * 4 + c / 64) (e % 16 * 4 + f / 64),
  alphabet-injective (c % 64) (f % 64),
  bare-injective s t p.1.1.1 q.1.1.1,
)
bare-injective [] (_ ∷ []) p q h = cc
bare-injective [] (_ ∷ _ ∷ []) p q h = cc
bare-injective [] (_ ∷ _ ∷ _ ∷ _) p q h = cc
bare-injective (_ ∷ []) [] p q h = cc
bare-injective (_ ∷ []) (_ ∷ _ ∷ []) p q h = cc
bare-injective (_ ∷ []) (_ ∷ _ ∷ _ ∷ _) p q h = cc
bare-injective (_ ∷ _ ∷ []) [] p q h = cc
bare-injective (_ ∷ _ ∷ []) (_ ∷ []) p q h = cc
bare-injective (_ ∷ _ ∷ []) (_ ∷ _ ∷ _ ∷ _) p q h = cc
bare-injective (_ ∷ _ ∷ _ ∷ _) [] p q h = cc
bare-injective (_ ∷ _ ∷ _ ∷ _) (_ ∷ []) p q h = cc
bare-injective (_ ∷ _ ∷ _ ∷ _) (_ ∷ _ ∷ []) p q h = cc
