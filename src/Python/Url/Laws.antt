-- ===== src/Python/Url/Laws.antt =====
-- What is quoted stays inside its segment of a path, and reads back.
use konnect_oidc_fapi2_keycl.Common.{
  ℕ, ◌/◌, ◌%◌, ◌<◌, ◌≡◌, ◌≢◌, refl, Bool, true, ◌||◌, [], ◌∷◌, arith, all, eqb, Bool-cases, inl,
  inr,
}
use konnect_oidc_fapi2_keycl.Python.Text.{Bytes}
use konnect_oidc_fapi2_keycl.Python.Base64.Laws.{IsBytes}
use konnect_oidc_fapi2_keycl.Python.Percent.{is_hex, hex_value}
use konnect_oidc_fapi2_keycl.Python.Percent.Laws.{Encodes, done, plain, escape}
use konnect_oidc_fapi2_keycl.Python.Url.{is_unreserved, hex_digit, quote_bytes}

hex_digit-is_hex : (n : ℕ) → n < 16 → (is_hex (hex_digit n) ≡ true) × (hex_value (hex_digit n) ≡ n)
unfolding hex_digit is_hex hex_value
hex_digit-is_hex n h = ground arith

unreserved-ne-percent : (c : ℕ) → is_unreserved c ≡ true → c ≢ b'%'
unfolding is_unreserved
unreserved-ne-percent c h = ground arith

-- The quoted text is an encoding of the bytes.
pub quote_bytes-Encodes : (s : Bytes) → IsBytes s → Encodes s (quote_bytes s)
unfolding quote_bytes
quote_bytes-Encodes [] p = done
quote_bytes-Encodes (c ∷ s) (p, ps) = elim (Bool-cases (is_unreserved c)) [
  | inl keep ↦ rw keep (plain c (unreserved-ne-percent c keep) (quote_bytes-Encodes s ps))
  | inr other ↦
      let (hi, hi_value) = hex_digit-is_hex (c / 16) (omega arith) in
      let (lo, lo_value) = hex_digit-is_hex (c % 16) (omega arith) in
      rw other (
        escape c (hex_digit (c / 16)) (hex_digit (c % 16)) hi lo (omega (arith, hi_value, lo_value))
          (quote_bytes-Encodes s ps))
]

-- A character that cannot end a segment or begin a query or a fragment.
abbrev pub is_segment_char : ℕ → Bool
is_segment_char c = is_unreserved c || eqb c b'%'

hex_digit-is_unreserved : (n : ℕ) → n < 16 → is_unreserved (hex_digit n) ≡ true
unfolding hex_digit is_unreserved
hex_digit-is_unreserved n h = ground arith

pub quote_bytes-segment : (s : Bytes) → IsBytes s → all is_segment_char (quote_bytes s) ≡ true
unfolding quote_bytes
quote_bytes-segment [] p = refl
quote_bytes-segment (c ∷ s) (p, ps) = elim (Bool-cases (is_unreserved c)) [
  | inl keep ↦ rw keep (simp (keep, quote_bytes-segment s ps))
  | inr other ↦
      let hi = hex_digit-is_unreserved (c / 16) (omega arith) in
      let lo = hex_digit-is_unreserved (c % 16) (omega arith) in
      rw other (simp (hi, lo, quote_bytes-segment s ps))
]
