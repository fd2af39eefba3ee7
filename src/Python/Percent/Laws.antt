-- ===== src/Python/Percent/Laws.antt =====
-- What percent encoding is, apart from the code that undoes it.
use native.Mathlib.Decide.{ℕ_discrete}
use konnect_oidc_fapi2_keycl.Common.{
  ℕ, ◌+◌, ◌*◌, ◌≡◌, ◌≢◌, refl, true, false, ◌||◌, ◌∙◌, ap, [], ◌∷◌, arith,
}
use konnect_oidc_fapi2_keycl.Python.Text.{Bytes}
use konnect_oidc_fapi2_keycl.Python.Percent.{
  is_hex, hex_value, has_bad_escape, unquote_to_bytes, not_hex,
}

-- `Encodes s t`: the bytes `s` are written as `t`, each byte as itself or as an escape.
pub data Encodes : Bytes → Bytes → Type 0 where
  done : Encodes [] []
  plain : {s t : Bytes} (c : ℕ) → c ≢ b'%' → Encodes s t → Encodes (c ∷ s) (c ∷ t)
  escape :
      {s t : Bytes} (b d e : ℕ)
      → is_hex d ≡ true
      → is_hex e ≡ true
      → b ≡ hex_value d * 16 + hex_value e
      → Encodes s t
      → Encodes (b ∷ s) (b'%' ∷ d ∷ e ∷ t)

unquote-cons : (c : ℕ) (t : Bytes) → c ≢ b'%' → unquote_to_bytes (c ∷ t) ≡ c ∷ unquote_to_bytes t
unfolding unquote_to_bytes
unquote-cons c [] h = refl
unquote-cons c (d ∷ []) h = refl
unquote-cons c (d ∷ e ∷ t) h = ground arith

bad-cons : (c : ℕ) (t : Bytes) → c ≢ b'%' → has_bad_escape (c ∷ t) ≡ has_bad_escape t
unfolding has_bad_escape
bad-cons c [] h = ground arith
bad-cons c (d ∷ []) h = ground arith
bad-cons c (d ∷ e ∷ t) h = ground arith

hex-ne-percent : (d : ℕ) → is_hex d ≡ true → d ≢ b'%'
unfolding is_hex
hex-ne-percent d h = ground arith

unquote-escape :
    (d e : ℕ) (t : Bytes)
    → is_hex d ≡ true
    → is_hex e ≡ true
    → unquote_to_bytes (b'%' ∷ d ∷ e ∷ t) ≡ (hex_value d * 16 + hex_value e) ∷ unquote_to_bytes t
unquote-escape d e t p q = unfold unquote_to_bytes in simp (p, q)

-- Decoding undoes every encoding of the bytes.
pub unquote-Encodes : {s t : Bytes} → Encodes s t → unquote_to_bytes t ≡ s
unquote-Encodes done = unfold unquote_to_bytes in refl
unquote-Encodes (plain {t} c h r) = unquote-cons c t h ∙ ap (λ x. c ∷ x) (unquote-Encodes r)
unquote-Encodes (escape {t} b d e p q v r) = cc (unquote-escape d e t p q, v, unquote-Encodes r)

bad-escape :
    (d e : ℕ) (t : Bytes)
    → has_bad_escape (b'%' ∷ d ∷ e ∷ t) ≡ (not_hex d e || has_bad_escape (d ∷ e ∷ t))
bad-escape d e t = unfold has_bad_escape in refl

-- An encoding has no `%` without its digits.
pub bad-Encodes : {s t : Bytes} → Encodes s t → has_bad_escape t ≡ false
bad-Encodes done = unfold has_bad_escape in refl
bad-Encodes (plain {t} c h r) = bad-cons c t h ∙ bad-Encodes r
bad-Encodes (escape {t} b d e p q v r) =
    let one = bad-cons d (e ∷ t) (hex-ne-percent d p) in
    let two = bad-cons e t (hex-ne-percent e q) in
    let ih = bad-Encodes r in
    let digits : not_hex d e ≡ false = unfold not_hex in ground arith in
    cc (bad-escape d e t, digits)

bad-digits :
    (d e : ℕ) (t : Bytes)
    → has_bad_escape (b'%' ∷ d ∷ e ∷ t) ≡ false
    → (is_hex d ≡ true) × (is_hex e ≡ true) × (has_bad_escape (d ∷ e ∷ t) ≡ false)
unfolding has_bad_escape
bad-digits d e t h = ground arith

not_bad_short :
    (d : ℕ) → ¬ (has_bad_escape (b'%' ∷ []) ≡ false) × ¬ (has_bad_escape (b'%' ∷ d ∷ []) ≡ false)
unfolding has_bad_escape
not_bad_short d = (λ h. cc, λ h. cc)

-- A text with no such `%` is an encoding of what it decodes to.
pub Encodes-unquote : (t : Bytes) → has_bad_escape t ≡ false → Encodes (unquote_to_bytes t) t
Encodes-unquote [] h = unfold unquote_to_bytes in done
Encodes-unquote (c ∷ []) h = elim (ℕ_discrete c b'%') [
  | yes e ↦ absurd ((not_bad_short 0).0 (rw e at h))
  | no n ↦ rw (unquote-cons c [] n) (plain c n (Encodes-unquote [] (rw (← bad-cons c [] n) h)))
]
Encodes-unquote (c ∷ d ∷ []) h = elim (ℕ_discrete c b'%') [
  | yes e ↦ absurd ((not_bad_short d).1 (rw e at h))
  | no n ↦
      rw (unquote-cons c (d ∷ []) n)
        (plain c n (Encodes-unquote (d ∷ []) (rw (← bad-cons c (d ∷ []) n) h)))
]
Encodes-unquote (c ∷ d ∷ e ∷ t) h = elim (ℕ_discrete c b'%') [
  | yes p ↦
      let (hd, he, more) = bad-digits d e t (rw p at h) in
      let later : has_bad_escape t ≡ false =
        cc (more, bad-cons d (e ∷ t) (hex-ne-percent d hd), bad-cons e t (hex-ne-percent e he)) in
      rw (p, unquote-escape d e t hd he) (escape _ d e hd he refl (Encodes-unquote t later))
  | no n ↦
      rw (unquote-cons c (d ∷ e ∷ t) n)
        (plain c n (Encodes-unquote (d ∷ e ∷ t) (rw (← bad-cons c (d ∷ e ∷ t) n) h)))
]
