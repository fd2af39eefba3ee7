-- ===== src/Python/Utf8/Laws.antt =====
-- UTF-8 tells texts apart.
use konnect_oidc_fapi2_keycl.Common.{ℕ, ◌<◌, ◌≡◌, refl, [], ◌∷◌, some, arith, All, all, not, true}
use konnect_oidc_fapi2_keycl.Python.Text.{Text, Bytes}
use konnect_oidc_fapi2_keycl.Python.Utf8.{encode_char, utf8_bytes, encode_utf8, is_surrogate}

encode_char-injective :
    (c d : ℕ) (s t : Bytes) → encode_char c s ≡ encode_char d t → (c ≡ d) × (s ≡ t)
unfolding encode_char
encode_char-injective c d s t h = ground arith

utf8_bytes-injective : (s t : Text) → utf8_bytes s ≡ utf8_bytes t → s ≡ t
unfolding utf8_bytes
utf8_bytes-injective [] [] h = refl
utf8_bytes-injective [] (d ∷ t) h = unfold encode_char in ground arith
utf8_bytes-injective (c ∷ s) [] h = unfold encode_char in ground arith
utf8_bytes-injective (c ∷ s) (d ∷ t) h =
    let (e, rest) = encode_char-injective c d (utf8_bytes s) (utf8_bytes t) h in
    let same : s ≡ t = utf8_bytes-injective s t rest in cc

-- Two texts with the same encoding are the same.
pub encode_utf8-injective :
    (s t : Text) {b : Bytes} → encode_utf8 s ≡ some b → encode_utf8 t ≡ some b → s ≡ t
unfolding encode_utf8
encode_utf8-injective s t e f = utf8_bytes-injective s t (ground arith)

abbrev pub IsAscii : Text → Type 0
IsAscii = All (λ c. c < 0x80)

encode_char-ascii :
    (c d : ℕ) (s t : Bytes) → d < 0x80 → encode_char c s ≡ encode_char d t → (c ≡ d) × (s ≡ t)
unfolding encode_char
encode_char-ascii c d s t h e = ground arith

utf8_bytes-ascii : (s t : Text) → IsAscii t → utf8_bytes s ≡ utf8_bytes t → s ≡ t
unfolding utf8_bytes
utf8_bytes-ascii [] [] q h = refl
utf8_bytes-ascii [] (d ∷ t) q h = unfold encode_char in ground arith
utf8_bytes-ascii (c ∷ s) [] q h = unfold encode_char in ground arith
utf8_bytes-ascii (c ∷ s) (d ∷ t) (qd, qt) h =
    let (e, rest) = encode_char-ascii c d (utf8_bytes s) (utf8_bytes t) qd h in
    let same : s ≡ t = utf8_bytes-ascii s t qt rest in cc

no_surrogate : (t : Text) → IsAscii t → all (λ c. not (is_surrogate c)) t ≡ true
unfolding is_surrogate
no_surrogate [] q = refl
no_surrogate (c ∷ t) (qc, qt) = ground (arith, no_surrogate t qt)

-- A text with the encoding of an ASCII text is that text.
pub encode_utf8-ascii :
    (s t : Text) {b : Bytes} → IsAscii t → encode_utf8 s ≡ some b → encode_utf8 t ≡ some b → s ≡ t
unfolding encode_utf8
encode_utf8-ascii s t q e f = utf8_bytes-ascii s t q (ground arith)

-- ASCII has no surrogates.
pub encode_utf8-ne-none : (t : Text) → IsAscii t → (b : Bytes) × (encode_utf8 t ≡ some b)
unfolding encode_utf8
encode_utf8-ne-none t q = (utf8_bytes t, rw (no_surrogate t q))
