-- ===== src/Python/Text.antt =====
-- Python's `str` and `bytes`, as lists of code points (surrogates included) and of bytes, with the
-- methods that the programs call.
pub mod Laws
use Prim.Native.Char.{code}
use Prim.Native.String
use konnect_oidc_fapi2_keycl.Common.{
  ℕ, zero, suc, ◌+◌, ◌-◌, String, Bool, true, false, not, ◌&&◌, ◌||◌, List, [], ◌∷◌, ◌++◌, Option,
  none, some, ltb, leb, eqb, if◌then◌else◌, length, all, any,
}

abbrev pub Text : Type 0
Text = List ℕ

abbrev pub Bytes : Type 0
Bytes = List ℕ

-- The code points of a literal.
unfoldable pub str : String → Text
str String.[] = []
str (String.◌∷◌ c s) = code c ∷ str s

infix 50 ◌==◌
unfoldable pub ◌==◌ : Text → Text → Bool
[] == [] = true
[] == (_ ∷ _) = false
(_ ∷ _) == [] = false
(x ∷ xs) == (y ∷ ys) = eqb x y && (xs == ys)

-- `bool(s)`
abbrev pub truthy : Text → Bool
truthy [] = false
truthy (_ ∷ _) = true

-- `c in s` for one character
abbrev pub contains : ℕ → Text → Bool
contains c s = any (eqb c) s

-- `lower()` on the letters A to Z. Of the other code points only the Kelvin sign and the capital I
-- with a dot have ASCII letters in their lower case, the second with a combining dot after it: no
-- text that the programs look for has a k or ends up equal by them.
abbrev pub lower_char : ℕ → ℕ
lower_char c = if leb b'A' c && leb c b'Z' then c + 32 else c

unfoldable pub lower : Text → Text
lower [] = []
lower (c ∷ s) = lower_char c ∷ lower s

-- `s.partition(c)` as what stands before the first `c`, whether there is one, and what follows.
unfoldable pub partition : ℕ → Text → Text × Bool × Text
partition c [] = ([], false, [])
partition c (x ∷ s) =
    let rest = partition c s in if eqb x c then ([], true, s) else (x ∷ rest.0, rest.1, rest.2)

-- `str.isspace`
abbrev pub is_space : ℕ → Bool
is_space c =
    leb 9 c && leb c 13
    || leb 28 c && leb c 32
    || eqb c 0x85
    || eqb c 0xa0
    || eqb c 0x1680
    || leb 0x2000 c && leb c 0x200a
    || eqb c 0x2028
    || eqb c 0x2029
    || eqb c 0x202f
    || eqb c 0x205f
    || eqb c 0x3000

-- The ASCII white space that the methods of `bytes` strip.
abbrev pub is_ascii_space : ℕ → Bool
is_ascii_space c = leb 9 c && leb c 13 || eqb c 32

-- The class [A-Za-z0-9_-] of the regular expressions.
abbrev pub is_word : ℕ → Bool
is_word c =
    leb b'A' c && leb c b'Z'
    || leb b'a' c && leb c b'z'
    || leb b'0' c && leb c b'9'
    || eqb c b'_'
    || eqb c b'-'

-- Closes the word that is being read, in reverse.
abbrev close_word : Text → List Text → List Text
close_word [] ws = ws
close_word (c ∷ w) ws = (c ∷ w) ∷ ws

abbrev push_last : ℕ → List Text → List Text
push_last c [] = (c ∷ []) ∷ []
push_last c (w ∷ ws) = (c ∷ w) ∷ ws

-- The words of the text, where the first one may be empty: it goes on a word to the left.
words_from : Text → List Text
words_from [] = [] ∷ []
words_from (c ∷ s) = let rest = words_from s in if is_space c then [] ∷ rest else push_last c rest

abbrev drop_empty : List Text → List Text
drop_empty [] = []
drop_empty (w ∷ ws) = close_word w (drop_empty ws)

-- `s.split()`
unfoldable pub split_words : Text → List Text
unfolding words_from
split_words s = drop_empty (words_from s)

-- `lstrip` and `rstrip` of the characters that pass the test.
unfoldable pub strip_left : (ℕ → Bool) → Text → Text
strip_left test [] = []
strip_left test (c ∷ s) = let rest = strip_left test s in if test c then rest else c ∷ s

keep_last : (ℕ → Bool) → ℕ → Text → Text
keep_last test c [] = if test c then [] else c ∷ []
keep_last test c (d ∷ s) = c ∷ d ∷ s

unfoldable pub strip_right : (ℕ → Bool) → Text → Text
unfolding keep_last
strip_right test [] = []
strip_right test (c ∷ s) = keep_last test c (strip_right test s)

-- `s.strip()`
unfoldable pub strip : Text → Text
unfolding strip_left strip_right
strip s = strip_right is_space (strip_left is_space s)

unfoldable pub starts_with : Bytes → Bytes → Bool
starts_with s [] = true
starts_with [] (_ ∷ _) = false
starts_with (x ∷ s) (y ∷ p) = eqb x y && starts_with s p

unfoldable pub ends_with : Bytes → Bytes → Bool
unfolding ◌==◌
ends_with [] p = [] == p
ends_with (x ∷ s) p = ((x ∷ s) == p) || ends_with s p

-- `s.count(p)` for `p` not empty: occurrences that do not overlap, where `skip` bytes still belong
-- to the last one.
count_from : Bytes → ℕ → Bytes → ℕ
count_from p skip [] = 0
count_from p zero (x ∷ s) =
    let hit = suc (count_from p (length p - 1) s) in
    let miss = count_from p zero s in if starts_with (x ∷ s) p then hit else miss
count_from p (suc n) (x ∷ s) = count_from p n s

unfoldable pub count : Bytes → Bytes → ℕ
unfolding count_from starts_with
count s p = count_from p 0 s
