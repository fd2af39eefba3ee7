-- ===== src/Deck/Sanitize.antt =====
-- What is removed from the output of decK before it is shown: sanitize_output.
use konnect_oidc_fapi2_keycl.Common.{
  ℕ, zero, suc, ◌+◌, ◌-◌, Bool, not, ◌&&◌, ◌||◌, List, [], ◌∷◌, ◌++◌, Option, none, some, eqb, leb,
  length, if◌then◌else◌,
}
use konnect_oidc_fapi2_keycl.Python.Text.{Text, str, starts_with}
use konnect_oidc_fapi2_keycl.Keycloak.Values.{is_member}

-- `text.replace(old, new)` for `old` not empty, where `skip` characters still belong to the last
-- occurrence.
unfoldable pub replace_from : Text → Text → ℕ → Text → Text
replace_from old new skip [] = []
replace_from old new zero (c ∷ text) =
    let hit = replace_from old new (length old - 1) text in
    let miss = replace_from old new zero text in
    if starts_with (c ∷ text) old then new ++ hit else c ∷ miss
replace_from old new (suc skip) (c ∷ text) = replace_from old new skip text

unfoldable pub replace : Text → Text → Text → Text
unfolding replace_from
replace old new text = replace_from old new 0 text

-- The class [^-\r\n] of the expression.
abbrev is_label : ℕ → Bool
is_label c = not (eqb c b'-' || eqb c 13 || eqb c 10)

-- The length of `[^-\r\n]*` at the start: the class has no dash, so the match of the whole
-- expression takes all of it.
unfoldable pub label_length : Text → ℕ
label_length [] = 0
label_length (c ∷ text) = let rest = label_length text in if is_label c then suc rest else 0

unfoldable pub drop : ℕ → Text → Text
drop zero text = text
drop (suc n) [] = []
drop (suc n) (c ∷ text) = drop n text

-- The length of `<marker>[^-\r\n]+-----` at the start of the text.
unfoldable pub boundary : Text → Text → Option ℕ
unfolding label_length drop
boundary marker text =
    let label = label_length (drop (length marker) text) in
    if starts_with text marker
      && not (eqb label 0)
      && starts_with (drop (length marker + label) text) (str "-----")
    then some (length marker + label + 5)
    else none

-- The length of `.*?-----END [^-\r\n]+-----` at the start.
unfoldable pub to_end : Text → Option ℕ
unfolding boundary
to_end [] = none
to_end (c ∷ text) =
    let rest = to_end text in
    elim (boundary (str "-----END ") (c ∷ text)) [
      | some n ↦ some n
      | none ↦ elim rest [ none ↦ none | some n ↦ some (suc n) ]
    ]

-- The length of a PEM block at the start.
unfoldable pub pem_length : Text → Option ℕ
unfolding to_end
pem_length text = elim (boundary (str "-----BEGIN ") text) [
  | none ↦ none
  | some n ↦ elim (to_end (drop n text)) [ none ↦ none | some m ↦ some (n + m) ]
]

-- `re.sub` of the PEM blocks, where `skip` characters still belong to the last one.
unfoldable pub redact_from : ℕ → Text → Text
unfolding pem_length
redact_from skip [] = []
redact_from zero (c ∷ text) =
    let miss = redact_from zero text in
    elim (pem_length (c ∷ text)) [
      | none ↦ c ∷ miss
      | some n ↦ str "[REDACTED PEM]" ++ redact_from (n - 1) text
    ]
redact_from (suc skip) (c ∷ text) = redact_from skip text

-- The set of the secrets of at least four characters.
unfoldable pub safe_secrets : List Text → List Text
unfolding is_member
safe_secrets [] = []
safe_secrets (s ∷ secrets) =
    let rest = safe_secrets secrets in
    if leb 4 (length s) && not (is_member s rest) then s ∷ rest else rest

unfoldable pub insert_longest : Text → List Text → List Text
insert_longest s [] = s ∷ []
insert_longest s (t ∷ ts) =
    let rest = insert_longest s ts in if leb (length t) (length s) then s ∷ t ∷ ts else t ∷ rest

-- `sorted(safe_secrets, key=len, reverse=True)`; the order of equally long ones, which is that of
-- a Python set, is that of the list here.
unfoldable pub longest_first : List Text → List Text
unfolding insert_longest
longest_first [] = []
longest_first (s ∷ secrets) = insert_longest s (longest_first secrets)

unfoldable pub redact_secrets : List Text → Text → Text
unfolding replace
redact_secrets [] text = text
redact_secrets (s ∷ secrets) text = redact_secrets secrets (replace s (str "[REDACTED]") text)

unfoldable pub sanitize_output : Text → List Text → Text
unfolding redact_from safe_secrets longest_first redact_secrets
sanitize_output text secrets =
    redact_secrets (longest_first (safe_secrets secrets)) (redact_from 0 text)
