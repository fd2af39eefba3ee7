-- ===== src/Python/Json/Equality.antt =====
-- `==` on the values of JSON: numbers and booleans compare by their value, dicts without regard to
-- the order of their items.
use konnect_oidc_fapi2_keycl.Common.{
  ℕ, suc, ◌+◌, ◌*◌, ◌/◌, ◌%◌, ◌^◌, Bool, true, false, not, ◌&&◌, ◌||◌, none, some, eqb, length,
  if◌then◌else◌,
}
use konnect_oidc_fapi2_keycl.Python.Int.{ℤ, pos, negsuc, int_eq}
use konnect_oidc_fapi2_keycl.Python.Text.{◌==◌}
use konnect_oidc_fapi2_keycl.Python.Json.{
  Json, null, bool, int, float, text, arr, obj, Items, nil, cons, Fields, end, field, get, keys,
}

-- The parts of a double: its sign bit, its exponent and its mantissa.
abbrev is_negative : ℕ → Bool
is_negative bits = not (eqb (bits / 2 ^ 63) 0)

abbrev exponent : ℕ → ℕ
exponent bits = bits / 2 ^ 52 % 2048

abbrev mantissa : ℕ → ℕ
mantissa bits = bits % 2 ^ 52

-- The magnitude of a finite double, times 2 ^ 1075.
abbrev scaled : ℕ → ℕ
scaled bits =
    if eqb (exponent bits) 0
    then mantissa bits * 2
    else (mantissa bits + 2 ^ 52) * 2 ^ exponent bits

unfoldable pub float_eq_int : ℕ → ℤ → Bool
float_eq_int bits (pos n) =
    not (eqb (exponent bits) 2047)
    && eqb (scaled bits) (n * 2 ^ 1075)
    && (eqb n 0 || not (is_negative bits))
float_eq_int bits (negsuc n) =
    not (eqb (exponent bits) 2047) && eqb (scaled bits) (suc n * 2 ^ 1075) && is_negative bits

abbrev is_nan : ℕ → Bool
is_nan bits = eqb (exponent bits) 2047 && not (eqb (mantissa bits) 0)

unfoldable pub float_eq : ℕ → ℕ → Bool
float_eq a b =
    not (is_nan a) && not (is_nan b) && (eqb a b || eqb (a % 2 ^ 63) 0 && eqb (b % 2 ^ 63) 0)

abbrev int_of : Bool → ℤ
int_of true = pos 1
int_of false = pos 0

unfoldable mutual
  unfolding float_eq_int float_eq

  pub json_eq : Json → Json → Bool
  json_eq null null = true
  json_eq (bool a) (bool b) = int_eq (int_of a) (int_of b)
  json_eq (bool a) (int n) = int_eq (int_of a) n
  json_eq (bool a) (float x) = float_eq_int x (int_of a)
  json_eq (int m) (bool b) = int_eq m (int_of b)
  json_eq (int m) (int n) = int_eq m n
  json_eq (int m) (float x) = float_eq_int x m
  json_eq (float x) (bool b) = float_eq_int x (int_of b)
  json_eq (float x) (int n) = float_eq_int x n
  json_eq (float x) (float y) = float_eq x y
  json_eq (text s) (text t) = s == t
  json_eq (arr xs) (arr ys) = items_eq xs ys
  json_eq (obj fs) (obj gs) = eqb (length (keys fs)) (length (keys gs)) && fields_within fs gs
  json_eq _ _ = false

  pub items_eq : Items → Items → Bool
  items_eq nil nil = true
  items_eq (cons x xs) (cons y ys) = json_eq x y && items_eq xs ys
  items_eq _ _ = false

  -- Every item of the first dict is in the second.
  pub fields_within : Fields → Fields → Bool
  fields_within end gs = true
  fields_within (field k v fs) gs =
      elim (get k gs) [ none ↦ false | some w ↦ json_eq v w ] && fields_within fs gs
