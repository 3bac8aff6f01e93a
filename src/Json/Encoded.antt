-- ===== src/Json/Encoded.antt =====
-- The length of `json.dumps(value).encode()`: ASCII only, with ", " and ": " between the parts.
-- The order of the keys does not change it.
use Prim.Native.Nat.{◌/◌}
use native.Mathlib.Omega.{pow_step}
use workflow_runtime_core.Base.{
  ℕ, zero, suc, ◌+◌, ◌^◌, ◌<◌, ◌≤◌, ◌≡◌, inl, inr, arith, String, Bool, true, false, ◌&&◌, ◌||◌,
  List, [], ◌∷◌, ltb, leb, ◌==◌, codes, length, if◌then◌else◌, Bool-cases,
}
use workflow_runtime_core.Json.Defs.{
  Json, null, bool, num, neg, real, str, arr, obj, Items, nil, cons, Fields, end, field,
}

-- The decimal digits of `n`, on fuel: `n` is enough.
unfoldable pub decimal_length : ℕ → ℕ → ℕ
decimal_length zero n = 1
decimal_length (suc fuel) n = elim (ltb n 10) [
  | true ↦ 1
  | false ↦ suc (decimal_length fuel (n / 10))
]

unfoldable pub number_length : ℕ → ℕ
unfolding decimal_length
number_length n = decimal_length n n

-- A control character with an escape of its own, the quote and the backslash.
abbrev pub is_short_escape : ℕ → Bool
is_short_escape c = (leb 8 c && leb c 10) || c == 12 || c == 13 || c == 34 || c == 92

-- A character in a JSON text: itself, an escape of two, `\uXXXX`, or two of these.
abbrev pub char_length : ℕ → ℕ
char_length c =
    if is_short_escape c
    then 2
    else if leb 32 c && leb c 126
    then 1
    else if leb c 65535
    then 6
    else 12

chars_length : List ℕ → ℕ
chars_length [] = 0
chars_length (c ∷ cs) = char_length c + chars_length cs

unfoldable pub text_length : String → ℕ
unfolding chars_length
text_length s = 2 + chars_length (codes s)

unfoldable mutual
  pub encoded_length : Json → ℕ
  encoded_length null = 4
  encoded_length (bool true) = 4
  encoded_length (bool false) = 5
  encoded_length (num n) = number_length n
  encoded_length (neg n) = 1 + number_length (n + 1)
  encoded_length (real s) = length (codes s)
  encoded_length (str s) = text_length s
  encoded_length (arr xs) = 2 + items_length xs
  encoded_length (obj d) = 2 + fields_length d

  items_length : Items → ℕ
  items_length nil = 0
  items_length (cons x nil) = encoded_length x
  items_length (cons x (cons y xs)) = encoded_length x + 2 + items_length (cons y xs)

  fields_length : Fields → ℕ
  fields_length end = 0
  fields_length (field k v end) = text_length k + 2 + encoded_length v
  fields_length (field k v (field j w d)) =
      text_length k + 2 + encoded_length v + 2 + fields_length (field j w d)

decimal_length-small : (fuel n : ℕ) → ltb n 10 ≡ true → decimal_length (suc fuel) n ≡ 1
unfolding decimal_length
decimal_length-small fuel n e = rw (decimal_length, e)

decimal_length-large :
    (fuel n : ℕ)
    → ltb n 10 ≡ false
    → decimal_length (suc fuel) n ≡ suc (decimal_length fuel (n / 10))
unfolding decimal_length
decimal_length-large fuel n e = rw (decimal_length, e)

ten_more : (n k : ℕ) → n / 10 < 10 ^ k → n < 10 ^ suc k
ten_more n k h = omega (arith, h, pow_step 10 k)

-- With that fuel every digit is counted.
pub decimal_length-enough : (fuel n : ℕ) → n ≤ fuel → n < 10 ^ decimal_length fuel n
unfolding decimal_length
decimal_length-enough zero n h = omega arith
decimal_length-enough (suc fuel) n h = elim (Bool-cases (ltb n 10)) [
  | inl e ↦ rw (decimal_length-small fuel n e) (ground (arith, e))
  | inr e ↦ rw (decimal_length-large fuel n e) (
      ten_more n (decimal_length fuel (n / 10))
        (decimal_length-enough fuel (n / 10) (ground (arith, e, h))))
]
