-- ===== src/Decimal/RoundTrip.antt =====
-- A number that is printed in decimal is read back.
use bitcask_rs.Base.{
  ℕ, zero, suc, ◌+◌, ◌*◌, ◌/◌, ◌%◌, ◌≤◌, ◌<◌, ltb, ◌≡◌, refl, ap, ◌∙◌, Bool-cases, inl, inr, some,
  [], ◌∷◌, Bytes, length, u64_mod, arith,
}
use bitcask_rs.Decimal.{parse_digits, below, parse_uint, print_digits, to_string}

abbrev pow10 : ℕ → ℕ
pow10 zero = 1
pow10 (suc n) = 10 * pow10 n

-- The first byte is a digit, so no sign stands in front.
abbrev IsNumeral : Bytes → Type 0
IsNumeral [] = 1 ≤ 0
IsNumeral (d ∷ ds) = 48 ≤ d

parse_digits-cons :
    (acc d : ℕ) (tail : Bytes)
    → d < 10
    → parse_digits acc ((d + 48) ∷ tail) ≡ parse_digits (acc * 10 + d) tail
unfolding parse_digits
parse_digits-cons acc d tail small = ground arith

parse_digits-print :
    (fuel n : ℕ) (tail : Bytes)
    → n < pow10 fuel
    → parse_digits 0 (print_digits fuel n tail) ≡ parse_digits n tail
unfolding print_digits
parse_digits-print zero n tail small = ap (λ k. parse_digits k tail) (omega (arith, small))
parse_digits-print (suc fuel) n tail small = elim (Bool-cases (ltb n 10)) [
  | inl last ↦ rw last (
      parse_digits-cons 0 n tail (ground (arith, last))
      ∙ ap (λ k. parse_digits k tail) {y = n} (omega arith))
  | inr more ↦ rw more (
      parse_digits-print fuel (n / 10) ((n % 10 + 48) ∷ tail) (omega (arith, small))
      ∙ parse_digits-cons (n / 10) (n % 10) tail (omega arith)
      ∙ ap (λ k. parse_digits k tail) {y = n} (omega arith))
]

print_digits-IsNumeral :
    (fuel n : ℕ) (tail : Bytes) → IsNumeral tail → IsNumeral (print_digits fuel n tail)
unfolding print_digits
print_digits-IsNumeral zero n tail is = is
print_digits-IsNumeral (suc fuel) n tail is = elim (Bool-cases (ltb n 10)) [
  | inl last ↦ rw last (omega arith)
  | inr more ↦ rw more (print_digits-IsNumeral fuel (n / 10) ((n % 10 + 48) ∷ tail) (omega arith))
]

parse_uint-IsNumeral :
    (limit : ℕ) (bs : Bytes) → IsNumeral bs → parse_uint limit bs ≡ below limit (parse_digits 0 bs)
unfolding parse_uint
parse_uint-IsNumeral limit [] is = absurd (omega (arith, is))
parse_uint-IsNumeral limit (d ∷ []) is = refl
parse_uint-IsNumeral limit (d ∷ (e ∷ ds)) is = ground (arith, is)

length-print_digits :
    (fuel n : ℕ) (tail : Bytes) → length (print_digits fuel n tail) ≤ fuel + suc (length tail)
unfolding print_digits
length-print_digits zero n tail = omega arith
length-print_digits (suc fuel) n tail = elim (Bool-cases (ltb n 10)) [
  | inl last ↦ rw last (omega arith)
  | inr more ↦ rw more (omega (arith, length-print_digits fuel (n / 10) ((n % 10 + 48) ∷ tail)))
]

pub length-to_string : (n : ℕ) → length (to_string n) ≤ 21
unfolding to_string
length-to_string n = length-print_digits 20 n []

print_digits-IsNumeral_more : (fuel n : ℕ) → IsNumeral (print_digits (suc fuel) n [])
unfolding print_digits
print_digits-IsNumeral_more fuel n = elim (Bool-cases (ltb n 10)) [
  | inl last ↦ rw last (omega arith)
  | inr more ↦ rw more (print_digits-IsNumeral fuel (n / 10) ((n % 10 + 48) ∷ []) (omega arith))
]

to_string-IsNumeral : (n : ℕ) → IsNumeral (to_string n)
unfolding to_string
to_string-IsNumeral n = print_digits-IsNumeral_more 19 n

-- A 64-bit number is read back from its digits.
pub parse_uint-to_string : (n : ℕ) → n < u64_mod → parse_uint u64_mod (to_string n) ≡ some n
unfolding to_string parse_digits
parse_uint-to_string n small =
    parse_uint-IsNumeral u64_mod (to_string n) (to_string-IsNumeral n)
    ∙ ap (λ o. below u64_mod o) (parse_digits-print 20 n [] (omega (arith, small)))
    ∙ ground (arith, small)
