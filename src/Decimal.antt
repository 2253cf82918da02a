-- ===== src/Decimal.antt =====
-- `to_string` and `parse` of the standard library, on unsigned integers.
pub mod RoundTrip
use bitcask_rs.Base.{
  ℕ, zero, suc, ◌+◌, ◌-◌, ◌*◌, ◌/◌, ◌%◌, ltb, leb, ◌==◌, ◌&&◌, if◌then◌else◌, Option, none, some,
  [], ◌∷◌, Bytes,
}

-- The digits read so far are `acc`.
unfoldable pub parse_digits : ℕ → Bytes → Option ℕ
parse_digits acc [] = some acc
parse_digits acc (d ∷ ds) =
    let rest = parse_digits (acc * 10 + (d - 48)) ds in if leb 48 d && leb d 57 then rest else none

abbrev pub below : ℕ → Option ℕ → Option ℕ
below limit none = none
below limit (some n) = if ltb n limit then some n else none

-- `parse::<u32>()` and `parse::<usize>()`: digits with an optional plus, below the type's limit.
unfoldable pub parse_uint : ℕ → Bytes → Option ℕ
unfolding parse_digits
parse_uint limit [] = none
parse_uint limit (d ∷ []) = below limit (parse_digits 0 (d ∷ []))
parse_uint limit (d ∷ (e ∷ ds)) =
    if d == 43
    then below limit (parse_digits 0 (e ∷ ds))
    else below limit (parse_digits 0 (d ∷ (e ∷ ds)))

-- The digits of `n` in front of `tail`; a 64-bit number has twenty at most.
unfoldable pub print_digits : ℕ → ℕ → Bytes → Bytes
print_digits zero n tail = tail
print_digits (suc fuel) n tail =
    let rest = print_digits fuel (n / 10) ((n % 10 + 48) ∷ tail) in
    if ltb n 10 then (n + 48) ∷ tail else rest

unfoldable pub to_string : ℕ → Bytes
unfolding print_digits
to_string n = print_digits 20 n []
