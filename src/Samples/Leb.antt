-- ===== src/Samples/Leb.antt =====
-- A codec for the laws: seven bits to a byte, lowest first, and 32-bit numbers in big-endian order.
use bitcask_rs.Base.{
  ℕ, zero, suc, ◌+◌, ◌-◌, ◌*◌, ◌/◌, ◌%◌, ◌^◌, ◌≤◌, ◌<◌, ◌≡◌, if◌then◌else◌, ltb, Option, none, some,
  [], ◌∷◌, ◌++◌, Bytes, length, u32_mod, u64_mod, arith,
}

unfoldable pub leb_encode : ℕ → ℕ → Bytes
leb_encode zero v = v ∷ []
leb_encode (suc k) v =
    let more = leb_encode k (v / 128) in if ltb v 128 then v ∷ [] else (v % 128 + 128) ∷ more

abbrev with_low : ℕ → Option (ℕ × Bytes) → Option (ℕ × Bytes)
with_low b none = none
with_low b (some (n, rest)) = some (b - 128 + 128 * n, rest)

leb_groups : Bytes → Option (ℕ × Bytes)
leb_groups [] = none
leb_groups (b ∷ bs) =
    let more = leb_groups bs in if ltb b 128 then some (b, bs) else with_low b more

abbrev in_u64 : Option (ℕ × Bytes) → Option (ℕ × Bytes)
in_u64 none = none
in_u64 (some (n, rest)) = if ltb n u64_mod then some (n, rest) else none

unfoldable pub leb_decode : Bytes → Option (ℕ × Bytes)
unfolding leb_groups
leb_decode bs = in_u64 (leb_groups bs)

leb_groups-encode :
    (k v : ℕ) (rest : Bytes)
    → v < 128 ^ suc k
    → leb_groups (leb_encode k v ++ rest) ≡ some (v, rest)
unfolding leb_groups leb_encode
leb_groups-encode zero v rest h = ground arith
leb_groups-encode (suc k) v rest h =
    ground (arith, leb_groups-encode k (v / 128) rest (omega arith))

pub leb_decode-encode :
    (n : ℕ) (rest : Bytes) → n < u64_mod → leb_decode (leb_encode 9 n ++ rest) ≡ some (n, rest)
unfolding leb_decode
leb_decode-encode n rest h = rw (leb_groups-encode 9 n rest (omega arith)) (ground arith)

leb-length_pos : (k n : ℕ) → 0 < length (leb_encode k n)
unfolding leb_encode
leb-length_pos zero n = omega arith
leb-length_pos (suc k) n = ground arith

pub leb-length_mono : (k m n : ℕ) → m ≤ n → length (leb_encode k m) ≤ length (leb_encode k n)
unfolding leb_encode
leb-length_mono zero m n h = omega arith
leb-length_mono (suc k) m n h =
    ground (arith, leb-length_mono k (m / 128) (n / 128) (omega arith), leb-length_pos k (n / 128))

unfoldable pub be32 : ℕ → Bytes
be32 n = (n / 16777216) ∷ ((n / 65536 % 256) ∷ ((n / 256 % 256) ∷ ((n % 256) ∷ [])))

unfoldable pub from_be32 : Bytes → Option (ℕ × Bytes)
from_be32 (a ∷ (b ∷ (c ∷ (d ∷ rest)))) = some (a * 16777216 + b * 65536 + c * 256 + d, rest)
from_be32 _ = none

pub from_be32-be32 :
    (n : ℕ) (rest : Bytes) → n < u32_mod → from_be32 (be32 n ++ rest) ≡ some (n, rest)
unfolding be32 from_be32
from_be32-be32 n rest h = ground arith
