-- ===== src/Samples/Crc.antt =====
-- The IEEE CRC-32, bit by bit.
use Prim.Native.Nat.{bit_and, bit_xor}
use bitcask_rs.Base.{ℕ, zero, suc, ◌/◌, ◌==◌, if◌then◌else◌, [], ◌∷◌, Bytes}

crc_bits : ℕ → ℕ → ℕ
crc_bits zero c = c
crc_bits (suc k) c = crc_bits k (if bit_and c 1 == 1 then bit_xor (c / 2) 0xedb8_8320 else c / 2)

crc_bytes : ℕ → Bytes → ℕ
unfolding crc_bits
crc_bytes c [] = c
crc_bytes c (b ∷ bs) = crc_bytes (crc_bits 8 (bit_xor c b)) bs

unfoldable pub crc32_ieee : Bytes → ℕ
unfolding crc_bytes
crc32_ieee bs = bit_xor (crc_bytes 0xffff_ffff bs) 0xffff_ffff
