-- ===== src/Codec.antt =====
-- The encodings that the engine takes from other packages: the varints and length delimiters of
-- `prost`, the big-endian `put_u32` and `get_u32` of `bytes`, and the checksum of `crc32fast`.
-- They are a parameter; the laws are what those packages document.
use bitcask_rs.Base.{ℕ, ◌≤◌, ◌<◌, ◌≡◌, Option, some, [], ◌∷◌, ◌++◌, Bytes, length, u32_mod, u64_mod}

pub record Codec : Type 0 where
  -- What `encode_varint` appends to its buffer, and what `decode_varint` takes from the front.
  pub encode_varint : ℕ → Bytes
  pub decode_varint : Bytes → Option (ℕ × Bytes)
  -- `none` is the `Err` of these two.
  pub encode_length_delimiter : ℕ → Option Bytes
  pub decode_length_delimiter : Bytes → Option (ℕ × Bytes)
  pub length_delimiter_len : ℕ → ℕ
  pub put_u32 : ℕ → Bytes
  -- `none` is the panic on a buffer that is too short.
  pub get_u32 : Bytes → Option (ℕ × Bytes)
  pub crc32 : Bytes → ℕ
  -- A varint is read back, and what follows it is left.
  pub decode_varint_encode :
      (n : ℕ) (rest : Bytes)
      → n < u64_mod
      → decode_varint (encode_varint n ++ rest) ≡ some (n, rest)
  -- A delimiter is a varint; on a buffer that grows, encoding it succeeds.
  pub encode_delimiter : (n : ℕ) → n < u64_mod → encode_length_delimiter n ≡ some (encode_varint n)
  pub decode_delimiter_encode :
      (n : ℕ) (rest : Bytes)
      → n < u64_mod
      → decode_length_delimiter (encode_varint n ++ rest) ≡ some (n, rest)
  pub delimiter_len : (n : ℕ) → n < u64_mod → length_delimiter_len n ≡ length (encode_varint n)
  -- A larger number takes no fewer bytes, and a 32-bit number takes five at most.
  pub delimiter_len_mono : (m n : ℕ) → m ≤ n → length_delimiter_len m ≤ length_delimiter_len n
  pub delimiter_len_u32_max : length_delimiter_len 4294967295 ≡ 5
  -- Seven bits to a byte: a number below 128 is its own encoding.
  pub encode_varint_small : (n : ℕ) → n < 128 → encode_varint n ≡ n ∷ []
  pub length-put_u32 : (n : ℕ) → length (put_u32 n) ≡ 4
  pub get_u32_put :
      (n : ℕ) (rest : Bytes) → n < u32_mod → get_u32 (put_u32 n ++ rest) ≡ some (n, rest)
  pub crc32-lt : (bs : Bytes) → crc32 bs < u32_mod
