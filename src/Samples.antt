-- ===== src/Samples.antt =====
-- Concrete values that the theorems are applied to: a codec that keeps the laws, an operating
-- system on which every call succeeds, and an empty engine.
pub mod Leb
pub mod Crc
pub mod Tests
pub mod Records
pub mod Engines
pub mod Loads
pub mod Batches
pub mod Strings
pub mod Pops
pub mod Members
pub mod Scores
pub mod Servers
pub mod Iterators
pub mod Buckets
pub mod Durables
pub mod Reopens
pub mod Restarts
pub mod Sequences
pub mod Bounds
pub mod Closings
pub mod Backups
pub mod Merges
pub mod Transactions
use bitcask_rs.Base.{
  ℕ, ◌<◌, ◌≡◌, refl, true, false, some, [], ◌∷◌, ◌++◌, Bytes, length, u32_mod, ◌%◌, u64_mod, arith,
  if◌then◌else◌, ltb, Option,
}
use bitcask_rs.Codec.{Codec}
use bitcask_rs.Fs.{Os, IsHealthy}
use bitcask_rs.Samples.Leb.{
  leb_encode, leb_decode, leb_decode-encode, leb-length_mono, be32, from_be32, from_be32-be32,
}
use bitcask_rs.Samples.Crc.{crc32_ieee}

pub crc_value-lt : (bs : Bytes) → crc32_ieee bs % u32_mod < u32_mod
crc_value-lt bs = omega arith

pub leb_one : (n : ℕ) → n < 128 → leb_encode 9 n ≡ n ∷ []
unfolding leb_encode
leb_one n h = ground arith

pub length-be32 : (n : ℕ) → length (be32 n) ≡ 4
unfolding be32
length-be32 n = refl

pub leb_u32_max : length (leb_encode 9 4294967295) ≡ 5
unfolding leb_encode
leb_u32_max = refl

abbrev pub codec : Codec
codec = record {
  encode_varint = leb_encode 9;
  decode_varint = leb_decode;
  encode_length_delimiter = λ n. some (leb_encode 9 n);
  decode_length_delimiter = leb_decode;
  length_delimiter_len = λ n. length (leb_encode 9 n);
  put_u32 = be32;
  get_u32 = from_be32;
  crc32 = λ bs. crc32_ieee bs % u32_mod;
  decode_varint_encode = leb_decode-encode;
  encode_delimiter = λ n h. refl;
  decode_delimiter_encode = leb_decode-encode;
  delimiter_len = λ n h. refl;
  delimiter_len_mono = λ m n h. leb-length_mono 9 m n h;
  delimiter_len_u32_max = leb_u32_max;
  encode_varint_small = leb_one;
  length-put_u32 = length-be32;
  get_u32_put = from_be32-be32;
  crc32-lt = crc_value-lt;
}

abbrev pub calm : Os
calm = record {
  open_ok = true;
  map_ok = true;
  read_ok = true;
  sync_ok = true;
  accept = λ n. some n;
}

pub calm-IsHealthy : IsHealthy calm
calm-IsHealthy = record {
  opens = refl;
  maps = refl;
  reads = refl;
  syncs = refl;
  accepts = λ n. refl;
}
