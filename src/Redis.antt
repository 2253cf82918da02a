-- ===== src/Redis.antt =====
-- redis/src/types.rs and redis/src/meta.rs: Redis types over the storage engine. This file has the
-- types, the packages' functions that they use, and the steps that the operations share.
-- A Rust string is the list of its UTF-8 bytes; what the clock says is an argument.
pub mod Meta
pub mod Strings
pub mod Ops
pub mod ZSet
pub mod Server
use bitcask_rs.Base.{
  ℕ, ◌<◌, ◌==◌, ◌≡◌, Bool, true, false, if◌then◌else◌, Option, some, none, List, [], ◌∷◌, ◌++◌,
  Bytes, u64_mod,
}
use bitcask_rs.Errors.{Result, ok, panic}

abbrev pub u128_mod : ℕ
u128_mod = 340282366920938463463374607431768211456

-- What the program takes from `bytes` (big-endian numbers) and from the standard library's strings;
-- `none` is a panic on a buffer that is too short.
pub record Buf : Type 0 where
  pub put_u128 : ℕ → Bytes
  pub get_u128 : Bytes → Option (ℕ × Bytes)
  pub put_u64 : ℕ → Bytes
  pub get_u64 : Bytes → Option (ℕ × Bytes)
  pub is_utf8 : Bytes → Bool
  pub get_u128_put :
      (n : ℕ) (rest : Bytes) → n < u128_mod → get_u128 (put_u128 n ++ rest) ≡ some (n, rest)
  pub get_u64_put :
      (n : ℕ) (rest : Bytes) → n < u64_mod → get_u64 (put_u64 n ++ rest) ≡ some (n, rest)

-- The two readings of the clock in one operation, in nanoseconds since 1970: the one that an
-- expiry is compared with, and the one that becomes a version.
pub record Clock : Type 0 where
  pub checked_at : ℕ
  pub made_at : ℕ

pub data RedisDataType : Type 0 where
  string hash set list zset : RedisDataType

-- `data_type as u8`
abbrev pub type_byte : RedisDataType → ℕ
type_byte string = 0
type_byte hash = 1
type_byte set = 2
type_byte list = 3
type_byte zset = 4

-- `RedisDataType::from`
unfoldable pub type_from : ℕ → Result RedisDataType
type_from v =
    if v == 0
    then ok string
    else if v == 1
    then ok hash
    else if v == 2
    then ok set
    else if v == 3
    then ok list
    else if v == 4
    then ok zset
    else panic

-- `==` on the types.
abbrev pub same_type : RedisDataType → RedisDataType → Bool
same_type a b = type_byte a == type_byte b

-- `get_u8`, and `buf[0..1]`: a panic on an empty buffer.
abbrev pub get_u8 : Bytes → Option (ℕ × Bytes)
get_u8 [] = none
get_u8 (b ∷ bs) = some (b, bs)

abbrev pub is_list : RedisDataType → Bool
is_list t = same_type t list
