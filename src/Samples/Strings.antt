-- ===== src/Samples/Strings.antt =====
-- The theorems about the Redis types, with big-endian numbers.
use bitcask_rs.Base.{
  ℕ, ◌+◌, ◌*◌, ◌/◌, ◌%◌, ◌<◌, ◌≡◌, refl, ap, ltb, Bool, true, false, if◌then◌else◌, Option, some,
  none, [], ◌∷◌, ◌++◌, append_assoc, Bytes, length, u64_mod, arith,
}
use bitcask_rs.Errors.{ok}
use bitcask_rs.Index.BTree.{BTree, btree_indexer}
use bitcask_rs.Samples.{codec, calm, calm-IsHealthy}
use bitcask_rs.Samples.Leb.{leb_encode, be32, from_be32, from_be32-be32}
use bitcask_rs.Samples.Engines.{empty_engine, empty_engine-Refines, no_values}
use bitcask_rs.Data.LogRecord.Encode.{Fits, record_bytes}
use bitcask_rs.Engine.{Engine}
use bitcask_rs.Engine.Append.{HasRoom}
use bitcask_rs.Engine.Refine.{Refines, put_record, store_put}
use bitcask_rs.Redis.{Buf, list, u128_mod}
use bitcask_rs.Redis.Meta.{
  Metadate, MetaFits, kept, encode_metadata, decode_metadata, decode_metadata-encode,
}
use bitcask_rs.Redis.Strings.{expiry, is_expired, encode_string, set, get_string, set-get}

unfoldable pub be64 : ℕ → Bytes
be64 n = be32 (n / 4294967296) ++ be32 (n % 4294967296)

abbrev pub joined : ℕ → ℕ → Option (ℕ × Bytes) → Option (ℕ × Bytes)
joined w high none = none
joined w high (some (low, rest)) = some (high * w + low, rest)

abbrev pub join32 : Option (ℕ × Bytes) → Option (ℕ × Bytes)
join32 none = none
join32 (some (high, rest)) = joined 4294967296 high (from_be32 rest)

unfoldable pub from_be64 : Bytes → Option (ℕ × Bytes)
from_be64 bs = join32 (from_be32 bs)

unfoldable pub be128 : ℕ → Bytes
be128 n = be64 (n / 18446744073709551616) ++ be64 (n % 18446744073709551616)

abbrev pub join64 : Option (ℕ × Bytes) → Option (ℕ × Bytes)
join64 none = none
join64 (some (high, rest)) = joined 18446744073709551616 high (from_be64 rest)

unfoldable pub from_be128 : Bytes → Option (ℕ × Bytes)
from_be128 bs = join64 (from_be64 bs)

pub from_be64-be64 :
    (n : ℕ) (rest : Bytes) → n < u64_mod → from_be64 (be64 n ++ rest) ≡ some (n, rest)
unfolding be64 from_be64
from_be64-be64 n rest h =
    rw
      (
        append_assoc (be32 (n / 4294967296)) (be32 (n % 4294967296)) rest,
        from_be32-be32 (n / 4294967296) (be32 (n % 4294967296) ++ rest) (omega arith),
        from_be32-be32 (n % 4294967296) rest (omega arith),
      )
      (ap (λ k. some (k, rest)) (omega arith))

pub from_be128-be128 :
    (n : ℕ) (rest : Bytes) → n < u128_mod → from_be128 (be128 n ++ rest) ≡ some (n, rest)
unfolding be128 from_be128
from_be128-be128 n rest h =
    rw
      (
        append_assoc (be64 (n / 18446744073709551616)) (be64 (n % 18446744073709551616)) rest,
        from_be64-be64 (n / 18446744073709551616) (be64 (n % 18446744073709551616) ++ rest)
            (omega arith),
        from_be64-be64 (n % 18446744073709551616) rest (omega arith),
      )
      (ap (λ k. some (k, rest)) (omega arith))

-- Every byte string of ASCII characters is a text; the sample takes no other for one.
abbrev pub is_ascii : Bytes → Bool
is_ascii [] = true
is_ascii (b ∷ bs) = let rest = is_ascii bs in if ltb b 128 then rest else false

abbrev pub buf : Buf
buf = record {
  put_u128 = be128;
  get_u128 = from_be128;
  put_u64 = be64;
  get_u64 = from_be64;
  is_utf8 = is_ascii;
  get_u128_put = from_be128-be128;
  get_u64_put = from_be64-be64;
}

abbrev pub a_list : Metadate
a_list = record { data_type = list; expire = 0; version = 7; size = 1; head = 5; tail = 6 }

pub a_list-MetaFits : MetaFits a_list
a_list-MetaFits = record {
  expire_fits = omega arith;
  version_fits = omega arith;
  size_fits = omega arith;
  head_fits = omega arith;
  tail_fits = omega arith;
}

decode_metadata-encode_example :
    decode_metadata codec buf (encode_metadata codec buf a_list) ≡ ok (kept a_list)
decode_metadata-encode_example = decode_metadata-encode codec buf a_list a_list-MetaFits

-- The value "v" under the key "k", for five nanoseconds from the time 100.
abbrev pub stored : Bytes
stored = encode_string buf (b'v' ∷ []) (expiry 5 (some 105))

stored-Fits : Fits (put_record (b'k' ∷ []) stored)
unfolding encode_string be128 be64 be32
stored-Fits = record { key_fits = omega arith; value_fits = omega arith }

stored-HasRoom : HasRoom empty_engine (length (record_bytes codec (put_record (b'k' ∷ []) stored)))
unfolding record_bytes leb_encode be32 encode_string be128 be64
stored-HasRoom = record { ids = omega arith; bytes = omega arith }

small : expiry 5 (some 105) < u128_mod
unfolding expiry
small = omega arith

set-get_example :
    (e' : Engine BTree) × (set btree_indexer codec calm buf
        (b'k' ∷ [])
        (b'v' ∷ [])
        5
        (some 105)
        empty_engine
      ≡ (ok tt, e'))
    × Refines btree_indexer codec e' (store_put (b'k' ∷ []) stored no_values)
    × (get_string btree_indexer codec calm buf 104 (b'k' ∷ []) e'
        ≡ ok (if is_expired (expiry 5 (some 105)) 104 then none else some (b'v' ∷ [])))
set-get_example =
    set-get btree_indexer codec calm buf empty_engine no_values (b'k' ∷ []) (b'v' ∷ []) 5 104
      (some 105) calm-IsHealthy empty_engine-Refines (λ h. cc) (λ h. cc) small refl stored-Fits
      stored-HasRoom
