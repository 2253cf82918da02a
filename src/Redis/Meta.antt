-- ===== src/Redis/Meta.antt =====
-- redis/src/meta.rs: the metadata of a key, the keys of its parts, and their encodings.
use bitcask_rs.Base.{
  ℕ, ◌<◌, ◌≡◌, refl, Bool, true, false, if◌then◌else◌, Option, [], ◌∷◌, ◌++◌, append-nil, Bytes,
  length, as_u32, u32_mod, u64_mod,
}
use bitcask_rs.Errors.{Result, ok, or_panic, ◌>>=◌}
use bitcask_rs.Codec.{Codec}
use bitcask_rs.Redis.{
  Buf, RedisDataType, string, hash, set, list, zset, type_byte, type_from, is_list, get_u8,
  u128_mod,
}

pub record Metadate : Type 0 where
  pub data_type : RedisDataType
  pub expire : ℕ
  pub version : ℕ
  pub size : ℕ
  pub head : ℕ
  pub tail : ℕ

pub record HashInternalKey : Type 0 where
  pub key : Bytes
  pub version : ℕ
  pub field : Bytes

pub record SetInternalKey : Type 0 where
  pub key : Bytes
  pub version : ℕ
  pub member : Bytes

pub record ListInternalKey : Type 0 where
  pub key : Bytes
  pub version : ℕ
  pub index : ℕ

-- The numbers fit their fields.
pub record MetaFits (m : Metadate) : Type 0 where
  pub expire_fits : m.expire < u128_mod
  pub version_fits : m.version < u128_mod
  pub size_fits : m.size < u32_mod
  pub head_fits : m.head < u64_mod
  pub tail_fits : m.tail < u64_mod

module _ (c : Codec) (b : Buf) where
  -- The two marks are written for a list only.
  abbrev pub encode_marks : Bool → ℕ → ℕ → Bytes
  encode_marks true head tail = b.put_u64 head ++ b.put_u64 tail
  encode_marks false head tail = []

  unfoldable pub encode_metadata : Metadate → Bytes
  encode_metadata m =
      type_byte m.data_type
      ∷ (b.put_u128 m.expire
          ++ (b.put_u128 m.version
              ++ (c.put_u32 m.size ++ encode_marks (is_list m.data_type) m.head m.tail)))

  abbrev pub decode_marks : Bool → Bytes → Result (ℕ × ℕ)
  decode_marks true buf = do
    (head, buf') ← or_panic (b.get_u64 buf)
    (tail, _) ← or_panic (b.get_u64 buf')
    ok (head, tail)
  decode_marks false buf = ok (0, 0)

  unfoldable pub decode_metadata : Bytes → Result Metadate
  decode_metadata buf0 = do
    (byte, buf1) ← or_panic (get_u8 buf0)
    data_type ← type_from byte
    (expire, buf2) ← or_panic (b.get_u128 buf1)
    (version, buf3) ← or_panic (b.get_u128 buf2)
    (size, buf4) ← or_panic (c.get_u32 buf3)
    (head, tail) ← decode_marks (is_list data_type) buf4
    ok (record {
      data_type = data_type;
      expire = expire;
      version = version;
      size = size;
      head = head;
      tail = tail;
    })

  unfoldable pub encode_hash_key : HashInternalKey → Bytes
  encode_hash_key k = k.key ++ (b.put_u128 k.version ++ k.field)

  unfoldable pub encode_set_key : SetInternalKey → Bytes
  encode_set_key k =
      k.key ++ (b.put_u128 k.version ++ (k.member ++ c.put_u32 (as_u32 (length k.member))))

  unfoldable pub encode_list_key : ListInternalKey → Bytes
  encode_list_key k = k.key ++ (b.put_u128 k.version ++ b.put_u64 k.index)

-- What the encoding keeps of a key's metadata.
abbrev pub kept : Metadate → Metadate
kept m = record m {
  head = if is_list m.data_type then m.head else 0;
  tail = if is_list m.data_type then m.tail else 0;
}

pub type_from-byte : (t : RedisDataType) → type_from (type_byte t) ≡ ok t
unfolding type_from
type_from-byte string = refl
type_from-byte hash = refl
type_from-byte set = refl
type_from-byte list = refl
type_from-byte zset = refl

module _ (c : Codec) (b : Buf) where
  pub decode_marks-encode :
      (is : Bool) (head tail : ℕ)
      → head < u64_mod
      → tail < u64_mod
      → decode_marks c b is (encode_marks c b is head tail)
        ≡ ok (if is then head else 0, if is then tail else 0)
  decode_marks-encode true head tail hh ht =
      rw (b.get_u64_put head (b.put_u64 tail) hh, at_end) refl
    where
      at_end : b.get_u64 (b.put_u64 tail) ≡ Option.some (tail, [])
      at_end = rw (append-nil (b.put_u64 tail)) at (b.get_u64_put tail [] ht)
  decode_marks-encode false head tail hh ht = refl

  -- Metadata whose numbers fit their fields is read back from its encoding; a type other than a
  -- list loses its marks, which are 0 then.
  pub decode_metadata-encode :
      (m : Metadate) → MetaFits m → decode_metadata c b (encode_metadata c b m) ≡ ok (kept m)
  unfolding decode_metadata encode_metadata
  decode_metadata-encode m h =
      rw
        (
          type_from-byte m.data_type,
          b.get_u128_put m.expire _ h.expire_fits,
          b.get_u128_put m.version _ h.version_fits,
          c.get_u32_put m.size _ h.size_fits,
          decode_marks-encode (is_list m.data_type) m.head m.tail h.head_fits h.tail_fits,
        )
        refl
