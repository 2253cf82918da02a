-- ===== src/Data/LogRecord/Encode.antt =====
-- What the encodings of a record and of a position consist of.
use bitcask_rs.Base.{
  ℕ, ◌+◌, ◌<◌, ◌≤◌, ◌≡◌, refl, [], ◌++◌, append-nil, Bytes, length, length-append, u32_mod, u64_mod,
  arith,
}
use bitcask_rs.Codec.{Codec}
use bitcask_rs.Errors.{ok}
use bitcask_rs.Data.LogRecord.{
  LogRecordType, normal, delete, txn_finished, LogRecord, LogRecordPos, type_u8, from_u8,
  record_body, encode_and_get_crc, encode, get_crc, encoded_length, encode_pos,
  decode_log_record_pos,
}

-- The key and the value have a 32-bit length, as the layout in the source's comment provides for.
pub record Fits (r : LogRecord) : Type 0 where
  pub key_fits : length r.key < u32_mod
  pub value_fits : length r.value < u32_mod

-- The tag of a record type is read back as that type.
pub from_u8-type_u8 : (t : LogRecordType) → from_u8 (type_u8 t) ≡ ok t
unfolding from_u8
from_u8-type_u8 normal = refl
from_u8-type_u8 delete = refl
from_u8-type_u8 txn_finished = refl

module _ (c : Codec) where
  open c use {encode_varint, put_u32, crc32}

  -- The body of an encoded record, its checksum left out.
  abbrev pub body : LogRecord → Bytes
  body r = record_body c r (encode_varint (length r.key)) (encode_varint (length r.value))

  -- The bytes of a record as the layout in the source's comment gives them.
  unfoldable pub record_bytes : LogRecord → Bytes
  record_bytes r = body r ++ put_u32 (crc32 (body r))

  pub encode_and_get_crc_lem :
      (r : LogRecord) → Fits r → encode_and_get_crc c r ≡ ok (record_bytes r, crc32 (body r))
  unfolding encode_and_get_crc record_bytes
  encode_and_get_crc_lem r f = rw (
    c.encode_delimiter (length r.key) (omega arith),
    c.encode_delimiter (length r.value) (omega arith),
  )

  -- Encoding a record never fails, and gives the documented layout.
  pub encode_lem : (r : LogRecord) → Fits r → encode c r ≡ ok (record_bytes r)
  unfolding encode
  encode_lem r f = rw (encode_and_get_crc_lem r f)

  pub get_crc_lem : (r : LogRecord) → Fits r → get_crc c r ≡ ok (crc32 (body r))
  unfolding get_crc
  get_crc_lem r f = rw (encode_and_get_crc_lem r f)

  pub length-body :
      (r : LogRecord)
      → length (body r)
        ≡ 1
          + length (encode_varint (length r.key))
          + length (encode_varint (length r.value))
          + length r.key
          + length r.value
  length-body r = rw (length-append, length-append, length-append) (omega arith)

  pub length-record_bytes : (r : LogRecord) → Fits r → length (record_bytes r) ≡ encoded_length c r
  unfolding record_bytes encoded_length
  length-record_bytes r f = omega (
    arith,
    length-append (body r) (put_u32 (crc32 (body r))),
    length-body r,
    c.length-put_u32 (crc32 (body r)),
    c.delimiter_len (length r.key),
    c.delimiter_len (length r.value),
  )

  -- A 32-bit length takes five bytes at most.
  pub varint_le_five : (n : ℕ) → n < u32_mod → length (encode_varint n) ≤ 5
  varint_le_five n h = omega (
    arith,
    c.delimiter_len n (omega arith),
    c.delimiter_len_mono n 4294967295 (omega arith),
    c.delimiter_len_u32_max,
  )

  -- A position whose fields are in their ranges is read back from its encoding.
  pub decode-encode_pos :
      (p : LogRecordPos)
      → p.file_id < u32_mod
      → p.offset < u64_mod
      → p.size < u32_mod
      → decode_log_record_pos c (encode_pos c p) ≡ ok p
  unfolding decode_log_record_pos encode_pos
  decode-encode_pos p hf ho hs =
      rw
        (
          c.decode_varint_encode p.file_id (encode_varint p.offset ++ encode_varint p.size)
              (omega arith),
          c.decode_varint_encode p.offset (encode_varint p.size) ho,
          ← append-nil (encode_varint p.size),
          c.decode_varint_encode p.size [] (omega arith),
        )
        (ground arith)
