-- ===== src/Data/LogRecord.antt =====
-- bitcask-rs/src/data/log_record.rs: log records, positions and their encodings.
pub mod Encode
use bitcask_rs.Base.{
  ℕ, zero, suc, ◌+◌, ◌*◌, ◌==◌, Bool, true, false, if◌then◌else◌, Option, some, none, ◌∷◌, ◌++◌,
  Bytes, length, as_u32,
}
use bitcask_rs.Codec.{Codec}
use bitcask_rs.Errors.{AppError, encode_error, Result, ok, err, panic, or_err, or_panic, ◌>>=◌}

pub data LogRecordType : Type 0 where
  normal delete txn_finished : LogRecordType

pub record LogRecord : Type 0 where
  pub key : Bytes
  pub value : Bytes
  pub rec_type : LogRecordType

pub record LogRecordPos : Type 0 where
  pub file_id : ℕ
  pub offset : ℕ
  pub size : ℕ

pub record ReadLogRecord : Type 0 where
  pub record_read : LogRecord
  pub size : ℕ

pub record TransactionRecord : Type 0 where
  pub record_held : LogRecord
  pub pos : LogRecordPos

-- `self.rec_type as u8`, by the discriminants of the enum.
abbrev pub type_u8 : LogRecordType → ℕ
type_u8 normal = 1
type_u8 delete = 2
type_u8 txn_finished = 3

unfoldable pub from_u8 : ℕ → Result LogRecordType
from_u8 v =
    if v == 1
    then ok normal
    else if v == 2
    then ok delete
    else if v == 3
    then ok txn_finished
    else panic

-- `rec_type == LogRecordType::Delete`, and likewise the other two.
abbrev pub is_delete : LogRecordType → Bool
is_delete delete = true
is_delete _ = false

abbrev pub is_normal : LogRecordType → Bool
is_normal normal = true
is_normal _ = false

abbrev pub is_txn_finished : LogRecordType → Bool
is_txn_finished txn_finished = true
is_txn_finished _ = false

module _ (c : Codec) where
  open c use {
    encode_varint, decode_varint, encode_length_delimiter, length_delimiter_len, put_u32, crc32,
  }

  -- The parts of the encoding before the checksum.
  abbrev pub record_body : LogRecord → Bytes → Bytes → Bytes
  record_body r key_len value_len =
      type_u8 r.rec_type ∷ (key_len ++ (value_len ++ (r.key ++ r.value)))

  unfoldable pub encode_and_get_crc : LogRecord → Result (Bytes × ℕ)
  encode_and_get_crc r = do
    key_len ← or_err (encode_length_delimiter (length r.key)) encode_error
    value_len ← or_err (encode_length_delimiter (length r.value)) encode_error
    let buf = record_body r key_len value_len
    let crc = crc32 buf
    ok (buf ++ put_u32 crc, crc)

  unfoldable pub encode : LogRecord → Result Bytes
  unfolding encode_and_get_crc
  encode r = do p ← encode_and_get_crc r; ok p.0

  unfoldable pub get_crc : LogRecord → Result ℕ
  unfolding encode_and_get_crc
  get_crc r = do p ← encode_and_get_crc r; ok p.1

  unfoldable pub encoded_length : LogRecord → ℕ
  encoded_length r =
      1
      + length_delimiter_len (length r.key)
      + length_delimiter_len (length r.value)
      + length r.key
      + length r.value
      + 4

  unfoldable pub max_log_record_header_size : ℕ
  max_log_record_header_size = 1 + length_delimiter_len 4294967295 * 2

  unfoldable pub encode_pos : LogRecordPos → Bytes
  encode_pos p = encode_varint p.file_id ++ (encode_varint p.offset ++ encode_varint p.size)

  -- `decode_log_record_pos`: each failed varint panics; the id and the size are cut to 32 bits.
  unfoldable pub decode_log_record_pos : Bytes → Result LogRecordPos
  decode_log_record_pos pos = do
    (file_id, buf) ← or_panic (decode_varint pos)
    (offset, buf') ← or_panic (decode_varint buf)
    (size, _) ← or_panic (decode_varint buf')
    ok (record { file_id = as_u32 file_id; offset = offset; size = as_u32 size })
