-- ===== src/Data/DataFile.antt =====
-- bitcask-rs/src/data/data_file.rs: a data file with its write offset, reading and writing records.
pub mod Read
use bitcask_rs.Base.{
  ℕ, zero, ◌+◌, ◌-◌, ◌==◌, Bool, true, false, ◌&&◌, if◌then◌else◌, ltb, leb, Option, none, some,
  List, [], ◌∷◌, Bytes, length, take, drop, add64, sub64,
}
use bitcask_rs.Errors.{
  AppError, Result, ok, err, panic, stuck, key_is_empty, decode_error, read_data_file_eof,
  get_value_failed, invalid_log_record_crc, fail_if, or_err, or_panic, ◌>>=◌, ◌>>◌,
}
use bitcask_rs.Codec.{Codec}
use bitcask_rs.Fs.{FileName, data_name, hint_index, merge_finished, seq_no_name, Dir, Os}
use bitcask_rs.Fio.{
  IoType, standard_fio, IoManager, new_io_manager, io_read, io_write, io_sync, io_size,
}
use bitcask_rs.Data.LogRecord.{
  LogRecord, LogRecordPos, ReadLogRecord, normal, from_u8, encode, get_crc, encode_pos,
  max_log_record_header_size,
}

pub record DataFile : Type 0 where
  pub file_id : ℕ
  pub write_off : ℕ
  pub io_manager : IoManager

-- `get_u8`, which panics on an empty buffer.
abbrev pub get_u8 : Bytes → Result (ℕ × Bytes)
get_u8 [] = panic
get_u8 (b ∷ rest) = ok (b, rest)

-- `buf.get(a..b)`.
abbrev pub get_range : Bytes → ℕ → ℕ → Option Bytes
get_range buf a b = if leb a b && leb b (length buf) then some (take (b - a) (drop a buf)) else none

-- `buf.advance(n)`, which panics past the end.
abbrev pub advance : Bytes → ℕ → Result Bytes
advance buf n = if leb n (length buf) then ok (drop n buf) else panic

-- A file over a new IO manager.
abbrev file_over : ℕ → Result IoManager × Dir → Result DataFile × Dir
file_over id (io, dir) =
    ((do m ← io; ok (record { file_id = id; write_off = 0; io_manager = m })), dir)

module _ (os : Os) where
  unfoldable pub new_with_create : ℕ → IoType → Bool → Dir → Result DataFile × Dir
  unfolding new_io_manager
  new_with_create id io_type create dir =
      file_over id (new_io_manager os (data_name id) io_type create dir)

  -- `DataFile::new`, `DataFile::open`
  unfoldable pub new : ℕ → IoType → Dir → Result DataFile × Dir
  unfolding new_with_create
  new id io_type dir = new_with_create id io_type true dir

  unfoldable pub open_file : ℕ → IoType → Dir → Result DataFile × Dir
  unfolding new_with_create
  open_file id io_type dir = new_with_create id io_type false dir

  unfoldable pub new_hint_file : Dir → Result DataFile × Dir
  unfolding new_io_manager
  new_hint_file dir = file_over 0 (new_io_manager os hint_index standard_fio true dir)

  unfoldable pub new_merge_fin_file : Dir → Result DataFile × Dir
  unfolding new_io_manager
  new_merge_fin_file dir = file_over 0 (new_io_manager os merge_finished standard_fio true dir)

  unfoldable pub new_seq_no_file : Dir → Result DataFile × Dir
  unfolding new_io_manager
  new_seq_no_file dir = file_over 0 (new_io_manager os seq_no_name standard_fio true dir)

  unfoldable pub sync_file : DataFile → Result (Unit {0})
  unfolding io_sync
  sync_file f = io_sync os f.io_manager

  abbrev advanced : DataFile → Result ℕ × Dir → Result ℕ × DataFile × Dir
  advanced f (ok n, dir) = (ok n, record f { write_off = add64 f.write_off n }, dir)
  advanced f (err e, dir) = (err e, f, dir)
  advanced f (panic, dir) = (panic, f, dir)
  advanced f (stuck, dir) = (stuck, f, dir)

  -- `write`: the offset grows by the bytes that were taken.
  unfoldable pub write : DataFile → Bytes → Dir → Result ℕ × DataFile × Dir
  unfolding io_write
  write f [] dir = (err key_is_empty, f, dir)
  write f (b ∷ buf) dir = advanced f (io_write os f.io_manager (b ∷ buf) dir)

  unfoldable pub set_io_manager : DataFile → IoType → Dir → Result DataFile × Dir
  unfolding new_io_manager
  set_io_manager f io_type dir =
      let (io, dir') = new_io_manager os (data_name f.file_id) io_type false dir in
      ((do m ← io; ok (record f { io_manager = m })), dir')

unfoldable pub file_size : DataFile → Dir → ℕ
unfolding io_size
file_size f dir = io_size f.io_manager dir

module _ (c : Codec) where
  open c use {get_u32}

  -- The part of `read_log_record` behind the two reads, on the bytes that they brought.
  unfoldable pub check_record : ℕ → ℕ → ℕ → ℕ → Bytes → Result ReadLogRecord
  check_record rec_type key_size value_size header_size kv_buf = do
    key ← or_err (get_range kv_buf 0 key_size) get_value_failed
    value ← or_err (get_range kv_buf key_size (sub64 (length kv_buf) 4)) get_value_failed
    tag ← from_u8 rec_type
    let log_record : LogRecord = record { key = key; value = value; rec_type = tag }
    crc_buf ← advance kv_buf (add64 key_size value_size)
    (crc, _) ← or_panic (get_u32 crc_buf)
    expected ← get_crc c log_record
    fail_if (if crc == expected then false else true) invalid_log_record_crc
    ok (record {
      record_read = log_record;
      size = add64 (add64 (add64 header_size key_size) value_size) 4;
    })

module _ (c : Codec) (os : Os) where
  open c use {decode_length_delimiter, length_delimiter_len}

  unfoldable pub read_log_record : DataFile → Dir → ℕ → Result ReadLogRecord
  unfolding check_record
  read_log_record f dir offset = do
    header ← io_read os f.io_manager dir (max_log_record_header_size c) offset
    (rec_type, buf) ← get_u8 header
    (key_size, buf') ← or_err (decode_length_delimiter buf) decode_error
    (value_size, _) ← or_err (decode_length_delimiter buf') decode_error
    fail_if (key_size == 0 && value_size == 0) read_data_file_eof
    let header_size = length_delimiter_len key_size + length_delimiter_len value_size + 1
    kv_buf ←
        io_read os f.io_manager dir (add64 (add64 key_size value_size) 4) (add64 offset header_size)
    check_record c rec_type key_size value_size header_size kv_buf

  abbrev ignore_count : Result ℕ × DataFile × Dir → Result (Unit {0}) × DataFile × Dir
  ignore_count (r, f, dir) = ((do n ← r; ok tt), f, dir)

  abbrev write_encoded : DataFile → Dir → Result Bytes → Result (Unit {0}) × DataFile × Dir
  write_encoded f dir (ok enc) = ignore_count (write os f enc dir)
  write_encoded f dir (err e) = (err e, f, dir)
  write_encoded f dir panic = (panic, f, dir)
  write_encoded f dir stuck = (stuck, f, dir)

  unfoldable pub write_hint_record :
      DataFile → Bytes → LogRecordPos → Dir → Result (Unit {0}) × DataFile × Dir
  write_hint_record f key pos dir =
      write_encoded f dir
        (encode c (record { key = key; value = encode_pos c pos; rec_type = normal }))
