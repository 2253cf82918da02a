-- ===== src/Samples/Records.antt =====
-- The theorems about records and data files, at concrete records.
use bitcask_rs.Base.{◌+◌, ◌<◌, ◌≡◌, refl, [], ◌∷◌, ◌++◌, length, arith}
use bitcask_rs.Errors.{ok, err, read_data_file_eof}
use bitcask_rs.Fs.{data_name, Dir, find, content, name_eq}
use bitcask_rs.Samples.{codec, calm, calm-IsHealthy}
use bitcask_rs.Samples.Leb.{leb_encode, be32}
use bitcask_rs.Data.LogRecord.{LogRecord, normal, encode_pos, decode_log_record_pos}
use bitcask_rs.Data.LogRecord.Encode.{Fits, record_bytes, decode-encode_pos}
use bitcask_rs.Data.DataFile.{read_log_record}
use bitcask_rs.Data.DataFile.Read.{read_log_record-record_bytes, read_log_record-end}
use bitcask_rs.Engine.Files.{fresh_file}

abbrev pub small_record : LogRecord
small_record = record { key = 0 ∷ b'k' ∷ []; value = b'v' ∷ []; rec_type = normal }

pub small_record-Fits : Fits small_record
small_record-Fits = record { key_fits = omega arith; value_fits = omega arith }

-- A file that holds two bytes of something else, the record, and one more byte.
abbrev one_file : Dir
one_file = (data_name 0, 7 ∷ 8 ∷ (record_bytes codec small_record ++ (9 ∷ []))) ∷ []

decode-encode_pos_example :
    decode_log_record_pos codec
      (encode_pos codec (record { file_id = 3; offset = 300; size = 70000 }))
    ≡ ok (record { file_id = 3; offset = 300; size = 70000 })
decode-encode_pos_example =
    decode-encode_pos codec (record { file_id = 3; offset = 300; size = 70000 }) (omega arith)
      (omega arith) (omega arith)

at_one_file :
    content (data_name 0) one_file ≡ (7 ∷ 8 ∷ []) ++ (record_bytes codec small_record ++ (9 ∷ []))
unfolding content find name_eq
at_one_file = refl

record_is_short : 2 + length (record_bytes codec small_record) < 18446744073709551616
unfolding record_bytes leb_encode be32
record_is_short = omega arith

read_log_record-record_bytes_example :
    read_log_record codec calm (fresh_file 0) one_file 2
    ≡ ok (record { record_read = small_record; size = length (record_bytes codec small_record) })
read_log_record-record_bytes_example =
    read_log_record-record_bytes codec calm calm-IsHealthy (fresh_file 0) one_file (data_name 0)
      refl small_record (7 ∷ 8 ∷ []) (9 ∷ []) 2 small_record-Fits (omega arith) at_one_file refl
      record_is_short

read_log_record-end_example :
    read_log_record codec calm (fresh_file 0) [] 0 ≡ err read_data_file_eof
unfolding content find
read_log_record-end_example =
    read_log_record-end codec calm calm-IsHealthy (fresh_file 0) [] (data_name 0) refl 0
      (omega arith)
