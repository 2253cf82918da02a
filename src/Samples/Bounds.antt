-- ===== src/Samples/Bounds.antt =====
-- The theorem about the size of the active file, at an engine whose files are small.
use bitcask_rs.Base.{◌<◌, ◌≡◌, refl, length, arith}
use bitcask_rs.Errors.{ok}
use bitcask_rs.Fs.{find, content}
use bitcask_rs.Map.{lookup}
use bitcask_rs.Index.BTree.{BTree}
use bitcask_rs.Samples.{codec, calm, calm-IsHealthy}
use bitcask_rs.Samples.Leb.{leb_encode, be32}
use bitcask_rs.Samples.Engines.{empty_engine, a_key, a_value, put-Fits}
use bitcask_rs.Data.LogRecord.{LogRecordPos}
use bitcask_rs.Data.LogRecord.Encode.{record_bytes}
use bitcask_rs.Engine.{Engine, append_log_record}
use bitcask_rs.Engine.Files.{HasFiles}
use bitcask_rs.Engine.Append.{HasRoom}
use bitcask_rs.Engine.Bounds.{IsWithinSize, append_log_record-bounds}
use bitcask_rs.Engine.Refine.{put_record}

abbrev small_engine : Engine BTree
small_engine = record empty_engine {
  options = record (empty_engine.options) { data_file_size = 4; bytes_per_sync = 8 };
}

small_engine-HasFiles : HasFiles small_engine
unfolding content find lookup
small_engine-HasFiles = record {
  active_standard = refl;
  older_standard = λ id f found. cc;
  at_end = refl;
  fresh = λ id later. refl;
}

small-HasRoom : HasRoom small_engine (length (record_bytes codec (put_record a_key a_value)))
unfolding record_bytes leb_encode be32
small-HasRoom = record { ids = omega arith; bytes = omega arith }

append_log_record-bounds_example :
    (pos : LogRecordPos) × (e' : Engine BTree) × (append_log_record codec calm
        (put_record a_key a_value)
        small_engine
      ≡ (ok pos, e'))
    × IsWithinSize (record_bytes codec (put_record a_key a_value)) e'
    × (e'.bytes_write < 8)
append_log_record-bounds_example =
    append_log_record-bounds codec calm calm-IsHealthy (put_record a_key a_value) small_engine
      put-Fits small_engine-HasFiles small-HasRoom (omega arith)
