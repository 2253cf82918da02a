-- ===== src/Merge/Hint.antt =====
-- bitcask-rs/src/merge.rs: `load_index_from_hint_file`.
pub mod Replay
use bitcask_rs.Base.{ℕ, zero, suc, Option, none, some, Bytes, add64}
use bitcask_rs.Errors.{Result, ok, stuck, on_read, ◌>>=◌}
use bitcask_rs.Codec.{Codec}
use bitcask_rs.Fs.{Dir, Os, hint_index, find}
use bitcask_rs.Index.{Indexer}
use bitcask_rs.Data.LogRecord.{ReadLogRecord, decode_log_record_pos}
use bitcask_rs.Data.DataFile.{DataFile, new_hint_file, read_log_record}
use bitcask_rs.Engine.{Engine}

module _ {Ix : Type 0} (ix : Indexer Ix) (c : Codec) where
  -- One record of the hint file: its key goes into the index with the position in its value. The
  -- old position is dropped, so nothing is counted as reclaimable.
  unfoldable pub load_hint : ReadLogRecord → Ix → Result Ix
  load_hint r index = do
    pos ← decode_log_record_pos c r.record_read.value
    ok (ix.put r.record_read.key pos index).0

  module _ (os : Os) (dir : Dir) where
    -- The loop over the hint file, from an offset on.
    unfoldable pub load_hints : ℕ → DataFile → ℕ → Ix → Result Ix
    load_hints zero file offset index = stuck
    load_hints (suc fuel) file offset index =
        on_read (read_log_record c os file dir offset)
          (λ r. do index' ← load_hint r index; load_hints fuel file (add64 offset r.size) index')
          index

  module _ (os : Os) where
    abbrev hints_of : ℕ → Engine Ix → Option Bytes → Result (Engine Ix)
    hints_of fuel e none = ok e
    hints_of fuel e (some bs) = do
      file ← (new_hint_file os e.dir).0
      index ← load_hints os e.dir fuel file 0 e.index
      ok (record e { index = index })

    unfoldable pub load_index_from_hint_file : ℕ → Engine Ix → Result (Engine Ix)
    unfolding load_hints
    load_index_from_hint_file fuel e = hints_of fuel e (find hint_index e.dir)
