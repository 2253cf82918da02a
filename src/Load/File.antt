-- ===== src/Load/File.antt =====
-- Loading a file that holds encoded records: the loop treats the records one by one and stops at
-- the end of the file.
use bitcask_rs.Base.{
  ℕ, zero, suc, ◌+◌, ◌<◌, ◌≤◌, ◌≡◌, sym, ap, ◌∙◌, some, List, [], ◌∷◌, ◌++◌, append_assoc,
  append-nil, Bytes, length, length-append, All, u64_mod, arith,
}
use bitcask_rs.Errors.{is_eof, Result, ok, ◌>>=◌, >>=_congr, >>=_assoc}
use bitcask_rs.Codec.{Codec}
use bitcask_rs.Fs.{FileName, Os, IsHealthy, content}
use bitcask_rs.Fio.{file_io}
use bitcask_rs.Index.{Indexer}
use bitcask_rs.Data.LogRecord.{LogRecord}
use bitcask_rs.Data.LogRecord.Encode.{Fits, record_bytes}
use bitcask_rs.Data.DataFile.{DataFile}
use bitcask_rs.Data.DataFile.Read.{IsNonEmpty, read_log_record-record_bytes, read_log_record-end}
use bitcask_rs.Engine.{Engine, file_for}
use bitcask_rs.Load.{Loading, load_record, load_file}

-- A log whose records have the documented sizes.
abbrev pub IsLog : List LogRecord → Type 0
IsLog = All (λ r. Fits r × IsNonEmpty r)

module _ (c : Codec) where
  -- The bytes of a log.
  abbrev pub log_bytes : List LogRecord → Bytes
  log_bytes [] = []
  log_bytes (r ∷ rs) = record_bytes c r ++ log_bytes rs

module _ {Ix : Type 0} (ix : Indexer Ix) (c : Codec) where
  -- The records of a log, treated in turn as `load_record` treats one.
  unfoldable pub replay : ℕ → ℕ → List LogRecord → Loading Ix → Result (Loading Ix)
  replay id offset [] st = ok st
  replay id offset (r ∷ rs) st = do
    st' ←
        load_record ix c id offset (record { record_read = r; size = length (record_bytes c r) }) st
    replay id (offset + length (record_bytes c r)) rs st'

  module _ (os : Os) (healthy : IsHealthy os) (e : Engine Ix) (id : ℕ) (f : DataFile)
      (name : FileName) (known : file_for e id ≡ some f)
      (standard : f.io_manager ≡ file_io name) where
    -- With a working operating system, on a file that the engine has under the id and reads through
    -- the standard manager, that holds a log of records that are not empty and have 32-bit lengths from
    -- the offset on up to its end, below 2^64: with one more round of fuel than records, the loop
    -- replays the records in order and ends behind the log.
    pub load_file-log :
        (rs : List LogRecord) (fuel offset : ℕ) (before : Bytes) (st : Loading Ix)
        → IsLog rs
        → length rs < fuel
        → content name e.dir ≡ before ++ log_bytes c rs
        → offset ≡ length before
        → offset + length (log_bytes c rs) < u64_mod
        → load_file ix c os e fuel id offset st
          ≡ (replay id offset rs st >>= λ st'. ok (st', offset + length (log_bytes c rs)))
    unfolding load_file replay
    load_file-log rs zero offset before st log enough at_file at_offset bound = absurd (omega arith)
    load_file-log [] (suc fuel) offset before st log enough at_file at_offset bound =
        rw (known, read_log_record-end c os healthy f e.dir name standard offset ended)
          (unfold is_eof in ap (λ n. ok (st, n)) (omega arith))
      where
        ended : length (content name e.dir) ≤ offset
        ended = rw (at_file, append-nil) (omega arith)
    load_file-log (r ∷ rs) (suc fuel) offset before st ((fits, full), log) enough at_file at_offset
          bound =
        rw
          (
            known,
            read_log_record-record_bytes c os healthy f e.dir name standard r before
                (log_bytes c rs) offset fits full at_file at_offset here,
          )
          (>>=_congr (load_record ix c id offset (record { record_read = r; size = n }) st) (λ st'.
              ap (λ o. load_file ix c os e fuel id o st') (omega (arith, here))
              ∙ load_file-log rs fuel (offset + n) (before ++ record_bytes c r) st' log
                  (omega arith)
                  (at_file ∙ sym (append_assoc before (record_bytes c r) (log_bytes c rs)))
                  (omega (arith, length-append before (record_bytes c r))) (omega (arith, lens))
              ∙ >>=_congr (replay id (offset + n) rs st')
                  (λ st''. ap (λ m. ok (st'', m)) (omega (arith, lens))))
            ∙ sym (
                >>=_assoc (load_record ix c id offset (record { record_read = r; size = n }) st)
                  (replay id (offset + n) rs) _))
      where
        n : ℕ
        n = length (record_bytes c r)

        lens : length (record_bytes c r ++ log_bytes c rs) ≡ n + length (log_bytes c rs)
        lens = length-append (record_bytes c r) (log_bytes c rs)

        here : offset + n < u64_mod
        here = omega (arith, lens)
