-- ===== src/Open/SeqNo.antt =====
-- bitcask-rs/src/db.rs: the file with the sequence number, which `close` writes and `open` takes.
use bitcask_rs.Base.{
  ℕ, Bool, true, false, not, if◌then◌else◌, Option, none, some, [], ◌∷◌, Bytes, u64_mod,
}
use bitcask_rs.Errors.{
  Result, ok, err, panic, stuck, fail_if, failed_to_unlock_file, or_panic, ◌>>=◌ as and_then,
}
use bitcask_rs.Exec.{Exec, pure, lift, gets, ◌>>=◌, ◌>>◌}
use bitcask_rs.Codec.{Codec}
use bitcask_rs.Decimal.{parse_uint, to_string}
use bitcask_rs.Disk.{DirAnswers}
use bitcask_rs.Fs.{Dir, Os, seq_no_name, find, remove_file}
use bitcask_rs.Data.LogRecord.{LogRecord, normal, encode}
use bitcask_rs.Data.DataFile.{DataFile, new_seq_no_file, write, sync_file, read_log_record}
use bitcask_rs.Engine.{Engine, sync_active}

-- `"seq.no"`
abbrev pub seq_no_key : Bytes
seq_no_key = b's' ∷ (b'e' ∷ (b'q' ∷ (b'.' ∷ (b'n' ∷ (b'o' ∷ [])))))

-- `expect`, and a `match` that panics on an error.
abbrev pub expect {ℓ} : {A : Type ℓ} → Result A → Result A
expect (ok x) = ok x
expect (err e) = panic
expect panic = panic
expect stuck = stuck

module _ (c : Codec) (os : Os) (a : DirAnswers) where
  -- The number in the file, which is then removed. A text that is no number is a panic.
  abbrev take_seq_no : Option Bytes → Dir → Result (Option ℕ) × Dir
  take_seq_no none d = (ok none, d)
  take_seq_no (some bs) d = (
    (and_then (expect (new_seq_no_file os d).0) λ file.
        and_then (expect (read_log_record c os file d 0)) λ r.
          and_then (or_panic (parse_uint u64_mod r.record_read.value))
            λ n. if a.remove_file_ok then ok (some n) else panic),
    remove_file seq_no_name d,
  )

  unfoldable pub load_seq_no : Dir → Result (Option ℕ) × Dir
  load_seq_no d = take_seq_no (find seq_no_name d) d

  abbrev pub seq_no_record : ℕ → LogRecord
  seq_no_record n = record { key = seq_no_key; value = to_string n; rec_type = normal }

  module _ {Ix : Type 0} where
    abbrev new_seq_file : Exec (Engine Ix) DataFile
    new_seq_file e = let (r, d) = new_seq_no_file os e.dir in (r, record e { dir = d })

    abbrev write_seq_file : DataFile → Bytes → Exec (Engine Ix) ℕ
    write_seq_file f buf e = let (r, f', d) = write os f buf e.dir in (r, record e { dir = d })

    -- `close`, by whether the data directory is there.
    unfoldable pub close : Bool → Exec (Engine Ix) Unit
    close false = pure tt
    close true = do
      seq_no_file ← new_seq_file
      seq_no ← gets (λ e. e.seq_no)
      buf ← lift (encode c (seq_no_record seq_no))
      write_seq_file seq_no_file buf
      lift (sync_file os seq_no_file)
      sync_active os
      lift (fail_if (not a.unlock_ok) failed_to_unlock_file)
