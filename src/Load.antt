-- ===== src/Load.antt =====
-- bitcask-rs/src/db.rs: `load_index_from_data_files` and `update_index`, which rebuild the index
-- and the sequence number from the data files when an engine is opened.
pub mod File
pub mod Meaning
pub mod Points
pub mod Recover
pub mod Files
pub mod Deletion
pub mod Numbers
pub mod Transactions
use bitcask_rs.Base.{
  ℕ, zero, suc, ◌+◌, ◌==◌, ltb, Bool, true, false, if◌then◌else◌, Option, none, some, List, [], ◌∷◌,
  ◌++◌, Bytes, as_u32, add64, u32_mod,
}
use bitcask_rs.Errors.{
  is_eof, Result, ok, err, panic, stuck, file_not_found, parse_error, or_err, on_read, ◌>>=◌,
}
use bitcask_rs.Codec.{Codec}
use bitcask_rs.Decimal.{parse_uint}
use bitcask_rs.Fs.{Os, find, merge_finished}
use bitcask_rs.Map.{Map, lookup, insert, remove}
use bitcask_rs.Keys.{parse_log_record_key, non_transaction_seq_no}
use bitcask_rs.Index.{Indexer}
use bitcask_rs.Data.LogRecord.{
  LogRecord, LogRecordPos, LogRecordType, normal, delete, txn_finished, ReadLogRecord,
  TransactionRecord, is_txn_finished,
}
use bitcask_rs.Data.DataFile.{DataFile, new_merge_fin_file, read_log_record}
use bitcask_rs.Engine.{Engine, file_for}

-- What the loop over the files changes: the index, the space that can be reclaimed, the records
-- of transactions that have not finished, and the largest sequence number.
pub record Loading (Ix : Type 0) : Type 0 where
  pub index : Ix
  pub reclaim_size : ℕ
  pub transaction_records : Map (List TransactionRecord)
  pub current_seq_no : ℕ

abbrev size_or_zero : Option LogRecordPos → ℕ
size_or_zero none = 0
size_or_zero (some p) = p.size

abbrev pub or_nil {ℓ} : {A : Type ℓ} → Option (List A) → List A
or_nil none = []
or_nil (some xs) = xs

-- `has_merge && *file_id < non_merge_fid`
abbrev pub is_skipped : Option ℕ → ℕ → Bool
is_skipped none file_id = false
is_skipped (some non_merge_fid) file_id = ltb file_id non_merge_fid

-- `i == self.file_ids.len() - 1`: the offset of this file counts if none follows.
abbrev pub last_offset : List ℕ → ℕ → Option ℕ → Option ℕ
last_offset [] offset end = some offset
last_offset (id ∷ ids) offset end = end

abbrev pub set_end : Option ℕ → DataFile → DataFile
set_end none f = f
set_end (some offset) f = record f { write_off = offset }

abbrev pub no_ids : List ℕ → Bool
no_ids [] = true
no_ids (id ∷ ids) = false

module _ {Ix : Type 0} (ix : Indexer Ix) where
  unfoldable pub update_index : Bytes → LogRecordType → LogRecordPos → Loading Ix → Loading Ix
  update_index key normal pos st =
      let (index, old) = ix.put key pos st.index in
      record st { index = index; reclaim_size = add64 st.reclaim_size (size_or_zero old) }
  update_index key delete pos st =
      let (index, old) = ix.delete key st.index in
      record st {
        index = index;
        reclaim_size = add64 st.reclaim_size (as_u32 (pos.size + size_or_zero old));
      }
  update_index key txn_finished pos st = st

  -- `for txn_record in records.iter()`
  unfoldable pub update_all : List TransactionRecord → Loading Ix → Loading Ix
  unfolding update_index
  update_all [] st = st
  update_all (t ∷ ts) st =
      update_all ts (update_index t.record_held.key t.record_held.rec_type t.pos st)

  -- The mark that a transaction has finished: its records take effect.
  abbrev pub finish : ℕ → Option (List TransactionRecord) → Loading Ix → Loading Ix
  finish seq_no none st = st
  finish seq_no (some records) st =
      let st' = update_all records st in
      record st' { transaction_records = remove seq_no st'.transaction_records }

  -- `entry(seq_no).or_default().push(…)`
  abbrev pub hold : ℕ → TransactionRecord → Loading Ix → Loading Ix
  hold seq_no t st = record st {
    transaction_records =
        insert seq_no (or_nil (lookup seq_no st.transaction_records) ++ (t ∷ []))
          st.transaction_records;
  }

  abbrev pub raise_seq : ℕ → Loading Ix → Loading Ix
  raise_seq seq_no st = record st {
    current_seq_no = if ltb st.current_seq_no seq_no then seq_no else st.current_seq_no;
  }

  -- One record, whose key was parsed.
  unfoldable pub load_parsed : LogRecord → Bytes → ℕ → LogRecordPos → Loading Ix → Loading Ix
  unfolding update_index update_all
  load_parsed log_record real_key seq_no pos st = raise_seq seq_no (
      if seq_no == non_transaction_seq_no
      then update_index real_key log_record.rec_type pos st
      else if is_txn_finished log_record.rec_type
      then finish seq_no (lookup seq_no st.transaction_records) st
      else hold seq_no (record { record_held = record log_record { key = real_key }; pos = pos })
          st)

  module _ (c : Codec) where
    unfoldable pub load_record : ℕ → ℕ → ReadLogRecord → Loading Ix → Result (Loading Ix)
    unfolding load_parsed
    load_record file_id offset r st = do
      (real_key, seq_no) ← parse_log_record_key c r.record_read.key
      ok (
          load_parsed r.record_read real_key seq_no
            (record { file_id = file_id; offset = offset; size = as_u32 r.size }) st)

    module _ (os : Os) (e : Engine Ix) where
      abbrev pub read_in : Option DataFile → ℕ → Result ReadLogRecord
      read_in none offset = err file_not_found
      read_in (some f) offset = read_log_record c os f e.dir offset

      -- The inner `loop` over one file, from an offset on; it also returns where it ended.
      unfoldable pub load_file : ℕ → ℕ → ℕ → Loading Ix → Result (Loading Ix × ℕ)
      load_file zero file_id offset st = stuck
      load_file (suc fuel) file_id offset st =
          on_read (read_in (file_for e file_id) offset)
            (λ r. do
              st' ← load_record file_id offset r st
              load_file fuel file_id (add64 offset r.size) st')
            (st, offset)

      -- The outer loop. Files with an id below `skip` are left to the hint file. The offset is
      -- where the last file ended.
      unfoldable pub load_files :
          ℕ → Option ℕ → List ℕ → Loading Ix → Result (Loading Ix × Option ℕ)
      unfolding load_file
      load_files fuel skip [] st = ok (st, none)
      load_files fuel skip (file_id ∷ ids) st = elim (is_skipped skip file_id) [
        | true ↦ load_files fuel skip ids st
        | false ↦ (do
          (st', offset) ← load_file fuel file_id 0 st
          (st'', end) ← load_files fuel skip ids st'
          ok (st'', last_offset ids offset end))
      ]

      -- The id of the first file that took no part in the last merge, if there was one.
      unfoldable pub read_non_merge_fid : Option Bytes → Result (Option ℕ)
      read_non_merge_fid none = ok none
      read_non_merge_fid (some bs) = do
        merge_fin_file ← (new_merge_fin_file os e.dir).0
        r ← read_log_record c os merge_fin_file e.dir 0
        non_merge_fid ← or_err (parse_uint u32_mod r.record_read.value) parse_error
        ok (some non_merge_fid)

      -- The engine with what the loops found.
      abbrev pub loaded : Loading Ix → Option ℕ → Engine Ix
      loaded st end = record e {
        index = st.index;
        reclaim_size = st.reclaim_size;
        active_file = set_end end e.active_file;
      }

      unfoldable pub load_index_from_data_files : ℕ → Result (Engine Ix × ℕ)
      unfolding load_files read_non_merge_fid
      load_index_from_data_files fuel =
          if no_ids e.file_ids then ok (e, non_transaction_seq_no) else do
            skip ← read_non_merge_fid (find merge_finished e.dir)
            (st, end) ← load_files fuel skip e.file_ids (record {
              index = e.index;
              reclaim_size = e.reclaim_size;
              transaction_records = [];
              current_seq_no = non_transaction_seq_no;
            })
            ok (loaded st end, st.current_seq_no)
