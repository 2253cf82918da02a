-- ===== src/Merge/Run.antt =====
-- bitcask-rs/src/merge.rs: `merge`, which writes the live records of the closed data files to an
-- engine in the merge directory, with a hint file and a mark that it is finished.
use bitcask_rs.Base.{
  ℕ, zero, suc, ◌==◌, leb, Bool, true, false, not, ◌&&◌, if◌then◌else◌, Option, none, some, List,
  [], ◌∷◌, Bytes, add64, sub64,
}
use bitcask_rs.Errors.{
  Result, ok, err, panic, stuck, is_eof, fail_if, merge_in_progress, invalid_merge_ratio,
  merge_no_enough_space, failed_to_read_database_dir, failed_to_delete_database_dir,
  failed_to_create_database_dir, failed_to_get_merge_file,
}
use bitcask_rs.Exec.{Exec, pure, fail, lift, gets, ◌>>=◌, ◌>>◌}
use bitcask_rs.Codec.{Codec}
use bitcask_rs.Decimal.{to_string}
use bitcask_rs.Disk.{DirAnswers, or_nothing}
use bitcask_rs.Options.{Options, default_options}
use bitcask_rs.Fs.{Dir, Os}
use bitcask_rs.Keys.{log_record_key_with_seq, parse_log_record_key, non_transaction_seq_no}
use bitcask_rs.Index.{Indexer}
use bitcask_rs.Index.BTree.{BTree, btree_indexer}
use bitcask_rs.Data.LogRecord.{LogRecord, LogRecordPos, ReadLogRecord, normal, encode}
use bitcask_rs.Data.DataFile.{
  DataFile, new_hint_file, new_merge_fin_file, read_log_record, write, write_hint_record, sync_file,
}
use bitcask_rs.Engine.{Engine, next_id, sync_active, append_log_record}
use bitcask_rs.Open.{open_engine}
use bitcask_rs.Open.SeqNo.{close}
use bitcask_rs.Merge.Rotate.{ratate_merge_files, is_empty_engine}

-- The engine for the merged data, which has the BTree index of the default options, and the hint
-- file in its directory.
pub record Merging : Type 0 where
  pub merge_db : Engine BTree
  pub hint_file : DataFile

-- The engine that is merged, and the merge directory.
pub record MergeState (Ix : Type 0) : Type 0 where
  pub engine : Engine Ix
  pub merge_dir : Option Dir

-- What a merge asks of its surroundings: whether another merge runs, the sizes of the data directory
-- and of the free disk, the comparison of a quotient of `f32` with the ratio, and the path of the
-- merge directory with the directory that an earlier merge of it would have left.
pub record MergeAnswers : Type 0 where
  pub merging : Bool
  pub total_size : ℕ
  pub available_size : ℕ
  pub below_ratio : ℕ → ℕ → ℕ → Bool
  pub merge_path : Option Bytes
  pub nested_dir : Option Dir

-- `"merge.finished"`
abbrev pub merge_fin_key : Bytes
merge_fin_key =
    b'm'
    ∷ (b'e'
        ∷ (b'r'
            ∷ (b'g'
                ∷ (b'e'
                    ∷ (b'.'
                        ∷ (b'f'
                            ∷ (b'i'
                                ∷ (b'n' ∷ (b'i' ∷ (b's' ∷ (b'h' ∷ (b'e' ∷ (b'd' ∷ [])))))))))))))

-- Whether the index points to just this place.
abbrev pub is_at : Option LogRecordPos → ℕ → ℕ → Bool
is_at none file_id offset = false
is_at (some p) file_id offset = p.file_id == file_id && p.offset == offset

module _ (c : Codec) (os : Os) where
  abbrev in_merge_db : {A : Type 0} → Exec (Engine BTree) A → Exec Merging A
  in_merge_db m st = let (r, db) = m st.merge_db in (r, record st { merge_db = db })

  abbrev pub write_hint : Bytes → LogRecordPos → Exec Merging Unit
  write_hint key pos st =
      let (r, f, dir) = write_hint_record c os st.hint_file key pos st.merge_db.dir in
      (r, record { hint_file = f; merge_db = record (st.merge_db) { dir = dir } })

  -- A live record goes to the merged data outside of transactions, and its new position to the
  -- hint file.
  unfoldable pub keep_record : Bytes → LogRecord → Exec Merging Unit
  keep_record real_key r = do
    enc_key ← lift (log_record_key_with_seq c real_key non_transaction_seq_no)
    pos ← in_merge_db (append_log_record c os (record r { key = enc_key }))
    write_hint real_key pos

  abbrev keep_if : Bool → Bytes → LogRecord → Exec Merging Unit
  keep_if true real_key r = keep_record real_key r
  keep_if false real_key r = pure tt

  -- The end of the file ends the loop.
  abbrev on_record : Result ReadLogRecord → (ReadLogRecord → Exec Merging Unit) → Exec Merging Unit
  on_record (ok r) k = k r
  on_record (err e) k = if is_eof e then pure tt else fail e
  on_record panic k = lift panic
  on_record stuck k = lift stuck

  module _ {Ix : Type 0} (ix : Indexer Ix) (e : Engine Ix) where
    unfoldable pub merge_record : ℕ → ℕ → LogRecord → Exec Merging Unit
    unfolding keep_record
    merge_record file_id offset r = do
      parsed ← lift (parse_log_record_key c r.key)
      keep_if (is_at (ix.get parsed.0 e.index) file_id offset) parsed.0 r

    -- The loop over one file, from an offset on.
    unfoldable pub merge_file : ℕ → DataFile → ℕ → Exec Merging Unit
    unfolding merge_record
    merge_file zero f offset = lift stuck
    merge_file (suc fuel) f offset =
        on_record (read_log_record c os f e.dir offset) λ r. do
          merge_record f.file_id offset r.record_read
          merge_file fuel f (add64 offset r.size)

    unfoldable pub merge_all : ℕ → List DataFile → Exec Merging Unit
    unfolding merge_file
    merge_all fuel [] = pure tt
    merge_all fuel (f ∷ fs) = do merge_file fuel f 0; merge_all fuel fs

  -- The rewriting with the syncs behind it.
  abbrev merge_synced :
      {Ix : Type 0} → Indexer Ix → ℕ → List DataFile → Engine Ix → Exec Merging Unit
  merge_synced ix fuel files e = do
    merge_all ix e fuel files
    in_merge_db (sync_active os)
    hint_file ← gets (λ st. st.hint_file)
    lift (sync_file os hint_file)

-- The id behind the last file of a merge.
abbrev pub non_merge_file_id : List DataFile → Result ℕ
non_merge_file_id [] = err failed_to_get_merge_file
non_merge_file_id (f ∷ []) = ok (next_id f.file_id)
non_merge_file_id (f ∷ (g ∷ fs)) = non_merge_file_id (g ∷ fs)

module _ {Ix : Type 0} (ix : Indexer Ix) (c : Codec) (os : Os) (a : DirAnswers) (m : MergeAnswers)
    (fuel : ℕ) where
  abbrev in_engine : {A : Type 0} → Exec (Engine Ix) A → Exec (MergeState Ix) A
  in_engine step s = let (r, e) = step s.engine in (r, record s { engine = e })

  abbrev in_merge_dir : {A : Type 0} → Exec Dir A → Exec (MergeState Ix) A
  in_merge_dir step s =
      let (r, d) = step (or_nothing s.merge_dir) in (r, record s { merge_dir = some d })

  -- An old merge directory goes, and an empty one comes.
  abbrev clear_merge_dir : Option Dir → Exec (MergeState Ix) Unit
  clear_merge_dir none s = (ok tt, s)
  clear_merge_dir (some d) s =
      if a.remove_dir_ok
      then (ok tt, record s { merge_dir = none })
      else (err failed_to_delete_database_dir, s)

  abbrev create_merge_dir : Exec (MergeState Ix) Unit
  create_merge_dir s =
      if a.create_dir_ok
      then (ok tt, record s { merge_dir = some [] })
      else (err failed_to_create_database_dir, s)

  abbrev pub merge_db_opts : Options → Options
  merge_db_opts opts = record (default_options m.merge_path) {
    data_file_size = opts.data_file_size;
    mmap_at_startup = false;
  }

  abbrev open_merge_db : Exec (MergeState Ix) (Engine BTree)
  open_merge_db s =
      let (r, d) =
        open_engine btree_indexer [] c os a fuel (merge_db_opts s.engine.options)
          (record { dir = s.merge_dir; merge_dir = m.nested_dir }) in
      (r, record s { merge_dir = d.dir })

  -- However the rewriting ends, dropping the merge engine closes it.
  abbrev rewrite : List DataFile → DataFile → Engine BTree → Exec (MergeState Ix) Unit
  rewrite files hint_file merge_db s =
      let (r, st) =
        merge_synced c os ix fuel files s.engine
          (record { merge_db = merge_db; hint_file = hint_file }) in
      let (closed, db) = close c os a true st.merge_db in (r, record s { merge_dir = some db.dir })

  abbrev pub merge_fin_record : ℕ → LogRecord
  merge_fin_record id = record { key = merge_fin_key; value = to_string id; rec_type = normal }

  abbrev write_in_merge_dir : DataFile → Bytes → Exec Dir ℕ
  write_in_merge_dir f buf d = let (r, f', d') = write os f buf d in (r, d')

  abbrev finish_merge : ℕ → Exec (MergeState Ix) Unit
  finish_merge id = do
    merge_fin_file ← in_merge_dir (new_merge_fin_file os)
    enc_record ← lift (encode c (merge_fin_record id))
    in_merge_dir (write_in_merge_dir merge_fin_file enc_record)
    lift (sync_file os merge_fin_file)

  abbrev merge_data : Exec (MergeState Ix) Unit
  merge_data = do
    lift (fail_if m.merging merge_in_progress)
    reclaim_size ← gets (λ s. s.engine.reclaim_size)
    opts ← gets (λ s. s.engine.options)
    lift (
        fail_if (m.below_ratio reclaim_size m.total_size opts.data_file_merge_ratio)
          invalid_merge_ratio)
    lift (fail_if (leb m.available_size (sub64 m.total_size reclaim_size)) merge_no_enough_space)
    lift (fail_if (not a.has_parent) failed_to_read_database_dir)
    old_dir ← gets (λ s. s.merge_dir)
    clear_merge_dir old_dir
    create_merge_dir
    merge_files ← in_engine (ratate_merge_files os)
    hint_file ← in_merge_dir (new_hint_file os)
    merge_db ← open_merge_db
    rewrite merge_files hint_file merge_db
    id ← lift (non_merge_file_id merge_files)
    finish_merge id

  abbrev merge_unless : Bool → Exec (MergeState Ix) Unit
  merge_unless true = pure tt
  merge_unless false = merge_data

  unfoldable pub merge : Exec (MergeState Ix) Unit
  unfolding merge_all ratate_merge_files open_engine close
  merge = do empty ← gets (λ s. is_empty_engine s.engine); merge_unless empty
