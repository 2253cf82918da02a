-- ===== src/Open.antt =====
-- bitcask-rs/src/db.rs: `Engine::open`. The locks around the fields take no part in it, since no
-- one else has the engine yet.
pub mod DataFiles
pub mod SeqNo
pub mod Sorting
pub mod Listing
pub mod Closing
use bitcask_rs.Base.{
  ℕ, ◌+◌, ltb, Bool, true, false, not, ◌||◌, if◌then◌else◌, Option, none, some, List, [], ◌∷◌,
  add64,
}
use bitcask_rs.Errors.{
  Result, ok, err, panic, stuck, fail_if, failed_to_create_database_dir, database_is_using,
  failed_to_read_database_dir, ◌>>=◌ as and_then,
}
use bitcask_rs.Exec.{Exec, continue, pure, fail, lift, gets, modify, ◌>>=◌, ◌>>◌}
use bitcask_rs.Codec.{Codec}
use bitcask_rs.Map.{Map, insert}
use bitcask_rs.Disk.{Disk, DirAnswers, or_nothing}
use bitcask_rs.Options.{Options, IndexType, b_tree, skip_list, b_plus_tree, check_options}
use bitcask_rs.Fs.{Dir, Os, flock, truncate_file}
use bitcask_rs.Fio.{standard_fio}
use bitcask_rs.Index.{Indexer}
use bitcask_rs.Data.DataFile.{DataFile, new, set_io_manager, file_size}
use bitcask_rs.Engine.{Engine}
use bitcask_rs.Load.{load_index_from_data_files}
use bitcask_rs.Merge.Adopt.{load_merge_files}
use bitcask_rs.Merge.Hint.{load_index_from_hint_file}
use bitcask_rs.Open.DataFiles.{load_data_files}
use bitcask_rs.Open.SeqNo.{load_seq_no}

-- A step that works on the files of the data directory.
abbrev pub in_dir : {A : Type 0} → Exec Dir A → Exec Disk A
in_dir m s = let (r, d) = m (or_nothing s.dir) in (r, record s { dir = some d })

abbrev pub no_entries : Dir → Bool
no_entries [] = true
no_entries (f ∷ d) = false

abbrev pub is_bptree : IndexType → Bool
is_bptree b_plus_tree = true
is_bptree b_tree = false
is_bptree skip_list = false

abbrev pub file_ids_of : List DataFile → List ℕ
file_ids_of [] = []
file_ids_of (f ∷ fs) = f.file_id ∷ file_ids_of fs

-- The `while` loop that pops files off the end until one is left, which is the first.
unfoldable pub pop_older : List DataFile → Map DataFile
pop_older [] = []
pop_older (f ∷ fs) = insert f.file_id f (pop_older fs)

abbrev pub older_of : List DataFile → Map DataFile
older_of [] = []
older_of (f ∷ fs) = pop_older fs

module _ (a : DirAnswers) where
  -- Creates the directory if it is not there, and answers whether it did.
  abbrev pub ensure_dir : Option Dir → Exec Disk Bool
  ensure_dir (some d) s = (ok false, s)
  ensure_dir none s =
      if a.create_dir_ok
      then (ok true, record s { dir = some [] })
      else (err failed_to_create_database_dir, s)

  abbrev pub take_lock : Exec Disk Unit
  take_lock = do
    lift (fail_if (not a.lock_file_ok) failed_to_create_database_dir)
    modify (λ s. record s { dir = some (truncate_file flock (or_nothing s.dir)) })
    lift (fail_if (not a.lock_free) database_is_using)

module _ (os : Os) where
  -- The active file is the one that is left of the data files; without one, file 0 is created.
  abbrev pub take_active : List DataFile → Exec Disk DataFile
  take_active [] = in_dir (new os 0 standard_fio)
  take_active (f ∷ fs) = pure f

  unfoldable pub reset_files : Map DataFile → Exec Dir (Map DataFile)
  reset_files [] = pure []
  reset_files ((id, f) ∷ fs) = do
    f' ← set_io_manager os f standard_fio
    fs' ← reset_files fs
    pure ((id, f') ∷ fs')

  -- `reset_io_type`, on the engine's own directory.
  unfoldable pub reset_io_type : {Ix : Type 0} → Engine Ix → Result (Engine Ix)
  unfolding reset_files
  reset_io_type e =
      let (active, d) = set_io_manager os e.active_file standard_fio e.dir in
      let (older, d') = reset_files e.older_files d in
      and_then active
        λ f. and_then older λ fs. ok (record e { active_file = f; older_files = fs; dir = d' })

abbrev reset_if : {Ix : Type 0} → Os → Bool → Engine Ix → Result (Engine Ix)
reset_if os true e = reset_io_type os e
reset_if os false e = ok e

module _ {Ix : Type 0} (ix : Indexer Ix) (new_index : Ix) (c : Codec) (os : Os) (a : DirAnswers)
    (fuel : ℕ) where
  -- The engine before its index is loaded.
  abbrev pub new_engine : Options → Bool → DataFile → List DataFile → Dir → Engine Ix
  new_engine opts is_initial active_file data_files dir = record {
    options = opts;
    dir = dir;
    active_file = active_file;
    older_files = older_of data_files;
    index = new_index;
    file_ids = file_ids_of data_files;
    seq_no = 1;
    seq_file_exists = false;
    is_initial = is_initial;
    bytes_write = 0;
    reclaim_size = 0;
  }

  abbrev pub raise_seq_no : ℕ → Engine Ix → Engine Ix
  raise_seq_no n e = if ltb 0 n then record e { seq_no = add64 n 1 } else e

  -- Without the B+ tree the index comes from the hint file and the data files.
  unfoldable pub load_memory_index : Engine Ix → Result (Engine Ix)
  unfolding load_index_from_hint_file load_index_from_data_files reset_io_type
  load_memory_index e0 = and_then (load_index_from_hint_file ix c os fuel e0) λ e1.
      and_then (load_index_from_data_files ix c os e1 fuel)
        λ loaded. reset_if os loaded.0.options.mmap_at_startup (raise_seq_no loaded.1 loaded.0)

  abbrev pub with_seq_no : Option ℕ → Engine Ix → Engine Ix
  with_seq_no none e = e
  with_seq_no (some n) e = record e { seq_no = n; seq_file_exists = true }

  abbrev at_file_end : Engine Ix → Engine Ix
  at_file_end e = record e {
    active_file = record (e.active_file) { write_off = file_size e.active_file e.dir };
  }

  -- With the B+ tree the index is on disk, and the sequence number is in a file of its own.
  unfoldable pub load_disk_index : Engine Ix → Result (Engine Ix)
  unfolding load_seq_no
  load_disk_index e =
      let (r, d) = load_seq_no c os a e.dir in
      and_then r λ seq_no. ok (at_file_end (with_seq_no seq_no (record e { dir = d })))

  abbrev pub load_index : Bool → Engine Ix → Result (Engine Ix)
  load_index true e = load_disk_index e
  load_index false e = load_memory_index e

  -- The engine takes the directory with it.
  unfoldable pub open_engine : Options → Exec Disk (Engine Ix)
  unfolding load_merge_files load_data_files load_memory_index load_disk_index
  open_engine opts = do
    lift (check_options opts)
    dir0 ← gets (λ s. s.dir)
    created ← ensure_dir a dir0
    take_lock a
    lift (fail_if (not a.read_dir_ok) failed_to_read_database_dir)
    no_files ← gets (λ s. no_entries (or_nothing s.dir))
    load_merge_files a c os
    data_files ← in_dir (load_data_files a os opts.mmap_at_startup)
    active_file ← take_active os data_files
    dir ← gets (λ s. or_nothing s.dir)
    lift (
        load_index (is_bptree opts.index_type)
          (new_engine opts (created || no_files) active_file data_files dir))
