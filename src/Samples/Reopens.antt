-- ===== src/Samples/Reopens.antt =====
-- The theorems about opening an engine again, at an engine with two data files.
use bitcask_rs.Base.{
  ℕ, ◌+◌, ◌<◌, ◌==◌, ◌≡◌, refl, true, false, if◌then◌else◌, none, some, [], ◌∷◌, ◌∙◌, Bool-cases,
  inl, inr, none-ne-some, some-inj, subst, Bytes, length, bytes_eq, arith,
}
use bitcask_rs.Errors.{ok}
use bitcask_rs.Fs.{data_name, hint_index, Dir, name_eq, find, content}
use bitcask_rs.Map.{lookup}
use bitcask_rs.Disk.{Disk, DirAnswers, AllGranted}
use bitcask_rs.Options.{Options, check_options}
use bitcask_rs.Index.BTree.{BTree, btree_indexer, get as tree_get}
use bitcask_rs.Samples.{codec, calm, calm-IsHealthy}
use bitcask_rs.Samples.Leb.{leb_encode, leb_decode, be32}
use bitcask_rs.Samples.Engines.{empty_engine, a_key, a_value, put-Fits, delete-Fits}
use bitcask_rs.Samples.Loads.{one_log, view_after, one_log-IsLog, one_log_short, one_view}
use bitcask_rs.Data.LogRecord.{LogRecordPos}
use bitcask_rs.Data.LogRecord.Encode.{record_bytes}
use bitcask_rs.Engine.{Engine, delete_key, file_for}
use bitcask_rs.Engine.Files.{HasFiles, fresh_file}
use bitcask_rs.Engine.Append.{HasRoom}
use bitcask_rs.Engine.Stored.{Stored}
use bitcask_rs.Engine.Refine.{store_delete, delete_record, Reads, Refines, put_record}
use bitcask_rs.Keys.{parse_log_record_key}
use bitcask_rs.Load.Numbers.{last_seq}
use bitcask_rs.Load.File.{log_bytes}
use bitcask_rs.Merge.Adopt.{is_finished}
use bitcask_rs.Open.{open_engine}
use bitcask_rs.Open.DataFiles.{data_ids, insert_id, sort_ids}
use bitcask_rs.Durable.Records.{LogOf}
use bitcask_rs.Durable.Logged.{Logged}
use bitcask_rs.Durable.Store.{Durable, LogSays}
use bitcask_rs.Durable.Opened.{IsPlain, IsInMemory}
use bitcask_rs.Durable.Lost.{delete_key-LogSays}
use bitcask_rs.Durable.Reopen.{open_engine-Reads, open_engine-active_first}

abbrev pub a_pos : LogRecordPos
a_pos = record {
  file_id = 0;
  offset = 0;
  size = length (record_bytes codec (put_record a_key a_value));
}

-- The first file holds one value, the second is active and has nothing yet.
abbrev pub two_files : Engine BTree
two_files = record empty_engine {
  dir = (data_name 0, log_bytes codec one_log) ∷ ((data_name 1, []) ∷ []);
  active_file = fresh_file 1;
  older_files = (0, fresh_file 0) ∷ [];
  index = (a_key, a_pos) ∷ [];
}

abbrev log_of : LogOf
log_of id = if id == 0 then one_log else []

pub contents : (id : ℕ) → content (data_name id) two_files.dir ≡ log_bytes codec (log_of id)
unfolding content find name_eq
contents id = ground arith

pub two_files-Logged : Logged codec two_files one_log
two_files-Logged = record {
  log = log_of;
  are_logs = λ id. elim (Bool-cases (id == 0)) [ inl z ↦ rw z one_log-IsLog | inr nz ↦ rw nz tt ];
  contents = contents;
  short = λ id. elim (Bool-cases (id == 0)) [
    | inl z ↦ rw z one_log_short
    | inr nz ↦ rw nz (omega arith)
  ];
  beyond = λ id later. ground (arith, later);
  in_all = refl;
}

two_files-HasFiles : HasFiles two_files
unfolding lookup
two_files-HasFiles = record {
  active_standard = refl;
  older_standard = λ id f found. ground (arith, found);
  at_end = rw (contents 1) refl;
  fresh = λ id later. contents id ∙ ground (arith, later);
}

pub a_pos-bound : 0 + length (record_bytes codec (put_record a_key a_value)) < 18446744073709551616
unfolding record_bytes leb_encode be32
a_pos-bound = omega arith

a_pos-Stored : Stored codec two_files a_pos a_value
unfolding file_for lookup
a_pos-Stored = record {
  rec = put_record a_key a_value;
  fits = put-Fits;
  full = omega arith;
  live = refl;
  value_of_rec = refl;
  before = [];
  after = [];
  at_file = contents 0;
  at_offset = refl;
  bound = a_pos-bound;
  file = fresh_file 0;
  known = refl;
}

pub two_files-Refines : Refines btree_indexer codec two_files view_after.store
unfolding tree_get
two_files-Refines = record {
  files = two_files-HasFiles;
  absent = λ k gone. elim (Bool-cases (bytes_eq a_key k)) [
    | inl mine ↦ absurd (none-ne-some (rw mine at gone) refl)
    | inr other ↦ rw other refl
  ];
  present = λ k pos here. elim (Bool-cases (bytes_eq a_key k)) [
    | inl mine ↦ (
      a_value,
      rw mine refl,
      subst (λ p. Stored codec two_files p a_value) (some-inj (rw mine at here)) a_pos-Stored,
    )
    | inr other ↦ absurd (none-ne-some refl (rw other at here))
  ];
}

two_files-Durable : Durable btree_indexer codec two_files view_after.store
unfolding lookup last_seq parse_log_record_key leb_decode
two_files-Durable = record {
  holds = two_files-Refines;
  records = one_log;
  logged = two_files-Logged;
  view = view_after;
  reads = one_view;
  same = refl;
  counted = omega arith;
  in_range = omega arith;
}

-- What the log of the two files says.
unfoldable pub two_files-LogSays : LogSays btree_indexer codec two_files view_after.store
two_files-LogSays = record {
  records = one_log;
  logged = two_files-Logged;
  view = view_after;
  reads = one_view;
  same = refl;
}

abbrev pub granted : DirAnswers
granted = record {
  has_parent = true;
  create_dir_ok = true;
  lock_file_ok = true;
  lock_free = true;
  unlock_ok = true;
  read_dir_ok = true;
  remove_dir_ok = true;
  remove_file_ok = true;
  rename_ok = true;
}

pub granted-AllGranted : AllGranted granted
granted-AllGranted = record {
  parent = refl;
  create_dir = refl;
  lock_file = refl;
  lock = refl;
  unlock = refl;
  read_dir = refl;
  remove_dir = refl;
  remove_file = refl;
  rename = refl;
}

abbrev pub unmapped_options : Options
unmapped_options = record (empty_engine.options) { mmap_at_startup = false }

pub unmapped-IsInMemory : IsInMemory unmapped_options
unfolding check_options
unmapped-IsInMemory = record { checked = refl; in_memory = refl; unmapped = refl }

pub two_files-IsPlain : IsPlain (0 ∷ (1 ∷ [])) two_files.dir
unfolding data_ids find name_eq
two_files-IsPlain = record {
  listed = refl;
  distinct = (refl, (refl, tt));
  some_file = λ h. cc;
  no_hint = refl;
  no_merge = refl;
}

-- A merge directory without the mark that the merge is finished.
abbrev pub half_merged : Dir
half_merged = (hint_index, []) ∷ ((data_name 0, []) ∷ [])

pub nothing_in : (k : Bytes) → tree_get {V = LogRecordPos} k [] ≡ none
unfolding tree_get
nothing_in k = refl

in_order : sort_ids (0 ∷ (1 ∷ [])) ≡ 0 ∷ (1 ∷ [])
unfolding sort_ids insert_id
in_order = refl

open_engine-Reads_example :
    (e' : Engine BTree) × (s : Disk) × (open_engine btree_indexer [] codec calm granted 2
        unmapped_options
        (record { dir = some two_files.dir; merge_dir = some half_merged })
      ≡ (ok e', s))
    × Reads btree_indexer codec e' view_after.store
unfolding two_files-LogSays is_finished
open_engine-Reads_example =
    open_engine-Reads btree_indexer [] codec calm calm-IsHealthy granted granted-AllGranted 2
      unmapped_options unmapped-IsInMemory two_files view_after.store (0 ∷ (1 ∷ []))
      two_files-LogSays (omega arith) two_files-IsPlain nothing_in (some half_merged) refl

open_engine-active_first_example :
    (e' : Engine BTree) × (s : Disk) × (open_engine btree_indexer [] codec calm granted 2
        unmapped_options
        (record { dir = some two_files.dir; merge_dir = some half_merged })
      ≡ (ok e', s))
    × (e'.active_file.file_id ≡ 0)
    × (e'.active_file.write_off ≡ length (content (data_name 1) two_files.dir))
unfolding two_files-LogSays is_finished
open_engine-active_first_example =
    open_engine-active_first btree_indexer [] codec calm calm-IsHealthy granted granted-AllGranted 2
      unmapped_options unmapped-IsInMemory two_files view_after.store (0 ∷ (1 ∷ []))
      two_files-LogSays (omega arith) two_files-IsPlain nothing_in (some half_merged) refl 0
      (1 ∷ []) in_order

delete-HasRoom_two : HasRoom two_files (length (record_bytes codec (delete_record a_key)))
unfolding record_bytes leb_encode be32
delete-HasRoom_two = record { ids = omega arith; bytes = omega arith }

delete_key-LogSays_example :
    (e' : Engine BTree) × (delete_key btree_indexer codec calm a_key two_files ≡ (ok tt, e'))
    × Refines btree_indexer codec e' (store_delete a_key view_after.store)
    × LogSays btree_indexer codec e' view_after.store
delete_key-LogSays_example =
    delete_key-LogSays btree_indexer codec calm calm-IsHealthy two_files view_after.store b'k' []
      two_files-Durable (omega arith) (omega arith) delete-Fits delete-HasRoom_two
