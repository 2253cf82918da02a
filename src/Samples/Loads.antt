-- ===== src/Samples/Loads.antt =====
-- The theorems about loading, at a directory with one data file that holds one value.
use bitcask_rs.Base.{ℕ, ◌+◌, ◌<◌, ◌≡◌, refl, some, [], ◌∷◌, List, length, arith}
use bitcask_rs.Errors.{ok, ◌>>=◌}
use bitcask_rs.Fs.{data_name, find, content, name_eq}
use bitcask_rs.Map.{lookup}
use bitcask_rs.Index.BTree.{BTree, btree_indexer, get as tree_get}
use bitcask_rs.Samples.{codec, calm, calm-IsHealthy}
use bitcask_rs.Samples.Leb.{leb_encode, be32}
use bitcask_rs.Samples.Engines.{empty_engine}
use bitcask_rs.Data.LogRecord.{LogRecord}
use bitcask_rs.Data.LogRecord.Encode.{record_bytes}
use bitcask_rs.Engine.{Engine, file_for}
use bitcask_rs.Engine.Files.{fresh_file}
use bitcask_rs.Engine.Refine.{Refines, put_record, store_put}
use bitcask_rs.Load.{Loading, load_file, load_index_from_data_files}
use bitcask_rs.Load.File.{IsLog, log_bytes, replay, load_file-log}
use bitcask_rs.Load.Meaning.{LogView, view_log}
use bitcask_rs.Load.Files.{view_logs, IsLoadable, IsActiveLast, nothing_held, load_index-Refines}
use bitcask_rs.Load.Deletion.{view_log-put}

abbrev pub one_log : List LogRecord
one_log = put_record (b'k' ∷ []) (b'v' ∷ []) ∷ []

abbrev pub a_loading : Loading BTree
a_loading = record { index = []; reclaim_size = 0; transaction_records = []; current_seq_no = 0 }

-- The engine as it is before its one file is loaded.
abbrev opened : Engine BTree
opened = record empty_engine {
  dir = (data_name 0, log_bytes codec one_log) ∷ [];
  file_ids = 0 ∷ [];
}

pub one_log-IsLog : IsLog one_log
one_log-IsLog = ((record { key_fits = omega arith; value_fits = omega arith }, omega arith), tt)

at_file : content (data_name 0) opened.dir ≡ log_bytes codec one_log
unfolding content find name_eq
at_file = refl

pub one_log_short : length (log_bytes codec one_log) < 18446744073709551616
unfolding record_bytes leb_encode be32
one_log_short = omega arith

known : file_for opened 0 ≡ some (fresh_file 0)
unfolding file_for
known = refl

no_later : (id : ℕ) → 0 < id → content (data_name id) opened.dir ≡ []
unfolding content find name_eq
no_later id later = ground arith

opened-IsLoadable : IsLoadable btree_indexer codec opened 2 ((0, one_log) ∷ [])
unfolding content find name_eq lookup tree_get
opened-IsLoadable = record {
  ids = refl;
  some_id = refl;
  no_merge = refl;
  nothing = λ k. refl;
  managed = record { active_standard = refl; older_standard = λ id f found. cc };
  holds = (
    record {
      file = fresh_file 0;
      known = known;
      standard = refl;
      log = one_log-IsLog;
      at_file = at_file;
      short = one_log_short;
      rounds = omega arith;
    },
    tt,
  );
}

opened-IsActiveLast : IsActiveLast codec opened ((0, one_log) ∷ [])
unfolding content record_bytes find name_eq
opened-IsActiveLast = record {
  ends_at = (length (log_bytes codec one_log), refl, refl);
  fresh = λ id later. no_later id later;
}

abbrev pub view_after : LogView
view_after = record nothing_held { store = store_put (b'k' ∷ []) (b'v' ∷ []) nothing_held.store }

pub one_view : view_log codec one_log nothing_held ≡ ok view_after
unfolding view_log
one_view = rw (view_log-put codec (b'k' ∷ []) (b'v' ∷ []) [] nothing_held) refl

all_views : view_logs codec ((0, one_log) ∷ []) nothing_held ≡ ok view_after
unfolding view_logs
all_views = rw one_view refl

load_index-Refines_example :
    (e' : Engine BTree) × (n : ℕ) × (load_index_from_data_files btree_indexer codec calm opened 2
      ≡ ok (e', n))
    × Refines btree_indexer codec e' view_after.store
load_index-Refines_example =
    load_index-Refines btree_indexer codec calm calm-IsHealthy opened 2 ((0, one_log) ∷ [])
      view_after opened-IsLoadable opened-IsActiveLast all_views

load_file-log_example : load_file btree_indexer codec calm opened 2 0 0 a_loading ≡ (
    replay btree_indexer codec 0 0 one_log a_loading >>= λ st'.
    ok (st', 0 + length (log_bytes codec one_log)))
load_file-log_example =
    load_file-log btree_indexer codec calm calm-IsHealthy opened 0 (fresh_file 0) (data_name 0)
      known refl one_log 2 0 [] a_loading one_log-IsLog (omega arith) at_file refl
      (omega (arith, one_log_short))
