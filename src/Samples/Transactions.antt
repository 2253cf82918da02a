-- ===== src/Samples/Transactions.antt =====
-- The theorems about loading a transaction, at a file with the records of a batch, with and without
-- the mark of its end.
use bitcask_rs.Base.{ℕ, ◌≡◌, refl, none, [], ◌∷◌, ◌++◌, List, arith}
use bitcask_rs.Errors.{ok}
use bitcask_rs.Fs.{data_name, find, content, name_eq}
use bitcask_rs.Map.{lookup}
use bitcask_rs.Index.BTree.{BTree, btree_indexer, get as tree_get}
use bitcask_rs.Samples.{codec, calm, calm-IsHealthy}
use bitcask_rs.Samples.Leb.{leb_encode, be32}
use bitcask_rs.Samples.Batches.{first_record, second_record}
use bitcask_rs.Samples.Engines.{empty_engine}
use bitcask_rs.Samples.Loads.{a_loading}
use bitcask_rs.Data.LogRecord.{LogRecord}
use bitcask_rs.Data.LogRecord.Encode.{record_bytes}
use bitcask_rs.Batch.Log.{numbered_all, fin_record}
use bitcask_rs.Engine.{Engine, file_for}
use bitcask_rs.Engine.Files.{fresh_file}
use bitcask_rs.Load.{Loading, load_file}
use bitcask_rs.Load.File.{log_bytes}
use bitcask_rs.Load.Files.{HoldsLog, nothing_held}
use bitcask_rs.Load.Meaning.{apply_all}
use bitcask_rs.Load.Points.{Points}
use bitcask_rs.Load.Recover.{Means}
use bitcask_rs.Load.Transactions.{load_file-committed, load_file-uncommitted}

abbrev records_only : List LogRecord
records_only = numbered_all codec 1 (first_record ∷ second_record ∷ [])

abbrev whole_log : List LogRecord
whole_log = records_only ++ (fin_record codec 1 ∷ [])

-- An engine whose one file holds a log.
abbrev holding : List LogRecord → Engine BTree
holding rs = record empty_engine { dir = (data_name 0, log_bytes codec rs) ∷ []; file_ids = 0 ∷ [] }

records_only-HoldsLog : HoldsLog codec (holding records_only) 4 0 records_only
unfolding file_for content find name_eq record_bytes leb_encode be32
records_only-HoldsLog = record {
  file = fresh_file 0;
  known = refl;
  standard = refl;
  log = (
    (record { key_fits = omega arith; value_fits = omega arith }, omega arith),
    ((record { key_fits = omega arith; value_fits = omega arith }, omega arith), tt),
  );
  at_file = refl;
  short = omega arith;
  rounds = omega arith;
}

whole_log-HoldsLog : HoldsLog codec (holding whole_log) 4 0 whole_log
unfolding file_for content find name_eq record_bytes leb_encode be32
whole_log-HoldsLog = record {
  file = fresh_file 0;
  known = refl;
  standard = refl;
  log = (
    (record { key_fits = omega arith; value_fits = omega arith }, omega arith),
    (
      (record { key_fits = omega arith; value_fits = omega arith }, omega arith),
      ((record { key_fits = omega arith; value_fits = omega arith }, omega arith), tt),
    ),
  );
  at_file = refl;
  short = omega arith;
  rounds = omega arith;
}

start-Means : (e : Engine BTree) → Means btree_indexer codec e a_loading nothing_held
unfolding lookup tree_get
start-Means e = record {
  points = record { absent = λ k gone. refl; present = λ k pos here. cc };
  same_pending = λ n. refl;
  held = λ n ts at. cc;
}

nothing_under_one : lookup 1 a_loading.transaction_records ≡ none
unfolding lookup
nothing_under_one = refl

load_file-committed_example :
    (st' : Loading BTree) × (n : ℕ) × (load_file btree_indexer codec calm
        (holding whole_log)
        4
        0
        0
        a_loading
      ≡ ok (st', n))
    × Points btree_indexer codec
        (holding whole_log)
        st'.index
        (apply_all (first_record ∷ second_record ∷ []) nothing_held.store)
    × (lookup 1 st'.transaction_records ≡ none)
load_file-committed_example =
    load_file-committed btree_indexer codec calm calm-IsHealthy (holding whole_log) 1 (omega arith)
      (omega arith) 4 0 first_record (second_record ∷ []) a_loading nothing_held whole_log-HoldsLog
      (refl, (refl, tt)) (start-Means (holding whole_log)) nothing_under_one

load_file-uncommitted_example :
    (st' : Loading BTree) × (n : ℕ) × (load_file btree_indexer codec calm
        (holding records_only)
        4
        0
        0
        a_loading
      ≡ ok (st', n))
    × Points btree_indexer codec (holding records_only) st'.index nothing_held.store
load_file-uncommitted_example =
    load_file-uncommitted btree_indexer codec calm calm-IsHealthy (holding records_only) 1
      (omega arith) (omega arith) 4 0 (first_record ∷ second_record ∷ []) a_loading nothing_held
      records_only-HoldsLog (refl, (refl, tt)) (start-Means (holding records_only))
