-- ===== src/Samples/Engines.antt =====
-- The theorems about the engine, from an engine with no data.
use bitcask_rs.Base.{◌≡◌, ◌≢◌, refl, true, false, some, none, [], ◌∷◌, Bytes, length, arith}
use bitcask_rs.Errors.{ok}
use bitcask_rs.Fs.{find, content}
use bitcask_rs.Map.{lookup}
use bitcask_rs.Options.{default_options}
use bitcask_rs.Index.BTree.{BTree, btree_indexer, get as tree_get}
use bitcask_rs.Samples.{codec, calm, calm-IsHealthy}
use bitcask_rs.Samples.Leb.{leb_encode, be32}
use bitcask_rs.Data.LogRecord.{LogRecordPos}
use bitcask_rs.Data.LogRecord.Encode.{Fits, record_bytes}
use bitcask_rs.Engine.{Engine, get, put, append_log_record}
use bitcask_rs.Engine.Files.{HasFiles, fresh_file}
use bitcask_rs.Engine.Append.{HasRoom, Appended, append_log_record_lem}
use bitcask_rs.Engine.Refine.{
  Store, store_get, store_put, put_record, delete_record, Refines, get-Refines, put-Refines,
}

abbrev pub empty_engine : Engine BTree
empty_engine = record {
  options = default_options (some (b'd' ∷ []));
  dir = [];
  active_file = fresh_file 0;
  older_files = [];
  index = [];
  file_ids = [];
  seq_no = 1;
  seq_file_exists = false;
  is_initial = true;
  bytes_write = 0;
  reclaim_size = 0;
}

abbrev pub no_values : Store
no_values k = none

pub empty_engine-HasFiles : HasFiles empty_engine
unfolding content find lookup
empty_engine-HasFiles = record {
  active_standard = refl;
  older_standard = λ id f found. cc;
  at_end = refl;
  fresh = λ id later. refl;
}

nothing_at : (k : Bytes) (pos : LogRecordPos) → tree_get k [] ≢ some pos
unfolding tree_get
nothing_at k pos h = cc

pub empty_engine-Refines : Refines btree_indexer codec empty_engine no_values
empty_engine-Refines = record {
  files = empty_engine-HasFiles;
  absent = λ k gone. refl;
  present = λ k pos here. absurd (nothing_at k pos here);
}

abbrev pub a_key : Bytes
a_key = b'k' ∷ []

abbrev pub a_value : Bytes
a_value = b'v' ∷ []

pub put-Fits : Fits (put_record a_key a_value)
put-Fits = record { key_fits = omega arith; value_fits = omega arith }

pub put-HasRoom : HasRoom empty_engine (length (record_bytes codec (put_record a_key a_value)))
unfolding record_bytes leb_encode be32
put-HasRoom = record { ids = omega arith; bytes = omega arith }

pub delete-Fits : Fits (delete_record a_key)
delete-Fits = record { key_fits = omega arith; value_fits = omega arith }

put-Refines_example :
    (e' : Engine BTree) × (put btree_indexer codec calm a_key a_value empty_engine ≡ (ok tt, e'))
    × Refines btree_indexer codec e' (store_put a_key a_value no_values)
put-Refines_example =
    put-Refines btree_indexer codec calm calm-IsHealthy empty_engine no_values a_key a_value
      empty_engine-Refines (λ h. cc) put-Fits put-HasRoom

get-Refines_example : get btree_indexer codec calm a_key empty_engine ≡ store_get a_key no_values
get-Refines_example =
    get-Refines btree_indexer codec calm calm-IsHealthy empty_engine no_values a_key
      empty_engine-Refines

append_log_record_lem_example :
    (pos : LogRecordPos) × (e' : Engine BTree) × (append_log_record codec calm
        (put_record a_key a_value)
        empty_engine
      ≡ (ok pos, e'))
    × Appended empty_engine (record_bytes codec (put_record a_key a_value)) pos e'
append_log_record_lem_example =
    append_log_record_lem codec calm calm-IsHealthy (put_record a_key a_value) empty_engine put-Fits
      empty_engine-HasFiles put-HasRoom
