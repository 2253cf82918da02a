-- ===== src/Samples/Durables.antt =====
-- The theorems about what the log describes, from an engine with no data.
use bitcask_rs.Base.{◌≡◌, ◌≢◌, refl, [], arith}
use bitcask_rs.Errors.{ok}
use bitcask_rs.Fs.{find, content}
use bitcask_rs.Map.{lookup}
use bitcask_rs.Index.BTree.{BTree, btree_indexer}
use bitcask_rs.Samples.{codec, calm, calm-IsHealthy}
use bitcask_rs.Samples.Engines.{
  empty_engine, empty_engine-Refines, no_values, a_key, a_value, put-Fits, put-HasRoom,
}
use bitcask_rs.Samples.Batches.{a_batch, a_batch-IsBatchOf, fin_record-Fits, batch-HasRoomFor}
use bitcask_rs.Engine.{Engine, put}
use bitcask_rs.Engine.Refine.{store_put}
use bitcask_rs.Load.Meaning.{apply_all, view_log}
use bitcask_rs.Load.Numbers.{last_seq}
use bitcask_rs.Load.Files.{nothing_held}
use bitcask_rs.Batch.{commit}
use bitcask_rs.Batch.Items.{records_of}
use bitcask_rs.Durable.Logged.{Logged}
use bitcask_rs.Durable.Store.{Durable, put-Durable}
use bitcask_rs.Durable.Runs.{Run, idle, called, put_call, Run-Durable}
use bitcask_rs.Durable.Commit.{commit-Durable}

empty_engine-Logged : Logged codec empty_engine []
unfolding content find
empty_engine-Logged = record {
  log = λ id. [];
  are_logs = λ id. tt;
  contents = λ id. refl;
  short = λ id. omega arith;
  beyond = λ id later. refl;
  in_all = refl;
}

pub empty_engine-Durable : Durable btree_indexer codec empty_engine no_values
unfolding view_log lookup last_seq
empty_engine-Durable = record {
  holds = empty_engine-Refines;
  records = [];
  logged = empty_engine-Logged;
  view = nothing_held;
  reads = refl;
  same = refl;
  counted = omega arith;
  in_range = omega arith;
}

put-Durable_example :
    (e' : Engine BTree) × (put btree_indexer codec calm a_key a_value empty_engine ≡ (ok tt, e'))
    × Durable btree_indexer codec e' (store_put a_key a_value no_values)
put-Durable_example =
    put-Durable btree_indexer codec calm calm-IsHealthy empty_engine no_values a_key a_value
      empty_engine-Durable (λ h. cc) put-Fits put-HasRoom

commit-Durable_example :
    (e' : Engine BTree) × (commit btree_indexer codec calm a_batch empty_engine
      ≡ (ok tt, record a_batch { pending_write = [] }, e'))
    × Durable btree_indexer codec e' (apply_all (records_of a_batch.pending_write) no_values)
commit-Durable_example =
    commit-Durable btree_indexer codec calm calm-IsHealthy a_batch empty_engine no_values
      empty_engine-Durable (omega arith) (omega arith) a_batch-IsBatchOf fin_record-Fits
      batch-HasRoomFor

a_key-full : a_key ≢ []
a_key-full h = cc

-- The engine after `put`, as the theorem about `put` has it.
abbrev after_put : Engine BTree
after_put =
    (put-Durable btree_indexer codec calm calm-IsHealthy empty_engine no_values a_key a_value
      empty_engine-Durable a_key-full put-Fits put-HasRoom).0

put_answers : put btree_indexer codec calm a_key a_value empty_engine ≡ (ok tt, after_put)
put_answers =
    (put-Durable btree_indexer codec calm calm-IsHealthy empty_engine no_values a_key a_value
      empty_engine-Durable a_key-full put-Fits put-HasRoom).1

one_put :
    Run btree_indexer codec calm empty_engine no_values after_put
      (store_put a_key a_value no_values)
one_put = called idle (put_call a_key a_value a_key-full put-Fits put-HasRoom put_answers refl)

Run-Durable_example : Durable btree_indexer codec after_put (store_put a_key a_value no_values)
Run-Durable_example =
    Run-Durable btree_indexer codec calm calm-IsHealthy one_put empty_engine-Durable
