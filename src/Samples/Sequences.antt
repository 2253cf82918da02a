-- ===== src/Samples/Sequences.antt =====
-- The theorems about Redis lists as sequences: a push on an engine with no data, and a pop from a list
-- of one element.
use bitcask_rs.Base.{◌≡◌, ◌≢◌, refl, true, false, some, [], ◌∷◌, length, ◌+◌, arith}
use bitcask_rs.Errors.{ok}
use bitcask_rs.Options.{default_write_batch_options}
use bitcask_rs.Index.BTree.{BTree, btree_indexer}
use bitcask_rs.Samples.{codec, calm, calm-IsHealthy}
use bitcask_rs.Samples.Leb.{leb_encode, be32}
use bitcask_rs.Samples.Engines.{empty_engine, empty_engine-Refines, no_values}
use bitcask_rs.Samples.Batches.{fin_record-Fits}
use bitcask_rs.Samples.Strings.{buf, be64, be128, a_list, a_list-MetaFits}
use bitcask_rs.Samples.Pops.{
  clock, list_name, element, list_engine, list_engine-Refines, list_map, at_meta, at_part,
  popped-Fits, popped-HasRoom,
}
use bitcask_rs.Data.LogRecord.Encode.{record_bytes}
use bitcask_rs.Engine.{Engine}
use bitcask_rs.Engine.Refine.{Refines}
use bitcask_rs.Batch.{new_write_batch}
use bitcask_rs.Batch.Log.{fin_record}
use bitcask_rs.Batch.Items.{IsBatchOf, items_bytes, HasRoomFor}
use bitcask_rs.Redis.{Clock, list}
use bitcask_rs.Redis.Meta.{Metadate, encode_metadata, encode_list_key}
use bitcask_rs.Redis.Ops.{fresh_metadata, pushed, popped, push_inner, pop_inner}
use bitcask_rs.Redis.Ops.Parts.{key_differs}
use bitcask_rs.Redis.Ops.Sequence.{IsListAt, missing-IsListAt, after_push, found_meta}
use bitcask_rs.Redis.Ops.Taken.{after_pop, pop_inner-IsListAt}
use bitcask_rs.Redis.Ops.Push.{push_items, push_inner-IsListAt}

list_name-full : list_name ≢ []
list_name-full h = cc

list_map-IsListAt : IsListAt codec buf clock list_map list_name a_list (element ∷ [])
unfolding encode_list_key
list_map-IsListAt = record {
  is_found = rw at_meta (found_meta codec buf clock a_list a_list-MetaFits refl refl);
  fits = a_list-MetaFits;
  is_a_list = refl;
  lasting = refl;
  sized = refl;
  marks = refl;
  elements = (at_part, refl, tt);
}

pop_inner-IsListAt_example :
    (e' : Engine BTree) × (pop_inner btree_indexer codec calm buf clock list_name true list_engine
      ≡ (ok (some element), e'))
    × Refines btree_indexer codec e'
        (after_pop btree_indexer codec calm buf clock list_name element a_list list_map [] true)
    × ((later : Clock)
        → IsListAt codec buf later
            (after_pop btree_indexer codec calm buf clock list_name element a_list list_map [] true)
            list_name
            (popped btree_indexer codec calm buf clock true a_list)
            [])
pop_inner-IsListAt_example =
    pop_inner-IsListAt btree_indexer codec calm buf clock list_name element a_list list_map []
      list_engine true calm-IsHealthy list_engine-Refines list_name-full list_map-IsListAt
      popped-Fits popped-HasRoom

abbrev new_list : Metadate
new_list = fresh_metadata list 100

new_list-IsListAt : IsListAt codec buf clock no_values list_name new_list []
new_list-IsListAt = missing-IsListAt codec buf clock no_values list_name refl (omega arith)

starts :
    new_write_batch default_write_batch_options empty_engine
    ≡ ok (record { pending_write = []; options = default_write_batch_options })
unfolding new_write_batch
starts = refl

push-IsBatchOf :
    IsBatchOf codec 1
      (push_items btree_indexer codec calm buf clock list_name element new_list no_values [] false)
unfolding fresh_metadata encode_metadata encode_list_key leb_encode be128 be64 be32
push-IsBatchOf = (
  record {
    fits = record { key_fits = omega arith; value_fits = omega arith };
    full = omega arith;
    kind = refl;
  },
  (key_differs codec buf list_name 100 9223372036854775807 (omega arith), tt),
  (
    record {
      fits = record { key_fits = omega arith; value_fits = omega arith };
      full = omega arith;
      kind = refl;
    },
    tt,
    tt,
  ),
)

push-HasRoomFor : HasRoomFor empty_engine 3 (
    items_bytes codec 1
      (push_items btree_indexer codec calm buf clock list_name element new_list no_values [] false)
    + length (record_bytes codec (fin_record codec 1)))
unfolding record_bytes fresh_metadata encode_metadata encode_list_key leb_encode be128 be64 be32
push-HasRoomFor = record { ids = omega arith; bytes = omega arith }

push_inner-IsListAt_example :
    (e' : Engine BTree) × (push_inner btree_indexer codec calm buf clock list_name element false
        empty_engine
      ≡ (ok 1, e'))
    × Refines btree_indexer codec e'
        (after_push btree_indexer codec calm buf clock list_name element new_list no_values false)
    × ((later : Clock)
        → IsListAt codec buf later
            (after_push btree_indexer codec calm buf clock list_name element new_list no_values
              false)
            list_name
            (pushed btree_indexer codec calm buf clock false new_list)
            (element ∷ []))
unfolding fresh_metadata
push_inner-IsListAt_example =
    push_inner-IsListAt btree_indexer codec calm buf clock list_name element new_list no_values []
      false empty_engine calm-IsHealthy empty_engine-Refines list_name-full new_list-IsListAt
      (omega arith) (omega arith) refl starts (omega arith) push-IsBatchOf fin_record-Fits
      push-HasRoomFor
