-- ===== src/Samples/Buckets.antt =====
-- The theorems about the B+ tree index, over a bucket that is an association list.
use bitcask_rs.Base.{◌≤◌, length, ◌≡◌, refl, true, false, none, some, List, [], ◌∷◌, Bytes, arith}
use bitcask_rs.Errors.{ok}
use bitcask_rs.Samples.{codec}
use bitcask_rs.Data.LogRecord.{LogRecordPos}
use bitcask_rs.Index.BTree.{get as tree_get, insert, remove, get-insert, get-remove}
use bitcask_rs.Index.Sorted.{IsSorted, insert-IsSorted, remove-IsSorted}
use bitcask_rs.Index.Iterate.{Item, matches, filter_items}
use bitcask_rs.Index.Iterate.Seek.{in_direction, is_reached}
use bitcask_rs.Index.SkipList.{
  SkipMap, iterator as skip_iterator, rewind as skip_rewind, seek as skip_seek,
}
use bitcask_rs.Index.SkipList.Seek.{take_next as skip_take, skip_list-seek}
use bitcask_rs.Index.BPlusTree.Seek.{IsEntriesOf, take_next as bptree_take, bptree-seek}
use bitcask_rs.Index.BPlusTree.{
  BPlusTreeIterator, iterator as bptree_iterator, seek as bptree_seek, DbAnswers, AllWell, Bucket,
  put, get, delete,
}
use bitcask_rs.Index.BPlusTree.Represents.{
  PosFits, Positions, set_at, Represents, put-Represents, delete-Represents,
}

-- Entries in the order of their keys.
abbrev Ordered : Type 0 → Type 0
Ordered V = (kvs : List (Bytes × V)) × IsSorted false kvs

abbrev nothing_yet : {V : Type 0} → Ordered V
nothing_yet = ([], tt)

abbrev put_ordered : {V : Type 0} → Bytes → V → Ordered V → Ordered V
put_ordered k v (kvs, s) = (insert k v kvs, insert-IsSorted k v kvs s)

abbrev drop_ordered : {V : Type 0} → Bytes → Ordered V → Ordered V
drop_ordered k (kvs, s) = (remove k kvs, remove-IsSorted k kvs s)

unfoldable tree_get_nothing : {V : Type 0} (k : Bytes) → tree_get {V = V} k [] ≡ none
unfolding tree_get
tree_get_nothing k = refl

abbrev bucket : Bucket (Ordered Bytes)
bucket = record {
  get_kv = λ k d. tree_get k d.0;
  put = put_ordered;
  delete = drop_ordered;
  cursor = λ d. d.0;
  empty_bucket = nothing_yet;
  abandon = λ old new. old;
  get_kv-put = λ k j v d. get-insert k j v d.0;
  get_kv-delete = λ k j d. get-remove k j d.0;
  cursor-IsSorted = λ d. d.1;
  get_kv-cursor = λ k d. refl;
  get_kv-empty_bucket = tree_get_nothing;
  get_kv-abandon = λ k old new. refl;
}

abbrev skip_map : SkipMap (Ordered LogRecordPos)
skip_map = record {
  get = λ k m. tree_get k m.0;
  insert = put_ordered;
  remove = λ k m. (drop_ordered k m, tree_get k m.0);
  iter = λ m. m.0;
  get-insert = λ k j p m. get-insert k j p m.0;
  get-remove = λ k j m. get-remove k j m.0;
  remove_entry = λ k m. refl;
  iter-IsSorted = λ m. m.1;
  get-iter = λ k m. refl;
}

abbrev well : DbAnswers
well = record { tx_ok = true; bucket_ok = true; put_ok = true; commit_ok = true }

well-AllWell : AllWell well
well-AllWell = record { tx = refl; bucket = refl; put = refl; commit = refl }

abbrev bad_commit : DbAnswers
bad_commit = record { tx_ok = true; bucket_ok = true; put_ok = true; commit_ok = false }

abbrev a_key : Bytes
a_key = b'k' ∷ []

abbrev a_pos : LogRecordPos
a_pos = record { file_id = 3; offset = 40; size = 17 }

a_pos-PosFits : PosFits a_pos
a_pos-PosFits = record { id_fits = omega arith; offset_fits = omega arith; size_fits = omega arith }

abbrev no_positions : Positions
no_positions k = none

empty-Represents : Represents bucket codec nothing_yet no_positions
unfolding tree_get
empty-Represents = record { fits = λ k p here. cc; same = λ k. refl }

put-Represents_example :
    (d' : Ordered Bytes) × (put bucket codec well a_key a_pos nothing_yet ≡ (ok none, d'))
    × Represents bucket codec d' (set_at a_key (some a_pos) no_positions)
put-Represents_example =
    put-Represents bucket codec well well-AllWell nothing_yet no_positions a_key a_pos a_pos-PosFits
      empty-Represents

abbrev one_entry : Ordered LogRecordPos
one_entry = put_ordered a_key a_pos nothing_yet

one_entry_short : length (in_direction true (skip_map.iter one_entry)) ≤ 1
unfolding insert
one_entry_short = omega arith

skip_list-seek_example :
    (skip_take 1 (
        skip_seek a_key (skip_iterator skip_map (record { prefix = []; reverse = true }) one_entry))
      ≡ filter_items
          (matches [])
          (filter_items (is_reached true a_key) (in_direction true (skip_map.iter one_entry))))
    × (skip_take 1 (
          skip_rewind (
            skip_seek a_key
              (skip_iterator skip_map (record { prefix = []; reverse = true }) one_entry)))
        ≡ skip_take 1 (skip_iterator skip_map (record { prefix = []; reverse = true }) one_entry))
skip_list-seek_example = skip_list-seek skip_map true [] a_key one_entry 1 one_entry_short

one_kv-Represents :
    (d' : Ordered Bytes) × (put bucket codec well a_key a_pos nothing_yet ≡ (ok none, d'))
    × Represents bucket codec d' (set_at a_key (some a_pos) no_positions)
one_kv-Represents =
    put-Represents bucket codec well well-AllWell nothing_yet no_positions a_key a_pos a_pos-PosFits
      empty-Represents

delete-Represents_example :
    (d' : Ordered Bytes) × (delete bucket codec well a_key one_kv-Represents.0
      ≡ (ok (set_at a_key (some a_pos) no_positions a_key), d'))
    × Represents bucket codec d' (set_at a_key none (set_at a_key (some a_pos) no_positions))
delete-Represents_example =
    delete-Represents bucket codec well well-AllWell one_kv-Represents.0
      (set_at a_key (some a_pos) no_positions) a_key one_kv-Represents.2

bptree-seek_example :
    (it : BPlusTreeIterator) × (items : List Item) × (bptree_iterator bucket codec well
        (record { prefix = []; reverse = false })
        one_kv-Represents.0
      ≡ ok it)
    × IsEntriesOf items (set_at a_key (some a_pos) no_positions)
    × (bptree_take (length (in_direction false items)) (bptree_seek a_key it)
        ≡ filter_items
            (matches [])
            (filter_items (is_reached false a_key) (in_direction false items)))
bptree-seek_example =
    bptree-seek bucket codec well refl refl one_kv-Represents.0
      (set_at a_key (some a_pos) no_positions) false [] a_key one_kv-Represents.2
