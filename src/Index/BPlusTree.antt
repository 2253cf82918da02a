-- ===== src/Index/BPlusTree.antt =====
-- bitcask-rs/src/index/bptree.rs: the index over `jammdb`, which keeps encoded positions on disk.
-- The package is a parameter: a bucket's keys and values, and whether its calls succeed.
pub mod Represents
pub mod Seek
use bitcask_rs.Base.{
  ℕ, drop, ◌&&◌, ◌≡◌, Bool, true, false, if◌then◌else◌, Option, none, some, List, [], ◌∷◌, Bytes,
  bytes_eq,
}
use bitcask_rs.Errors.{Result, ok, err, panic, stuck, ◌>>=◌}
use bitcask_rs.Codec.{Codec}
use bitcask_rs.Options.{IteratorOptions}
use bitcask_rs.Data.LogRecord.{LogRecordPos, encode_pos, decode_log_record_pos}
use bitcask_rs.Index.BTree.{get as tree_get}
use bitcask_rs.Index.Sorted.{IsSorted}
use bitcask_rs.Index.Iterate.{Item, reversed, search_place, next_from}

-- What the calls of the database answer while an operation runs.
pub record DbAnswers : Type 0 where
  pub tx_ok : Bool
  pub bucket_ok : Bool
  pub put_ok : Bool
  pub commit_ok : Bool

pub record AllWell (a : DbAnswers) : Type 0 where
  pub tx : a.tx_ok ≡ true
  pub bucket : a.bucket_ok ≡ true
  pub put : a.put_ok ≡ true
  pub commit : a.commit_ok ≡ true

-- The bucket of a database: an ordered map of byte strings, which its cursor walks in their order.
-- `delete` of a key that is not there is the `Err` of the call. `abandon old new` is the bucket after
-- a transaction that changed `old` to `new` and was not committed: its entries are those of `old`.
pub record Bucket (D : Type 0) : Type 0 where
  pub get_kv : Bytes → D → Option Bytes
  pub put : Bytes → Bytes → D → D
  pub delete : Bytes → D → D
  pub cursor : D → List (Bytes × Bytes)
  pub empty_bucket : D
  pub abandon : D → D → D
  pub get_kv-put :
      (k j v : Bytes) (d : D) → get_kv j (put k v d) ≡ (if bytes_eq k j then some v else get_kv j d)
  pub get_kv-delete :
      (k j : Bytes) (d : D) → get_kv j (delete k d) ≡ (if bytes_eq k j then none else get_kv j d)
  pub cursor-IsSorted : (d : D) → IsSorted false (cursor d)
  pub get_kv-cursor : (k : Bytes) (d : D) → tree_get k (cursor d) ≡ get_kv k d
  pub get_kv-empty_bucket : (k : Bytes) → get_kv k empty_bucket ≡ none
  pub get_kv-abandon : (k : Bytes) (old new : D) → get_kv k (abandon old new) ≡ get_kv k old

-- What the calls answer that open a database: the bucket that it has, if it opens.
pub record OpenAnswers (D : Type 0) : Type 0 where
  pub opened : Option (Option D)
  pub tx_ok : Bool
  pub bucket_ok : Bool
  pub commit_ok : Bool

pub record BPlusTreeIterator : Type 0 where
  pub items : List Item
  pub curr_index : ℕ
  pub options : IteratorOptions

unfoldable pub rewind : BPlusTreeIterator → BPlusTreeIterator
rewind it = record it { curr_index = 0 }

unfoldable pub seek : Bytes → BPlusTreeIterator → BPlusTreeIterator
unfolding search_place
seek key it = record it { curr_index = search_place it.options.reverse key it.items }

unfoldable pub next : BPlusTreeIterator → Option Item × BPlusTreeIterator
unfolding next_from
next it =
    let (item, i) = next_from it.options.prefix (drop it.curr_index it.items) it.curr_index in
    (item, record it { curr_index = i })

abbrev pub map_ok {ℓ} : {A : Type ℓ} → Result A → Result (Option A)
map_ok (ok a) = ok (some a)
map_ok (err e) = err e
map_ok panic = panic
map_ok stuck = stuck

-- `get_or_create_bucket`
abbrev pub or_create : {D : Type 0} → Bucket D → Option D → D
or_create db none = db.empty_bucket
or_create db (some d) = d

-- `BPlusTree::new`: each `expect` is a panic where its call fails.
unfoldable pub new_tree : {D : Type 0} → Bucket D → OpenAnswers D → Result D
new_tree db a =
    (or_panic_none a.opened >>= λ found.
    if a.tx_ok && (a.bucket_ok && a.commit_ok) then ok (or_create db found) else panic)
  where
    or_panic_none : {A : Type 0} → Option A → Result A
    or_panic_none none = panic
    or_panic_none (some x) = ok x

module _ {D : Type 0} (db : Bucket D) (c : Codec) (a : DbAnswers) where
  -- `kv.value()`, decoded if there is one.
  abbrev pub decode_kv : Option Bytes → Result (Option LogRecordPos)
  decode_kv none = ok none
  decode_kv (some v) = map_ok (decode_log_record_pos c v)

  -- The end of a writing transaction: where the commit fails, the transaction is abandoned and the
  -- answer is `None`.
  abbrev pub commit_tx : Bool → D → D → Option LogRecordPos → Result (Option LogRecordPos) × D
  commit_tx true old d ret = (ok ret, d)
  commit_tx false old d ret = (ok none, db.abandon old d)

  -- `bucket.put(key, pos.encode())`, with the old position.
  abbrev pub put_new :
      Bytes → LogRecordPos → D → Result (Option LogRecordPos) → Result (Option LogRecordPos) × D
  put_new key pos d (ok ret) =
      if a.put_ok then commit_tx a.commit_ok d (db.put key (encode_pos c pos) d) ret else (panic, d)
  put_new key pos d (err e) = (err e, d)
  put_new key pos d panic = (panic, d)
  put_new key pos d stuck = (stuck, d)

  unfoldable pub put : Bytes → LogRecordPos → D → Result (Option LogRecordPos) × D
  put key pos d =
      if a.tx_ok
      then (if a.bucket_ok then put_new key pos d (decode_kv (db.get_kv key d)) else (ok none, d))
      else (panic, d)

  unfoldable pub get : Bytes → D → Result (Option LogRecordPos)
  get key d =
      if a.tx_ok then (if a.bucket_ok then decode_kv (db.get_kv key d) else ok none) else panic

  -- A transaction that is dropped before its commit changes nothing.
  abbrev pub delete_found :
      Bytes → D → Result (Option LogRecordPos) → Result (Option LogRecordPos) × D
  delete_found key d (ok none) = (ok none, d)
  delete_found key d (ok (some p)) = commit_tx a.commit_ok d (db.delete key d) (some p)
  delete_found key d (err e) = (err e, d)
  delete_found key d panic = (panic, d)
  delete_found key d stuck = (stuck, d)

  unfoldable pub delete : Bytes → D → Result (Option LogRecordPos) × D
  delete key d =
      if a.tx_ok
      then (if a.bucket_ok then delete_found key d (decode_kv (db.get_kv key d)) else (ok none, d))
      else (panic, d)

  abbrev pub keys_of : List (Bytes × Bytes) → List Bytes
  keys_of [] = []
  keys_of ((k, v) ∷ kvs) = k ∷ keys_of kvs

  unfoldable pub list_keys : D → Result (List Bytes)
  list_keys d = if a.tx_ok then ok (if a.bucket_ok then keys_of (db.cursor d) else []) else panic

  unfoldable pub decode_items : List (Bytes × Bytes) → Result (List Item)
  decode_items [] = ok []
  decode_items ((k, v) ∷ kvs) = do
    pos ← decode_log_record_pos c v
    items ← decode_items kvs
    ok ((k, pos) ∷ items)

  abbrev pub over_items : IteratorOptions → List Item → BPlusTreeIterator
  over_items opts items = record {
    items = if opts.reverse then reversed items else items;
    curr_index = 0;
    options = opts;
  }

  unfoldable pub iterator : IteratorOptions → D → Result BPlusTreeIterator
  unfolding decode_items
  iterator opts d =
      if a.tx_ok
      then (if a.bucket_ok
          then (do items ← decode_items (db.cursor d); ok (over_items opts items))
          else panic)
      else panic
