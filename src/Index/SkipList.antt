-- ===== src/Index/SkipList.antt =====
-- bitcask-rs/src/index/skiplist.rs: the index over `crossbeam-skiplist`, and its iterator. The
-- package's map is a parameter.
pub mod Seek
use bitcask_rs.Base.{
  ℕ, drop, ◌≡◌, refl, false, if◌then◌else◌, Option, none, some, List, Bytes, bytes_eq,
}
use bitcask_rs.Options.{IteratorOptions}
use bitcask_rs.Data.LogRecord.{LogRecordPos}
use bitcask_rs.Index.{Indexer}
use bitcask_rs.Index.Sorted.{IsSorted}
use bitcask_rs.Index.BTree.{get as tree_get, list_keys as tree_keys}
use bitcask_rs.Index.Iterate.{Item, reversed, search_place, next_from}

-- `SkipMap<Vec<u8>, LogRecordPos>`. The laws say that it is an ordered map, which its iterator
-- walks in the order of the keys.
pub record SkipMap (M : Type 0) : Type 0 where
  pub get : Bytes → M → Option LogRecordPos
  pub insert : Bytes → LogRecordPos → M → M
  pub remove : Bytes → M → M × Option LogRecordPos
  pub iter : M → List Item
  pub get-insert :
      (k j : Bytes) (p : LogRecordPos) (m : M)
      → get j (insert k p m) ≡ (if bytes_eq k j then some p else get j m)
  pub get-remove :
      (k j : Bytes) (m : M) → get j (remove k m).0 ≡ (if bytes_eq k j then none else get j m)
  pub remove_entry : (k : Bytes) (m : M) → (remove k m).1 ≡ get k m
  pub iter-IsSorted : (m : M) → IsSorted false (iter m)
  pub get-iter : (k : Bytes) (m : M) → tree_get k (iter m) ≡ get k m

pub record SkipListIterator : Type 0 where
  pub items : List Item
  pub curr_index : ℕ
  pub options : IteratorOptions

unfoldable pub rewind : SkipListIterator → SkipListIterator
rewind it = record it { curr_index = 0 }

unfoldable pub seek : Bytes → SkipListIterator → SkipListIterator
unfolding search_place
seek key it = record it { curr_index = search_place it.options.reverse key it.items }

unfoldable pub next : SkipListIterator → Option Item × SkipListIterator
unfolding next_from
next it =
    let (item, i) = next_from it.options.prefix (drop it.curr_index it.items) it.curr_index in
    (item, record it { curr_index = i })

module _ {M : Type 0} (skl : SkipMap M) where
  unfoldable pub put : Bytes → LogRecordPos → M → M × Option LogRecordPos
  put key pos m = let result = skl.get key m in (skl.insert key pos m, result)

  unfoldable pub get : Bytes → M → Option LogRecordPos
  get key m = skl.get key m

  unfoldable pub delete : Bytes → M → M × Option LogRecordPos
  delete key m = skl.remove key m

  unfoldable pub list_keys : M → List Bytes
  list_keys m = tree_keys (skl.iter m)

  unfoldable pub iterator : IteratorOptions → M → SkipListIterator
  iterator opts m = record {
    items = if opts.reverse then reversed (skl.iter m) else skl.iter m;
    curr_index = 0;
    options = opts;
  }

  pub get-put :
      (k j : Bytes) (p : LogRecordPos) (m : M)
      → get j (put k p m).0 ≡ (if bytes_eq k j then some p else get j m)
  unfolding get put
  get-put k j p m = skl.get-insert k j p m

  pub put_old : (k : Bytes) (p : LogRecordPos) (m : M) → (put k p m).1 ≡ get k m
  unfolding get put
  put_old k p m = refl

  pub get-delete :
      (k j : Bytes) (m : M) → get j (delete k m).0 ≡ (if bytes_eq k j then none else get j m)
  unfolding get delete
  get-delete k j m = skl.get-remove k j m

  pub delete_old : (k : Bytes) (m : M) → (delete k m).1 ≡ get k m
  unfolding get delete
  delete_old k m = skl.remove_entry k m

  -- The skip list keeps the contract of an index.
  abbrev pub skip_indexer : Indexer M
  skip_indexer = record {
    put = put;
    get = get;
    delete = delete;
    list_keys = list_keys;
    get-put = get-put;
    put_old = put_old;
    get-delete = get-delete;
    delete_old = delete_old;
  }
