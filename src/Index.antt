-- ===== src/Index.antt =====
-- bitcask-rs/src/index/mod.rs: the interface of an index, with what the engine relies on.
pub mod BTree
pub mod Sorted
pub mod Iterate
pub mod SkipList
pub mod BPlusTree
use bitcask_rs.Base.{Bytes, bytes_eq, if◌then◌else◌, ◌≡◌, Option, none, some, List}
use bitcask_rs.Data.LogRecord.{LogRecordPos}

-- `put` and `delete` return the new index and the position that the key had. The laws say that
-- an index is a map from keys to positions.
pub record Indexer (Ix : Type 0) : Type 0 where
  pub put : Bytes → LogRecordPos → Ix → Ix × Option LogRecordPos
  pub get : Bytes → Ix → Option LogRecordPos
  pub delete : Bytes → Ix → Ix × Option LogRecordPos
  pub list_keys : Ix → List Bytes
  pub get-put :
      (k j : Bytes) (p : LogRecordPos) (m : Ix)
      → get j (put k p m).0 ≡ (if bytes_eq k j then some p else get j m)
  pub put_old : (k : Bytes) (p : LogRecordPos) (m : Ix) → (put k p m).1 ≡ get k m
  pub get-delete :
      (k j : Bytes) (m : Ix) → get j (delete k m).0 ≡ (if bytes_eq k j then none else get j m)
  pub delete_old : (k : Bytes) (m : Ix) → (delete k m).1 ≡ get k m
