-- ===== src/Index/BTree.antt =====
-- bitcask-rs/src/index/btree.rs: the index over the standard library's `BTreeMap`, which is an
-- association list in the order of its keys.
use bitcask_rs.Base.{
  ◌==◌, ltb, Bool, true, false, if◌then◌else◌, ◌≡◌, refl, Option, none, some, List, [], ◌∷◌, Bytes,
  bytes_eq, bytes_eq_iff, arith,
}
use bitcask_rs.Data.LogRecord.{LogRecordPos}
use bitcask_rs.Index.{Indexer}

abbrev pub BTree : Type 0
BTree = List (Bytes × LogRecordPos)

-- `a < b` on `Vec<u8>`: lexicographic.
unfoldable pub bytes_lt : Bytes → Bytes → Bool
bytes_lt [] [] = false
bytes_lt [] (y ∷ ys) = true
bytes_lt (x ∷ xs) [] = false
bytes_lt (x ∷ xs) (y ∷ ys) =
    let rest = bytes_lt xs ys in if ltb x y then true else if x == y then rest else false

unfoldable pub get : {V : Type 0} → Bytes → List (Bytes × V) → Option V
get k [] = none
get k ((j, p) ∷ m) = if bytes_eq j k then some p else get k m

unfoldable pub insert : {V : Type 0} → Bytes → V → List (Bytes × V) → List (Bytes × V)
insert k p [] = (k, p) ∷ []
insert k p ((j, q) ∷ m) =
    let rest = insert k p m in
    if bytes_eq j k
    then (k, p) ∷ m
    else if bytes_lt k j
    then (k, p) ∷ ((j, q) ∷ m)
    else (j, q) ∷ rest

unfoldable pub remove : {V : Type 0} → Bytes → List (Bytes × V) → List (Bytes × V)
remove k [] = []
remove k ((j, q) ∷ m) = let rest = remove k m in if bytes_eq j k then rest else (j, q) ∷ rest

unfoldable pub put : Bytes → LogRecordPos → BTree → BTree × Option LogRecordPos
put k p m = (insert k p m, get k m)

unfoldable pub delete : Bytes → BTree → BTree × Option LogRecordPos
delete k m = (remove k m, get k m)

unfoldable pub list_keys : BTree → List Bytes
list_keys [] = []
list_keys ((k, p) ∷ m) = k ∷ list_keys m

pub get-insert :
    {V : Type 0} (k j : Bytes) (p : V) (m : List (Bytes × V))
    → get j (insert k p m) ≡ (if bytes_eq k j then some p else get j m)
unfolding get insert
get-insert k j p [] = ground arith
get-insert k j p ((i, q) ∷ m) =
    ground (arith, get-insert k j p m, bytes_eq_iff i k, bytes_eq_iff i j, bytes_eq_iff k j)

pub get-remove :
    {V : Type 0} (k j : Bytes) (m : List (Bytes × V))
    → get j (remove k m) ≡ (if bytes_eq k j then none else get j m)
unfolding get remove
get-remove k j [] = ground arith
get-remove k j ((i, q) ∷ m) =
    ground (arith, get-remove k j m, bytes_eq_iff i k, bytes_eq_iff i j, bytes_eq_iff k j)

pub get-put :
    (k j : Bytes) (p : LogRecordPos) (m : BTree)
    → get j (put k p m).0 ≡ (if bytes_eq k j then some p else get j m)
unfolding put
get-put k j p m = get-insert k j p m

pub put_old : (k : Bytes) (p : LogRecordPos) (m : BTree) → (put k p m).1 ≡ get k m
unfolding put
put_old k p m = refl

pub get-delete :
    (k j : Bytes) (m : BTree) → get j (delete k m).0 ≡ (if bytes_eq k j then none else get j m)
unfolding delete
get-delete k j m = get-remove k j m

pub delete_old : (k : Bytes) (m : BTree) → (delete k m).1 ≡ get k m
unfolding delete
delete_old k m = refl

-- The tree keeps the contract of an index.
abbrev pub btree_indexer : Indexer BTree
btree_indexer = record {
  put = put;
  get = get;
  delete = delete;
  list_keys = list_keys;
  get-put = get-put;
  put_old = put_old;
  get-delete = get-delete;
  delete_old = delete_old;
}
