-- ===== src/Index/Sorted.antt =====
-- bitcask-rs/src/index/btree.rs: the order of the tree's keys, which `put` and `delete` keep.
use bitcask_rs.Base.{
  ◌≡◌, refl, Bool, true, false, Bool-cases, inl, inr, List, [], ◌∷◌, Bytes, All, bytes_eq,
  bytes_eq_cons, bytes_eq_refl, subst, bytes_eq_iff, arith,
}
use bitcask_rs.Data.LogRecord.{LogRecordPos}
use bitcask_rs.Index.BTree.{BTree, bytes_lt, insert, remove, put, delete}

-- The order of an iteration: that of the keys, or its reverse.
abbrev pub comes_before : Bool → Bytes → Bytes → Bool
comes_before true k j = bytes_lt j k
comes_before false k j = bytes_lt k j

-- Every key comes before all that follow it.
abbrev pub IsAhead : {V : Type 0} → Bool → Bytes → List (Bytes × V) → Type 0
IsAhead backward k = All (λ item. comes_before backward k item.0 ≡ true)

abbrev pub IsSorted : {V : Type 0} → Bool → List (Bytes × V) → Type 0
IsSorted backward [] = Unit
IsSorted backward ((k, p) ∷ m) = IsAhead backward k m × IsSorted backward m

pub bytes_lt_trans :
    (a b c : Bytes) → bytes_lt a b ≡ true → bytes_lt b c ≡ true → bytes_lt a c ≡ true
unfolding bytes_lt
bytes_lt_trans [] [] c h k = cc
bytes_lt_trans [] (y ∷ b) [] h k = cc
bytes_lt_trans [] (y ∷ b) (z ∷ c) h k = refl
bytes_lt_trans (x ∷ a) [] c h k = cc
bytes_lt_trans (x ∷ a) (y ∷ b) [] h k = cc
bytes_lt_trans (x ∷ a) (y ∷ b) (z ∷ c) h k = ground (arith, bytes_lt_trans a b c)

pub before_trans :
    (backward : Bool) (a b c : Bytes)
    → comes_before backward a b ≡ true
    → comes_before backward b c ≡ true
    → comes_before backward a c ≡ true
before_trans true a b c h k = bytes_lt_trans c b a k h
before_trans false a b c h k = bytes_lt_trans a b c h k

pub bytes_lt_irrefl : (a : Bytes) → bytes_lt a a ≡ false
unfolding bytes_lt
bytes_lt_irrefl [] = refl
bytes_lt_irrefl (x ∷ a) = ground (arith, bytes_lt_irrefl a)

-- Two different keys are in order one way or the other.
pub bytes_lt_total :
    (a b : Bytes) → bytes_eq a b ≡ false → bytes_lt b a ≡ false → bytes_lt a b ≡ true
unfolding bytes_lt
bytes_lt_total [] [] h k = cc (h, bytes_eq_refl [])
bytes_lt_total [] (y ∷ b) h k = refl
bytes_lt_total (x ∷ a) [] h k = cc
bytes_lt_total (x ∷ a) (y ∷ b) h k = ground (arith, bytes_eq_cons x y a b, bytes_lt_total a b)

insert-IsAhead :
    {V : Type 0} (j k : Bytes) (p : V) (m : List (Bytes × V))
    → bytes_lt j k ≡ true
    → IsAhead false j m
    → IsAhead false j (insert k p m)
unfolding insert
insert-IsAhead j k p [] h ahead = (h, tt)
insert-IsAhead j k p ((i, q) ∷ m) h (first, ahead) = elim (Bool-cases (bytes_eq i k)) [
  | inl same ↦ rw same (h, ahead)
  | inr other ↦ elim (Bool-cases (bytes_lt k i)) [
    | inl here ↦ rw (other, here) (h, (first, ahead))
    | inr later ↦ rw (other, later) (first, insert-IsAhead j k p m h ahead)
  ]
]

IsAhead-trans :
    {V : Type 0} (k i : Bytes) (m : List (Bytes × V))
    → bytes_lt k i ≡ true
    → IsAhead false i m
    → IsAhead false k m
IsAhead-trans k i [] h ahead = tt
IsAhead-trans k i ((j, q) ∷ m) h (first, ahead) =
    (bytes_lt_trans k i j h first, IsAhead-trans k i m h ahead)

-- `insert` keeps the keys in order.
pub insert-IsSorted :
    {V : Type 0} (k : Bytes) (p : V) (m : List (Bytes × V))
    → IsSorted false m
    → IsSorted false (insert k p m)
unfolding insert
insert-IsSorted k p [] s = (tt, tt)
insert-IsSorted k p ((i, q) ∷ m) (ahead, s) = elim (Bool-cases (bytes_eq i k)) [
  | inl same ↦ rw same (subst (λ j. IsAhead false j m) ((bytes_eq_iff i k).0 same) ahead, s)
  | inr other ↦ elim (Bool-cases (bytes_lt k i)) [
    | inl here ↦ rw (other, here) ((here, IsAhead-trans k i m here ahead), (ahead, s))
    | inr later ↦
        rw (other, later)
          (insert-IsAhead i k p m (bytes_lt_total i k other later) ahead, insert-IsSorted k p m s)
  ]
]

remove-IsAhead :
    {V : Type 0} (j k : Bytes) (m : List (Bytes × V))
    → IsAhead false j m
    → IsAhead false j (remove k m)
unfolding remove
remove-IsAhead j k [] ahead = tt
remove-IsAhead j k ((i, q) ∷ m) (first, ahead) = elim (Bool-cases (bytes_eq i k)) [
  | inl same ↦ rw same (remove-IsAhead j k m ahead)
  | inr other ↦ rw other (first, remove-IsAhead j k m ahead)
]

pub remove-IsSorted :
    {V : Type 0} (k : Bytes) (m : List (Bytes × V)) → IsSorted false m → IsSorted false (remove k m)
unfolding remove
remove-IsSorted k [] s = tt
remove-IsSorted k ((i, q) ∷ m) (ahead, s) = elim (Bool-cases (bytes_eq i k)) [
  | inl same ↦ rw same (remove-IsSorted k m s)
  | inr other ↦ rw other (remove-IsAhead i k m ahead, remove-IsSorted k m s)
]

-- `put` and `delete` keep the keys of the tree in strictly ascending order.
pub put_delete-IsSorted :
    (k : Bytes) (p : LogRecordPos) (m : BTree)
    → IsSorted false m
    → IsSorted false (put k p m).0 × IsSorted false (delete k m).0
unfolding put delete
put_delete-IsSorted k p m s = (insert-IsSorted k p m s, remove-IsSorted k m s)
