-- ===== src/Iterator/Fold.antt =====
-- bitcask-rs/src/iterator.rs: `flod` meets the pairs of the map that the engine holds.
use bitcask_rs.Base.{
  ℕ, subst, zero, suc, ◌<◌, ◌≡◌, refl, sym, Bool, true, false, if◌then◌else◌, Bool-cases, inl, inr,
  Option, none, some, List, [], ◌∷◌, Bytes, length, drop, bytes_eq, bytes_eq_iff, bytes_eq_refl,
  arith,
}
use bitcask_rs.Errors.{ok}
use bitcask_rs.Codec.{Codec}
use bitcask_rs.Fs.{Os, IsHealthy}
use bitcask_rs.Data.LogRecord.{LogRecordPos}
use bitcask_rs.Index.BTree.{BTree, bytes_lt, btree_indexer, get as tree_get}
use bitcask_rs.Index.Sorted.{bytes_lt_irrefl, IsAhead, IsSorted}
use bitcask_rs.Index.Iterate.{Item, BTreeIterator, iterator, next, next_from, drop-cons}
use bitcask_rs.Engine.{Engine}
use bitcask_rs.Engine.Refine.{Store, Refines}
use bitcask_rs.Engine.Files.{managers}
use bitcask_rs.Engine.Stored.{get_value-Stored}
use bitcask_rs.Iterator.{Pair, iter, visit, flod_from, flod, next_pair}

abbrev listed : Bytes → Option Bytes → List Pair → List Pair
listed key none ps = ps
listed key (some value) ps = (key, value) ∷ ps

-- The pairs of a map at the keys of a tree, in the tree's order.
abbrev pub pairs_of : Store → BTree → List Pair
pairs_of m [] = []
pairs_of m ((key, pos) ∷ items) = listed key (m key) (pairs_of m items)

-- The pairs up to the first on which the function answers false, with that one.
abbrev pub until : (Bytes → Bytes → Bool) → List Pair → List Pair
until f [] = []
until f ((key, value) ∷ ps) =
    let rest = until f ps in if f key value then (key, value) ∷ rest else (key, value) ∷ []

head_eq : {x y : Item} {xs ys : List Item} → x ∷ xs ≡ y ∷ ys → x ≡ y
head_eq h = cc

IsAhead-drop :
    (j k : Bytes) (p : LogRecordPos) (i : ℕ) (items xs : BTree)
    → IsAhead false j items
    → drop i items ≡ (k, p) ∷ xs
    → bytes_lt j k ≡ true
IsAhead-drop j k p zero [] xs ahead h = cc
IsAhead-drop j k p (suc i) [] xs ahead h = cc
IsAhead-drop j k p zero ((l, q) ∷ items) xs (first, ahead) h =
    subst (λ item. bytes_lt j item.0 ≡ true) (head_eq h) first
IsAhead-drop j k p (suc i) ((l, q) ∷ items) xs (first, ahead) h =
    IsAhead-drop j k p i items xs ahead h

-- Where the keys are in order, each entry is the one that is found for its key.
pub get-drop :
    (k : Bytes) (p : LogRecordPos) (i : ℕ) (items xs : BTree)
    → IsSorted false items
    → drop i items ≡ (k, p) ∷ xs
    → tree_get k items ≡ some p
unfolding tree_get
get-drop k p zero [] xs s h = cc
get-drop k p (suc i) [] xs s h = cc
get-drop k p zero ((l, q) ∷ items) xs (ahead, s) h =
    subst (λ item. tree_get k (item ∷ items) ≡ some p) (sym (head_eq h)) (rw (bytes_eq_refl k) refl)
get-drop k p (suc i) ((l, q) ∷ items) xs (ahead, s) h = elim (Bool-cases (bytes_eq l k)) [
  | inl same ↦
      absurd
        (cc ((bytes_eq_iff l k).0 same, IsAhead-drop l k p i items xs ahead h, bytes_lt_irrefl k))
  | inr other ↦ rw other (get-drop k p i items xs s h)
]

module _ (c : Codec) (os : Os) (healthy : IsHealthy os) (e : Engine BTree) (m : Store)
    (h : Refines btree_indexer c e m) (s : IsSorted false e.index) (f : Bytes → Bytes → Bool) where
  -- The iterator of `flod`, at an index.
  abbrev at_index : ℕ → BTreeIterator
  at_index i = record {
    items = e.index;
    curr_index = i;
    options = record { prefix = []; reverse = false };
  }

  visit_step :
      (key value : Bytes) (ps : List Pair)
      → visit c os e f (some (key, value)) (ok (until f ps)) ≡ ok (until f ((key, value) ∷ ps))
  visit_step key value ps = elim (Bool-cases (f key value)) [
    | inl more ↦ rw more refl
    | inr last ↦ rw last refl
  ]

  flod_from_lem :
      (fuel i : ℕ) (xs : BTree)
      → drop i e.index ≡ xs
      → length xs < fuel
      → flod_from c os e fuel f (at_index i) ≡ ok (until f (pairs_of m xs))
  unfolding flod_from next_pair next next_from
  flod_from_lem zero i xs at enough = absurd (omega arith)
  flod_from_lem (suc fuel) i [] at enough = rw at refl
  flod_from_lem (suc fuel) i ((key, pos) ∷ xs) at enough =
      let (value, held, st) = h.present key pos (get-drop key pos i e.index xs s at) in
      rw
        (
          at,
          get_value-Stored c os e pos value healthy (managers h.files) st,
          held,
          flod_from_lem fuel (suc i) xs (drop-cons i e.index xs (key, pos) at)
              (omega (arith, enough)),
        )
        (visit_step key value (pairs_of m xs))

  -- With a working operating system, on an engine that holds a map, with the keys of its tree in
  -- order, and more rounds than the index has keys: `flod` calls the function with the map's pairs in
  -- that order, up to the first one on which the function answers false.
  pub flod_lem :
      (fuel : ℕ) → length e.index < fuel → flod c os e fuel f ≡ ok (until f (pairs_of m e.index))
  unfolding flod iter iterator
  flod_lem fuel enough = flod_from_lem fuel 0 e.index refl enough
