-- ===== src/Index/SkipList/Seek.antt =====
-- bitcask-rs/src/index/skiplist.rs: what the iterator of the skip list returns.
use bitcask_rs.Base.{ℕ, zero, suc, ◌≤◌, ◌≡◌, refl, ap, ◌∙◌, Bool, List, [], Bytes, length}
use bitcask_rs.Index.Iterate.{
  Item, BTreeIterator, matches, cons_item, filter_items, take_next as tree_take,
  iterator as tree_iterator, seek as tree_seek, next as tree_next,
}
use bitcask_rs.Index.Iterate.Seek.{in_direction, is_reached, take_next-seek}
use bitcask_rs.Index.SkipList.{SkipMap, SkipListIterator, iterator, rewind, seek, next}

-- What `n` calls of `next` return.
unfoldable pub take_next : ℕ → SkipListIterator → List Item
unfolding next
take_next zero it = []
take_next (suc n) it = let (item, it') = next it in cons_item item (take_next n it')

-- The BTree's iterator at the same place.
abbrev pub as_btree : SkipListIterator → BTreeIterator
as_btree it = record { items = it.items; curr_index = it.curr_index; options = it.options }

pub take_next-as_btree :
    (n : ℕ) (it : SkipListIterator) → take_next n it ≡ tree_take n (as_btree it)
unfolding take_next tree_take next tree_next
take_next-as_btree zero it = refl
take_next-as_btree (suc n) it = ap (cons_item (next it).0) (take_next-as_btree n (next it).1)

-- An iterator over the skip list, after a seek, returns by enough calls of `next` just the entries
-- of the package's map that match the prefix and do not come before the key in its direction, in
-- that direction, and after a `rewind` it returns what it returned at first.
pub skip_list-seek :
    {M : Type 0} (skl : SkipMap M) (backward : Bool) (prefix key : Bytes) (m : M) (n : ℕ)
    → length (in_direction backward (skl.iter m)) ≤ n
    → (take_next n (seek key (iterator skl (record { prefix = prefix; reverse = backward }) m))
        ≡ filter_items
            (matches prefix)
            (filter_items (is_reached backward key) (in_direction backward (skl.iter m))))
      × (take_next n
            (rewind (seek key (iterator skl (record { prefix = prefix; reverse = backward }) m)))
          ≡ take_next n (iterator skl (record { prefix = prefix; reverse = backward }) m))
unfolding iterator seek tree_iterator tree_seek rewind
skip_list-seek skl backward prefix key m n enough = (
  take_next-as_btree n (seek key (iterator skl (record { prefix = prefix; reverse = backward }) m))
      ∙ take_next-seek backward prefix key (skl.iter m) n (skl.iter-IsSorted m) enough,
  refl,
)
