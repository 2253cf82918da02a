-- ===== src/Index/Iterate/Seek.antt =====
-- bitcask-rs/src/index/btree.rs: what an iterator returns after a `seek`, in either direction.
use bitcask_rs.Base.{
  ℕ, ◌≤◌, ◌≡◌, refl, ap, ◌∙◌, Bool, true, false, not, Bool-cases, inl, inr, List, [], ◌∷◌, ◌++◌,
  Bytes, length, drop, All, arith,
}
use bitcask_rs.Data.LogRecord.{LogRecordPos}
use bitcask_rs.Index.BTree.{BTree}
use bitcask_rs.Index.Sorted.{comes_before, before_trans, IsAhead, IsSorted}
use bitcask_rs.Index.Iterate.{
  Item, BTreeIterator, reversed, matches, iterator, search_place, seek, take_next, filter_items,
  take_next-filter,
}

-- The items that a search for a key goes on from.
abbrev pub is_reached : Bool → Bytes → Item → Bool
is_reached backward key (k, p) = not (comes_before backward k key)

keep_all :
    (backward : Bool) (key k : Bytes) (items : List Item)
    → comes_before backward k key ≡ false
    → IsAhead backward k items
    → items ≡ filter_items (is_reached backward key) items
keep_all backward key k [] h ahead = refl
keep_all backward key k ((j, p) ∷ items) h (first, ahead) =
    elim (Bool-cases (comes_before backward j key)) [
      | inl early ↦ absurd (cc (before_trans backward k j key first early, h))
      | inr reached ↦ rw reached (ap (λ is. (j, p) ∷ is) (keep_all backward key k items h ahead))
    ]

drop-search_place :
    (backward : Bool) (key : Bytes) (items : List Item)
    → IsSorted backward items
    → drop (search_place backward key items) items ≡ filter_items (is_reached backward key) items
unfolding search_place
drop-search_place backward key [] s = refl
drop-search_place backward key ((k, p) ∷ items) (ahead, s) =
    elim (Bool-cases (comes_before backward k key)) [
      | inl early ↦ rw early (drop-search_place backward key items s)
      | inr reached ↦
          rw reached (ap (λ is. (k, p) ∷ is) (keep_all backward key k items reached ahead))
    ]

length_filter : (f : Item → Bool) (xs : List Item) → length (filter_items f xs) ≤ length xs
length_filter f [] = omega arith
length_filter f (x ∷ xs) = elim (Bool-cases (f x)) [
  | inl taken ↦ rw taken (omega (arith, length_filter f xs))
  | inr passed ↦ rw passed (omega (arith, length_filter f xs))
]

IsAhead-snoc :
    (k j : Bytes) (p : LogRecordPos) (xs : List Item)
    → IsAhead true k xs
    → comes_before true k j ≡ true
    → IsAhead true k (xs ++ ((j, p) ∷ []))
IsAhead-snoc k j p [] ahead h = (h, tt)
IsAhead-snoc k j p (x ∷ xs) (first, ahead) h = (first, IsAhead-snoc k j p xs ahead h)

-- All the keys are behind this one, so it is the last one in the reverse order.
abbrev IsLast : Bytes → List Item → Type 0
IsLast j = All (λ item. comes_before true item.0 j ≡ true)

IsLast-snoc :
    (j k : Bytes) (p : LogRecordPos) (xs : List Item)
    → IsLast j xs
    → comes_before true k j ≡ true
    → IsLast j (xs ++ ((k, p) ∷ []))
IsLast-snoc j k p [] all h = (h, tt)
IsLast-snoc j k p (x ∷ xs) (first, all) h = (first, IsLast-snoc j k p xs all h)

IsLast-reversed : (j : Bytes) (xs : List Item) → IsAhead false j xs → IsLast j (reversed xs)
IsLast-reversed j [] ahead = tt
IsLast-reversed j ((k, p) ∷ xs) (first, ahead) =
    IsLast-snoc j k p (reversed xs) (IsLast-reversed j xs ahead) first

IsSorted-snoc :
    (j : Bytes) (p : LogRecordPos) (xs : List Item)
    → IsSorted true xs
    → IsLast j xs
    → IsSorted true (xs ++ ((j, p) ∷ []))
IsSorted-snoc j p [] s all = (tt, tt)
IsSorted-snoc j p ((k, q) ∷ xs) (ahead, s) (first, all) =
    (IsAhead-snoc k j p xs ahead first, IsSorted-snoc j p xs s all)

reversed-IsSorted : (xs : List Item) → IsSorted false xs → IsSorted true (reversed xs)
reversed-IsSorted [] s = tt
reversed-IsSorted ((k, p) ∷ xs) (ahead, s) =
    IsSorted-snoc k p (reversed xs) (reversed-IsSorted xs s) (IsLast-reversed k xs ahead)

abbrev pub in_direction : Bool → BTree → List Item
in_direction true m = reversed m
in_direction false m = m

take_next-seek_sorted :
    (it : BTreeIterator) (key : Bytes) (n : ℕ)
    → IsSorted it.options.reverse it.items
    → length it.items ≤ n
    → take_next n (seek key it)
      ≡ filter_items
          (matches it.options.prefix)
          (filter_items (is_reached it.options.reverse key) it.items)
unfolding seek
take_next-seek_sorted it key n s enough =
    take_next-filter n (seek key it) short ∙ ap (filter_items (matches it.options.prefix)) placed
  where
    placed :
        drop (search_place it.options.reverse key it.items) it.items
        ≡ filter_items (is_reached it.options.reverse key) it.items
    placed = drop-search_place it.options.reverse key it.items s

    short : length (drop (search_place it.options.reverse key it.items) it.items) ≤ n
    short =
        rw placed
          (omega (arith, enough, length_filter (is_reached it.options.reverse key) it.items))

-- An iterator over a tree in order, after a seek, returns by enough calls of `next` just the
-- entries that match the prefix and do not come before the key in its direction, in that direction.
pub take_next-seek :
    (backward : Bool) (prefix key : Bytes) (m : BTree) (n : ℕ)
    → IsSorted false m
    → length (in_direction backward m) ≤ n
    → take_next n (seek key (iterator (record { prefix = prefix; reverse = backward }) m))
      ≡ filter_items
          (matches prefix)
          (filter_items (is_reached backward key) (in_direction backward m))
unfolding iterator
take_next-seek true prefix key m n s enough =
    take_next-seek_sorted (iterator (record { prefix = prefix; reverse = true }) m) key n
      (reversed-IsSorted m s) enough
take_next-seek false prefix key m n s enough =
    take_next-seek_sorted (iterator (record { prefix = prefix; reverse = false }) m) key n s enough
