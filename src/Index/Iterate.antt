-- ===== src/Index/Iterate.antt =====
-- bitcask-rs/src/index/btree.rs: the iterator, which walks a copy of the entries.
pub mod Seek
use bitcask_rs.Base.{
  ℕ, zero, suc, ◌+◌, ◌<◌, ◌≤◌, ◌==◌, ltb, ◌≡◌, refl, sym, ap, ◌∙◌, Bool, true, false, not, ◌&&◌,
  ◌||◌, if◌then◌else◌, Bool-cases, inl, inr, Option, none, some, List, [], ◌∷◌, ◌++◌, Bytes, length,
  drop, All, arith,
}
use bitcask_rs.Options.{IteratorOptions, is_empty}
use bitcask_rs.Data.LogRecord.{LogRecordPos}
use bitcask_rs.Index.BTree.{BTree}
use bitcask_rs.Index.Sorted.{comes_before, before_trans, IsAhead, IsSorted}

abbrev pub Item : Type 0
Item = Bytes × LogRecordPos

pub record BTreeIterator : Type 0 where
  pub items : List Item
  pub curr_index : ℕ
  pub options : IteratorOptions

abbrev pub reversed : List Item → List Item
reversed [] = []
reversed (x ∷ xs) = reversed xs ++ (x ∷ [])

-- `starts_with`
abbrev pub starts_with : Bytes → Bytes → Bool
starts_with bs [] = true
starts_with [] (p ∷ ps) = false
starts_with (b ∷ bs) (p ∷ ps) = let rest = starts_with bs ps in if b == p then rest else false

abbrev pub matches : Bytes → Item → Bool
matches prefix (k, p) = is_empty prefix || starts_with k prefix

unfoldable pub iterator : IteratorOptions → BTree → BTreeIterator
iterator opts m = record {
  items = if opts.reverse then reversed m else m;
  curr_index = 0;
  options = opts;
}

unfoldable pub rewind : BTreeIterator → BTreeIterator
rewind it = record it { curr_index = 0 }

-- `binary_search_by` on items in order and without equal keys: the place of the key, or the place
-- where it would stand, which is behind all items that come before it.
unfoldable pub search_place : Bool → Bytes → List Item → ℕ
search_place backward key [] = 0
search_place backward key ((k, p) ∷ items) =
    let rest = search_place backward key items in
    if comes_before backward k key then suc rest else 0

unfoldable pub seek : Bytes → BTreeIterator → BTreeIterator
seek key it = record it { curr_index = search_place it.options.reverse key it.items }

-- The loop of `next` from an index on, over the items that stand there.
unfoldable pub next_from : Bytes → List Item → ℕ → Option Item × ℕ
next_from prefix [] i = (none, i)
next_from prefix (item ∷ items) i =
    let rest = next_from prefix items (suc i) in
    if matches prefix item then (some item, suc i) else rest

unfoldable pub next : BTreeIterator → Option Item × BTreeIterator
unfolding next_from
next it =
    let (item, i) = next_from it.options.prefix (drop it.curr_index it.items) it.curr_index in
    (item, record it { curr_index = i })

abbrev pub cons_item : Option Item → List Item → List Item
cons_item none items = items
cons_item (some item) items = item ∷ items

-- What `n` calls of `next` return.
unfoldable pub take_next : ℕ → BTreeIterator → List Item
unfolding next
take_next zero it = []
take_next (suc n) it = let (item, it') = next it in cons_item item (take_next n it')

abbrev pub filter_items : (Item → Bool) → List Item → List Item
filter_items f [] = []
filter_items f (x ∷ xs) = let rest = filter_items f xs in if f x then x ∷ rest else rest

drop_none {ℓ} : {A : Type ℓ} (i : ℕ) (xs : List A) → length xs ≤ i → drop i xs ≡ []
drop_none zero [] h = refl
drop_none zero (x ∷ xs) h = absurd (omega arith)
drop_none (suc i) [] h = refl
drop_none (suc i) (x ∷ xs) h = drop_none i xs (omega (arith, h))

pub drop-cons {ℓ} :
    {A : Type ℓ} (i : ℕ) (xs ys : List A) (x : A) → drop i xs ≡ x ∷ ys → drop (suc i) xs ≡ ys
drop-cons zero [] ys x h = cc
drop-cons zero (z ∷ xs) ys x h = cc
drop-cons (suc i) [] ys x h = cc
drop-cons (suc i) (z ∷ xs) ys x h = drop-cons i xs ys x h

-- What one call of `next` returns, and what is left behind it.
next_from-filter :
    (prefix : Bytes) (xs : List Item) (i : ℕ) (items : List Item)
    → drop i items ≡ xs
    → filter_items (matches prefix) xs
      ≡ cons_item
          (next_from prefix xs i).0
          (filter_items (matches prefix) (drop (next_from prefix xs i).1 items))
unfolding next_from
next_from-filter prefix [] i items h = rw h refl
next_from-filter prefix (x ∷ xs) i items h = elim (Bool-cases (matches prefix x)) [
  | inl taken ↦ rw (taken, drop-cons i items xs x h) refl
  | inr passed ↦ rw passed (next_from-filter prefix xs (suc i) items (drop-cons i items xs x h))
]

next_from_shorter :
    (prefix : Bytes) (xs : List Item) (i n : ℕ) (items : List Item)
    → drop i items ≡ xs
    → length xs ≤ suc n
    → length (drop (next_from prefix xs i).1 items) ≤ n
unfolding next_from
next_from_shorter prefix [] i n items h short = rw h (omega arith)
next_from_shorter prefix (x ∷ xs) i n items h short = elim (Bool-cases (matches prefix x)) [
  | inl taken ↦ rw (taken, drop-cons i items xs x h) (omega (arith, short))
  | inr passed ↦ rw passed (
      next_from_shorter prefix xs (suc i) n items (drop-cons i items xs x h) (omega (arith, short)))
]

filter_none : (f : Item → Bool) (xs : List Item) → length xs ≤ 0 → [] ≡ filter_items f xs
filter_none f [] h = refl
filter_none f (x ∷ xs) h = absurd (omega arith)

-- Calls of `next` return the items from the index on that match the prefix, in order.
pub take_next-filter :
    (n : ℕ) (it : BTreeIterator)
    → length (drop it.curr_index it.items) ≤ n
    → take_next n it ≡ filter_items (matches it.options.prefix) (drop it.curr_index it.items)
unfolding take_next next
take_next-filter zero it h = filter_none (matches it.options.prefix) (drop it.curr_index it.items) h
take_next-filter (suc n) it h =
    let xs = drop it.curr_index it.items in
    let step = next_from it.options.prefix xs it.curr_index in
    ap (cons_item step.0) (
      take_next-filter n (record it { curr_index = step.1 })
        (next_from_shorter it.options.prefix xs it.curr_index n it.items refl h))
    ∙ sym (next_from-filter it.options.prefix xs it.curr_index it.items refl)

-- After `rewind`, calls of `next` return all items that match the prefix, in order, wherever the
-- iterator stood.
pub take_next-rewind :
    (n : ℕ) (it : BTreeIterator)
    → length it.items ≤ n
    → take_next n (rewind it) ≡ filter_items (matches it.options.prefix) it.items
unfolding rewind
take_next-rewind n it h = take_next-filter n (rewind it) h
