-- ===== src/Iterator/Scan.antt =====
-- bitcask-rs/src/iterator.rs: what an engine's iterator returns after a `seek`, in either direction.
use bitcask_rs.Base.{
  ℕ, zero, suc, ◌≤◌, ◌≡◌, refl, sym, ap, subst, ◌∙◌, Bool, true, false, Bool-cases, inl, inr,
  Option, none, some, List, [], ◌∷◌, ◌++◌, Bytes, All, length, drop,
}
use bitcask_rs.Errors.{Result, ok, ◌>>=◌}
use bitcask_rs.Codec.{Codec}
use bitcask_rs.Options.{IteratorOptions}
use bitcask_rs.Fs.{Os, IsHealthy}
use bitcask_rs.Index.BTree.{BTree, btree_indexer, get as tree_get}
use bitcask_rs.Index.Sorted.{IsSorted}
use bitcask_rs.Index.Iterate.{
  Item, BTreeIterator, iterator, reversed, matches, seek as index_seek, next, next_from, cons_item,
  take_next, filter_items, drop-cons,
}
use bitcask_rs.Index.Iterate.Seek.{in_direction, is_reached, take_next-seek}
use bitcask_rs.Engine.{Engine}
use bitcask_rs.Engine.Files.{managers}
use bitcask_rs.Engine.Stored.{get_value-Stored}
use bitcask_rs.Engine.Refine.{Store, Refines}
use bitcask_rs.Iterator.{Pair, iter, seek, next_pair, pair_at}
use bitcask_rs.Iterator.Fold.{pairs_of, get-drop}

All-drop {ℓ κ} : {A : Type ℓ} (P : A → Type κ) (i : ℕ) (xs : List A) → All P xs → All P (drop i xs)
All-drop P zero [] all = all
All-drop P zero (x ∷ xs) all = all
All-drop P (suc i) [] all = tt
All-drop P (suc i) (x ∷ xs) (p, all) = All-drop P i xs all

All-snoc {ℓ κ} :
    {A : Type ℓ} (P : A → Type κ) (xs : List A) (x : A) → All P xs → P x → All P (xs ++ (x ∷ []))
All-snoc P [] x all p = (p, tt)
All-snoc P (y ∷ xs) x (q, all) p = (q, All-snoc P xs x all p)

All-reversed {κ} : (P : Item → Type κ) (xs : List Item) → All P xs → All P (reversed xs)
All-reversed P [] all = tt
All-reversed P (x ∷ xs) (p, all) = All-snoc P (reversed xs) x (All-reversed P xs all) p

-- An item, if there is one, has the property.
abbrev IsSuch {κ} : (Item → Type κ) → Option Item → Type κ
IsSuch P none = Unit
IsSuch P (some item) = P item

next_from-IsSuch {κ} :
    (P : Item → Type κ) (prefix : Bytes) (xs : List Item) (i : ℕ)
    → All P xs
    → IsSuch P (next_from prefix xs i).0
unfolding next_from
next_from-IsSuch P prefix [] i all = tt
next_from-IsSuch P prefix (x ∷ xs) i (p, all) = elim (Bool-cases (matches prefix x)) [
  | inl taken ↦ rw taken p
  | inr passed ↦ rw passed (next_from-IsSuch P prefix xs (suc i) all)
]

module _ (c : Codec) (os : Os) (e : Engine BTree) where
  abbrev collected : Result (Option Pair) → Result (List Pair) → Result (List Pair)
  collected r rest = r >>= λ o. elim o [ none ↦ rest | some p ↦ rest >>= λ ps. ok (p ∷ ps) ]

  -- What `n` calls of `next` return.
  unfoldable pub take_pairs : ℕ → BTreeIterator → Result (List Pair)
  unfolding next_pair
  take_pairs zero it = ok []
  take_pairs (suc n) it =
      let (r, it') = next_pair c os e it in let rest = take_pairs n it' in collected r rest

  -- The item is an entry of the engine's index.
  abbrev IsEntry : Item → Type 0
  IsEntry item = tree_get item.0 e.index ≡ some item.1

  module _ (healthy : IsHealthy os) (m : Store) (h : Refines btree_indexer c e m) where
    one_more :
        (o : Option Item) (items : List Item)
        → IsSuch IsEntry o
        → collected (pair_at c os e o) (ok (pairs_of m items)) ≡ ok (pairs_of m (cons_item o items))
    one_more none items is = refl
    one_more (some (key, pos)) items is =
        let (value, held, st) = h.present key pos is in
        rw (get_value-Stored c os e pos value healthy (managers h.files) st, held) refl

    take_pairs-take_next :
        (n : ℕ) (it : BTreeIterator)
        → All IsEntry it.items
        → take_pairs n it ≡ ok (pairs_of m (take_next n it))
    unfolding take_pairs take_next next_pair next
    take_pairs-take_next zero it all = refl
    take_pairs-take_next (suc n) it all =
        ap (collected (pair_at c os e (next it).0)) (take_pairs-take_next n (next it).1 all)
        ∙ one_more (next it).0 (take_next n (next it).1) (
            next_from-IsSuch IsEntry it.options.prefix (drop it.curr_index it.items) it.curr_index
              (All-drop IsEntry it.curr_index it.items all))

    entries_from :
        (i : ℕ) (xs : List Item) → IsSorted false e.index → drop i e.index ≡ xs → All IsEntry xs
    entries_from i [] s at = tt
    entries_from i ((key, pos) ∷ xs) s at = (
      get-drop key pos i e.index xs s at,
      entries_from (suc i) xs s (drop-cons i e.index xs (key, pos) at),
    )

    entries_in :
        (backward : Bool) → All IsEntry e.index → All IsEntry (in_direction backward e.index)
    entries_in true all = All-reversed IsEntry e.index all
    entries_in false all = all

    items-iter :
        (options : IteratorOptions) → (iter options e).items ≡ in_direction options.reverse e.index
    unfolding iter iterator
    items-iter options = elim (Bool-cases options.reverse) [
      | inl back ↦ rw back refl
      | inr forth ↦ rw forth refl
    ]

    -- On an engine that holds a map, with the keys of its tree in order and a working operating
    -- system, an iterator in either direction, after a seek, returns by enough calls of `next` the
    -- map's pairs at just those keys that match the prefix and do not come before the key in its
    -- direction, in that direction.
    pub take_pairs-seek :
        (backward : Bool) (prefix key : Bytes) (n : ℕ)
        → IsSorted false e.index
        → length (in_direction backward e.index) ≤ n
        → take_pairs n (seek key (iter (record { prefix = prefix; reverse = backward }) e))
          ≡ ok (
              pairs_of m (
                filter_items
                  (matches prefix)
                  (filter_items (is_reached backward key) (in_direction backward e.index))))
    unfolding seek iter index_seek
    take_pairs-seek backward prefix key n s enough =
        let options : IteratorOptions = record { prefix = prefix; reverse = backward } in
        take_pairs-take_next n (seek key (iter options e)) (
          subst (λ items. All IsEntry items) (sym (items-iter options))
            (entries_in backward (entries_from 0 e.index s refl)))
        ∙ ap (λ items. ok (pairs_of m items))
            (take_next-seek backward prefix key e.index n s enough)
