-- ===== src/Index/BPlusTree/Seek.antt =====
-- bitcask-rs/src/index/bptree.rs: what the iterator of the B+ tree returns.
use bitcask_rs.Base.{
  ℕ, zero, suc, ◌≡◌, refl, sym, ap, ◌∙◌, Bool, true, false, Option, none, some, Option-cases,
  Bool-cases, inl, inr, some-inj, none-ne-some, List, [], ◌∷◌, Bytes, bytes_eq, bytes_eq_iff,
  bytes_eq_refl, length, arith,
}
use bitcask_rs.Errors.{ok}
use bitcask_rs.Codec.{Codec}
use bitcask_rs.Data.LogRecord.{LogRecordPos, encode_pos, decode_log_record_pos}
use bitcask_rs.Data.LogRecord.Encode.{decode-encode_pos}
use bitcask_rs.Index.BTree.{get as tree_get}
use bitcask_rs.Index.Sorted.{bytes_lt_irrefl, IsSorted, IsAhead}
use bitcask_rs.Index.Iterate.{
  Item, BTreeIterator, matches, cons_item, filter_items, take_next as tree_take,
  iterator as tree_iterator, seek as tree_seek, next as tree_next,
}
use bitcask_rs.Index.Iterate.Seek.{in_direction, is_reached, take_next-seek}
use bitcask_rs.Index.BPlusTree.{
  DbAnswers, Bucket, decode_items, over_items, BPlusTreeIterator, iterator, seek, next,
}
use bitcask_rs.Index.BPlusTree.Represents.{PosFits, Positions, Represents, encoded}

-- What `n` calls of `next` return.
unfoldable pub take_next : ℕ → BPlusTreeIterator → List Item
unfolding next
take_next zero it = []
take_next (suc n) it = let (item, it') = next it in cons_item item (take_next n it')

-- The BTree's iterator at the same place.
abbrev pub as_btree : BPlusTreeIterator → BTreeIterator
as_btree it = record { items = it.items; curr_index = it.curr_index; options = it.options }

pub take_next-as_btree :
    (n : ℕ) (it : BPlusTreeIterator) → take_next n it ≡ tree_take n (as_btree it)
unfolding take_next tree_take next tree_next
take_next-as_btree zero it = refl
take_next-as_btree (suc n) it = ap (cons_item (next it).0) (take_next-as_btree n (next it).1)

-- A key that is not there is not ahead of itself.
ahead_differs :
    (k j v : Bytes) (kvs : List (Bytes × Bytes))
    → IsAhead false k kvs
    → tree_get j kvs ≡ some v
    → bytes_eq k j ≡ false
unfolding tree_get
ahead_differs k j v [] ahead found = cc
ahead_differs k j v ((i, w) ∷ kvs) (first, ahead) found = elim (Bool-cases (bytes_eq i j)) [
  | inl here ↦ elim (Bool-cases (bytes_eq k j)) [
    | inl same ↦
        absurd (cc (bytes_lt_irrefl k, first, (bytes_eq_iff i j).0 here, (bytes_eq_iff k j).0 same))
    | inr other ↦ other
  ]
  | inr there ↦ ahead_differs k j v kvs ahead (rw there at found)
]

module _ {D : Type 0} (db : Bucket D) (c : Codec) (a : DbAnswers) (f : Positions)
    (fits : (k : Bytes) (p : LogRecordPos) → f k ≡ some p → PosFits p) where
  -- The entries hold the encoded positions of the map.
  abbrev AreEncoded : List (Bytes × Bytes) → Type 0
  AreEncoded kvs = (k v : Bytes) → tree_get k kvs ≡ some v → encoded db c (f k) ≡ some v

  -- The decoded entries: in the order of the entries, with the positions of the map.
  record Decoded (kvs : List (Bytes × Bytes)) (items : List Item) : Type 0 where
    pub decoded : decode_items db c a kvs ≡ ok items
    pub ahead : (k : Bytes) → IsAhead false k kvs → IsAhead false k items
    pub sorted : IsSorted false items
    pub absent : (k : Bytes) → tree_get k kvs ≡ none → tree_get k items ≡ none
    pub present : (k v : Bytes) → tree_get k kvs ≡ some v → tree_get k items ≡ f k

  encoded-some :
      (o : Option LogRecordPos) (v : Bytes)
      → encoded db c o ≡ some v
      → (p : LogRecordPos) × (o ≡ some p) × (v ≡ encode_pos c p)
  encoded-some none v h = cc
  encoded-some (some p) v h = (p, refl, sym (some-inj h))

  decode_items_step :
      (k v : Bytes) (p : LogRecordPos) (kvs : List (Bytes × Bytes)) (items : List Item)
      → decode_log_record_pos c v ≡ ok p
      → decode_items db c a kvs ≡ ok items
      → decode_items db c a ((k, v) ∷ kvs) ≡ ok ((k, p) ∷ items)
  unfolding decode_items
  decode_items_step k v p kvs items here rest = rw (here, rest) refl

  decode_items-Decoded :
      (kvs : List (Bytes × Bytes))
      → IsSorted false kvs
      → AreEncoded kvs
      → (items : List Item) × Decoded kvs items
  unfolding decode_items tree_get
  decode_items-Decoded [] s all = (
    [],
    record {
      decoded = refl;
      ahead = λ k h. tt;
      sorted = tt;
      absent = λ k h. refl;
      present = λ k v. cc;
    },
  )
  decode_items-Decoded ((k, v) ∷ kvs) (ahead, s) all =
      let (p, here, same) = encoded-some (f k) v (all k v (rw (bytes_eq_refl k) refl)) in
      let r = fits k p here in
      let (items, d) =
        decode_items-Decoded kvs s
          (λ j w found. all j w (rw (ahead_differs k j w kvs ahead found) found)) in
      (
        (k, p) ∷ items,
        record {
          decoded =
              decode_items_step k v p kvs items
                (ap (decode_log_record_pos c) same
                  ∙ decode-encode_pos c p r.id_fits r.offset_fits r.size_fits)
                d.decoded;
          ahead = λ j h. (h.0, d.ahead j h.1);
          sorted = (d.ahead k ahead, d.sorted);
          absent = λ j h. elim (Bool-cases (bytes_eq k j)) [
            | inl mine ↦ absurd (none-ne-some (rw mine at h) refl)
            | inr other ↦ rw other (d.absent j (rw other at h))
          ];
          present = λ j w h. elim (Bool-cases (bytes_eq k j)) [
            | inl mine ↦ rw (mine, ← (bytes_eq_iff k j).0 mine, here) refl
            | inr other ↦ rw other (d.present j w (rw other at h))
          ];
        },
      )

-- The entries of a map in the order of their keys.
pub IsEntriesOf : List Item → Positions → Type 0
IsEntriesOf items f = IsSorted false items × ((k : Bytes) → tree_get k items ≡ f k)

module _ {D : Type 0} (db : Bucket D) (c : Codec) (a : DbAnswers) (tx : a.tx_ok ≡ true)
    (bucket : a.bucket_ok ≡ true) where
  cursor-AreEncoded :
      (d : D) (f : Positions)
      → Represents db c d f
      → (k v : Bytes) → tree_get k (db.cursor d) ≡ some v
      → encoded db c (f k) ≡ some v
  cursor-AreEncoded d f r k v found = sym (r.same k) ∙ sym (db.get_kv-cursor k d) ∙ found

  not_there : (o : Option LogRecordPos) → none ≡ encoded db c o → o ≡ none
  not_there none h = refl
  not_there (some p) h = cc

  entries :
      (d : D) (f : Positions)
      → Represents db c d f
      → (items : List Item) × (decode_items db c a (db.cursor d) ≡ ok items) × IsEntriesOf items f
  unfolding IsEntriesOf
  entries d f r =
      let (items, h) =
        decode_items-Decoded db c a f r.fits (db.cursor d) (db.cursor-IsSorted d)
          (cursor-AreEncoded d f r) in
      (
        items,
        h.decoded,
        (
          h.sorted,
          λ k. elim (Option-cases (tree_get k (db.cursor d))) [
            | inl gone ↦
                h.absent k gone ∙ sym (not_there (f k) (sym gone ∙ db.get_kv-cursor k d ∙ r.same k))
            | inr (v, found) ↦ h.present k v found
          ],
        ),
      )

  -- Where the transaction and the bucket are there, an iterator over a bucket that stands for a map
  -- is made, its entries are those of the map in the order of their keys, and after a seek calls of
  -- `next`, as many as there are entries, return just those that match the prefix and do not come
  -- before the key in its direction, in that direction.
  pub bptree-seek :
      (d : D) (f : Positions) (backward : Bool) (prefix key : Bytes)
      → Represents db c d f
      → (it : BPlusTreeIterator) × (items : List Item) × (iterator db c a
            (record { prefix = prefix; reverse = backward })
            d
          ≡ ok it)
        × IsEntriesOf items f
        × (take_next (length (in_direction backward items)) (seek key it)
            ≡ filter_items
                (matches prefix)
                (filter_items (is_reached backward key) (in_direction backward items)))
  unfolding iterator seek tree_iterator tree_seek IsEntriesOf
  bptree-seek d f backward prefix key r =
      let (items, decoded, of_map) = entries d f r in
      let it = over_items db c a (record { prefix = prefix; reverse = backward }) items in
      let n = length (in_direction backward items) in
      (
        it,
        items,
        rw (tx, bucket, decoded) refl,
        of_map,
        take_next-as_btree n (seek key it)
            ∙ take_next-seek backward prefix key items n of_map.0 (omega arith),
      )
