-- ===== src/Redis/Ops/Sequence.antt =====
-- redis/src/types.rs: a Redis list is a sequence, which pushes and pops change at its ends.
use bitcask_rs.Base.{
  ℕ, suc, ◌+◌, ◌≤◌, ◌<◌, ◌≡◌, ◌≢◌, refl, sym, ap, subst, ◌∙◌, Bool, false, true, some, none, List,
  [], ◌∷◌, ◌++◌, Bytes, bytes_eq_refl, length, length-append, u64_mod, u32_mod, sub64, as_u32,
  arith,
}
use bitcask_rs.Errors.{ok, is_key_not_found}
use bitcask_rs.Codec.{Codec}
use bitcask_rs.Fs.{Os}
use bitcask_rs.Index.{Indexer}
use bitcask_rs.Engine.Refine.{Store, store_put, found}
use bitcask_rs.Redis.{u128_mod, Buf, Clock, list}
use bitcask_rs.Redis.Meta.{Metadate, MetaFits, encode_metadata}
use bitcask_rs.Redis.Ops.{metadata_from, fresh_metadata, pushed, push_index}
use bitcask_rs.Redis.Ops.Pops.{metadata_from-list}
use bitcask_rs.Redis.Ops.Parts.{
  part_at, parts_differ, key_differs, part_differs, Elements, Elements-put, Elements-snoc,
}

-- A sequence with an element at an end: the left one or the right one.
abbrev pub with_end : Bool → Bytes → List Bytes → List Bytes
with_end true x xs = x ∷ xs
with_end false x xs = xs ++ (x ∷ [])

pub length-with_end :
    (is_left : Bool) (x : Bytes) (xs : List Bytes)
    → length (with_end is_left x xs) ≡ suc (length xs)
length-with_end true x xs = refl
length-with_end false x xs = length-append xs (x ∷ []) ∙ omega arith

-- The mark of the end can move on.
abbrev pub HasMark : Bool → Metadate → Type 0
HasMark true meta = 0 < meta.head
HasMark false meta = meta.tail + 1 < u64_mod

module _ (c : Codec) (b : Buf) where
  -- The map has a list under the key: the metadata that is found at this time, and the elements
  -- between its marks.
  pub record IsListAt (clock : Clock) (m : Store) (key : Bytes) (meta : Metadate) (xs : List Bytes)
      : Type 0 where
    pub is_found : metadata_from c b clock list (found (m key)) ≡ ok meta
    pub fits : MetaFits meta
    pub is_a_list : meta.data_type ≡ list
    pub lasting : meta.expire ≡ 0
    pub sized : meta.size ≡ length xs
    pub marks : meta.tail ≡ meta.head + length xs
    pub elements : Elements b (part_at c b key meta.version) m meta.head xs

  -- A key that the map does not have is an empty list.
  pub missing-IsListAt :
      (clock : Clock) (m : Store) (key : Bytes)
      → m key ≡ none
      → clock.made_at < u128_mod
      → IsListAt clock m key (fresh_metadata list clock.made_at) []
  unfolding metadata_from fresh_metadata is_key_not_found
  missing-IsListAt clock m key missing in_range = record {
    is_found = rw missing refl;
    fits = record {
      expire_fits = omega arith;
      version_fits = in_range;
      size_fits = omega arith;
      head_fits = omega arith;
      tail_fits = omega arith;
    };
    is_a_list = refl;
    lasting = refl;
    sized = refl;
    marks = omega arith;
    elements = tt;
  }

  pub found_meta :
      (clock : Clock) (meta : Metadate)
      → MetaFits meta
      → meta.data_type ≡ list
      → meta.expire ≡ 0
      → metadata_from c b clock list (ok (encode_metadata c b meta)) ≡ ok meta
  found_meta clock meta fits is_a_list lasting =
      metadata_from-list c b clock meta fits is_a_list (rw lasting refl)

module _ {Ix : Type 0} (ix : Indexer Ix) (c : Codec) (os : Os) (b : Buf) (clock : Clock)
    (key element : Bytes) (meta : Metadate) (m : Store) where
  -- What a push writes: the metadata, and the element.
  abbrev with_meta : Bool → Store
  with_meta is_left = store_put key (encode_metadata c b (pushed ix c os b clock is_left meta)) m

  abbrev pub after_push : Bool → Store
  after_push is_left =
      store_put (part_at c b key meta.version (push_index ix c os b clock is_left meta)) element
        (with_meta is_left)

  module _ (xs : List Bytes) (h : IsListAt c b clock m key meta xs) where
    kept-Elements :
        (is_left : Bool)
        → push_index ix c os b clock is_left meta < u64_mod
        → ((i : ℕ)
            → meta.head ≤ i
            → i < meta.head + length xs
            → push_index ix c os b clock is_left meta ≢ i)
        → Elements b (part_at c b key meta.version) (after_push is_left) meta.head xs
    kept-Elements is_left in_range other =
        let at = part_at c b key meta.version in
        Elements-put b at (with_meta is_left) (at (push_index ix c os b clock is_left meta)) element
          meta.head xs
          (λ i low high.
            parts_differ c b key meta.version (push_index ix c os b clock is_left meta) i in_range
              (omega (arith, high, h.marks, h.fits.tail_fits)) (other i low high))
          (Elements-put b at m key (encode_metadata c b (pushed ix c os b clock is_left meta))
            meta.head xs
            (λ i low high.
              key_differs c b key meta.version i (omega (arith, high, h.marks, h.fits.tail_fits)))
            h.elements)

    pushed-Elements :
        (is_left : Bool)
        → HasMark is_left meta
        → b.is_utf8 element ≡ true
        → Elements b
            (part_at c b key meta.version)
            (after_push is_left)
            (pushed ix c os b clock is_left meta).head
            (with_end is_left element xs)
    pushed-Elements true has_mark text = (
      rw bytes_eq_refl refl,
      text,
      subst (λ lo. Elements b (part_at c b key meta.version) (after_push true) lo xs)
          {x = meta.head} {y = suc (sub64 meta.head 1)} (omega (arith, has_mark, h.fits.head_fits))
          (kept-Elements true (omega arith)
            (λ i low high same. omega (arith, has_mark, h.fits.head_fits, low, same))),
    )
    pushed-Elements false has_mark text =
        Elements-snoc b (part_at c b key meta.version) (after_push false) meta.head xs element
          (kept-Elements false h.fits.tail_fits
            (λ i low high same. omega (arith, h.marks, high, same)))
          (rw (← h.marks, bytes_eq_refl) refl) text

    pushed-MetaFits :
        (is_left : Bool)
        → HasMark is_left meta
        → suc (length xs) < u32_mod
        → MetaFits (pushed ix c os b clock is_left meta)
    pushed-MetaFits true has_mark short = record {
      expire_fits = h.fits.expire_fits;
      version_fits = h.fits.version_fits;
      size_fits = omega arith;
      head_fits = omega arith;
      tail_fits = h.fits.tail_fits;
    }
    pushed-MetaFits false has_mark short = record {
      expire_fits = h.fits.expire_fits;
      version_fits = h.fits.version_fits;
      size_fits = omega arith;
      head_fits = h.fits.head_fits;
      tail_fits = omega arith;
    }

    pub push_index_fits : (is_left : Bool) → push_index ix c os b clock is_left meta < u64_mod
    push_index_fits true = omega arith
    push_index_fits false = h.fits.tail_fits

    pushed_marks :
        (is_left : Bool)
        → HasMark is_left meta
        → (pushed ix c os b clock is_left meta).tail
          ≡ (pushed ix c os b clock is_left meta).head + suc (length xs)
    pushed_marks true has_mark = omega (arith, has_mark, h.marks, h.fits.head_fits)
    pushed_marks false has_mark = omega (arith, has_mark, h.marks)

    pushed_kind :
        (is_left : Bool)
        → ((pushed ix c os b clock is_left meta).data_type ≡ list)
          × ((pushed ix c os b clock is_left meta).expire ≡ 0)
          × ((pushed ix c os b clock is_left meta).size ≡ as_u32 (meta.size + 1))
    pushed_kind true = (h.is_a_list, h.lasting, refl)
    pushed_kind false = (h.is_a_list, h.lasting, refl)

    pushed_here :
        (is_left : Bool)
        → after_push is_left key ≡ some (encode_metadata c b (pushed ix c os b clock is_left meta))
    pushed_here is_left =
        rw
          (
            part_differs c b key meta.version (push_index ix c os b clock is_left meta)
                (push_index_fits is_left),
            bytes_eq_refl key,
          )
          refl

    pub pushed-IsListAt :
        (is_left : Bool) (later : Clock)
        → HasMark is_left meta
        → suc (length xs) < u32_mod
        → b.is_utf8 element ≡ true
        → IsListAt c b later
            (after_push is_left)
            key
            (pushed ix c os b clock is_left meta)
            (with_end is_left element xs)
    pushed-IsListAt is_left later has_mark short text =
        let (is_a_list, lasting, sized) = pushed_kind is_left in
        let fits = pushed-MetaFits is_left has_mark short in
        record {
          is_found =
              ap (λ o. metadata_from c b later list (found o)) (pushed_here is_left)
              ∙ found_meta c b later (pushed ix c os b clock is_left meta) fits is_a_list lasting;
          fits = fits;
          is_a_list = is_a_list;
          lasting = lasting;
          sized = omega (arith, sized, h.sized, short, length-with_end is_left element xs);
          marks =
              pushed_marks is_left has_mark
              ∙ ap (λ n. (pushed ix c os b clock is_left meta).head + n)
                  (sym (length-with_end is_left element xs));
          elements = elements_of is_left has_mark text;
        }
      where
        elements_of :
            (is_left : Bool)
            → HasMark is_left meta
            → b.is_utf8 element ≡ true
            → Elements b
                (part_at c b key (pushed ix c os b clock is_left meta).version)
                (after_push is_left)
                (pushed ix c os b clock is_left meta).head
                (with_end is_left element xs)
        elements_of true has_mark text = pushed-Elements true has_mark text
        elements_of false has_mark text = pushed-Elements false has_mark text
