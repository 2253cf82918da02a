-- ===== src/Redis/Ops/Taken.antt =====
-- redis/src/types.rs: a pop takes the element at an end of the sequence.
use bitcask_rs.Base.{
  ℕ, suc, ◌+◌, ◌≤◌, ◌≡◌, ◌≢◌, refl, ap, subst, ◌∙◌, Bool, false, true, some, none, List, [], Bytes,
  bytes_eq_refl, length, add64, sub64, arith,
}
use bitcask_rs.Errors.{ok}
use bitcask_rs.Fs.{Os, IsHealthy}
use bitcask_rs.Codec.{Codec}
use bitcask_rs.Index.{Indexer}
use bitcask_rs.Engine.{Engine}
use bitcask_rs.Engine.Append.{HasRoom}
use bitcask_rs.Engine.Refine.{
  Store, store_put, put_record, found, Refines, get-Refines, put-Refines,
}
use bitcask_rs.Data.LogRecord.Encode.{Fits, record_bytes}
use bitcask_rs.Redis.{Buf, Clock, list}
use bitcask_rs.Redis.Meta.{Metadate, MetaFits, encode_metadata}
use bitcask_rs.Redis.Ops.{metadata_from, find_metadata, popped, pop_index, pop_inner}
use bitcask_rs.Redis.Ops.Pops.{not_empty, positive_size, list_key_not_empty}
use bitcask_rs.Redis.Ops.Parts.{part_at, key_differs, Elements, Elements-put, Elements-last}
use bitcask_rs.Redis.Ops.Sequence.{with_end, length-with_end, IsListAt, found_meta}

module _ {Ix : Type 0} (ix : Indexer Ix) (c : Codec) (os : Os) (b : Buf) (clock : Clock)
    (key x : Bytes) (meta : Metadate) (m : Store) (xs : List Bytes) where
  abbrev new_meta : Bool → Metadate
  new_meta is_left = popped ix c os b clock is_left meta

  -- What a pop writes.
  abbrev pub after_pop : Bool → Store
  after_pop is_left = store_put key (encode_metadata c b (new_meta is_left)) m

  module _ (is_left : Bool) (h : IsListAt c b clock m key meta (with_end is_left x xs)) where
    size_before : meta.size ≡ suc (length xs)
    size_before = h.sized ∙ length-with_end is_left x xs

    marks_before : meta.tail ≡ meta.head + suc (length xs)
    marks_before = h.marks ∙ ap (λ n. meta.head + n) (length-with_end is_left x xs)

    kept_of :
        (lo : ℕ) (ys : List Bytes)
        → lo + length ys ≤ meta.tail
        → Elements b (part_at c b key meta.version) m lo ys
        → Elements b (part_at c b key meta.version) (after_pop is_left) lo ys
    kept_of lo ys short all =
        Elements-put b (part_at c b key meta.version) m key (encode_metadata c b (new_meta is_left))
          lo ys
          (λ i low high.
            key_differs c b key meta.version i (omega (arith, high, short, h.fits.tail_fits)))
          all

  -- The element at the end, and the others with the new metadata.
  record Taken (is_left : Bool) : Type 0 where
    taken_at : m (part_at c b key meta.version (pop_index ix c os b clock is_left meta)) ≡ some x
    text : b.is_utf8 x ≡ true
    fits : MetaFits (new_meta is_left)
    is_a_list : (new_meta is_left).data_type ≡ list
    lasting : (new_meta is_left).expire ≡ 0
    sized : (new_meta is_left).size ≡ length xs
    marks : (new_meta is_left).tail ≡ (new_meta is_left).head + length xs
    elements :
        Elements b
          (part_at c b key (new_meta is_left).version)
          (after_pop is_left)
          (new_meta is_left).head
          xs

  taken : (is_left : Bool) → IsListAt c b clock m key meta (with_end is_left x xs) → Taken is_left
  taken true h =
      let (here, text, all) = h.elements in
      let n = size_before true h in
      let tail_eq = marks_before true h in
      record {
        taken_at = here;
        text = text;
        fits = record {
          expire_fits = h.fits.expire_fits;
          version_fits = h.fits.version_fits;
          size_fits = omega arith;
          head_fits = omega arith;
          tail_fits = h.fits.tail_fits;
        };
        is_a_list = h.is_a_list;
        lasting = h.lasting;
        sized = omega (arith, n, h.fits.size_fits);
        marks = omega (arith, tail_eq, h.fits.tail_fits);
        elements =
            subst (λ lo. Elements b (part_at c b key meta.version) (after_pop true) lo xs)
              {x = suc meta.head} {y = add64 meta.head 1} (omega (arith, tail_eq, h.fits.tail_fits))
              (kept_of true h (suc meta.head) xs (omega (arith, tail_eq)) all);
      }
  taken false h =
      let (here, text, all) =
        Elements-last b (part_at c b key meta.version) m meta.head xs x h.elements in
      let n = size_before false h in
      let tail_eq = marks_before false h in
      record {
        taken_at =
            ap (λ i. m (part_at c b key meta.version i)) {x = sub64 meta.tail 1}
              {y = meta.head + length xs} (omega (arith, tail_eq, h.fits.tail_fits))
            ∙ here;
        text = text;
        fits = record {
          expire_fits = h.fits.expire_fits;
          version_fits = h.fits.version_fits;
          size_fits = omega arith;
          head_fits = h.fits.head_fits;
          tail_fits = omega arith;
        };
        is_a_list = h.is_a_list;
        lasting = h.lasting;
        sized = omega (arith, n, h.fits.size_fits);
        marks = omega (arith, tail_eq, h.fits.tail_fits);
        elements = kept_of false h meta.head xs (omega (arith, tail_eq)) all;
      }

  popped-IsListAt :
      (is_left : Bool) (later : Clock)
      → Taken is_left
      → IsListAt c b later (after_pop is_left) key (new_meta is_left) xs
  popped-IsListAt is_left later t =
      let here : after_pop is_left key ≡ some (encode_metadata c b (new_meta is_left)) =
        rw (bytes_eq_refl key) refl in
      record {
        is_found =
            ap (λ o. metadata_from c b later list (found o)) here
            ∙ found_meta c b later (new_meta is_left) t.fits t.is_a_list t.lasting;
        fits = t.fits;
        is_a_list = t.is_a_list;
        lasting = t.lasting;
        sized = t.sized;
        marks = t.marks;
        elements = t.elements;
      }

  -- On an engine that holds a map with a list, with a working operating system, a non-empty key and
  -- metadata that fits and has room: a pop at an end answers the element there, and the engine then
  -- holds the map with the list without it, at any later time.
  pub pop_inner-IsListAt :
      (e : Engine Ix) (is_left : Bool)
      → IsHealthy os
      → Refines ix c e m
      → key ≢ []
      → IsListAt c b clock m key meta (with_end is_left x xs)
      → Fits (put_record key (encode_metadata c b (new_meta is_left)))
      → HasRoom e
          (length (record_bytes c (put_record key (encode_metadata c b (new_meta is_left)))))
      → (e' : Engine Ix) × (pop_inner ix c os b clock key is_left e ≡ (ok (some x), e'))
        × Refines ix c e' (after_pop is_left)
        × ((later : Clock) → IsListAt c b later (after_pop is_left) key (new_meta is_left) xs)
  unfolding pop_inner find_metadata
  pop_inner-IsListAt e is_left healthy r ne h writes room =
      let t = taken is_left h in
      let (e', run, after) =
        put-Refines ix c os healthy e m key (encode_metadata c b (new_meta is_left)) r ne writes
          room in
      (
        e',
        rw
            (
              get-Refines ix c os healthy e m key r,
              not_empty key ne,
              h.is_found,
              positive_size meta.size (omega (arith, size_before is_left h)),
              get-Refines ix c os healthy e m
                  (part_at c b key meta.version (pop_index ix c os b clock is_left meta)) r,
              list_key_not_empty c b key meta.version (pop_index ix c os b clock is_left meta) ne,
              t.taken_at,
              run,
              t.text,
            )
            refl,
        after,
        λ later. popped-IsListAt is_left later t,
      )

module _ {Ix : Type 0} (ix : Indexer Ix) (c : Codec) (os : Os) (b : Buf) (clock : Clock) where
  -- A pop from an empty list answers none, and changes nothing.
  pub pop_inner_empty :
      (e : Engine Ix) (m : Store) (key : Bytes) (meta : Metadate) (is_left : Bool)
      → IsHealthy os
      → Refines ix c e m
      → key ≢ []
      → IsListAt c b clock m key meta []
      → pop_inner ix c os b clock key is_left e ≡ (ok none, e)
  unfolding pop_inner find_metadata
  pop_inner_empty e m key meta is_left healthy r ne h =
      rw (get-Refines ix c os healthy e m key r, not_empty key ne, h.is_found, h.sized) refl
