-- ===== src/Redis/Ops/Push.antt =====
-- redis/src/types.rs: `lpush` and `rpush` put an element at an end of the sequence.
use bitcask_rs.Base.{
  suc, ◌+◌, ◌<◌, ◌≡◌, ◌≢◌, ap, ◌∙◌, Bool, true, List, [], ◌∷◌, Bytes, length, u64_mod, u32_mod,
  arith,
}
use bitcask_rs.Errors.{ok}
use bitcask_rs.Fs.{Os, IsHealthy}
use bitcask_rs.Codec.{Codec}
use bitcask_rs.Index.{Indexer}
use bitcask_rs.Options.{default_write_batch_options}
use bitcask_rs.Engine.{Engine}
use bitcask_rs.Engine.Refine.{Store, Refines, get-Refines}
use bitcask_rs.Data.LogRecord.{LogRecord, normal}
use bitcask_rs.Data.LogRecord.Encode.{Fits, record_bytes}
use bitcask_rs.Batch.{Pending, WriteBatch, new_write_batch, pending_insert, batch_put}
use bitcask_rs.Batch.Log.{fin_record}
use bitcask_rs.Batch.Items.{IsBatchOf, items_bytes, HasRoomFor}
use bitcask_rs.Batch.Commit.{commit-Refines}
use bitcask_rs.Redis.{Buf, Clock}
use bitcask_rs.Redis.Meta.{Metadate, encode_metadata}
use bitcask_rs.Redis.Ops.{find_metadata, pushed, push_index, push_inner}
use bitcask_rs.Redis.Ops.Pops.{not_empty, list_key_not_empty}
use bitcask_rs.Redis.Ops.Parts.{part_at, key_differs}
use bitcask_rs.Redis.Ops.Sequence.{
  with_end, length-with_end, HasMark, IsListAt, after_push, push_index_fits, pushed-IsListAt,
}

module _ {Ix : Type 0} (ix : Indexer Ix) (c : Codec) (os : Os) (b : Buf) (clock : Clock)
    (key element : Bytes) (meta : Metadate) (m : Store) (xs : List Bytes) (is_left : Bool) where
  abbrev meta_record : LogRecord
  meta_record = record {
    key = key;
    value = encode_metadata c b (pushed ix c os b clock is_left meta);
    rec_type = normal;
  }

  abbrev part_key : Bytes
  part_key = part_at c b key meta.version (push_index ix c os b clock is_left meta)

  abbrev part_record : LogRecord
  part_record = record { key = part_key; value = element; rec_type = normal }

  -- What the push commits.
  abbrev pub push_items : Pending
  push_items = (key, meta_record) ∷ ((part_key, part_record) ∷ [])

  abbrev push_batch : WriteBatch
  push_batch = record { pending_write = push_items; options = default_write_batch_options }

  -- On an engine that holds a map with a list, perhaps an empty one, with a working operating
  -- system, a non-empty key, an element in UTF-8, a mark that can move, a length that fits, a batch
  -- that can be started, and records and a number that fit and have room: a push at an end answers
  -- the new length, and the engine then holds the map with the list with the element at that end, at
  -- any later time.
  pub push_inner-IsListAt :
      (e : Engine Ix)
      → IsHealthy os
      → Refines ix c e m
      → key ≢ []
      → IsListAt c b clock m key meta xs
      → HasMark is_left meta
      → suc (length xs) < u32_mod
      → b.is_utf8 element ≡ true
      → new_write_batch default_write_batch_options e
        ≡ ok (record { pending_write = []; options = default_write_batch_options })
      → e.seq_no < u64_mod
      → IsBatchOf c e.seq_no push_items
      → Fits (fin_record c e.seq_no)
      → HasRoomFor e 3
          (items_bytes c e.seq_no push_items + length (record_bytes c (fin_record c e.seq_no)))
      → (e' : Engine Ix) × (push_inner ix c os b clock key element is_left e
          ≡ (ok (suc (length xs)), e'))
        × Refines ix c e' (after_push ix c os b clock key element meta m is_left)
        × ((later : Clock)
            → IsListAt c b later
                (after_push ix c os b clock key element meta m is_left)
                key
                (pushed ix c os b clock is_left meta)
                (with_end is_left element xs))
  unfolding push_inner find_metadata batch_put pending_insert
  push_inner-IsListAt e healthy r ne h has_mark short text started in_range batch fin room =
      let (e', run, after) =
        commit-Refines ix c os healthy push_batch e m r in_range (omega arith) batch fin room in
      let lists : (later : Clock)
          → IsListAt c b later (after_push ix c os b clock key element meta m is_left) key
              (pushed ix c os b clock is_left meta) (with_end is_left element xs) =
        λ later.
          pushed-IsListAt ix c os b clock key element meta m xs h is_left later has_mark short
            text in
      (
        e',
        rw
            (
              get-Refines ix c os healthy e m key r,
              not_empty key ne,
              h.is_found,
              started,
              list_key_not_empty c b key meta.version (push_index ix c os b clock is_left meta) ne,
              key_differs c b key meta.version (push_index ix c os b clock is_left meta)
                  (push_index_fits ix c os b clock key element meta m xs h is_left),
              run,
            )
            (ap (λ n. (ok n, e')) ((lists clock).sized ∙ length-with_end is_left element xs)),
        after,
        lists,
      )
