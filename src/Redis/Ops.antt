-- ===== src/Redis/Ops.antt =====
-- redis/src/types.rs: the hash, set and list operations over the engine.
pub mod Pops
pub mod Members
pub mod Parts
pub mod Sequence
pub mod Taken
pub mod Push
use bitcask_rs.Base.{
  ℕ, ◌+◌, ◌==◌, leb, Bool, true, false, not, ◌&&◌, if◌then◌else◌, Option, some, none, [], Bytes,
  as_u32, add64, sub64, u32_mod,
}
use bitcask_rs.Errors.{
  Result, ok, err, panic, stuck, wrong_type_operation, is_key_not_found, or_panic,
  ◌>>=◌ as and_then,
}
use bitcask_rs.Exec.{Exec, pure, lift, reads, ◌>>=◌, ◌>>◌}
use bitcask_rs.Codec.{Codec}
use bitcask_rs.Fs.{Os}
use bitcask_rs.Index.{Indexer}
use bitcask_rs.Options.{default_write_batch_options}
use bitcask_rs.Engine.{Engine, get, put}
use bitcask_rs.Batch.{WriteBatch, new_write_batch, batch_put, batch_delete, commit}
use bitcask_rs.Redis.{
  Buf, Clock, RedisDataType, hash, set, list, same_type, type_from, is_list, get_u8,
}
use bitcask_rs.Redis.Meta.{
  Metadate, HashInternalKey, SetInternalKey, ListInternalKey, encode_metadata, decode_metadata,
  encode_hash_key, encode_set_key, encode_list_key,
}

-- `u64::MAX / 2`
abbrev pub initial_list_mark : ℕ
initial_list_mark = 9223372036854775807

-- The metadata of a key that has none, or whose metadata has expired.
unfoldable pub fresh_metadata : RedisDataType → ℕ → Metadate
fresh_metadata data_type version =
    let mark = if is_list data_type then initial_list_mark else 0 in
    record {
      data_type = data_type;
      expire = 0;
      version = version;
      size = 0;
      head = mark;
      tail = mark;
    }

-- `size + 1` and `size - 1` on `u32`.
abbrev pub grown : Metadate → Metadate
grown m = record m { size = as_u32 (m.size + 1) }

abbrev pub shrunk : Metadate → Metadate
shrunk m = record m { size = as_u32 (m.size + 4294967295) }

-- `exist` after `engine.get(..)`: false if the error is that the key is missing.
abbrev pub not_missing : Result Bytes → Result Bool
not_missing (ok v) = ok true
not_missing (err e) = ok (not (is_key_not_found e))
not_missing panic = panic
not_missing stuck = stuck

-- `is_ok()`
abbrev pub answered : Result Bytes → Result Bool
answered (ok v) = ok true
answered (err e) = ok false
answered panic = panic
answered stuck = stuck

-- A missing key is no member; another error is passed on.
abbrev pub member_or_err : Result Bytes → Result Bool
member_or_err (ok v) = ok true
member_or_err (err e) = if is_key_not_found e then ok false else err e
member_or_err panic = panic
member_or_err stuck = stuck

-- A call on a batch, with the batch it leaves.
abbrev pub batched : Result (Unit {0}) × WriteBatch → Result WriteBatch
batched (ok x, wb) = ok wb
batched (err e, wb) = err e
batched (panic, wb) = panic
batched (stuck, wb) = stuck

-- `String::from_utf8(..).unwrap()`
abbrev pub utf8 : Buf → Bytes → Result Bytes
utf8 b v = if b.is_utf8 v then ok v else panic

module _ (c : Codec) (b : Buf) (clock : Clock) where
  -- What `find_metadata` makes of metadata that it read.
  abbrev pub unless_expired : RedisDataType → Metadate → Metadate
  unless_expired data_type m =
      if not (m.expire == 0) && leb m.expire clock.checked_at
      then fresh_metadata data_type clock.made_at
      else m

  -- `find_metadata` on what the engine's `get` answered.
  unfoldable pub metadata_from : RedisDataType → Result Bytes → Result Metadate
  metadata_from data_type (ok meta_buf) = and_then (or_panic (get_u8 meta_buf)) λ first.
      and_then (type_from first.0) λ found_type.
        if same_type data_type found_type
        then (and_then (decode_metadata c b meta_buf) λ m. ok (unless_expired data_type m))
        else err wrong_type_operation
  metadata_from data_type (err e) =
      if is_key_not_found e then ok (fresh_metadata data_type clock.made_at) else err e
  metadata_from data_type panic = panic
  metadata_from data_type stuck = stuck

module _ {Ix : Type 0} (ix : Indexer Ix) (c : Codec) (os : Os) (b : Buf) (clock : Clock) where
  unfoldable pub find_metadata : Bytes → RedisDataType → Exec (Engine Ix) Metadate
  find_metadata key data_type = reads (λ e. metadata_from c b clock data_type (get ix c os key e))

  abbrev pub start_batch : Exec (Engine Ix) WriteBatch
  start_batch = reads (new_write_batch default_write_batch_options)

  abbrev pub delete_in : Bytes → WriteBatch → Exec (Engine Ix) WriteBatch
  delete_in key wb = reads (λ e. batched (batch_delete ix c os key e wb))

  abbrev pub commit_batch : WriteBatch → Exec (Engine Ix) Unit
  commit_batch wb e = let (r, wb', e') = commit ix c os wb e in (r, e')

  -- `meta.size += 1` and the new metadata, for a part that is new.
  abbrev pub count_unless : Bool → Bytes → Metadate → WriteBatch → Result WriteBatch
  count_unless true key meta wb = ok wb
  count_unless false key meta wb = batched (batch_put key (encode_metadata c b (grown meta)) wb)

  abbrev hash_key : Bytes → Bytes → Metadate → Bytes
  hash_key key field meta =
      encode_hash_key c b (record { key = key; version = meta.version; field = field })

  abbrev set_key : Bytes → Bytes → Metadate → Bytes
  set_key key member meta =
      encode_set_key c b (record { key = key; version = meta.version; member = member })

  unfoldable pub hset : Bytes → Bytes → Bytes → Exec (Engine Ix) Bool
  hset key field value = do
    meta ← find_metadata key hash
    exist ← reads (λ e. not_missing (get ix c os (hash_key key field meta) e))
    wb0 ← start_batch
    wb1 ← lift (count_unless exist key meta wb0)
    wb2 ← lift (batched (batch_put (hash_key key field meta) value wb1))
    commit_batch wb2
    pure (not exist)

  abbrev hget_sized : Bool → Bytes → Bytes → Metadate → Exec (Engine Ix) (Option Bytes)
  hget_sized true key field meta = pure none
  hget_sized false key field meta = do
    value ← reads (get ix c os (hash_key key field meta))
    text ← lift (utf8 b value)
    pure (some text)

  unfoldable pub hget : Bytes → Bytes → Exec (Engine Ix) (Option Bytes)
  hget key field = do meta ← find_metadata key hash; hget_sized (meta.size == 0) key field meta

  -- The batch that takes a part away, and writes the metadata with one part fewer.
  abbrev pub remove_part : Bytes → Metadate → Bytes → Exec (Engine Ix) Unit
  remove_part key meta part = do
    wb0 ← start_batch
    wb1 ← lift (batched (batch_put key (encode_metadata c b (shrunk meta)) wb0))
    wb2 ← delete_in part wb1
    commit_batch wb2

  abbrev pub remove_part_if : Bool → Bytes → Metadate → Bytes → Exec (Engine Ix) Unit
  remove_part_if true key meta part = remove_part key meta part
  remove_part_if false key meta part = pure tt

  abbrev hdel_sized : Bool → Bytes → Bytes → Metadate → Exec (Engine Ix) Bool
  hdel_sized true key field meta = pure false
  hdel_sized false key field meta = do
    exist ← reads (λ e. not_missing (get ix c os (hash_key key field meta) e))
    remove_part_if exist key meta (hash_key key field meta)
    pure exist

  unfoldable pub hdel : Bytes → Bytes → Exec (Engine Ix) Bool
  hdel key field = do meta ← find_metadata key hash; hdel_sized (meta.size == 0) key field meta

  abbrev add_member : Bool → Bytes → Bytes → Metadate → Exec (Engine Ix) Bool
  add_member true key part meta = pure false
  add_member false key part meta = do
    wb0 ← start_batch
    wb1 ← lift (batched (batch_put key (encode_metadata c b (grown meta)) wb0))
    wb2 ← lift (batched (batch_put part [] wb1))
    commit_batch wb2
    pure true

  unfoldable pub sadd : Bytes → Bytes → Exec (Engine Ix) Bool
  sadd key member = do
    meta ← find_metadata key set
    exist ← reads (λ e. not_missing (get ix c os (set_key key member meta) e))
    add_member exist key (set_key key member meta) meta

  abbrev s_is_member_sized : Bool → Bytes → Bytes → Metadate → Exec (Engine Ix) Bool
  s_is_member_sized true key member meta = pure false
  s_is_member_sized false key member meta =
      reads (λ e. member_or_err (get ix c os (set_key key member meta) e))

  unfoldable pub s_is_member : Bytes → Bytes → Exec (Engine Ix) Bool
  s_is_member key member = do
    meta ← find_metadata key set
    s_is_member_sized (meta.size == 0) key member meta

  abbrev srem_sized : Bool → Bytes → Bytes → Metadate → Exec (Engine Ix) Bool
  srem_sized true key member meta = pure false
  srem_sized false key member meta = do
    exist ← reads (λ e. answered (get ix c os (set_key key member meta) e))
    remove_part_if exist key meta (set_key key member meta)
    pure exist

  unfoldable pub srem : Bytes → Bytes → Exec (Engine Ix) Bool
  srem key member = do meta ← find_metadata key set; srem_sized (meta.size == 0) key member meta

  abbrev pub list_key : Bytes → ℕ → Metadate → Bytes
  list_key key index meta =
      encode_list_key c b (record { key = key; version = meta.version; index = index })

  -- The mark of the end that the push extends: the new element's index, and the new metadata.
  abbrev pub push_index : Bool → Metadate → ℕ
  push_index true meta = sub64 meta.head 1
  push_index false meta = meta.tail

  abbrev pub pushed : Bool → Metadate → Metadate
  pushed true meta = record (grown meta) { head = sub64 meta.head 1 }
  pushed false meta = record (grown meta) { tail = add64 meta.tail 1 }

  unfoldable pub push_inner : Bytes → Bytes → Bool → Exec (Engine Ix) ℕ
  push_inner key element is_left = do
    meta ← find_metadata key list
    wb0 ← start_batch
    wb1 ← lift (batched (batch_put key (encode_metadata c b (pushed is_left meta)) wb0))
    wb2 ← lift (batched (batch_put (list_key key (push_index is_left meta) meta) element wb1))
    commit_batch wb2
    pure (pushed is_left meta).size

  abbrev pub pop_index : Bool → Metadate → ℕ
  pop_index true meta = meta.head
  pop_index false meta = sub64 meta.tail 1

  abbrev pub popped : Bool → Metadate → Metadate
  popped true meta = record (shrunk meta) { head = add64 meta.head 1 }
  popped false meta = record (shrunk meta) { tail = sub64 meta.tail 1 }

  abbrev pub pop_sized : Bool → Bytes → Bool → Metadate → Exec (Engine Ix) (Option Bytes)
  pop_sized true key is_left meta = pure none
  pop_sized false key is_left meta = do
    element ← reads (get ix c os (list_key key (pop_index is_left meta) meta))
    put ix c os key (encode_metadata c b (popped is_left meta))
    text ← lift (utf8 b element)
    pure (some text)

  unfoldable pub pop_inner : Bytes → Bool → Exec (Engine Ix) (Option Bytes)
  pop_inner key is_left = do
    meta ← find_metadata key list
    pop_sized (meta.size == 0) key is_left meta

  unfoldable pub lpush : Bytes → Bytes → Exec (Engine Ix) ℕ
  lpush key element = push_inner key element true

  unfoldable pub rpush : Bytes → Bytes → Exec (Engine Ix) ℕ
  rpush key element = push_inner key element false

  unfoldable pub lpop : Bytes → Exec (Engine Ix) (Option Bytes)
  lpop key = pop_inner key true

  unfoldable pub rpop : Bytes → Exec (Engine Ix) (Option Bytes)
  rpop key = pop_inner key false
