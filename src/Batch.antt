-- ===== src/Batch.antt =====
-- bitcask-rs/src/batch.rs: write batches. What the batch holds back is a hash map; the order of
-- its entries is the order in which the commit meets them, and nothing is assumed of it.
pub mod Log
pub mod Items
pub mod Commit
use bitcask_rs.Base.{
  ℕ, ◌+◌, ◌==◌, ltb, Bool, true, false, ◌&&◌, not, if◌then◌else◌, Option, none, some, List, [], ◌∷◌,
  Bytes, bytes_eq, length, add64,
}
use bitcask_rs.Errors.{
  Result, ok, err, panic, stuck, key_is_empty, exceed_max_batch_num, unable_to_user_write_batch,
}
use bitcask_rs.Exec.{Exec, continue, pure, fail, lift, gets, modify, ◌>>=◌, ◌>>◌}
use bitcask_rs.Codec.{Codec}
use bitcask_rs.Fs.{Os}
use bitcask_rs.Options.{WriteBatchOptions, IndexType, b_plus_tree, b_tree, skip_list, is_empty}
use bitcask_rs.Keys.{log_record_key_with_seq, txn_fin_key}
use bitcask_rs.Index.{Indexer}
use bitcask_rs.Data.LogRecord.{LogRecord, LogRecordPos, LogRecordType, normal, delete, txn_finished}
use bitcask_rs.Engine.{Engine, append_log_record, get, index_put, index_delete, sync_active}

-- The records that wait for the commit, by key.
abbrev pub Pending : Type 0
Pending = List (Bytes × LogRecord)

pub record WriteBatch : Type 0 where
  pub pending_write : Pending
  pub options : WriteBatchOptions

unfoldable pub pending_insert : Bytes → LogRecord → Pending → Pending
pending_insert k r [] = (k, r) ∷ []
pending_insert k r ((j, s) ∷ m) = if bytes_eq j k then (k, r) ∷ m else (j, s) ∷ pending_insert k r m

unfoldable pub pending_remove : Bytes → Pending → Pending
pending_remove k [] = []
pending_remove k ((j, s) ∷ m) =
    let rest = pending_remove k m in if bytes_eq j k then rest else (j, s) ∷ rest

unfoldable pub contains_key : Bytes → Pending → Bool
contains_key k [] = false
contains_key k ((j, s) ∷ m) = if bytes_eq j k then true else contains_key k m

abbrev is_b_plus_tree : IndexType → Bool
is_b_plus_tree b_plus_tree = true
is_b_plus_tree b_tree = false
is_b_plus_tree skip_list = false

unfoldable pub new_write_batch : {Ix : Type 0} → WriteBatchOptions → Engine Ix → Result WriteBatch
new_write_batch opts e =
    if is_b_plus_tree e.options.index_type && not e.seq_file_exists && not e.is_initial
    then err unable_to_user_write_batch
    else ok (record { pending_write = []; options = opts })

-- `WriteBatch::put`
unfoldable pub batch_put : Bytes → Bytes → WriteBatch → Result (Unit {0}) × WriteBatch
batch_put key value wb = if is_empty key then (err key_is_empty, wb) else (
  ok tt,
  record wb {
    pending_write =
        pending_insert key (record { key = key; value = value; rec_type = normal })
          wb.pending_write;
  },
)

-- `WriteBatch::delete`, when the value of the key was asked for: a key that only the batch holds is
-- dropped from it.
abbrev pub delete_pending : Bytes → Result Bytes → WriteBatch → Result (Unit {0}) × WriteBatch
delete_pending key panic wb = (panic, wb)
delete_pending key stuck wb = (stuck, wb)
delete_pending key (ok value) wb = (
  ok tt,
  record wb {
    pending_write =
        pending_insert key (record { key = key; value = []; rec_type = delete }) wb.pending_write;
  },
)
delete_pending key (err e) wb =
    if contains_key key wb.pending_write
    then (ok tt, record wb { pending_write = pending_remove key wb.pending_write })
    else (
      ok tt,
      record wb {
        pending_write =
            pending_insert key (record { key = key; value = []; rec_type = delete })
              wb.pending_write;
      },
    )

-- The map of positions that the commit builds, by key.
abbrev pub position_of : Bytes → List (Bytes × LogRecordPos) → Option LogRecordPos
position_of k [] = none
position_of k ((j, p) ∷ ps) = if bytes_eq j k then some p else position_of k ps

module _ {Ix : Type 0} (ix : Indexer Ix) (c : Codec) (os : Os) where
  -- `WriteBatch::delete`
  unfoldable pub batch_delete : Bytes → Engine Ix → WriteBatch → Result (Unit {0}) × WriteBatch
  batch_delete key e wb =
      if is_empty key then (err key_is_empty, wb) else delete_pending key (get ix c os key e) wb

  -- The first loop of `commit`: every record is appended under its numbered key.
  unfoldable pub append_items : ℕ → Pending → Exec (Engine Ix) (List (Bytes × LogRecordPos))
  append_items seq_no [] = pure []
  append_items seq_no ((k, item) ∷ items) = do
    enc_key ← lift (log_record_key_with_seq c item.key seq_no)
    pos ← append_log_record c os (record item { key = enc_key })
    positions ← append_items seq_no items
    pure ((item.key, pos) ∷ positions)

  abbrev pub update_typed : Bytes → LogRecordType → LogRecordPos → Engine Ix → Engine Ix
  update_typed key normal pos e = index_put ix key pos e
  update_typed key delete pos e = index_delete ix key e
  update_typed key txn_finished pos e = e

  -- One record of the second loop.
  abbrev pub update_item : LogRecord → Option LogRecordPos → Engine Ix → Engine Ix
  update_item item none e = e
  update_item item (some pos) e = update_typed item.key item.rec_type pos e

  -- The second loop of `commit`: the index learns the new places.
  unfoldable pub update_items : Pending → List (Bytes × LogRecordPos) → Engine Ix → Engine Ix
  update_items [] positions e = e
  update_items ((k, item) ∷ items) positions e =
      update_items items positions (update_item item (position_of item.key positions) e)

  abbrev pub sync_if : Bool → Exec (Engine Ix) Unit
  sync_if true = sync_active os
  sync_if false = pure tt

  -- `commit` from the number of the transaction on.
  unfoldable pub commit_as : ℕ → WriteBatch → Exec (Engine Ix) Unit
  commit_as seq_no wb = do
    positions ← append_items seq_no wb.pending_write
    fin_key ← lift (log_record_key_with_seq c txn_fin_key seq_no)
    append_log_record c os (record { key = fin_key; value = []; rec_type = txn_finished })
    sync_if wb.options.sync_writes
    modify (update_items wb.pending_write positions)

  abbrev pub no_items : Pending → Bool
  no_items [] = true
  no_items (i ∷ is) = false

  -- The engine's part of `commit`.
  unfoldable pub commit_engine : WriteBatch → Exec (Engine Ix) Unit
  commit_engine wb =
      if no_items wb.pending_write
      then pure tt
      else if ltb wb.options.max_batch_num (length wb.pending_write)
      then fail exceed_max_batch_num
      else do
        seq_no ← gets (λ e. e.seq_no)
        modify (λ e. record e { seq_no = add64 e.seq_no 1 })
        commit_as seq_no wb

  abbrev pub cleared : Result (Unit {0}) → WriteBatch → WriteBatch
  cleared (ok x) wb = record wb { pending_write = [] }
  cleared _ wb = wb

  -- `commit`: the batch is empty afterwards if all went well, and unchanged otherwise.
  unfoldable pub commit : WriteBatch → Engine Ix → Result (Unit {0}) × WriteBatch × Engine Ix
  commit wb e = let (r, e') = commit_engine wb e in (r, cleared r wb, e')
