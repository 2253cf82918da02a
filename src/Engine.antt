-- ===== src/Engine.antt =====
-- bitcask-rs/src/db.rs: the storage engine's state, and `put`, `get`, `delete` over the active
-- data file and the index. The locks serialise the methods, so each is one step on the state.
pub mod Files
pub mod Append
pub mod Bounds
pub mod Stored
pub mod SameFiles
pub mod Refine
use bitcask_rs.Base.{
  ℕ, ◌+◌, ◌==◌, ltb, leb, Bool, true, false, ◌&&◌, ◌||◌, if◌then◌else◌, Option, none, some, List,
  Bytes, length, [], as_u32, add64,
}
use bitcask_rs.Errors.{
  Result, ok, err, key_is_empty, key_not_found, data_file_not_found, ◌>>=◌ as and_then,
}
use bitcask_rs.Exec.{Exec, pure, fail, lift, gets, reads, modify, ◌>>=◌, ◌>>◌}
use bitcask_rs.Codec.{Codec}
use bitcask_rs.Fs.{Dir, Os}
use bitcask_rs.Fio.{standard_fio}
use bitcask_rs.Map.{Map, lookup, insert}
use bitcask_rs.Options.{Options, is_empty}
use bitcask_rs.Keys.{log_record_key_with_seq, non_transaction_seq_no}
use bitcask_rs.Index.{Indexer}
use bitcask_rs.Data.LogRecord.{
  LogRecord, LogRecordPos, ReadLogRecord, normal, delete, is_delete, encode,
}
use bitcask_rs.Data.DataFile.{DataFile, new, write, sync_file, read_log_record}

-- `Engine`, with the data directory that it works on.
pub record Engine (Ix : Type 0) : Type 0 where
  pub options : Options
  pub dir : Dir
  pub active_file : DataFile
  pub older_files : Map DataFile
  pub index : Ix
  pub file_ids : List ℕ
  pub seq_no : ℕ
  pub seq_file_exists : Bool
  pub is_initial : Bool
  pub bytes_write : ℕ
  pub reclaim_size : ℕ

-- `current_file_id + 1` on `u32`.
abbrev pub next_id : ℕ → ℕ
next_id id = as_u32 (id + 1)

-- `fetch_add(old_pos.size)` where there was an old position.
abbrev pub add_reclaim : {Ix : Type 0} → Option LogRecordPos → Engine Ix → Engine Ix
add_reclaim none e = e
add_reclaim (some p) e = record e { reclaim_size = add64 e.reclaim_size p.size }

-- The value of a record that was read; a deletion mark is no value.
abbrev pub value_of : ReadLogRecord → Result Bytes
value_of r = if is_delete r.record_read.rec_type then err key_not_found else ok r.record_read.value

-- The file that a position's id names: the active one, or an older one.
unfoldable pub file_for : {Ix : Type 0} → Engine Ix → ℕ → Option DataFile
file_for e id = if e.active_file.file_id == id then some e.active_file else lookup id e.older_files

abbrev is_none {ℓ} : {A : Type ℓ} → Option A → Bool
is_none none = true
is_none (some a) = false

module _ {Ix : Type 0} (os : Os) where
  abbrev pub sync_active : Exec (Engine Ix) Unit
  sync_active = reads (λ e. sync_file os e.active_file)

  -- `DataFile::new` in the engine's directory.
  abbrev pub new_file : ℕ → Exec (Engine Ix) DataFile
  new_file id e = let (r, dir) = new os id standard_fio e.dir in (r, record e { dir = dir })

  -- The active file joins the older ones, and the next file becomes active.
  unfoldable pub rotate : Exec (Engine Ix) Unit
  rotate = do
    sync_active
    current_file_id ← gets (λ e. e.active_file.file_id)
    old_file ← new_file current_file_id
    modify (λ e. record e { older_files = insert current_file_id old_file e.older_files })
    new_active_file ← new_file (next_id current_file_id)
    modify (λ e. record e { active_file = new_active_file })

  abbrev pub write_active : Bytes → Exec (Engine Ix) ℕ
  write_active buf e =
      let (r, f, dir) = write os e.active_file buf e.dir in
      (r, record e { active_file = f; dir = dir })

  -- The sync that the options ask for after a write of `n` bytes, `previous` being the bytes
  -- written since the last one.
  abbrev pub sync_when : Bool → Exec (Engine Ix) Unit
  sync_when true = do sync_active; modify (λ e. record e { bytes_write = 0 })
  sync_when false = pure tt

  unfoldable pub sync_if_needed : ℕ → ℕ → Exec (Engine Ix) Unit
  sync_if_needed previous n = do
    opts ← gets (λ e. e.options)
    sync_when (
        opts.sync_writes
        || (ltb 0 opts.bytes_per_sync && leb opts.bytes_per_sync (add64 previous n)))

  abbrev pub rotate_if : Bool → Exec (Engine Ix) Unit
  rotate_if true = rotate
  rotate_if false = pure tt

  -- `append_log_record`, on the encoded record.
  unfoldable pub append_encoded : Bytes → Exec (Engine Ix) LogRecordPos
  append_encoded en_record = do
    full ←
        gets (λ e. ltb e.options.data_file_size (add64 e.active_file.write_off (length en_record)))
    rotate_if full
    write_off ← gets (λ e. e.active_file.write_off)
    write_active en_record
    previous ← gets (λ e. e.bytes_write)
    modify (λ e. record e { bytes_write = add64 e.bytes_write (length en_record) })
    sync_if_needed previous (length en_record)
    file_id ← gets (λ e. e.active_file.file_id)
    pure (record { file_id = file_id; offset = write_off; size = as_u32 (length en_record) })

module _ {Ix : Type 0} (c : Codec) (os : Os) where
  unfoldable pub append_log_record : LogRecord → Exec (Engine Ix) LogRecordPos
  append_log_record log_record = do
    en_record ← lift (encode c log_record)
    append_encoded os en_record

  abbrev value_in : Engine Ix → LogRecordPos → Option DataFile → Result Bytes
  value_in e pos none = err data_file_not_found
  value_in e pos (some f) = and_then (read_log_record c os f e.dir pos.offset) value_of

  unfoldable pub get_value_by_position : Engine Ix → LogRecordPos → Result Bytes
  get_value_by_position e pos = value_in e pos (file_for e pos.file_id)

module _ {Ix : Type 0} (ix : Indexer Ix) where
  -- `index.put` and `index.delete`; the old position's bytes can be reclaimed.
  unfoldable pub index_put : Bytes → LogRecordPos → Engine Ix → Engine Ix
  index_put key pos e =
      let (index, old_pos) = ix.put key pos e.index in
      add_reclaim old_pos (record e { index = index })

  unfoldable pub index_delete : Bytes → Engine Ix → Engine Ix
  index_delete key e =
      let (index, old_pos) = ix.delete key e.index in
      add_reclaim old_pos (record e { index = index })

module _ {Ix : Type 0} (ix : Indexer Ix) (c : Codec) (os : Os) where
  abbrev pub value_at : Engine Ix → Option LogRecordPos → Result Bytes
  value_at e none = err key_not_found
  value_at e (some pos) = get_value_by_position c os e pos

  unfoldable pub get : Bytes → Engine Ix → Result Bytes
  get key e = if is_empty key then err key_is_empty else value_at e (ix.get key e.index)

  unfoldable pub put : Bytes → Bytes → Exec (Engine Ix) Unit
  put key value = if is_empty key then fail key_is_empty else do
    enc_key ← lift (log_record_key_with_seq c key non_transaction_seq_no)
    pos ← append_log_record c os (record { key = enc_key; value = value; rec_type = normal })
    modify (index_put ix key pos)

  abbrev delete_unless : Bool → Bytes → Exec (Engine Ix) Unit
  delete_unless true key = pure tt
  delete_unless false key = do
    pos ← append_log_record c os (record { key = key; value = []; rec_type = delete })
    modify (λ e. record e { reclaim_size = add64 e.reclaim_size pos.size })
    modify (index_delete ix key)

  unfoldable pub delete_key : Bytes → Exec (Engine Ix) Unit
  delete_key key =
      if is_empty key
      then fail key_is_empty
      else do absent ← gets (λ e. is_none (ix.get key e.index)); delete_unless absent key
