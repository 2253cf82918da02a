-- ===== src/Engine/Bounds.antt =====
-- bitcask-rs/src/db.rs: how large the active file grows, and how much of it waits for a sync.
use bitcask_rs.Base.{
  ◌≤◌, ◌<◌, ◌≡◌, refl, subst, ◌⊎◌, inl, inr, Bool, true, false, ltb, Bool-cases, Bytes, length,
  add64, arith,
}
use bitcask_rs.Errors.{ok}
use bitcask_rs.Fs.{Os, IsHealthy}
use bitcask_rs.Codec.{Codec}
use bitcask_rs.Data.LogRecord.{LogRecord, LogRecordPos}
use bitcask_rs.Data.LogRecord.Encode.{Fits, record_bytes, encode_lem}
use bitcask_rs.Engine.{Engine, append_log_record}
use bitcask_rs.Engine.Files.{HasFiles, wrote}
use bitcask_rs.Engine.Append.{
  HasRoom, record_bytes_full, settled, started, place, before_write, is_synced, after_write,
  append_encoded_run,
}

-- The active file is within the size of a data file, or holds this one record.
abbrev pub IsWithinSize : {Ix : Type 0} → Bytes → Engine Ix → Type 0
IsWithinSize buf e =
    (e.active_file.write_off ≤ e.options.data_file_size) ⊎ (e.active_file.write_off ≡ length buf)

module _ {Ix : Type 0} (os : Os) (healthy : IsHealthy os) (e : Engine Ix) (buf : Bytes)
    (room : HasRoom e (length buf)) where
  settled-IsWithinSize :
      (s : Engine Ix) (b : Bool) → IsWithinSize buf s → IsWithinSize buf (settled os healthy s b)
  settled-IsWithinSize s true h = h
  settled-IsWithinSize s false h = h

  wrote-IsWithinSize :
      (is_full : Bool)
      → ltb e.options.data_file_size (add64 e.active_file.write_off (length buf)) ≡ is_full
      → IsWithinSize buf (wrote (started os healthy e is_full) buf)
  wrote-IsWithinSize true h = inr (omega (arith, room.bytes))
  wrote-IsWithinSize false h = inl (ground (arith, h))

  settled_bytes :
      (s : Engine Ix)
      → 0 < s.options.bytes_per_sync
      → (settled os healthy (wrote s buf) (is_synced os healthy s buf)).bytes_write
        < s.options.bytes_per_sync
  settled_bytes s positive = elim (Bool-cases (is_synced os healthy s buf)) [
    | inl synced ↦ rw synced positive
    | inr waits ↦ rw waits (ground (arith, waits, positive))
  ]

  started_options : (b : Bool) → (started os healthy e b).options ≡ e.options
  started_options true = refl
  started_options false = refl

module _ {Ix : Type 0} (c : Codec) (os : Os) (healthy : IsHealthy os) where
  -- With a working operating system, on an engine whose files are laid out well, with a record that
  -- fits, room for it, and a limit on the bytes without a sync: appending the record succeeds, the
  -- active file is then within the size of a data file or holds this record alone, and the bytes
  -- that wait for a sync are fewer than the limit.
  pub append_log_record-bounds :
      (r : LogRecord) (e : Engine Ix)
      → Fits r
      → HasFiles e
      → HasRoom e (length (record_bytes c r))
      → 0 < e.options.bytes_per_sync
      → (pos : LogRecordPos) × (e' : Engine Ix) × (append_log_record c os r e ≡ (ok pos, e'))
        × IsWithinSize (record_bytes c r) e'
        × (e'.bytes_write < e.options.bytes_per_sync)
  unfolding append_log_record
  append_log_record-bounds r e fits h room positive =
      let buf = record_bytes c r in
      let s = before_write os healthy e buf in
      let same =
        started_options os healthy e buf room
          (ltb e.options.data_file_size (add64 e.active_file.write_off (length buf))) in
      (
        place os healthy s buf,
        after_write os healthy e buf,
        rw (encode_lem c r fits)
            (append_encoded_run os healthy e buf h room (record_bytes_full c r)),
        settled-IsWithinSize os healthy e buf room (wrote s buf) (is_synced os healthy s buf)
            (wrote-IsWithinSize os healthy e buf room _ refl),
        subst (λ o. (after_write os healthy e buf).bytes_write < o.bytes_per_sync) same
            (settled_bytes os healthy e buf room s (rw same positive)),
      )
