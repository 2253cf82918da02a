-- ===== src/Engine/Append.antt =====
-- What `append_log_record` does: the record's bytes come to stand at the returned position, and
-- nothing else of the files changes.
use bitcask_rs.Base.{
  ℕ, ◌+◌, ◌≤◌, ◌<◌, ◌==◌, ◌≡◌, ◌≢◌, refl, ap, ◌∙◌, Bool, true, false, ltb, leb, ◌&&◌, ◌||◌,
  Bool-cases, inl, inr, some, ◌++◌, Bytes, length, add64, as_u32, u32_mod, u64_mod, arith,
}
use bitcask_rs.Errors.{ok}
use bitcask_rs.Fs.{data_name, Os, IsHealthy, content}
use bitcask_rs.Codec.{Codec}
use bitcask_rs.Map.{lookup-insert}
use bitcask_rs.Data.LogRecord.{LogRecord, LogRecordPos}
use bitcask_rs.Data.LogRecord.Encode.{Fits, record_bytes, encode_lem}
use bitcask_rs.Data.DataFile.{DataFile}
use bitcask_rs.Engine.{
  Engine, file_for, next_id, rotate, rotate_if, sync_when, sync_if_needed, append_encoded,
  append_log_record,
}
use bitcask_rs.Engine.Files.{
  HasFiles, fresh_file, sync_file_ok, new_lem, write_lem, rotated, wrote, content-rotated,
  rotated-HasFiles, content-wrote, wrote-HasFiles,
}

-- The active file and the next one have room for `n` more bytes.
pub record HasRoom {Ix : Type 0} (e : Engine Ix) (n : ℕ) : Type 0 where
  pub ids : e.active_file.file_id + 1 < u32_mod
  pub bytes : e.active_file.write_off + n < u64_mod

-- From `e` to `e'`, `buf` was put at `pos`.
pub record Appended {Ix : Type 0} (e : Engine Ix) (buf : Bytes) (pos : LogRecordPos)
    (e' : Engine Ix) : Type 0 where
  pub files : HasFiles e'
  pub index_kept : e'.index ≡ e.index
  pub seq_kept : e'.seq_no ≡ e.seq_no
  pub options_kept : e'.options ≡ e.options
  pub at_active : pos.file_id ≡ e'.active_file.file_id
  pub at_end : pos.offset ≡ length (content (data_name pos.file_id) e.dir)
  pub size_of : pos.size ≡ as_u32 (length buf)
  pub grown : content (data_name pos.file_id) e'.dir ≡ content (data_name pos.file_id) e.dir ++ buf
  pub others :
      (id : ℕ) → pos.file_id ≢ id → content (data_name id) e'.dir ≡ content (data_name id) e.dir
  pub known :
      (id : ℕ) (f : DataFile)
      → file_for e id ≡ some f
      → (f' : DataFile) × (file_for e' id ≡ some f')
  pub offset_fits : pos.offset + length buf < u64_mod
  pub id_le : e'.active_file.file_id ≤ e.active_file.file_id + 1
  pub id_ge : e.active_file.file_id ≤ e'.active_file.file_id
  pub active_le : e'.active_file.write_off ≤ e.active_file.write_off + length buf

module _ {Ix : Type 0} (os : Os) (healthy : IsHealthy os) where
  rotate_lem : (e : Engine Ix) → rotate os e ≡ (ok tt, rotated e)
  unfolding rotate
  rotate_lem e = rw (
    sync_file_ok os healthy e.active_file,
    new_lem os healthy e.active_file.file_id e.dir,
    new_lem os healthy (next_id e.active_file.file_id) _,
  )

  -- The engine after the sync that follows a write.
  abbrev pub settled : Engine Ix → Bool → Engine Ix
  settled e true = record e { bytes_write = 0 }
  settled e false = e

  sync_when_lem : (e : Engine Ix) (b : Bool) → sync_when os b e ≡ (ok tt, settled e b)
  sync_when_lem e true = rw (sync_file_ok os healthy e.active_file)
  sync_when_lem e false = refl

  abbrev pub started : Engine Ix → Bool → Engine Ix
  started e true = rotated e
  started e false = e

  rotate_if_lem : (e : Engine Ix) (b : Bool) → rotate_if os b e ≡ (ok tt, started e b)
  rotate_if_lem e true = rotate_lem e
  rotate_if_lem e false = refl

  settled-active : (e : Engine Ix) (b : Bool) → (settled e b).active_file ≡ e.active_file
  settled-active e true = refl
  settled-active e false = refl

  settled-Appended :
      {e w : Engine Ix} {buf : Bytes} {pos : LogRecordPos} (b : Bool)
      → Appended e buf pos w
      → Appended e buf pos (settled w b)
  unfolding file_for
  settled-Appended false a = a
  settled-Appended true a = record {
    files = record {
      active_standard = a.files.active_standard;
      older_standard = a.files.older_standard;
      at_end = a.files.at_end;
      fresh = a.files.fresh;
    };
    index_kept = a.index_kept;
    seq_kept = a.seq_kept;
    options_kept = a.options_kept;
    at_active = a.at_active;
    at_end = a.at_end;
    size_of = a.size_of;
    grown = a.grown;
    others = a.others;
    known = a.known;
    offset_fits = a.offset_fits;
    id_le = a.id_le;
    id_ge = a.id_ge;
    active_le = a.active_le;
  }

  -- What both outcomes of the test on the size have in common.
  record Started (e s : Engine Ix) : Type 0 where
    files : HasFiles s
    index_kept : s.index ≡ e.index
    seq_kept : s.seq_no ≡ e.seq_no
    options_kept : s.options ≡ e.options
    contents : (id : ℕ) → content (data_name id) s.dir ≡ content (data_name id) e.dir
    known :
        (id : ℕ) (f : DataFile)
        → file_for e id ≡ some f
        → (f' : DataFile) × (file_for s id ≡ some f')
    offset_le : s.active_file.write_off ≤ e.active_file.write_off
    id_le : s.active_file.file_id ≤ e.active_file.file_id + 1
    id_ge : e.active_file.file_id ≤ s.active_file.file_id

  rotated-known :
      (e : Engine Ix) (id : ℕ) (f : DataFile)
      → file_for e id ≡ some f
      → (f' : DataFile) × (file_for (rotated e) id ≡ some f')
  unfolding file_for
  rotated-known e id f found = elim (Bool-cases (next_id e.active_file.file_id == id)) [
    | inl here ↦ (fresh_file (next_id e.active_file.file_id), rw here refl)
    | inr there ↦ elim (Bool-cases (e.active_file.file_id == id)) [
      | inl old ↦ (fresh_file e.active_file.file_id, rw (there, lookup-insert, old) refl)
      | inr older ↦ (f, rw (there, lookup-insert, older) (ground arith))
    ]
  ]

  started-Started :
      (e : Engine Ix) (n : ℕ) (b : Bool) → HasFiles e → HasRoom e n → Started e (started e b)
  started-Started e n false h room = record {
    files = h;
    index_kept = refl;
    seq_kept = refl;
    options_kept = refl;
    contents = λ id. refl;
    known = λ id f found. (f, found);
    offset_le = omega arith;
    id_le = omega arith;
    id_ge = omega (arith, room.ids);
  }
  started-Started e n true h room = record {
    files = rotated-HasFiles e h room.ids;
    index_kept = refl;
    seq_kept = refl;
    options_kept = refl;
    contents = λ id. content-rotated e (data_name id);
    known = rotated-known e;
    offset_le = omega arith;
    id_le = omega arith;
    id_ge = omega (arith, room.ids);
  }

  wrote-known :
      (s : Engine Ix) (buf : Bytes) (id : ℕ) (f : DataFile)
      → file_for s id ≡ some f
      → (f' : DataFile) × (file_for (wrote s buf) id ≡ some f')
  unfolding file_for
  wrote-known s buf id f found = elim (Bool-cases (s.active_file.file_id == id)) [
    | inl here ↦ ((wrote s buf).active_file, rw here refl)
    | inr there ↦ (f, rw there (ground arith))
  ]

  -- The position of `buf` when it is written to the active file of `s`.
  abbrev pub place : Engine Ix → Bytes → LogRecordPos
  place s buf = record {
    file_id = s.active_file.file_id;
    offset = s.active_file.write_off;
    size = as_u32 (length buf);
  }

  wrote-Appended :
      {e s : Engine Ix} (buf : Bytes)
      → Started e s
      → HasRoom e (length buf)
      → Appended e buf (place s buf) (wrote s buf)
  wrote-Appended {e} {s} buf st room = record {
    files = wrote-HasFiles s buf st.files (omega (arith, st.offset_le, room.bytes));
    index_kept = st.index_kept;
    seq_kept = st.seq_kept;
    options_kept = st.options_kept;
    at_active = refl;
    at_end = st.files.at_end ∙ ap length (st.contents s.active_file.file_id);
    size_of = refl;
    grown =
        ground
          (arith, content-wrote s buf s.active_file.file_id, st.contents s.active_file.file_id);
    others = λ id ne. ground (arith, content-wrote s buf id, st.contents id);
    known = λ id f found. let (f', found') = st.known id f found in wrote-known s buf id f' found';
    offset_fits = omega (arith, st.offset_le, room.bytes);
    id_le = st.id_le;
    id_ge = st.id_ge;
    active_le = omega (arith, st.offset_le, room.bytes);
  }

  -- The engine before the write, and whether a sync follows it.
  abbrev pub before_write : Engine Ix → Bytes → Engine Ix
  before_write e buf =
      started e (ltb e.options.data_file_size (add64 e.active_file.write_off (length buf)))

  abbrev pub is_synced : Engine Ix → Bytes → Bool
  is_synced s buf =
      s.options.sync_writes
      || (ltb 0 s.options.bytes_per_sync
          && leb s.options.bytes_per_sync (add64 s.bytes_write (length buf)))

  abbrev pub after_write : Engine Ix → Bytes → Engine Ix
  after_write e buf = settled (wrote (before_write e buf) buf) (is_synced (before_write e buf) buf)

  module _ (e : Engine Ix) (buf : Bytes) (h : HasFiles e) (room : HasRoom e (length buf))
      (full : 0 < length buf) where
    before_write-Started : Started e (before_write e buf)
    before_write-Started = started-Started e (length buf) _ h room

    pub append_encoded_run :
        append_encoded os buf e ≡ (ok (place (before_write e buf) buf), after_write e buf)
    unfolding append_encoded sync_if_needed
    append_encoded_run =
        let s = before_write e buf in
        rw (
          rotate_if_lem,
          write_lem os healthy s.active_file buf s.dir before_write-Started.files.active_standard
              full,
          sync_when_lem,
          settled-active,
        )

    append_encoded_lem :
        (pos : LogRecordPos) × (e' : Engine Ix) × (append_encoded os buf e ≡ (ok pos, e'))
        × Appended e buf pos e'
    append_encoded_lem = (
      place (before_write e buf) buf,
      after_write e buf,
      append_encoded_run,
      settled-Appended (is_synced (before_write e buf) buf)
          (wrote-Appended buf before_write-Started room),
    )

pub record_bytes_full : (c : Codec) (r : LogRecord) → 0 < length (record_bytes c r)
unfolding record_bytes
record_bytes_full c r = omega arith

module _ {Ix : Type 0} (c : Codec) (os : Os) (healthy : IsHealthy os) where
  -- With a working operating system, on an engine whose files are laid out well, with its active file
  -- written at its end, a record with 32-bit lengths, and room for it: appending the record succeeds,
  -- the returned position is where its encoding stands at the end of its file, no other file changes,
  -- and the files stay laid out well.
  pub append_log_record_lem :
      (r : LogRecord) (e : Engine Ix)
      → Fits r
      → HasFiles e
      → HasRoom e (length (record_bytes c r))
      → (pos : LogRecordPos) × (e' : Engine Ix) × (append_log_record c os r e ≡ (ok pos, e'))
        × Appended e (record_bytes c r) pos e'
  unfolding append_log_record
  append_log_record_lem r e fits h room =
      rw (encode_lem c r fits)
        (append_encoded_lem os healthy e (record_bytes c r) h room (record_bytes_full c r))
