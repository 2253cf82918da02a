-- ===== src/Engine/Stored.antt =====
-- A value that stands in the files at a position: it is read from there, and stays there while
-- the log grows.
use bitcask_rs.Base.{
  ◌+◌, ◌<◌, ◌==◌, ◌≡◌, refl, sym, ap, ◌∙◌, false, some, [], ◌++◌, append_assoc, append-nil, Bytes,
  length, u64_mod, Bool-cases, inl, inr, ==_iff, arith,
}
use bitcask_rs.Errors.{ok}
use bitcask_rs.Fs.{data_name, Os, IsHealthy, content}
use bitcask_rs.Codec.{Codec}
use bitcask_rs.Data.LogRecord.{LogRecord, LogRecordPos, is_delete}
use bitcask_rs.Data.LogRecord.Encode.{Fits, record_bytes}
use bitcask_rs.Data.DataFile.{DataFile}
use bitcask_rs.Data.DataFile.Read.{IsNonEmpty, read_log_record-record_bytes}
use bitcask_rs.Engine.{Engine, file_for, get_value_by_position}
use bitcask_rs.Engine.Files.{HasManagers, file_for-standard}
use bitcask_rs.Engine.Append.{Appended}

-- A live record with this value is encoded at the position, in a file of the engine.
pub record Stored {Ix : Type 0} (c : Codec) (e : Engine Ix) (pos : LogRecordPos) (value : Bytes)
    : Type 0 where
  pub rec : LogRecord
  pub fits : Fits rec
  pub full : IsNonEmpty rec
  pub live : is_delete rec.rec_type ≡ false
  pub value_of_rec : rec.value ≡ value
  pub before : Bytes
  pub after : Bytes
  pub at_file : content (data_name pos.file_id) e.dir ≡ before ++ (record_bytes c rec ++ after)
  pub at_offset : pos.offset ≡ length before
  pub bound : pos.offset + length (record_bytes c rec) < u64_mod
  pub file : DataFile
  pub known : file_for e pos.file_id ≡ some file

module _ {Ix : Type 0} (c : Codec) where
  pub get_value-Stored :
      (os : Os) (e : Engine Ix) (pos : LogRecordPos) (v : Bytes)
      → IsHealthy os
      → HasManagers e
      → Stored c e pos v
      → get_value_by_position c os e pos ≡ ok v
  unfolding get_value_by_position
  get_value-Stored os e pos v healthy h s =
      rw
        (
          s.known,
          read_log_record-record_bytes c os healthy s.file e.dir (data_name pos.file_id)
              (file_for-standard pos.file_id s.file h s.known) s.rec s.before s.after pos.offset
              s.fits s.full s.at_file s.at_offset s.bound,
          s.live,
        )
        (ap ok s.value_of_rec)

  -- The log only grows: what stood in it stays where it is.
  pub Stored-append :
      {e e' : Engine Ix} {buf : Bytes} {p : LogRecordPos} (pos : LogRecordPos) (v : Bytes)
      → Appended e buf p e'
      → Stored c e pos v
      → Stored c e' pos v
  Stored-append {e} {e'} {buf} {p} pos v a s =
      let (f', known') = a.known pos.file_id s.file s.known in
      let (after', at_file') = grown in
      record {
        rec = s.rec;
        fits = s.fits;
        full = s.full;
        live = s.live;
        value_of_rec = s.value_of_rec;
        before = s.before;
        after = after';
        at_file = at_file';
        at_offset = s.at_offset;
        bound = s.bound;
        file = f';
        known = known';
      }
    where
      grown :
          (after' : Bytes) × (content (data_name pos.file_id) e'.dir
            ≡ s.before ++ (record_bytes c s.rec ++ after'))
      grown = elim (Bool-cases (p.file_id == pos.file_id)) [
        | inl same ↦ (
          s.after ++ buf,
          (rw ((==_iff p.file_id pos.file_id).0 same) at a.grown)
              ∙ ap (λ t. t ++ buf) s.at_file
              ∙ simp append_assoc,
        )
        | inr other ↦ (s.after, a.others pos.file_id (ground arith) ∙ s.at_file)
      ]

  -- The record just appended is stored at its position.
  pub Stored-new :
      {e e' : Engine Ix} {p : LogRecordPos} (r : LogRecord)
      → Appended e (record_bytes c r) p e'
      → Fits r
      → IsNonEmpty r
      → is_delete r.rec_type ≡ false
      → Stored c e' p r.value
  unfolding file_for
  Stored-new {e} {e'} {p} r a fits full live = record {
    rec = r;
    fits = fits;
    full = full;
    live = live;
    value_of_rec = refl;
    before = content (data_name p.file_id) e.dir;
    after = [];
    at_file = a.grown ∙ ap (λ t. content (data_name p.file_id) e.dir ++ t) (sym (append-nil _));
    at_offset = a.at_end;
    bound = a.offset_fits;
    file = e'.active_file;
    known = ground (arith, a.at_active);
  }
