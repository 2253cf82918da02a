-- ===== src/Merge/Hint/Replay.antt =====
-- bitcask-rs/src/merge.rs: a hint file with the encodings of keys and positions is loaded whole.
use bitcask_rs.Base.{
  ℕ, zero, suc, ◌+◌, ◌<◌, ◌≤◌, ◌≡◌, refl, sym, ap, ◌∙◌, some, List, [], ◌∷◌, ◌++◌, append_assoc,
  append-nil, Bytes, length, length-append, All, u64_mod, add64, arith,
}
use bitcask_rs.Errors.{is_eof, ok}
use bitcask_rs.Codec.{Codec}
use bitcask_rs.Fs.{
  FileName, hint_index, Dir, Os, IsHealthy, find, content, append_file, find-append, create_file,
}
use bitcask_rs.Fio.{file_io, new_io_manager}
use bitcask_rs.Index.{Indexer}
use bitcask_rs.Data.LogRecord.{LogRecord, LogRecordPos, normal, encode_pos}
use bitcask_rs.Data.LogRecord.Encode.{Fits, record_bytes, encode_lem, decode-encode_pos}
use bitcask_rs.Data.DataFile.{DataFile, new_hint_file, write_hint_record}
use bitcask_rs.Data.DataFile.Read.{IsNonEmpty, read_log_record-record_bytes, read_log_record-end}
use bitcask_rs.Engine.{Engine}
use bitcask_rs.Engine.Files.{write_lem}
use bitcask_rs.Engine.Append.{record_bytes_full}
use bitcask_rs.Index.BPlusTree.Represents.{PosFits}
use bitcask_rs.Merge.Hint.{load_hint, load_hints, load_index_from_hint_file}

abbrev pub Hint : Type 0
Hint = Bytes × LogRecordPos

module _ {Ix : Type 0} (ix : Indexer Ix) where
  -- The entries put into an index in turn.
  abbrev pub put_all : List Hint → Ix → Ix
  put_all [] index = index
  put_all ((key, pos) ∷ hints) index = put_all hints (ix.put key pos index).0

module _ (c : Codec) where
  -- The record that `write_hint_record` writes.
  abbrev pub hint_record : Hint → LogRecord
  hint_record (key, pos) = record { key = key; value = encode_pos c pos; rec_type = normal }

  abbrev pub hint_bytes : List Hint → Bytes
  hint_bytes [] = []
  hint_bytes (h ∷ hints) = record_bytes c (hint_record h) ++ hint_bytes hints

  pub record IsHint (h : Hint) : Type 0 where
    pub fits : Fits (hint_record h)
    pub full : IsNonEmpty (hint_record h)
    pub pos_fits : PosFits h.1

  load_hint_lem :
      {Ix : Type 0} (ix : Indexer Ix) (h : Hint) (n : ℕ) (index : Ix)
      → PosFits h.1
      → load_hint ix c (record { record_read = hint_record h; size = n }) index
        ≡ ok (ix.put h.0 h.1 index).0
  unfolding load_hint
  load_hint_lem ix (key, pos) n index p =
      rw (decode-encode_pos c pos p.id_fits p.offset_fits p.size_fits) refl

module _ {Ix : Type 0} (ix : Indexer Ix) (c : Codec) (os : Os) (healthy : IsHealthy os) where
  -- One more round of fuel than there are entries is enough to put them all into the index.
  load_hints_lem :
      (dir : Dir) (f : DataFile) (name : FileName) (hints : List Hint) (fuel offset : ℕ)
      (before : Bytes) (index : Ix)
      → f.io_manager ≡ file_io name
      → All (IsHint c) hints
      → length hints < fuel
      → content name dir ≡ before ++ hint_bytes c hints
      → offset ≡ length before
      → offset + length (hint_bytes c hints) < u64_mod
      → load_hints ix c os dir fuel f offset index ≡ ok (put_all ix hints index)
  unfolding load_hints
  load_hints_lem dir f name hints zero offset before index standard are enough at_file at_offset
        bound =
      absurd (omega arith)
  load_hints_lem dir f name [] (suc fuel) offset before index standard are enough at_file at_offset
        bound =
      rw (read_log_record-end c os healthy f dir name standard offset ended) (unfold is_eof in refl)
    where
      ended : length (content name dir) ≤ offset
      ended = rw (at_file, append-nil) (omega arith)
  load_hints_lem dir f name (h ∷ hints) (suc fuel) offset before index standard (is_hint, are)
        enough at_file at_offset bound =
      rw
        (
          read_log_record-record_bytes c os healthy f dir name standard (hint_record c h) before
              (hint_bytes c hints) offset is_hint.fits is_hint.full at_file at_offset here,
          load_hint_lem c ix h n index is_hint.pos_fits,
        )
        (ap (λ o. load_hints ix c os dir fuel f o (ix.put h.0 h.1 index).0) {y = offset + n}
            (omega (arith, here))
          ∙ load_hints_lem dir f name hints fuel (offset + n)
              (before ++ record_bytes c (hint_record c h)) (ix.put h.0 h.1 index).0 standard are
              (omega arith)
              (at_file
                ∙ sym (append_assoc before (record_bytes c (hint_record c h)) (hint_bytes c hints)))
              (omega (arith, length-append before (record_bytes c (hint_record c h))))
              (omega (arith, lens)))
    where
      n : ℕ
      n = length (record_bytes c (hint_record c h))

      lens :
          length (record_bytes c (hint_record c h) ++ hint_bytes c hints)
          ≡ n + length (hint_bytes c hints)
      lens = length-append (record_bytes c (hint_record c h)) (hint_bytes c hints)

      here : offset + n < u64_mod
      here = omega (arith, lens)

  abbrev pub hint_file : DataFile
  hint_file = record { file_id = 0; write_off = 0; io_manager = file_io hint_index }

  new_hint_file_lem :
      (dir : Dir) → new_hint_file os dir ≡ (ok hint_file, create_file hint_index dir)
  unfolding new_hint_file new_io_manager
  new_hint_file_lem dir = rw healthy.opens refl

  -- With a working operating system, a hint file with the encodings of entries that fit, shorter
  -- than 2^64 bytes, and more rounds than entries, loading the file succeeds and puts the entries
  -- into the index in their order; nothing else of the engine changes.
  pub load_index_from_hint_file-put_all :
      (e : Engine Ix) (hints : List Hint) (fuel : ℕ)
      → find hint_index e.dir ≡ some (hint_bytes c hints)
      → All (IsHint c) hints
      → length hints < fuel
      → length (hint_bytes c hints) < u64_mod
      → load_index_from_hint_file ix c os fuel e
        ≡ ok (record e { index = put_all ix hints e.index })
  unfolding load_index_from_hint_file
  load_index_from_hint_file-put_all e hints fuel at_name are enough bound =
      rw
        (
          at_name,
          new_hint_file_lem e.dir,
          load_hints_lem e.dir hint_file hint_index hints fuel 0 [] e.index refl are enough at_file
              refl (omega (arith, bound)),
        )
        refl
    where
      at_file : content hint_index e.dir ≡ hint_bytes c hints
      at_file = unfold content in (rw at_name refl)

  -- `write_hint_record` adds the encoding of its entry to the file.
  write_hint_record_lem :
      (f : DataFile) (h : Hint) (dir : Dir) (name : FileName)
      → f.io_manager ≡ file_io name
      → Fits (hint_record c h)
      → write_hint_record c os f h.0 h.1 dir ≡ (
        ok tt,
        record f { write_off = add64 f.write_off (length (record_bytes c (hint_record c h))) },
        append_file name (record_bytes c (hint_record c h)) dir,
      )
  unfolding write_hint_record
  write_hint_record_lem f h dir name standard fits =
      rw
        (
          encode_lem c (hint_record c h) fits,
          write_lem os healthy f (record_bytes c (hint_record c h)) dir standard
              (record_bytes_full c (hint_record c h)),
        )
        refl

  hint_bytes-snoc :
      (hints : List Hint) (h : Hint)
      → hint_bytes c (hints ++ (h ∷ [])) ≡ hint_bytes c hints ++ record_bytes c (hint_record c h)
  hint_bytes-snoc [] h = append-nil (record_bytes c (hint_record c h))
  hint_bytes-snoc (g ∷ hints) h =
      ap (λ bs. record_bytes c (hint_record c g) ++ bs) (hint_bytes-snoc hints h)
      ∙ sym (
          append_assoc (record_bytes c (hint_record c g)) (hint_bytes c hints)
            (record_bytes c (hint_record c h)))

  -- With a working operating system, entries that fit, fewer than 2^64 bytes and more rounds than
  -- entries, `write_hint_record` on a hint file with the encodings of some entries succeeds, and
  -- loading the file then puts these entries and behind them the written one into the index.
  pub write_hint_record-load :
      (e : Engine Ix) (hints : List Hint) (h : Hint) (fuel : ℕ)
      → find hint_index e.dir ≡ some (hint_bytes c hints)
      → All (IsHint c) (hints ++ (h ∷ []))
      → Fits (hint_record c h)
      → length (hints ++ (h ∷ [])) < fuel
      → length (hint_bytes c (hints ++ (h ∷ []))) < u64_mod
      → (f' : DataFile) × (d : Dir) × (write_hint_record c os hint_file h.0 h.1 e.dir
          ≡ (ok tt, f', d))
        × (load_index_from_hint_file ix c os fuel (record e { dir = d })
            ≡ ok (record e { dir = d; index = put_all ix (hints ++ (h ∷ [])) e.index }))
  write_hint_record-load e hints h fuel at_name are fits enough bound =
      let d = append_file hint_index (record_bytes c (hint_record c h)) e.dir in
      (
        record hint_file { write_off = add64 0 (length (record_bytes c (hint_record c h))) },
        d,
        write_hint_record_lem hint_file h e.dir hint_index refl fits,
        load_index_from_hint_file-put_all (record e { dir = d }) (hints ++ (h ∷ [])) fuel
            (find-append hint_index (record_bytes c (hint_record c h)) (hint_bytes c hints) e.dir
                at_name
              ∙ ap some (sym (hint_bytes-snoc hints h)))
            are enough bound,
      )
