-- ===== src/Open/Closing.antt =====
-- bitcask-rs/src/db.rs: the sequence number that `close` writes is the one that the next `open` takes.
use bitcask_rs.Base.{
  true, ℕ, ◌<◌, ◌≡◌, refl, sym, ap, ◌∙◌, Option-cases, inl, inr, Option, none, some, [], ◌++◌,
  append_assoc, append-nil, Bytes, length, length-append, u64_mod, arith,
}
use bitcask_rs.Errors.{ok}
use bitcask_rs.Codec.{Codec}
use bitcask_rs.Decimal.{to_string}
use bitcask_rs.Decimal.RoundTrip.{length-to_string, parse_uint-to_string}
use bitcask_rs.Disk.{DirAnswers, AllGranted}
use bitcask_rs.Fs.{
  seq_no_name, name_eq, Dir, Os, IsHealthy, find, content, create_file, append_file, content-create,
  content-append,
}
use bitcask_rs.Fio.{file_io, new_io_manager}
use bitcask_rs.Data.LogRecord.{LogRecord, encoded_length}
use bitcask_rs.Data.LogRecord.Encode.{
  Fits, record_bytes, encode_lem, length-record_bytes, varint_le_five,
}
use bitcask_rs.Data.DataFile.{DataFile, new_seq_no_file}
use bitcask_rs.Data.DataFile.Read.{read_log_record-record_bytes}
use bitcask_rs.Engine.{Engine}
use bitcask_rs.Engine.Files.{sync_file_ok, write_lem}
use bitcask_rs.Engine.Append.{record_bytes_full}
use bitcask_rs.Open.SeqNo.{seq_no_record, load_seq_no, close}

-- The number in front, if there is one.
abbrev pub first_of : Option ℕ → ℕ → ℕ
first_of none n = n
first_of (some k) n = k

module _ (c : Codec) (os : Os) (healthy : IsHealthy os) (a : DirAnswers)
    (granted : AllGranted a) where
  abbrev number_record : ℕ → LogRecord
  number_record n = seq_no_record c os a n

  abbrev seq_file : DataFile
  seq_file = record { file_id = 0; write_off = 0; io_manager = file_io seq_no_name }

  new_seq_no_file_lem : (d : Dir) → new_seq_no_file os d ≡ (ok seq_file, create_file seq_no_name d)
  unfolding new_seq_no_file new_io_manager
  new_seq_no_file_lem d = rw healthy.opens refl

  number_record-Fits : (n : ℕ) → Fits (number_record n)
  number_record-Fits n = record {
    key_fits = omega arith;
    value_fits = omega (arith, length-to_string n);
  }

  number_record_short : (n : ℕ) → length (record_bytes c (number_record n)) < u64_mod
  unfolding encoded_length
  number_record_short n =
      let r = number_record n in
      omega (
        arith,
        length-record_bytes c r (number_record-Fits n),
        length-to_string n,
        c.delimiter_len 6 (omega arith),
        c.delimiter_len (length (to_string n)) (omega (arith, length-to_string n)),
        varint_le_five c 6 (omega arith),
        varint_le_five c (length (to_string n)) (omega (arith, length-to_string n)),
      )

  find-content :
      (bs : Bytes) (d : Dir)
      → 0 < length bs
      → content seq_no_name d ≡ bs
      → find seq_no_name d ≡ some bs
  unfolding content
  find-content bs d some_there at_file = elim (Option-cases (find seq_no_name d)) [
    | inl gone ↦ absurd (omega (arith, some_there, ap length (rw gone at at_file)))
    | inr (cs, here) ↦ here ∙ ap some (rw here at at_file)
  ]

  load_seq_no-first :
      (n : ℕ) (rest : Bytes) (d : Dir)
      → n < u64_mod
      → content seq_no_name d ≡ record_bytes c (number_record n) ++ rest
      → (load_seq_no c os a d).0 ≡ ok (some n)
  unfolding load_seq_no
  load_seq_no-first n rest d in_range at_file =
      let r = number_record n in
      rw
        (
          find-content (record_bytes c r ++ rest) d
              (omega (arith, record_bytes_full c r, length-append (record_bytes c r) rest)) at_file,
          new_seq_no_file_lem d,
          read_log_record-record_bytes c os healthy seq_file d seq_no_name refl r [] rest 0
              (number_record-Fits n) (omega arith) at_file refl
              (omega (arith, number_record_short n)),
          parse_uint-to_string n in_range,
          granted.remove_file,
        )
        refl

  -- What the file of sequence numbers may have: nothing, or a number in front.
  abbrev pub kept_bytes : Option ℕ → Bytes → Bytes
  kept_bytes none rest = []
  kept_bytes (some n) rest = record_bytes c (number_record n) ++ rest

  abbrev after_close : {Ix : Type 0} → Engine Ix → Engine Ix
  after_close e = record e {
    dir =
        append_file seq_no_name (record_bytes c (number_record e.seq_no))
          (create_file seq_no_name e.dir);
  }

  close_run : {Ix : Type 0} (e : Engine Ix) → close c os a true e ≡ (ok tt, after_close e)
  unfolding close
  close_run e =
      let r = number_record e.seq_no in
      rw
        (
          new_seq_no_file_lem e.dir,
          encode_lem c r (number_record-Fits e.seq_no),
          write_lem os healthy seq_file (record_bytes c r) (create_file seq_no_name e.dir) refl
              (record_bytes_full c r),
          sync_file_ok os healthy seq_file,
          sync_file_ok os healthy e.active_file,
          granted.unlock,
        )
        refl

  content-after_close :
      {Ix : Type 0} (e : Engine Ix)
      → content seq_no_name (after_close e).dir
        ≡ content seq_no_name e.dir ++ record_bytes c (number_record e.seq_no)
  unfolding name_eq
  content-after_close e =
      content-append seq_no_name seq_no_name (record_bytes c (number_record e.seq_no))
        (create_file seq_no_name e.dir)
      ∙ ap (λ bs. bs ++ record_bytes c (number_record e.seq_no))
          (content-create seq_no_name seq_no_name e.dir)

  starts_with_first :
      {Ix : Type 0} (e : Engine Ix) (o : Option ℕ) (rest : Bytes)
      → content seq_no_name e.dir ≡ kept_bytes o rest
      → (more : Bytes) × (content seq_no_name (after_close e).dir
          ≡ record_bytes c (number_record (first_of o e.seq_no)) ++ more)
  starts_with_first e none rest at_file = (
    [],
    content-after_close e
        ∙ ap (λ bs. bs ++ record_bytes c (number_record e.seq_no)) at_file
        ∙ sym (append-nil (record_bytes c (number_record e.seq_no))),
  )
  starts_with_first e (some k) rest at_file = (
    rest ++ record_bytes c (number_record e.seq_no),
    content-after_close e
        ∙ ap (λ bs. bs ++ record_bytes c (number_record e.seq_no)) at_file
        ∙ append_assoc (record_bytes c (number_record k)) rest
            (record_bytes c (number_record e.seq_no)),
  )

  -- Where the data directory is there and the operating system's calls succeed, `close` succeeds on an
  -- engine whose file of sequence numbers is empty or begins with a number, with 64-bit numbers, and
  -- the next `open` takes from the file the engine's own number if the file was empty, and otherwise
  -- the number that was there.
  pub close-load_seq_no :
      {Ix : Type 0} (e : Engine Ix) (o : Option ℕ) (rest : Bytes)
      → content seq_no_name e.dir ≡ kept_bytes o rest
      → first_of o e.seq_no < u64_mod
      → (e' : Engine Ix) × (close c os a true e ≡ (ok tt, e'))
        × ((load_seq_no c os a e'.dir).0 ≡ ok (some (first_of o e.seq_no)))
  close-load_seq_no e o rest at_file in_range =
      let (more, starts) = starts_with_first e o rest at_file in
      (
        after_close e,
        close_run e,
        load_seq_no-first (first_of o e.seq_no) more (after_close e).dir in_range starts,
      )
