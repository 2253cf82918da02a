-- ===== src/Data/DataFile/Read.antt =====
-- Reading a record from a file that the standard IO manager reads.
use bitcask_rs.Base.{
  ℕ, ◌+◌, ◌-◌, ◌≤◌, ◌<◌, ◌==◌, ◌≡◌, refl, sym, ap, ◌∙◌, ◌&&◌, [], ◌∷◌, ◌++◌, append_assoc,
  append-nil, Bytes, length, length-append, take-append, drop-append, ==_refl, add64, sub64,
  u32_mod, u64_mod, some, arith,
}
use bitcask_rs.Errors.{ok, err, read_data_file_eof, fail_if}
use bitcask_rs.Codec.{Codec}
use bitcask_rs.Fs.{FileName, Dir, Os, IsHealthy, content}
use bitcask_rs.Fio.{file_io, io_read, read_at}
use bitcask_rs.Fio.Reads.{read_front, read_exact, read_past}
use bitcask_rs.Data.LogRecord.{LogRecord, type_u8, max_log_record_header_size}
use bitcask_rs.Data.LogRecord.Encode.{
  Fits, from_u8-type_u8, body, record_bytes, get_crc_lem, varint_le_five,
}
use bitcask_rs.Data.DataFile.{DataFile, get_range, advance, check_record, read_log_record}

-- A record that is not the mark of the end: its key or its value holds a byte.
abbrev pub IsNonEmpty : LogRecord → Type 0
IsNonEmpty r = 0 < length r.key + length r.value

-- A range that starts behind a known front and is as long as what stands there.
get_range-append :
    (a b : ℕ) (pre x post : Bytes)
    → a ≡ length pre
    → b ≡ a + length x
    → get_range (pre ++ (x ++ post)) a b ≡ some x
get_range-append a b pre x post ha hb =
    let lens : length (pre ++ (x ++ post)) ≡ length pre + (length x + length post) =
      rw (length-append, length-append) refl in
    rw (lens, drop-append a pre (x ++ post) ha, take-append (b - a) x post (omega arith))
      (ground arith)

advance-append : (n : ℕ) (pre post : Bytes) → n ≡ length pre → advance (pre ++ post) n ≡ ok post
advance-append n pre post h = rw (length-append, drop-append n pre post h) (ground arith)

module _ (c : Codec) where
  open c use {encode_varint, put_u32, crc32}

  -- The key, the value and the checksum, as they stand behind the header.
  abbrev tail_bytes : LogRecord → Bytes
  tail_bytes r = r.key ++ (r.value ++ put_u32 (crc32 (body c r)))

  abbrev head_bytes : LogRecord → Bytes
  head_bytes r =
      type_u8 r.rec_type ∷ (encode_varint (length r.key) ++ encode_varint (length r.value))

  get_u32-put : (n : ℕ) → n < u32_mod → c.get_u32 (put_u32 n) ≡ some (n, [])
  get_u32-put n h = rw append-nil at (c.get_u32_put n [] h)

  record_bytes_split : (r : LogRecord) → record_bytes c r ≡ head_bytes r ++ tail_bytes r
  unfolding record_bytes
  record_bytes_split r = simp append_assoc

  length-tail : (r : LogRecord) → length (tail_bytes r) ≡ length r.key + length r.value + 4
  length-tail r = omega (
    arith,
    length-append r.key (r.value ++ put_u32 (crc32 (body c r))),
    length-append r.value (put_u32 (crc32 (body c r))),
    c.length-put_u32 (crc32 (body c r)),
  )

  -- On the bytes that an encoded record has behind its header, the checks pass.
  check_record-tail :
      (r : LogRecord) (h : ℕ)
      → Fits r
      → h ≤ 11
      → check_record c (type_u8 r.rec_type) (length r.key) (length r.value) h (tail_bytes r)
        ≡ ok (record { record_read = r; size = h + length r.key + length r.value + 4 })
  unfolding check_record
  check_record-tail r h f hh =
      rw
        (
          get_range-append 0 (length r.key) [] r.key (r.value ++ put_u32 (crc32 (body c r))) refl
              (omega arith),
          end_of_value,
          get_range-append (length r.key) (length r.key + length r.value) r.key r.value
              (put_u32 (crc32 (body c r))) refl refl,
          from_u8-type_u8,
          skipped,
          get_u32-put (crc32 (body c r)) (c.crc32-lt (body c r)),
          get_crc_lem c r f,
          ==_refl (crc32 (body c r)),
        )
        (ap (λ n. ok (record { record_read = r; size = n })) (omega (arith, f)))
    where
      end_of_value : sub64 (length (tail_bytes r)) 4 ≡ length r.key + length r.value
      end_of_value = omega (arith, length-tail r, f)

      skipped :
          advance (tail_bytes r) (add64 (length r.key) (length r.value))
          ≡ ok (put_u32 (crc32 (body c r)))
      skipped = rw (← append_assoc r.key r.value (put_u32 (crc32 (body c r)))) (
          advance-append (add64 (length r.key) (length r.value)) (r.key ++ r.value) _
            (omega (arith, length-append r.key r.value, f)))

  -- The header that the source reserves room for has eleven bytes.
  -- A zero byte is the delimiter of an empty field.
  pub decode_zero : (rest : Bytes) → c.decode_length_delimiter (0 ∷ rest) ≡ some (0, rest)
  decode_zero rest =
      rw (c.encode_varint_small 0 (omega arith)) at (c.decode_delimiter_encode 0 rest (omega arith))

  pub max_header : max_log_record_header_size c ≡ 11
  unfolding max_log_record_header_size
  max_header = rw c.delimiter_len_u32_max

  length-head : (r : LogRecord) → Fits r → length (head_bytes r) ≤ 11
  length-head r f = omega (
    arith,
    length-append (encode_varint (length r.key)) (encode_varint (length r.value)),
    varint_le_five c (length r.key),
    varint_le_five c (length r.value),
    f,
  )

module _ (c : Codec) (os : Os) (healthy : IsHealthy os) (f : DataFile) (dir : Dir) (name : FileName)
    (standard : f.io_manager ≡ file_io name) where
  open c use {encode_varint}

  io_read-content :
      (n offset : ℕ)
      → io_read os f.io_manager dir n offset ≡ ok (read_at n (content name dir) offset)
  unfolding io_read
  io_read-content n offset = rw (standard, healthy.reads)

  -- With a working operating system, through the standard manager of a file: a record that is not
  -- empty and has 32-bit lengths is read back whole from wherever its encoding stands in the file,
  -- whatever stands around it, if it ends below 2^64.
  pub read_log_record-record_bytes :
      (r : LogRecord) (pre post : Bytes) (offset : ℕ)
      → Fits r
      → IsNonEmpty r
      → content name dir ≡ pre ++ (record_bytes c r ++ post)
      → offset ≡ length pre
      → offset + length (record_bytes c r) < u64_mod
      → read_log_record c os f dir offset
        ≡ ok (record { record_read = r; size = length (record_bytes c r) })
  unfolding read_log_record
  read_log_record-record_bytes r pre post offset fits full at_file at_offset bound =
      rw
        (
          io_read-content,
          at_file,
          ← at_split,
          max_header c,
          read_front 11 offset pre (head_bytes c r) (tail_bytes c r ++ post) at_offset
              (length-head c r fits),
        )
        (rw
          (
            append_assoc (encode_varint (length r.key)) (encode_varint (length r.value)),
            c.decode_delimiter_encode (length r.key) _ (omega (arith, fits)),
            c.decode_delimiter_encode (length r.value) _ (omega (arith, fits)),
            not_end,
            kv_read,
          )
          (rw (check_record-tail c r header_size fits header_le)
            (ap (λ n. ok (record { record_read = r; size = n })) (omega (arith, sizes)))))
    where
      at_split : head_bytes c r ++ (tail_bytes c r ++ post) ≡ record_bytes c r ++ post
      at_split =
          rw (record_bytes_split c r) (sym (append_assoc (head_bytes c r) (tail_bytes c r) post))

      header_size : ℕ
      header_size =
          c.length_delimiter_len (length r.key) + c.length_delimiter_len (length r.value) + 1

      header_eq : header_size ≡ length (head_bytes c r)
      header_eq = omega (
        arith,
        length-append (encode_varint (length r.key)) (encode_varint (length r.value)),
        c.delimiter_len (length r.key),
        c.delimiter_len (length r.value),
        fits,
      )

      header_le : header_size ≤ 11
      header_le = omega (arith, header_eq, length-head c r fits)

      length_tail : length (tail_bytes c r) ≡ length r.key + length r.value + 4
      length_tail = length-tail c r

      sizes : length (record_bytes c r) ≡ header_size + length r.key + length r.value + 4
      sizes = rw (record_bytes_split c r, length-append) (omega (arith, header_eq, length_tail))

      not_end : fail_if (length r.key == 0 && length r.value == 0) read_data_file_eof ≡ ok tt
      not_end = ground arith

      whole : content name dir ≡ (pre ++ head_bytes c r) ++ (tail_bytes c r ++ post)
      whole =
          at_file ∙ ap (λ t. pre ++ t) (sym at_split) ∙ sym (append_assoc pre (head_bytes c r) _)

      kv_read :
          io_read os f.io_manager dir
            (add64 (add64 (length r.key) (length r.value)) 4)
            (add64 offset header_size)
          ≡ ok (tail_bytes c r)
      kv_read =
          rw (io_read-content, whole)
            (ap ok (
              read_exact _ _ (pre ++ head_bytes c r) (tail_bytes c r) post
                (omega (arith, length-append pre (head_bytes c r), header_eq, sizes))
                (omega (arith, length_tail, fits))))

  -- With a working operating system, through the standard manager of a file: a read at or behind the
  -- end of the file answers that the end is reached.
  pub read_log_record-end :
      (offset : ℕ)
      → length (content name dir) ≤ offset
      → read_log_record c os f dir offset ≡ err read_data_file_eof
  unfolding read_log_record
  read_log_record-end offset h = rw (
    io_read-content,
    max_header c,
    read_past 11 offset (content name dir) h,
    decode_zero c,
    decode_zero c,
  )
