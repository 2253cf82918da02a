-- ===== src/Fio.antt =====
-- bitcask-rs/src/fio: the IO managers. `FileIO` reads and appends through the directory;
-- `MMapIo` holds the bytes that the file had when it was mapped.
pub mod Reads
use bitcask_rs.Base.{
  ℕ, ◌+◌, ◌-◌, Bool, true, false, if◌then◌else◌, ltb, Option, none, some, List, [], ◌++◌, Bytes,
  length, take, drop, replicate, add64,
}
use bitcask_rs.Errors.{
  Result, ok, err, panic, stuck, failed_to_read_from_data_file, failed_to_write_data_file,
  failed_to_sync_data_file, failed_to_open_data_file, read_data_file_eof,
}
use bitcask_rs.Fs.{FileName, Dir, Os, find, content, create_file, append_file, truncate_file}

pub data IoType : Type 0 where
  standard_fio memory_map : IoType

-- `Box<dyn IOManager>`.
pub data IoManager : Type 0 where
  file_io : FileName → IoManager
  mmap_io : Bytes → IoManager

-- `read_at` into a zeroed buffer of `n` bytes: what lies behind the end of the file stays zero.
unfoldable pub read_at : ℕ → Bytes → ℕ → Bytes
read_at n file offset = let got = take n (drop offset file) in got ++ replicate (n - length got) 0

module _ (os : Os) where
  -- FileIO::new and MMapIo::new, MMapIo::open_existing
  unfoldable pub file_io_new : FileName → Dir → Result IoManager × Dir
  file_io_new name dir =
      if os.open_ok
      then (ok (file_io name), create_file name dir)
      else (err failed_to_open_data_file, dir)

  unfoldable pub mmap_new : FileName → Dir → Result IoManager × Dir
  mmap_new name dir =
      if os.open_ok
      then ((if os.map_ok then ok (mmap_io []) else panic), truncate_file name dir)
      else (err failed_to_open_data_file, dir)

  unfoldable pub mmap_open_existing : FileName → Dir → Result IoManager
  mmap_open_existing name dir = elim (find name dir) [
    | none ↦ err failed_to_open_data_file
    | some bs ↦
        if os.open_ok
        then (if os.map_ok then ok (mmap_io bs) else panic)
        else err failed_to_open_data_file
  ]

  -- `.expect(…)` on the new manager.
  abbrev expect_io : Result IoManager → Result IoManager
  expect_io (ok io) = ok io
  expect_io (err e) = panic
  expect_io panic = panic
  expect_io stuck = stuck

  unfoldable pub new_io_manager : FileName → IoType → Bool → Dir → Result IoManager × Dir
  unfolding file_io_new mmap_new mmap_open_existing
  new_io_manager name standard_fio create dir =
      let (io, dir') = file_io_new name dir in (expect_io io, dir')
  new_io_manager name memory_map true dir =
      let (io, dir') = mmap_new name dir in (expect_io io, dir')
  new_io_manager name memory_map false dir = (expect_io (mmap_open_existing name dir), dir)

  -- `read` into a zeroed buffer of `n` bytes.
  unfoldable pub io_read : IoManager → Dir → ℕ → ℕ → Result Bytes
  unfolding read_at
  io_read (file_io name) dir n offset =
      if os.read_ok
      then ok (read_at n (content name dir) offset)
      else err failed_to_read_from_data_file
  io_read (mmap_io map) dir n offset =
      let end = add64 offset n in
      if ltb (length map) end
      then err read_data_file_eof
      else if ltb end offset
      then panic
      else ok (take n (drop offset map))

  abbrev taken : FileName → Bytes → Dir → Option ℕ → Result ℕ × Dir
  taken name buf dir none = (err failed_to_write_data_file, dir)
  taken name buf dir (some n) = (ok n, append_file name (take n buf) dir)

  -- `write`; the map's is `unimplemented!()`.
  unfoldable pub io_write : IoManager → Bytes → Dir → Result ℕ × Dir
  io_write (file_io name) buf dir = taken name buf dir (os.accept (length buf))
  io_write (mmap_io map) buf dir = (panic, dir)

  unfoldable pub io_sync : IoManager → Result (Unit {0})
  io_sync (file_io name) = if os.sync_ok then ok tt else err failed_to_sync_data_file
  io_sync (mmap_io map) = ok tt

-- `metadata().len()`, or the length of the map.
unfoldable pub io_size : IoManager → Dir → ℕ
io_size (file_io name) dir = length (content name dir)
io_size (mmap_io map) dir = length map
