-- ===== src/Open/DataFiles.antt =====
-- bitcask-rs/src/db.rs: `load_data_files`, which finds and opens the data files of a directory.
use bitcask_rs.Base.{ℕ, leb, ltb, Bool, not, if◌then◌else◌, List, [], ◌∷◌, u32_mod}
use bitcask_rs.Errors.{
  Result, ok, err, fail_if, data_directory_corrupted, failed_to_read_database_dir,
  ◌>>=◌ as and_then,
}
use bitcask_rs.Exec.{Exec, pure, lift, reads, ◌>>=◌, ◌>>◌}
use bitcask_rs.Disk.{DirAnswers}
use bitcask_rs.Fs.{data_name, hint_index, merge_finished, seq_no_name, flock, stray_data, Dir, Os}
use bitcask_rs.Fio.{IoType, standard_fio, memory_map}
use bitcask_rs.Data.DataFile.{DataFile, open_file}

-- `parse::<u32>()`: an id that is no `u32` stands in a corrupted directory.
abbrev pub add_id : ℕ → Result (List ℕ) → Result (List ℕ)
add_id id rest =
    if ltb id u32_mod then and_then rest (λ ids. ok (id ∷ ids)) else err data_directory_corrupted

-- The loop over the entries: the id of each name that ends in `.data`.
unfoldable pub data_ids : Dir → Result (List ℕ)
data_ids [] = ok []
data_ids ((data_name id, bs) ∷ d) = add_id id (data_ids d)
data_ids ((stray_data, bs) ∷ d) = err data_directory_corrupted
data_ids ((hint_index, bs) ∷ d) = data_ids d
data_ids ((merge_finished, bs) ∷ d) = data_ids d
data_ids ((seq_no_name, bs) ∷ d) = data_ids d
data_ids ((flock, bs) ∷ d) = data_ids d

-- `file_ids.sort()`
unfoldable pub insert_id : ℕ → List ℕ → List ℕ
insert_id n [] = n ∷ []
insert_id n (m ∷ ms) = let rest = insert_id n ms in if leb n m then n ∷ (m ∷ ms) else m ∷ rest

unfoldable pub sort_ids : List ℕ → List ℕ
unfolding insert_id
sort_ids [] = []
sort_ids (n ∷ ns) = insert_id n (sort_ids ns)

-- Only files before the last are mapped.
abbrev pub io_type_of : Bool → List ℕ → IoType
io_type_of use_mmap [] = standard_fio
io_type_of use_mmap (id ∷ ids) = if use_mmap then memory_map else standard_fio

module _ (os : Os) where
  unfoldable pub open_files : Bool → List ℕ → Exec Dir (List DataFile)
  open_files use_mmap [] = pure []
  open_files use_mmap (id ∷ ids) = do
    f ← open_file os id (io_type_of use_mmap ids)
    fs ← open_files use_mmap ids
    pure (f ∷ fs)

module _ (a : DirAnswers) (os : Os) where
  unfoldable pub load_data_files : Bool → Exec Dir (List DataFile)
  unfolding data_ids sort_ids open_files
  load_data_files use_mmap = do
    lift (fail_if (not a.read_dir_ok) failed_to_read_database_dir)
    ids ← reads data_ids
    open_files os use_mmap (sort_ids ids)
