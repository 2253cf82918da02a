-- ===== src/Merge/Adopt.antt =====
-- bitcask-rs/src/merge.rs: `load_merge_files`, which moves the files of a finished merge into the
-- data directory.
use bitcask_rs.Base.{
  ℕ, zero, suc, Bool, true, false, not, ◌&&◌, ◌||◌, if◌then◌else◌, Option, none, some, List, [],
  ◌∷◌, Bytes, u32_mod,
}
use bitcask_rs.Errors.{
  Result, ok, err, fail_if, or_err, failed_to_read_database_dir, failed_to_delete_database_dir,
  failed_to_delete_file, failed_to_rename, parse_error, ◌>>=◌ as and_then,
}
use bitcask_rs.Exec.{Exec, pure, lift, gets, ◌>>=◌, ◌>>◌}
use bitcask_rs.Codec.{Codec}
use bitcask_rs.Decimal.{parse_uint}
use bitcask_rs.Disk.{Disk, DirAnswers, or_nothing}
use bitcask_rs.Options.{is_empty}
use bitcask_rs.Fs.{
  FileName, data_name, hint_index, merge_finished, seq_no_name, flock, stray_data, Dir, Os, find,
  remove_file, write_file,
}
use bitcask_rs.Data.DataFile.{new_merge_fin_file, read_log_record}

abbrev is_finished_mark : FileName → Bool
is_finished_mark merge_finished = true
is_finished_mark _ = false

-- The files that stay behind: the sequence number, the lock, and data files with no bytes.
abbrev pub stays_behind : FileName → Bytes → Bool
stays_behind (data_name id) bs = is_empty bs
stays_behind stray_data bs = is_empty bs
stays_behind seq_no_name bs = true
stays_behind flock bs = true
stays_behind hint_index bs = false
stays_behind merge_finished bs = false

-- Whether a file marks the merge as finished.
unfoldable pub is_finished : Dir → Bool
is_finished [] = false
is_finished ((name, bs) ∷ d) = is_finished_mark name || is_finished d

unfoldable pub moved_names : Dir → List FileName
moved_names [] = []
moved_names ((name, bs) ∷ d) =
    let rest = moved_names d in if stays_behind name bs then rest else name ∷ rest

abbrev is_some {ℓ} : {A : Type ℓ} → Option A → Bool
is_some none = false
is_some (some a) = true

module _ (a : DirAnswers) where
  -- `for fid in 0..non_merge_fid`, from an id on.
  unfoldable pub delete_merged : ℕ → ℕ → Dir → Result (Unit {0}) × Dir
  delete_merged zero fid d = (ok tt, d)
  delete_merged (suc n) fid d =
      let rest = delete_merged n (suc fid) (remove_file (data_name fid) d) in
      if is_some (find (data_name fid) d) && not a.remove_file_ok
      then (err failed_to_delete_file, d)
      else rest

  -- A file goes over the one of its name.
  abbrev move_file : FileName → Option Bytes → Dir → Dir
  move_file name none d = d
  move_file name (some bs) d = write_file name bs d

  -- The loop of `fs::rename`, from the merge directory into the data directory.
  unfoldable pub move_files : List FileName → Dir → Dir → Result (Unit {0}) × Dir × Dir
  move_files [] from d = (ok tt, from, d)
  move_files (name ∷ names) from d =
      let rest = move_files names (remove_file name from) (move_file name (find name from) d) in
      if a.rename_ok then rest else (err failed_to_rename, from, d)

  -- `fs::remove_dir_all(merge_path)`
  abbrev pub drop_merge_dir : Exec Disk Unit
  drop_merge_dir s =
      if a.remove_dir_ok
      then (ok tt, record s { merge_dir = none })
      else (err failed_to_delete_database_dir, s)

  module _ (c : Codec) (os : Os) where
    -- The id of the first file that took no part in the merge.
    unfoldable pub non_merge_fid : Dir → Result ℕ
    non_merge_fid merge_dir = and_then (new_merge_fin_file os merge_dir).0 λ file.
        and_then (read_log_record c os file merge_dir 0)
          λ r. or_err (parse_uint u32_mod r.record_read.value) parse_error

    abbrev deleting : ℕ → Exec Disk Unit
    deleting fid s =
        let (r, d) = delete_merged fid 0 (or_nothing s.dir) in (r, record s { dir = some d })

    abbrev moving : List FileName → Exec Disk Unit
    moving names s =
        let (r, from, d) = move_files names (or_nothing s.merge_dir) (or_nothing s.dir) in
        (r, record s { dir = some d; merge_dir = some from })

    abbrev pub adopt : Bool → Dir → Exec Disk Unit
    adopt false merge_dir = drop_merge_dir
    adopt true merge_dir = do
      fid ← lift (non_merge_fid merge_dir)
      deleting fid
      moving (moved_names merge_dir)
      drop_merge_dir

    abbrev pub adopt_from : Option Dir → Exec Disk Unit
    adopt_from none = pure tt
    adopt_from (some merge_dir) = do
      lift (fail_if (not a.read_dir_ok) failed_to_read_database_dir)
      adopt (is_finished merge_dir) merge_dir

    unfoldable pub load_merge_files : Exec Disk Unit
    unfolding delete_merged move_files non_merge_fid
    load_merge_files = do
      lift (fail_if (not a.has_parent) failed_to_read_database_dir)
      merge_dir ← gets (λ s. s.merge_dir)
      adopt_from merge_dir
