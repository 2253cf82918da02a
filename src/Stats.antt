-- ===== src/Stats.antt =====
-- bitcask-rs/src/db.rs and util/file.rs: `sync`, `stat` and `backup`.
pub mod Copy
pub mod Backup
use bitcask_rs.Base.{
  ℕ, Bool, true, false, not, if◌then◌else◌, Option, some, none, [], ◌∷◌, length, add64,
}
use bitcask_rs.Errors.{
  Result, ok, err, failed_to_create_database_dir, failed_to_read_database_dir, failed_to_copy_dir,
}
use bitcask_rs.Exec.{Exec}
use bitcask_rs.Fs.{
  FileName, data_name, hint_index, merge_finished, seq_no_name, flock, stray_data, Dir, Os,
  write_file,
}
use bitcask_rs.Disk.{DirAnswers}
use bitcask_rs.Index.BTree.{BTree}
use bitcask_rs.Engine.{Engine, sync_active}
use bitcask_rs.Iterator.{engine_keys}

pub record Stat : Type 0 where
  pub key_num : ℕ
  pub data_file_num : ℕ
  pub reclaim_size : ℕ
  pub disk_size : ℕ

-- `Engine::sync`
unfoldable pub sync : {Ix : Type 0} → Os → Exec (Engine Ix) Unit
sync os = sync_active os

-- `Engine::stat`, with the size of the data directory.
unfoldable pub stat : ℕ → Engine BTree → Result Stat
stat dir_size e = ok (record {
  key_num = length (engine_keys e);
  data_file_num = add64 (length e.older_files) 1;
  reclaim_size = e.reclaim_size;
  disk_size = dir_size;
})

-- The lock file is left out of a copy.
abbrev pub is_excluded : FileName → Bool
is_excluded flock = true
is_excluded (data_name id) = false
is_excluded hint_index = false
is_excluded merge_finished = false
is_excluded seq_no_name = false
is_excluded stray_data = false

-- The loop of `copy_dir` over the files of a directory; `copies` is whether `fs::copy` succeeds.
unfoldable pub copy_files : Bool → Dir → Exec Dir Unit
copy_files copies [] d = (ok tt, d)
copy_files copies ((name, bs) ∷ from) d =
    let rest = copy_files copies from (write_file name bs d) in
    let skipped = copy_files copies from d in
    if is_excluded name then skipped else if copies then rest else (err failed_to_copy_dir, d)

-- `Engine::backup`, into a directory that may not be there yet.
unfoldable pub backup :
    {Ix : Type 0} → DirAnswers → Bool → Engine Ix → Option Dir → Result (Unit {0}) × Option Dir
unfolding copy_files
backup a copies e none =
    if not a.create_dir_ok
    then (err failed_to_create_database_dir, none)
    else if not a.read_dir_ok
    then (err failed_to_read_database_dir, some [])
    else (let (r, d) = copy_files copies e.dir [] in (r, some d))
backup a copies e (some dest) =
    if not a.read_dir_ok
    then (err failed_to_read_database_dir, some dest)
    else (let (r, d) = copy_files copies e.dir dest in (r, some d))
