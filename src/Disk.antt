-- ===== src/Disk.antt =====
-- The directories around an engine as `std::fs` shows them: the data directory and the directory
-- that a merge writes to, each with its files if it exists.
use bitcask_rs.Base.{◌≡◌, Bool, true, Option, none, some, []}
use bitcask_rs.Fs.{Dir}

pub record Disk : Type 0 where
  pub dir : Option Dir
  pub merge_dir : Option Dir

-- What the calls on directories answer while an operation runs. `has_parent` is whether the data
-- directory's path has a last part and a parent, and `lock_free` whether no other instance holds
-- the lock.
pub record DirAnswers : Type 0 where
  pub has_parent : Bool
  pub create_dir_ok : Bool
  pub lock_file_ok : Bool
  pub lock_free : Bool
  pub unlock_ok : Bool
  pub read_dir_ok : Bool
  pub remove_dir_ok : Bool
  pub remove_file_ok : Bool
  pub rename_ok : Bool

-- Every call succeeds.
pub record AllGranted (a : DirAnswers) : Type 0 where
  pub parent : a.has_parent ≡ true
  pub create_dir : a.create_dir_ok ≡ true
  pub lock_file : a.lock_file_ok ≡ true
  pub lock : a.lock_free ≡ true
  pub unlock : a.unlock_ok ≡ true
  pub read_dir : a.read_dir_ok ≡ true
  pub remove_dir : a.remove_dir_ok ≡ true
  pub remove_file : a.remove_file_ok ≡ true
  pub rename : a.rename_ok ≡ true

-- The files of a directory that may not be there.
abbrev pub or_nothing : Option Dir → Dir
or_nothing none = []
or_nothing (some d) = d
