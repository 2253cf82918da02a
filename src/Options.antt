-- ===== src/Options.antt =====
-- bitcask-rs/src/options.rs, and `check_options` of db.rs.
use bitcask_rs.Base.{
  ℕ, ◌==◌, leb, ltb, Bool, true, false, ◌&&◌, ◌||◌, Option, none, some, [], ◌∷◌, Bytes,
}
use bitcask_rs.Errors.{
  Result, ok, dir_path_is_empty, data_file_size_too_small, invalid_merge_ratio, fail_if, ◌>>◌,
}

pub data IndexType : Type 0 where
  b_tree skip_list b_plus_tree : IndexType

-- `dir_path` is the text of the path, if the path is UTF-8; `data_file_merge_ratio` is an `f32` by its
-- bits.
pub record Options : Type 0 where
  pub dir_path : Option Bytes
  pub data_file_size : ℕ
  pub bytes_per_sync : ℕ
  pub sync_writes : Bool
  pub index_type : IndexType
  pub mmap_at_startup : Bool
  pub data_file_merge_ratio : ℕ

pub record WriteBatchOptions : Type 0 where
  pub max_batch_num : ℕ
  pub sync_writes : Bool

pub record IteratorOptions : Type 0 where
  pub prefix : Bytes
  pub reverse : Bool

abbrev pub default_write_batch_options : WriteBatchOptions
default_write_batch_options = record { max_batch_num = 10000; sync_writes = true }

-- The temporary directory comes from the environment.
abbrev pub default_options : Option Bytes → Options
default_options dir_path = record {
  dir_path = dir_path;
  data_file_size = 268435456;
  bytes_per_sync = 0;
  sync_writes = false;
  index_type = b_tree;
  mmap_at_startup = true;
  data_file_merge_ratio = 0x3f00_0000;
}

-- `x < 0.0` and `x > 1.0` on the bits of an `f32`: a NaN and a negative zero pass neither.
abbrev f32_lt_zero : ℕ → Bool
f32_lt_zero bits = ltb 0x8000_0000 bits && leb bits 0xff80_0000

abbrev f32_gt_one : ℕ → Bool
f32_gt_one bits = ltb 0x3f80_0000 bits && leb bits 0x7f80_0000

abbrev pub is_empty : Bytes → Bool
is_empty [] = true
is_empty (b ∷ bs) = false

-- `to_str().is_none_or(|size| size.is_empty())`
abbrev is_no_path : Option Bytes → Bool
is_no_path none = true
is_no_path (some text) = is_empty text

unfoldable pub check_options : Options → Result (Unit {0})
check_options opts = do
  fail_if (is_no_path opts.dir_path) dir_path_is_empty
  fail_if (opts.data_file_size == 0) data_file_size_too_small
  fail_if (f32_lt_zero opts.data_file_merge_ratio || f32_gt_one opts.data_file_merge_ratio)
      invalid_merge_ratio
  ok tt
