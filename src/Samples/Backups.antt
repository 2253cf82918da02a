-- ===== src/Samples/Backups.antt =====
-- The theorem about backups, at the engine with two data files.
use bitcask_rs.Base.{◌≡◌, refl, true, [], ◌∷◌, none, some, arith}
use bitcask_rs.Errors.{ok}
use bitcask_rs.Fs.{Dir, find, name_eq}
use bitcask_rs.Disk.{Disk}
use bitcask_rs.Index.BTree.{BTree, btree_indexer}
use bitcask_rs.Samples.{codec, calm, calm-IsHealthy}
use bitcask_rs.Samples.Loads.{view_after}
use bitcask_rs.Samples.Reopens.{
  two_files, two_files-LogSays, two_files-IsPlain, granted, granted-AllGranted, unmapped_options,
  unmapped-IsInMemory, nothing_in,
}
use bitcask_rs.Engine.{Engine}
use bitcask_rs.Engine.Refine.{Reads}
use bitcask_rs.Open.{open_engine}
use bitcask_rs.Stats.{backup}
use bitcask_rs.Stats.Copy.{HasDistinctNames}
use bitcask_rs.Stats.Backup.{backup-open_engine}

two_files-HasDistinctNames : HasDistinctNames two_files.dir
unfolding find name_eq
two_files-HasDistinctNames = (refl, (refl, tt))

backup-open_engine_example :
    (dest : Dir) × (backup granted true two_files none ≡ (ok tt, some dest))
    × (e' : Engine BTree) × (s : Disk) × (open_engine btree_indexer [] codec calm granted 2
          unmapped_options
          (record { dir = some dest; merge_dir = none })
        ≡ (ok e', s))
    × Reads btree_indexer codec e' view_after.store
unfolding two_files-LogSays
backup-open_engine_example =
    backup-open_engine btree_indexer [] codec calm calm-IsHealthy granted granted-AllGranted 2
      unmapped_options unmapped-IsInMemory two_files view_after.store (0 ∷ (1 ∷ []))
      two_files-LogSays (omega arith) two_files-IsPlain two_files-HasDistinctNames nothing_in none
      tt
