-- ===== src/Merge/Rotate.antt =====
-- bitcask-rs/src/merge.rs: `ratate_merge_files`, which closes the active file before a merge.
use bitcask_rs.Base.{ℕ, ◌==◌, Bool, ◌&&◌, true, false, List, [], ◌∷◌, ◌++◌}
use bitcask_rs.Exec.{Exec, pure, gets, modify, ◌>>=◌, ◌>>◌}
use bitcask_rs.Fs.{Os}
use bitcask_rs.Map.{Map, insert}
use bitcask_rs.Data.DataFile.{DataFile}
use bitcask_rs.Engine.{Engine, next_id, sync_active, new_file}
use bitcask_rs.Open.DataFiles.{sort_ids}

abbrev pub ids_in {ℓ} : {V : Type ℓ} → Map V → List ℕ
ids_in [] = []
ids_in ((id, v) ∷ m) = id ∷ ids_in m

module _ {Ix : Type 0} (os : Os) where
  unfoldable pub open_each : List ℕ → Exec (Engine Ix) (List DataFile)
  open_each [] = pure []
  open_each (id ∷ ids) = do f ← new_file os id; fs ← open_each ids; pure (f ∷ fs)

  -- The files to merge, in the order of their ids. A new active file takes what is written from
  -- now on.
  unfoldable pub ratate_merge_files : Exec (Engine Ix) (List DataFile)
  unfolding open_each sort_ids
  ratate_merge_files = do
    older_ids ← gets (λ e. ids_in e.older_files)
    sync_active os
    active_file_id ← gets (λ e. e.active_file.file_id)
    new_active_file ← new_file os (next_id active_file_id)
    modify (λ e. record e { active_file = new_active_file })
    old_file ← new_file os active_file_id
    modify (λ e. record e { older_files = insert active_file_id old_file e.older_files })
    open_each (sort_ids (older_ids ++ (active_file_id ∷ [])))

abbrev pub is_empty_map {ℓ} : {V : Type ℓ} → Map V → Bool
is_empty_map [] = true
is_empty_map (x ∷ m) = false

abbrev pub is_empty_engine : {Ix : Type 0} → Engine Ix → Bool
is_empty_engine e = e.active_file.write_off == 0 && is_empty_map e.older_files
