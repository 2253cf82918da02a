-- ===== src/Merge/Closed.antt =====
-- bitcask-rs/src/merge.rs: what `ratate_merge_files` does to the map that the engine holds.
use bitcask_rs.Base.{
  ℕ, ◌+◌, ◌<◌, ◌==◌, ◌≡◌, refl, ◌∙◌, Bool-cases, inl, inr, some, List, [], ◌∷◌, ◌++◌, Bytes,
  u32_mod, arith,
}
use bitcask_rs.Errors.{ok}
use bitcask_rs.Fs.{data_name, Dir, Os, IsHealthy, content, create_file, content-create}
use bitcask_rs.Codec.{Codec}
use bitcask_rs.Map.{insert, lookup-insert}
use bitcask_rs.Index.{Indexer}
use bitcask_rs.Data.LogRecord.{LogRecordPos}
use bitcask_rs.Data.DataFile.{DataFile}
use bitcask_rs.Engine.{Engine, file_for, next_id}
use bitcask_rs.Engine.Files.{HasFiles, fresh_file, new_lem, sync_file_ok}
use bitcask_rs.Engine.Stored.{Stored}
use bitcask_rs.Engine.Refine.{Store, Refines}
use bitcask_rs.Open.DataFiles.{sort_ids}
use bitcask_rs.Open.Listing.{fresh_files, created, content-created}
use bitcask_rs.Merge.Rotate.{ids_in, open_each, ratate_merge_files}

module _ {Ix : Type 0} (e : Engine Ix) where
  abbrev dir_closed : Dir
  dir_closed =
      create_file (data_name e.active_file.file_id)
        (create_file (data_name (next_id e.active_file.file_id)) e.dir)

  -- The ids of the files to merge.
  abbrev pub merged_ids : List ℕ
  merged_ids = sort_ids (ids_in e.older_files ++ (e.active_file.file_id ∷ []))

  -- The engine with all its files closed and a new active file.
  abbrev pub closed : Engine Ix
  closed = record e {
    dir = created merged_ids dir_closed;
    active_file = fresh_file (next_id e.active_file.file_id);
    older_files = insert e.active_file.file_id (fresh_file e.active_file.file_id) e.older_files;
  }

  content-closed : (id : ℕ) → content (data_name id) closed.dir ≡ content (data_name id) e.dir
  content-closed id = content-created id merged_ids dir_closed ∙ (simp content-create)

  closed-HasFiles : HasFiles e → e.active_file.file_id + 1 < u32_mod → HasFiles closed
  closed-HasFiles h room = record {
    active_standard = refl;
    older_standard = λ id f found. ground (
      arith,
      lookup-insert e.active_file.file_id id (fresh_file e.active_file.file_id) e.older_files,
      h.older_standard id f,
    );
    at_end = rw (content-closed, h.fresh (next_id e.active_file.file_id) (omega arith)) refl;
    fresh = λ id later. rw content-closed (h.fresh id (omega arith));
  }

  file_for-closed :
      (id : ℕ) (f : DataFile)
      → file_for e id ≡ some f
      → (f' : DataFile) × (file_for closed id ≡ some f')
  unfolding file_for
  file_for-closed id f found = elim (Bool-cases (next_id e.active_file.file_id == id)) [
    | inl here ↦ (fresh_file (next_id e.active_file.file_id), rw here refl)
    | inr there ↦ elim (Bool-cases (e.active_file.file_id == id)) [
      | inl old ↦ (fresh_file e.active_file.file_id, rw (there, lookup-insert, old) refl)
      | inr older ↦ (f, rw (there, lookup-insert, older) (rw older at found))
    ]
  ]

  Stored-closed :
      (c : Codec) (pos : LogRecordPos) (v : Bytes) → Stored c e pos v → Stored c closed pos v
  Stored-closed c pos v s =
      let (f', known') = file_for-closed pos.file_id s.file s.known in
      record {
        rec = s.rec;
        fits = s.fits;
        full = s.full;
        live = s.live;
        value_of_rec = s.value_of_rec;
        before = s.before;
        after = s.after;
        at_file = content-closed pos.file_id ∙ s.at_file;
        at_offset = s.at_offset;
        bound = s.bound;
        file = f';
        known = known';
      }

module _ {Ix : Type 0} (ix : Indexer Ix) (c : Codec) (os : Os) (healthy : IsHealthy os) where
  open_each_lem :
      (ids : List ℕ) (e : Engine Ix)
      → open_each os ids e ≡ (ok (fresh_files ids), record e { dir = created ids e.dir })
  unfolding open_each
  open_each_lem [] e = refl
  open_each_lem (id ∷ ids) e =
      rw
        (
          new_lem os healthy id e.dir,
          open_each_lem ids (record e { dir = create_file (data_name id) e.dir }),
        )
        refl

  -- With a working operating system and an id left for the next file, `ratate_merge_files`
  -- succeeds: it answers the files with all ids that the engine had, sorted, the engine still holds
  -- its map, and a file with the next id is active.
  pub ratate_merge_files-Refines :
      (e : Engine Ix) (m : Store)
      → Refines ix c e m
      → e.active_file.file_id + 1 < u32_mod
      → (e' : Engine Ix) × (ratate_merge_files os e ≡ (ok (fresh_files (merged_ids e)), e'))
        × Refines ix c e' m
        × (e'.active_file.file_id ≡ e.active_file.file_id + 1)
  unfolding ratate_merge_files
  ratate_merge_files-Refines e m h room = (
    closed e,
    rw
        (
          sync_file_ok os healthy e.active_file,
          new_lem os healthy (next_id e.active_file.file_id) e.dir,
          new_lem os healthy e.active_file.file_id
              (create_file (data_name (next_id e.active_file.file_id)) e.dir),
          open_each_lem (merged_ids e) (record (closed e) { dir = dir_closed e }),
        )
        refl,
    record {
      files = closed-HasFiles e h.files room;
      absent = h.absent;
      present = λ k pos here.
          let (v, held, s) = h.present k pos here in (v, held, Stored-closed e c pos v s);
    },
    omega arith,
  )
