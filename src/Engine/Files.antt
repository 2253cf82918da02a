-- ===== src/Engine/Files.antt =====
-- The data files of an engine: what the calls on them do where the operating system does its part,
-- and the layout that the methods keep.
use bitcask_rs.Base.{
  ℕ, ◌+◌, ◌<◌, ◌==◌, ◌≡◌, refl, if◌then◌else◌, some, List, [], ◌∷◌, ◌++◌, append-nil, Bytes, length,
  take, length-append, take-append, add64, u32_mod, u64_mod, arith,
}
use bitcask_rs.Errors.{ok}
use bitcask_rs.Fs.{
  FileName, data_name, name_eq, Dir, Os, IsHealthy, content, create_file, append_file,
  content-create, content-append,
}
use bitcask_rs.Fio.{IoManager, file_io, mmap_io, standard_fio, io_sync}
use bitcask_rs.Map.{lookup, insert, lookup-insert}
use bitcask_rs.Data.DataFile.{DataFile, new, write, sync_file}
use bitcask_rs.Engine.{Engine, file_for, next_id}

-- Every file of the engine is read through the standard manager under its id; the active file is
-- written at its end; behind its id there are no bytes yet.
pub record HasFiles {Ix : Type 0} (e : Engine Ix) : Type 0 where
  pub active_standard : e.active_file.io_manager ≡ file_io (data_name e.active_file.file_id)
  pub older_standard :
      (id : ℕ) (f : DataFile)
      → lookup id e.older_files ≡ some f
      → f.io_manager ≡ file_io (data_name id)
  pub at_end : e.active_file.write_off ≡ length (content (data_name e.active_file.file_id) e.dir)
  pub fresh : (id : ℕ) → e.active_file.file_id < id → content (data_name id) e.dir ≡ []

-- Every file of the engine is read through the standard manager under its id: what reads need.
pub record HasManagers {Ix : Type 0} (e : Engine Ix) : Type 0 where
  pub active_standard : e.active_file.io_manager ≡ file_io (data_name e.active_file.file_id)
  pub older_standard :
      (id : ℕ) (f : DataFile)
      → lookup id e.older_files ≡ some f
      → f.io_manager ≡ file_io (data_name id)

pub managers : {Ix : Type 0} {e : Engine Ix} → HasFiles e → HasManagers e
managers h = record { active_standard = h.active_standard; older_standard = h.older_standard }

-- A file just opened for appending.
abbrev pub fresh_file : ℕ → DataFile
fresh_file id = record { file_id = id; write_off = 0; io_manager = file_io (data_name id) }

pub take-all {ℓ} : {A : Type ℓ} (n : ℕ) (bs : List A) → n ≡ length bs → take n bs ≡ bs
take-all n bs h = rw append-nil at (take-append n bs [] h)

-- The file that stands for an id is read under that id.
pub file_for-standard :
    {Ix : Type 0} {e : Engine Ix} (id : ℕ) (f : DataFile)
    → HasManagers e
    → file_for e id ≡ some f
    → f.io_manager ≡ file_io (data_name id)
unfolding file_for
file_for-standard id f h found = ground (arith, h.active_standard, h.older_standard id f)

module _ (os : Os) (healthy : IsHealthy os) where
  pub io_sync_ok : (io : IoManager) → io_sync os io ≡ ok tt
  unfolding io_sync
  io_sync_ok (file_io name) = rw healthy.syncs
  io_sync_ok (mmap_io map) = refl

  pub sync_file_ok : (f : DataFile) → sync_file os f ≡ ok tt
  unfolding sync_file
  sync_file_ok f = io_sync_ok f.io_manager

  pub new_lem :
      (id : ℕ) (dir : Dir)
      → new os id standard_fio dir ≡ (ok (fresh_file id), create_file (data_name id) dir)
  unfolding new
  new_lem id dir = rw healthy.opens

  -- A write appends all its bytes and moves the offset behind them.
  pub write_lem :
      (f : DataFile) (buf : Bytes) (dir : Dir) {name : FileName}
      → f.io_manager ≡ file_io name
      → 0 < length buf
      → write os f buf dir ≡ (
        ok (length buf),
        record f { write_off = add64 f.write_off (length buf) },
        append_file name buf dir,
      )
  unfolding write
  write_lem f [] dir h pos = absurd (omega arith)
  write_lem f (b ∷ buf) dir {name} h pos =
      rw (h, healthy.accepts (length (b ∷ buf)), take-all (length (b ∷ buf)) (b ∷ buf) refl)

module _ {Ix : Type 0} (e : Engine Ix) where
  -- The engine after the active file is put among the older ones.
  abbrev pub rotated : Engine Ix
  rotated =
      let id = e.active_file.file_id in
      record e {
        dir = create_file (data_name (next_id id)) (create_file (data_name id) e.dir);
        older_files = insert id (fresh_file id) e.older_files;
        active_file = fresh_file (next_id id);
      }

  -- The engine after `buf` is written to the active file.
  abbrev pub wrote : Bytes → Engine Ix
  wrote buf = record e {
    dir = append_file (data_name e.active_file.file_id) buf e.dir;
    active_file = record (e.active_file) { write_off = add64 e.active_file.write_off (length buf) };
    bytes_write = add64 e.bytes_write (length buf);
  }

  pub content-rotated : (name : FileName) → content name rotated.dir ≡ content name e.dir
  content-rotated name = simp content-create

  pub rotated-HasFiles : HasFiles e → e.active_file.file_id + 1 < u32_mod → HasFiles rotated
  rotated-HasFiles h room = record {
    active_standard = refl;
    older_standard = λ id f found. ground (
      arith,
      lookup-insert e.active_file.file_id id (fresh_file e.active_file.file_id) e.older_files,
      h.older_standard id f,
    );
    at_end = rw (content-rotated, h.fresh (next_id e.active_file.file_id) (omega arith)) refl;
    fresh = λ id later. rw content-rotated (h.fresh id (omega arith));
  }

  pub content-wrote :
      (buf : Bytes) (id : ℕ)
      → content (data_name id) (wrote buf).dir ≡ (
          if e.active_file.file_id == id
          then content (data_name id) e.dir ++ buf
          else content (data_name id) e.dir)
  unfolding name_eq
  content-wrote buf id = content-append (data_name e.active_file.file_id) (data_name id) buf e.dir

  pub wrote-HasFiles :
      (buf : Bytes)
      → HasFiles e
      → e.active_file.write_off + length buf < u64_mod
      → HasFiles (wrote buf)
  wrote-HasFiles buf h room = record {
    active_standard = h.active_standard;
    older_standard = h.older_standard;
    at_end = ground (
      arith,
      content-wrote buf e.active_file.file_id,
      length-append (content (data_name e.active_file.file_id) e.dir) buf,
      h.at_end,
    );
    fresh = λ id later. ground (arith, content-wrote buf id, h.fresh id);
  }
