-- ===== src/Stats/Backup.antt =====
-- bitcask-rs/src/db.rs: an engine that is opened on a backup reads what the backed-up engine held.
use bitcask_rs.Base.{ℕ, ◌<◌, ◌≡◌, refl, ◌∙◌, true, none, some, Option, List, Bytes, length}
use bitcask_rs.Errors.{ok}
use bitcask_rs.Codec.{Codec}
use bitcask_rs.Fs.{data_name, hint_index, merge_finished, Dir, Os, IsHealthy, content}
use bitcask_rs.Disk.{Disk, DirAnswers, AllGranted}
use bitcask_rs.Options.{Options}
use bitcask_rs.Index.{Indexer}
use bitcask_rs.Data.LogRecord.{LogRecord}
use bitcask_rs.Engine.{Engine}
use bitcask_rs.Engine.Refine.{Store, Reads}
use bitcask_rs.Open.{open_engine}
use bitcask_rs.Stats.{backup}
use bitcask_rs.Stats.Copy.{copied, HasDistinctNames, copy_files_new, data_ids-copied, find-copied}
use bitcask_rs.Durable.Logged.{Logged}
use bitcask_rs.Durable.Store.{LogSays}
use bitcask_rs.Durable.Opened.{IsUnfinished, IsPlain, IsInMemory}
use bitcask_rs.Durable.Reopen.{open_engine-Reads}

module _ {Ix : Type 0} (ix : Indexer Ix) (c : Codec) (e : Engine Ix) where
  -- The engine, as if its directory were the copy.
  abbrev on_copy : Engine Ix
  on_copy = record e { dir = copied e.dir }

  on_copy-Logged : (rs : List LogRecord) → Logged c e rs → Logged c on_copy rs
  unfolding content
  on_copy-Logged rs l = record {
    log = l.log;
    are_logs = l.are_logs;
    contents = λ id. rw (find-copied (data_name id) e.dir refl) (l.contents id);
    short = l.short;
    beyond = l.beyond;
    in_all = l.in_all;
  }

  abbrev on_copy-LogSays : (m : Store) → LogSays ix c e m → LogSays ix c on_copy m
  on_copy-LogSays m d = record {
    records = d.records;
    logged = on_copy-Logged d.records d.logged;
    view = d.view;
    reads = d.reads;
    same = d.same;
  }

  copied-IsPlain : (ids : List ℕ) → IsPlain ids e.dir → IsPlain ids (copied e.dir)
  copied-IsPlain ids plain = record {
    listed = data_ids-copied e.dir ∙ plain.listed;
    distinct = plain.distinct;
    some_file = plain.some_file;
    no_hint = find-copied hint_index e.dir refl ∙ plain.no_hint;
    no_merge = find-copied merge_finished e.dir refl ∙ plain.no_merge;
  }

module _ {Ix : Type 0} (ix : Indexer Ix) (new_index : Ix) (c : Codec) (os : Os)
    (healthy : IsHealthy os) (a : DirAnswers) (granted : AllGranted a) (fuel : ℕ) (opts : Options)
    (o : IsInMemory opts) where
  -- `backup` of an engine whose log describes a map into a directory that is not there, where the
  -- operating system's calls succeed, and each file name is in the engine's directory once, with
  -- some data files, each once, and no files of a merge: it succeeds. `open` on the copy, with a
  -- working operating system, valid options that name an index in memory and map no files, an empty
  -- index, more rounds than the log has records, and a merge directory that is missing or unfinished,
  -- succeeds too, and reads from the opened engine answer the same map.
  pub backup-open_engine :
      (e : Engine Ix) (m : Store) (ids : List ℕ) (d : LogSays ix c e m)
      → length d.records < fuel
      → IsPlain ids e.dir
      → HasDistinctNames e.dir
      → ((k : Bytes) → ix.get k new_index ≡ none)
      → (merge_dir : Option Dir) → IsUnfinished merge_dir
      → (dest : Dir) × (backup a true e none ≡ (ok tt, some dest))
        × (e' : Engine Ix) × (s : Disk) × (open_engine ix new_index c os a fuel opts
              (record { dir = some dest; merge_dir = merge_dir })
            ≡ (ok e', s))
        × Reads ix c e' m
  unfolding backup
  backup-open_engine e m ids d enough plain names nothing merge_dir unfinished =
      let (e', s, run, h) =
        open_engine-Reads ix new_index c os healthy a granted fuel opts o (on_copy ix c e) m ids
          (on_copy-LogSays ix c e m d) enough (copied-IsPlain ix c e ids plain) nothing merge_dir
          unfinished in
      (
        copied e.dir,
        rw (granted.create_dir, granted.read_dir, copy_files_new e.dir names) refl,
        e',
        s,
        run,
        h,
      )
