-- ===== src/Load/Files.antt =====
-- Loading all data files: the opened engine holds the map that the logs describe.
use bitcask_rs.Base.{
  none-ne-some, ℕ, ◌+◌, ◌<◌, ◌==◌, ◌≡◌, refl, sym, ap, subst, ◌∙◌, false, Option, none, some,
  Bool-cases, inl, inr, List, [], ◌∷◌, Bytes, length, u64_mod, arith,
}
use bitcask_rs.Errors.{Result, ok, ◌>>=◌, first_of_ok}
use bitcask_rs.Codec.{Codec}
use bitcask_rs.Fs.{data_name, merge_finished, find, Os, IsHealthy, content}
use bitcask_rs.Fio.{file_io}
use bitcask_rs.Map.{lookup}
use bitcask_rs.Index.{Indexer}
use bitcask_rs.Data.LogRecord.{LogRecord, LogRecordPos}
use bitcask_rs.Data.DataFile.{DataFile}
use bitcask_rs.Engine.{Engine, file_for}
use bitcask_rs.Engine.Files.{HasManagers}
use bitcask_rs.Engine.Refine.{Reads, Refines}
use bitcask_rs.Engine.Stored.{Stored}
use bitcask_rs.Load.{
  set_end, Loading, last_offset, no_ids, load_file, load_files, loaded, load_index_from_data_files,
}
use bitcask_rs.Load.File.{IsLog, log_bytes, load_file-log}
use bitcask_rs.Load.Meaning.{LogView, view_log}
use bitcask_rs.Load.Numbers.{last_seq}
use bitcask_rs.Load.Recover.{Means, replay-Means}

-- The logs of the data files, by file id.
abbrev pub Logs : Type 0
Logs = List (ℕ × List LogRecord)

abbrev pub ids_of : Logs → List ℕ
ids_of [] = []
ids_of ((id, rs) ∷ logs) = id ∷ ids_of logs

module _ (c : Codec) where
  -- The logs read one after the other.
  unfoldable pub view_logs : Logs → LogView → Result LogView
  view_logs [] v = ok v
  view_logs ((id, rs) ∷ logs) v = do v' ← view_log c rs v; view_logs logs v'

  -- The largest sequence number of the logs.
  unfoldable pub last_seqs : Logs → ℕ → ℕ
  last_seqs [] n = n
  last_seqs ((id, rs) ∷ logs) n = last_seqs logs (last_seq c rs n)

  -- Where the last log ends.
  abbrev pub end_of : Logs → Option ℕ
  end_of [] = none
  end_of ((id, rs) ∷ []) = some (length (log_bytes c rs))
  end_of (l ∷ (l' ∷ logs)) = end_of (l' ∷ logs)

  last_offset-end_of :
      (id : ℕ) (rs : List LogRecord) (logs : Logs)
      → last_offset (ids_of logs) (0 + length (log_bytes c rs)) (end_of logs)
        ≡ end_of ((id, rs) ∷ logs)
  last_offset-end_of id rs [] = ap some (omega arith)
  last_offset-end_of id rs (l ∷ logs) = refl

-- An engine file that holds just this log, with rounds enough to load it.
pub record HoldsLog {Ix : Type 0} (c : Codec) (e : Engine Ix) (fuel id : ℕ) (rs : List LogRecord)
    : Type 0 where
  pub file : DataFile
  pub known : file_for e id ≡ some file
  pub standard : file.io_manager ≡ file_io (data_name id)
  pub log : IsLog rs
  pub at_file : content (data_name id) e.dir ≡ log_bytes c rs
  pub short : length (log_bytes c rs) < u64_mod
  pub rounds : length rs < fuel

abbrev pub HoldLogs : {Ix : Type 0} → Codec → Engine Ix → ℕ → Logs → Type 0
HoldLogs c e fuel [] = Unit
HoldLogs c e fuel ((id, rs) ∷ logs) = HoldsLog c e fuel id rs × HoldLogs c e fuel logs

module _ {Ix : Type 0} (ix : Indexer Ix) (c : Codec) (os : Os) (healthy : IsHealthy os)
    (e : Engine Ix) where
  load_files_step :
      (fuel id offset : ℕ) (ids : List ℕ) (end : Option ℕ) (st st1 st2 : Loading Ix)
      → load_file ix c os e fuel id 0 st ≡ ok (st1, offset)
      → load_files ix c os e fuel none ids st1 ≡ ok (st2, end)
      → load_files ix c os e fuel none (id ∷ ids) st ≡ ok (st2, last_offset ids offset end)
  unfolding load_files
  load_files_step fuel id offset ids end st st1 st2 first rest = rw (first, rest)

  load_files-Means :
      (fuel : ℕ) (logs : Logs) (st : Loading Ix) (v v' : LogView)
      → HoldLogs c e fuel logs
      → Means ix c e st v
      → view_logs c logs v ≡ ok v'
      → (st' : Loading Ix) × (load_files ix c os e fuel none (ids_of logs) st
          ≡ ok (st', end_of c logs))
        × Means ix c e st' v'
        × (st'.current_seq_no ≡ last_seqs c logs st.current_seq_no)
  unfolding load_files view_logs last_seqs
  load_files-Means fuel [] st v v' holds h reads =
      (st, refl, subst (λ w. Means ix c e st w) (cc reads) h, refl)
  load_files-Means fuel ((id, rs) ∷ logs) st v v' (holds, rest) h reads =
      let (w, later, first) = first_of_ok _ (view_log c rs v) reads in
      let (st1, run, h1, seq1) =
        replay-Means ix c e id holds.file rs 0 [] st v w holds.known holds.log holds.at_file refl
          (omega (arith, holds.short)) h first in
      let (st2, run2, h2, seq2) = load_files-Means fuel logs st1 w v' rest h1 later in
      (
        st2,
        load_files_step fuel id (0 + length (log_bytes c rs)) (ids_of logs) (end_of c logs) st st1
              st2
              (load_file-log ix c os healthy e id holds.file (data_name id) holds.known
                  holds.standard rs fuel 0 [] st holds.log holds.rounds holds.at_file refl
                  (omega (arith, holds.short))
                ∙ ap (λ m. m >>= λ s. ok (s, 0 + length (log_bytes c rs))) run)
              run2
            ∙ ap (λ o. ok (st2, o)) (last_offset-end_of c id rs logs),
        h2,
        seq2 ∙ ap (last_seqs c logs) seq1,
      )

-- An engine before the index is loaded: the files are open, the index is empty, and nothing was
-- merged.
pub record IsLoadable {Ix : Type 0} (ix : Indexer Ix) (c : Codec) (e : Engine Ix) (fuel : ℕ)
    (logs : Logs) : Type 0 where
  pub ids : e.file_ids ≡ ids_of logs
  pub some_id : no_ids (ids_of logs) ≡ false
  pub no_merge : find merge_finished e.dir ≡ none
  pub nothing : (k : Bytes) → ix.get k e.index ≡ none
  pub managed : HasManagers e
  pub holds : HoldLogs c e fuel logs

-- The active file is the last one: the log ends at its end, and no file comes after it.
pub record IsActiveLast {Ix : Type 0} (c : Codec) (e : Engine Ix) (logs : Logs) : Type 0 where
  pub ends_at :
      (n : ℕ) × (end_of c logs ≡ some n)
      × (n ≡ length (content (data_name e.active_file.file_id) e.dir))
  pub fresh : (id : ℕ) → e.active_file.file_id < id → content (data_name id) e.dir ≡ []

abbrev pub nothing_held : LogView
nothing_held = record { store = λ k. none; pending = [] }

set_end_id : (end : Option ℕ) (f : DataFile) → (set_end end f).file_id ≡ f.file_id
set_end_id none f = refl
set_end_id (some n) f = refl

set_end_io : (end : Option ℕ) (f : DataFile) → (set_end end f).io_manager ≡ f.io_manager
set_end_io none f = refl
set_end_io (some n) f = refl

module _ {Ix : Type 0} (ix : Indexer Ix) (c : Codec) (os : Os) (e : Engine Ix) where
  -- The state with which the loops start.
  abbrev start : Loading Ix
  start = record {
    index = e.index;
    reclaim_size = e.reclaim_size;
    transaction_records = [];
    current_seq_no = 0;
  }

  start-Means : ((k : Bytes) → ix.get k e.index ≡ none) → Means ix c e start nothing_held
  unfolding lookup
  start-Means nothing = record {
    points = record {
      absent = λ k gone. refl;
      present = λ k pos here. absurd (none-ne-some (nothing k) here);
    };
    same_pending = λ n. refl;
    held = λ n ts at. cc;
  }

  load_index_step :
      (fuel : ℕ) (st : Loading Ix) (end : Option ℕ)
      → no_ids e.file_ids ≡ false
      → find merge_finished e.dir ≡ none
      → load_files ix c os e fuel none e.file_ids start ≡ ok (st, end)
      → load_index_from_data_files ix c os e fuel ≡ ok (loaded ix c os e st end, st.current_seq_no)
  unfolding load_index_from_data_files
  load_index_step fuel st end ids no_merge run = rw (ids, no_merge, run)

  -- The values stay where they are when the active file's offset is set.
  Stored-loaded :
      (st : Loading Ix) (end : Option ℕ) (pos : LogRecordPos) (v : Bytes)
      → Stored c e pos v
      → Stored c (loaded ix c os e st end) pos v
  unfolding file_for
  Stored-loaded st end pos v s =
      let (f', known') = still in
      record {
        rec = s.rec;
        fits = s.fits;
        full = s.full;
        live = s.live;
        value_of_rec = s.value_of_rec;
        before = s.before;
        after = s.after;
        at_file = s.at_file;
        at_offset = s.at_offset;
        bound = s.bound;
        file = f';
        known = known';
      }
    where
      still : (f' : DataFile) × (file_for (loaded ix c os e st end) pos.file_id ≡ some f')
      still = elim (Bool-cases (e.active_file.file_id == pos.file_id)) [
        | inl here ↦ (set_end end e.active_file, rw (set_end_id end e.active_file, here) refl)
        | inr there ↦ (s.file, rw (set_end_id end e.active_file, there) (rw there at s.known))
      ]

  HasManagers-loaded :
      (st : Loading Ix) (end : Option ℕ) → HasManagers e → HasManagers (loaded ix c os e st end)
  HasManagers-loaded st end h = record {
    active_standard =
        rw (set_end_io end e.active_file, set_end_id end e.active_file) h.active_standard;
    older_standard = h.older_standard;
  }

module _ {Ix : Type 0} (ix : Indexer Ix) (c : Codec) (os : Os) (healthy : IsHealthy os) where
  pub loaded_from :
      (e : Engine Ix) (fuel : ℕ) (logs : Logs) (v : LogView)
      → IsLoadable ix c e fuel logs
      → view_logs c logs nothing_held ≡ ok v
      → (st : Loading Ix) × (load_index_from_data_files ix c os e fuel
          ≡ ok (loaded ix c os e st (end_of c logs), st.current_seq_no))
        × Reads ix c (loaded ix c os e st (end_of c logs)) v.store
        × (st.current_seq_no ≡ last_seqs c logs 0)
  loaded_from e fuel logs v o reads =
      let (st, run, h, seq) =
        load_files-Means ix c os healthy e fuel logs (start ix c os e) nothing_held v o.holds
          (start-Means ix c os e o.nothing) reads in
      (
        st,
        load_index_step ix c os e fuel st (end_of c logs) (ap no_ids o.ids ∙ o.some_id) o.no_merge (
            subst
              (λ ids. load_files ix c os e fuel none ids (start ix c os e) ≡ ok (st, end_of c logs))
              (sym o.ids) run),
        record {
          managed = HasManagers-loaded ix c os e st (end_of c logs) o.managed;
          absent = h.points.absent;
          present = λ k pos here.
              let (value, held, s) = h.points.present k pos here in
              (value, held, Stored-loaded ix c os e st (end_of c logs) pos value s);
        },
        seq,
      )

  -- With a working operating system, on an engine with an empty index whose files hold these logs,
  -- whichever of them is active, with no files of a merge and more rounds than each log has records,
  -- loading succeeds, and what can be read from the engine then is the map that the logs describe.
  pub load_index-Reads :
      (e : Engine Ix) (fuel : ℕ) (logs : Logs) (v : LogView)
      → IsLoadable ix c e fuel logs
      → view_logs c logs nothing_held ≡ ok v
      → (e' : Engine Ix) × (n : ℕ) × (load_index_from_data_files ix c os e fuel ≡ ok (e', n))
        × Reads ix c e' v.store
  load_index-Reads e fuel logs v o reads =
      let (st, run, h, seq) = loaded_from e fuel logs v o reads in
      (loaded ix c os e st (end_of c logs), st.current_seq_no, run, h)

  -- With a working operating system, on an engine with an empty index whose files hold these logs,
  -- whose active file is the last one, with no files of a merge and more rounds than each log has
  -- records, loading the index succeeds, and the engine then holds the map that the logs describe.
  pub load_index-Refines :
      (e : Engine Ix) (fuel : ℕ) (logs : Logs) (v : LogView)
      → IsLoadable ix c e fuel logs
      → IsActiveLast c e logs
      → view_logs c logs nothing_held ≡ ok v
      → (e' : Engine Ix) × (n : ℕ) × (load_index_from_data_files ix c os e fuel ≡ ok (e', n))
        × Refines ix c e' v.store
  load_index-Refines e fuel logs v o at_last reads =
      let (st, run, h, seq) = loaded_from e fuel logs v o reads in
      let (n, at_n, n_eq) = at_last.ends_at in
      (
        loaded ix c os e st (end_of c logs),
        st.current_seq_no,
        run,
        record {
          files = record {
            active_standard = h.managed.active_standard;
            older_standard = o.managed.older_standard;
            at_end = rw at_n n_eq;
            fresh = rw at_n at_last.fresh;
          };
          absent = h.absent;
          present = h.present;
        },
      )
