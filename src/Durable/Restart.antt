-- ===== src/Durable/Restart.antt =====
-- bitcask-rs/src/db.rs: `Engine::open` on the directory of an engine with one data file gives an
-- engine that goes on from where that one was.
use bitcask_rs.Base.{
  ℕ, suc, ◌≤◌, ◌<◌, ◌≡◌, ◌≢◌, refl, sym, ap, ◌∙◌, false, Option, none, some, List, [], ◌∷◌,
  append-nil, Bytes, length, length-append, u64_mod, arith,
}
use bitcask_rs.Errors.{ok}
use bitcask_rs.Codec.{Codec}
use bitcask_rs.Fs.{data_name, Dir, Os, IsHealthy, content}
use bitcask_rs.Disk.{Disk, DirAnswers, AllGranted}
use bitcask_rs.Options.{Options}
use bitcask_rs.Index.{Indexer}
use bitcask_rs.Data.LogRecord.{LogRecord}
use bitcask_rs.Data.LogRecord.Encode.{record_bytes}
use bitcask_rs.Engine.{Engine}
use bitcask_rs.Engine.SameFiles.{SameFiles}
use bitcask_rs.Engine.Refine.{Store, Refines, Reads}
use bitcask_rs.Load.{Loading, loaded}
use bitcask_rs.Load.File.{log_bytes}
use bitcask_rs.Load.Files.{end_of}
use bitcask_rs.Load.Numbers.{last_seq}
use bitcask_rs.Open.{open_engine}
use bitcask_rs.Open.DataFiles.{sort_ids}
use bitcask_rs.Open.Sorting.{member, member-sort_ids}
use bitcask_rs.Open.Listing.{content-unlisted}
use bitcask_rs.Durable.Records.{records_from}
use bitcask_rs.Durable.Gather.{logs_of, gathered, log_bytes_nil, gathered-records_from}
use bitcask_rs.Durable.Logged.{Logged}
use bitcask_rs.Durable.Store.{Durable, log_says}
use bitcask_rs.Durable.Opened.{IsUnfinished, IsPlain, IsInMemory, before, content-opened}
use bitcask_rs.Durable.Reopen.{
  gathered_all, opened, open_engine_found, raised-SameFiles, raised_seq,
}

-- Each record takes a byte at least.
length-log_bytes : (c : Codec) (rs : List LogRecord) → length rs ≤ length (log_bytes c rs)
unfolding record_bytes
length-log_bytes c [] = omega arith
length-log_bytes c (r ∷ rs) =
    omega (arith, length-log_bytes c rs, length-append (record_bytes c r) (log_bytes c rs))

module _ {Ix : Type 0} (ix : Indexer Ix) (new_index : Ix) (c : Codec) (os : Os)
    (healthy : IsHealthy os) (a : DirAnswers) (granted : AllGranted a) (fuel : ℕ) (opts : Options)
    (o : IsInMemory opts) (e : Engine Ix) (m : Store) (d : Durable ix c e m) (i : ℕ) (ids : List ℕ)
    (plain : IsPlain ids e.dir) (only : sort_ids ids ≡ i ∷ []) where
  absent_elsewhere : (j : ℕ) → j ≢ i → member j ids ≡ false
  absent_elsewhere j other = sym (member-sort_ids j ids) ∙ (rw only (ground (arith, other)))

  log_elsewhere : (j : ℕ) → j ≢ i → d.logged.log j ≡ []
  log_elsewhere j other = log_bytes_nil c (d.logged.log j) (
      sym (d.logged.contents j)
      ∙ content-unlisted e.dir ids j plain.listed (absent_elsewhere j other))

  gathered_here : gathered d.logged.log (i ∷ []) ≡ d.records
  gathered_here =
      ap (λ js. gathered d.logged.log js) (sym only)
      ∙ gathered_all ix new_index c os healthy a granted fuel opts o e d.records d.logged ids plain

  all_here : records_from d.logged.log 0 (suc i) ≡ d.records
  all_here =
      sym (
        gathered-records_from d.logged.log 0 (suc i) (i ∷ []) (omega arith, tt) (omega arith, tt)
          (λ j low absent. log_elsewhere j (λ same. ground (arith, absent, same))))
      ∙ gathered_here

  rounds : length (content (data_name i) e.dir) < fuel → length d.records < fuel
  rounds enough = omega (
    arith,
    enough,
    length-log_bytes c d.records,
    ap length (d.logged.contents i),
    ap (λ rs. length (log_bytes c rs)) (sym (append-nil (d.logged.log i)) ∙ gathered_here),
  )

  module _ (st : Loading Ix) where
    -- The engine with its index loaded, before its sequence number is set.
    abbrev e_loaded : Engine Ix
    e_loaded =
        loaded ix c os (before ix new_index c os healthy a granted fuel opts o i [] e.dir) st
          (end_of c (logs_of d.logged.log (i ∷ [])))

    module _ (e' : Engine Ix) (same : SameFiles e_loaded e') where
      now_at : (j : ℕ) → content (data_name j) e'.dir ≡ log_bytes c (d.logged.log j)
      now_at j = rw same.dir_same (content-opened j (i ∷ []) e.dir ∙ d.logged.contents j)

      nothing_beyond : (j : ℕ) → e'.active_file.file_id < j → d.logged.log j ≡ []
      nothing_beyond j later = log_elsewhere j (λ here. omega (arith, later, here, is_i))
        where
          is_i : e'.active_file.file_id ≡ i
          is_i = ap (λ f. f.file_id) same.active_same

      now-Logged : Logged c e' d.records
      now-Logged = record {
        log = d.logged.log;
        are_logs = d.logged.are_logs;
        contents = now_at;
        short = d.logged.short;
        beyond = nothing_beyond;
        in_all = rw same.active_same all_here;
      }

      now-Refines : Reads ix c e' m → Refines ix c e' m
      now-Refines h = record {
        files = record {
          active_standard = h.managed.active_standard;
          older_standard = h.managed.older_standard;
          at_end = rw same.active_same (sym (ap length (now_at i)));
          fresh = λ j later. now_at j ∙ ap (log_bytes c) (nothing_beyond j later);
        };
        absent = h.absent;
        present = h.present;
      }

    now-Durable :
        (e' : Engine Ix)
        → SameFiles e_loaded e'
        → Reads ix c e' m
        → last_seq c d.records 0 < e'.seq_no
        → e'.seq_no < u64_mod
        → Durable ix c e' m
    now-Durable e' same h counted in_range = record {
      holds = now-Refines e' same h;
      records = d.records;
      logged = now-Logged e' same;
      view = d.view;
      reads = d.reads;
      same = d.same;
      counted = counted;
      in_range = in_range;
    }

  -- `open` on the directory of an engine that holds a map that its log describes too, with one data
  -- file, where the operating system's calls succeed, the options are valid, name an index in memory
  -- and map no files, the index starts empty, the rounds are more than the file has bytes, there are
  -- no files of a merge, and the merge directory is missing or unfinished: it succeeds, and the
  -- opened engine again holds the map that its log describes too.
  pub restart-Durable :
      length (content (data_name i) e.dir) < fuel
      → ((k : Bytes) → ix.get k new_index ≡ none)
      → (merge_dir : Option Dir) → IsUnfinished merge_dir
      → (e' : Engine Ix) × (s : Disk) × (open_engine ix new_index c os a fuel opts
            (record { dir = some e.dir; merge_dir = merge_dir })
          ≡ (ok e', s))
        × Durable ix c e' m
  restart-Durable enough nothing merge_dir unfinished =
      let says = log_says ix c e m d in
      let (st, s, run, h, seq) =
        open_engine_found ix new_index c os healthy a granted fuel opts o e m ids says
          (rounds enough) plain nothing merge_dir unfinished i [] only in
      let e' =
        opened ix new_index c os healthy a granted fuel opts o e m ids says (rounds enough) plain
          nothing merge_dir unfinished i [] st in
      let (above, in_range) =
        raised_seq ix new_index c os healthy a granted fuel opts o st.current_seq_no (e_loaded st)
          refl (omega (arith, seq, d.counted, d.in_range)) in
      (
        e',
        s,
        run,
        now-Durable st e'
            (raised-SameFiles ix new_index c os healthy a granted fuel opts o st.current_seq_no
              (e_loaded st))
            h (rw (← seq) above) in_range,
      )
