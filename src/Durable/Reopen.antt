-- ===== src/Durable/Reopen.antt =====
-- bitcask-rs/src/db.rs: `Engine::open` on the files of an engine finds what its log describes.
use bitcask_rs.Base.{
  ℕ, suc, ◌+◌, ◌<◌, ltb, ◌≡◌, refl, sym, ap, subst, ◌∙◌, Bool-cases, inl, inr, Option, none, some,
  List, [], ◌∷◌, Bytes, length, u64_mod, arith,
}
use bitcask_rs.Errors.{ok}
use bitcask_rs.Codec.{Codec}
use bitcask_rs.Fs.{data_name, hint_index, name_eq, Dir, Os, IsHealthy, find, content}
use bitcask_rs.Disk.{Disk, DirAnswers, AllGranted}
use bitcask_rs.Options.{Options}
use bitcask_rs.Index.{Indexer}
use bitcask_rs.Data.LogRecord.{LogRecord}
use bitcask_rs.Engine.{Engine}
use bitcask_rs.Engine.SameFiles.{SameFiles}
use bitcask_rs.Engine.Files.{fresh_file}
use bitcask_rs.Engine.Refine.{Store, Reads, Reads-same}
use bitcask_rs.Merge.Hint.{load_index_from_hint_file}
use bitcask_rs.Load.{Loading, loaded, load_index_from_data_files}
use bitcask_rs.Load.File.{log_bytes}
use bitcask_rs.Load.Meaning.{view_log}
use bitcask_rs.Load.Numbers.{last_seq}
use bitcask_rs.Load.Files.{end_of, nothing_held, loaded_from}
use bitcask_rs.Open.{raise_seq_no, load_memory_index, open_engine}
use bitcask_rs.Open.DataFiles.{sort_ids}
use bitcask_rs.Open.Sorting.{member-sort_ids, sort_ids-IsAscending, sort_ids-cons}
use bitcask_rs.Open.Listing.{content-unlisted}
use bitcask_rs.Durable.Records.{LogOf, records_from-extend}
use bitcask_rs.Durable.Gather.{
  logs_of, gathered, view_logs-gathered, last_seqs-gathered, log_bytes_nil, gathered-records_from,
  AllBelow-same, bound, below_bound,
}
use bitcask_rs.Durable.Logged.{Logged}
use bitcask_rs.Durable.Store.{LogSays}
use bitcask_rs.Durable.Opened.{
  IsUnfinished, IsPlain, IsInMemory, last_id, dir_opened, find-opened, before, open_run,
  before-IsLoadable,
}

module _ {Ix : Type 0} (ix : Indexer Ix) (new_index : Ix) (c : Codec) (os : Os)
    (healthy : IsHealthy os) (a : DirAnswers) (granted : AllGranted a) (fuel : ℕ) (opts : Options)
    (o : IsInMemory opts) where
  abbrev engine_before : ℕ → List ℕ → Dir → Engine Ix
  engine_before = before ix new_index c os healthy a granted fuel opts o

  pub raised-SameFiles :
      (n : ℕ) (e : Engine Ix) → SameFiles e (raise_seq_no ix new_index c os a fuel n e)
  raised-SameFiles n e = elim (Bool-cases (ltb 0 n)) [
    | inl raised ↦
        rw raised
          (record { dir_same = refl; active_same = refl; older_same = refl; options_same = refl })
    | inr none_there ↦
        rw none_there
          (record { dir_same = refl; active_same = refl; older_same = refl; options_same = refl })
  ]

  index-raised :
      (n : ℕ) (e : Engine Ix) → (raise_seq_no ix new_index c os a fuel n e).index ≡ e.index
  index-raised n e = elim (Bool-cases (ltb 0 n)) [
    | inl raised ↦ rw raised refl
    | inr none_there ↦ rw none_there refl
  ]

  -- The next number is above the largest one of the log.
  pub raised_seq :
      (n : ℕ) (e : Engine Ix)
      → e.seq_no ≡ 1
      → n + 1 < u64_mod
      → (n < (raise_seq_no ix new_index c os a fuel n e).seq_no)
        × ((raise_seq_no ix new_index c os a fuel n e).seq_no < u64_mod)
  raised_seq n e first in_range = elim (Bool-cases (ltb 0 n)) [
    | inl raised ↦ rw raised (omega (arith, in_range), omega (arith, in_range))
    | inr none_there ↦ rw (none_there, first) (ground (arith, none_there), omega arith)
  ]

  raised-Reads :
      (e : Engine Ix) (n : ℕ) (m : Store)
      → Reads ix c e m
      → Reads ix c (raise_seq_no ix new_index c os a fuel n e) m
  raised-Reads e n m h = Reads-same ix c (raised-SameFiles n e) (index-raised n e) h

  load_memory_index_run :
      (id : ℕ) (ids : List ℕ) (d : Dir) (st : Loading Ix) (end : Option ℕ)
      → find hint_index d ≡ none
      → load_index_from_data_files ix c os (engine_before id ids d) fuel
        ≡ ok (loaded ix c os (engine_before id ids d) st end, st.current_seq_no)
      → load_memory_index ix new_index c os a fuel (engine_before id ids d)
        ≡ ok (
            raise_seq_no ix new_index c os a fuel st.current_seq_no
              (loaded ix c os (engine_before id ids d) st end))
  unfolding load_memory_index load_index_from_hint_file name_eq
  load_memory_index_run id ids d st end no_hint run =
      rw (find-opened hint_index (id ∷ ids) d refl (λ i. refl), no_hint, run, o.unmapped) refl

  -- The files of the listing, read in ascending order, hold the whole log.
  pub gathered_all :
      (e : Engine Ix) (rs : List LogRecord) (l : Logged c e rs) (ids : List ℕ)
      → IsPlain ids e.dir
      → gathered l.log (sort_ids ids) ≡ rs
  gathered_all e rs l ids plain =
      let up = sort_ids-IsAscending ids plain.distinct in
      let n = suc e.active_file.file_id in
      let k = bound (sort_ids ids) in
      gathered-records_from l.log 0 (k + n) (sort_ids ids) up
        (AllBelow-same (n + k) (0 + (k + n)) (sort_ids ids) (omega arith)
          (below_bound n (sort_ids ids)))
        (λ id low absent. log_bytes_nil c (l.log id) (
          sym (l.contents id)
          ∙ content-unlisted e.dir ids id plain.listed (sym (member-sort_ids id ids) ∙ absent)))
      ∙ records_from-extend l.log n k (λ id later. l.beyond id (omega arith))
      ∙ l.in_all

  module _ (e : Engine Ix) (m : Store) (ids : List ℕ) (d : LogSays ix c e m)
      (enough : length d.records < fuel) (plain : IsPlain ids e.dir)
      (nothing : (k : Bytes) → ix.get k new_index ≡ none) (merge_dir : Option Dir)
      (unfinished : IsUnfinished merge_dir) where
    -- The opened engine, by what the loops over the files found.
    abbrev pub opened : ℕ → List ℕ → Loading Ix → Engine Ix
    opened i is st =
        raise_seq_no ix new_index c os a fuel st.current_seq_no
          (loaded ix c os (engine_before i is e.dir) st (end_of c (logs_of d.logged.log (i ∷ is))))

    pub open_engine_found :
        (i : ℕ) (is : List ℕ)
        → sort_ids ids ≡ i ∷ is
        → (st : Loading Ix) × (s : Disk) × (open_engine ix new_index c os a fuel opts
              (record { dir = some e.dir; merge_dir = merge_dir })
            ≡ (ok (opened i is st), s))
          × Reads ix c (opened i is st) m
          × (st.current_seq_no ≡ last_seq c d.records 0)
    open_engine_found i is sorted =
        let l = d.logged in
        let (st, run, h, seq) =
          loaded_from ix c os healthy (engine_before i is e.dir) fuel (logs_of l.log (i ∷ is))
            d.view
            (before-IsLoadable ix new_index c os healthy a granted fuel opts o e d.records l enough
              i is plain.no_merge nothing)
            (view_logs-gathered c l.log (i ∷ is) nothing_held
              ∙ ap (λ rs. view_log c rs nothing_held)
                  (ap (λ js. gathered l.log js) (sym sorted) ∙ gathered_all e d.records l ids plain)
              ∙ d.reads) in
        let s : Disk = record { dir = some (dir_opened (i ∷ is) e.dir); merge_dir = none } in
        (
          st,
          s,
          open_run ix new_index c os healthy a granted fuel opts o e.dir merge_dir ids i is
                unfinished plain.listed sorted
              ∙ ap (λ r. (r, s))
                  (load_memory_index_run i is e.dir st (end_of c (logs_of l.log (i ∷ is)))
                    plain.no_hint run),
          subst (λ n. Reads ix c (opened i is st) n) d.same
              (raised-Reads
                (loaded ix c os (engine_before i is e.dir) st (end_of c (logs_of l.log (i ∷ is))))
                st.current_seq_no d.view.store h),
          seq
              ∙ last_seqs-gathered c l.log (i ∷ is) 0
              ∙ ap (λ rs. last_seq c rs 0)
                  (ap (λ js. gathered l.log js) (sym sorted)
                    ∙ gathered_all e d.records l ids plain),
        )

    -- `open` on the directory of an engine whose log describes a map, where the operating system's
    -- calls succeed, the options are valid, name an index in memory and map no files, the index
    -- starts empty, the rounds are more than the log has records, the listing has some data files,
    -- each once, and no files of a merge, and the merge directory is missing or unfinished:
    -- it succeeds, and reads from the opened engine answer the same map.
    pub open_engine-Reads :
        (e' : Engine Ix) × (s : Disk) × (open_engine ix new_index c os a fuel opts
            (record { dir = some e.dir; merge_dir = merge_dir })
          ≡ (ok e', s))
        × Reads ix c e' m
    open_engine-Reads =
        let (i, is, sorted) = sort_ids-cons ids plain.some_file in
        let (st, s, run, h, seq) = open_engine_found i is sorted in (opened i is st, s, run, h)

    pub end_of-logs_of :
        (log : LogOf) (i : ℕ) (is : List ℕ)
        → end_of c (logs_of log (i ∷ is)) ≡ some (length (log_bytes c (log (last_id i is))))
    end_of-logs_of log i [] = refl
    end_of-logs_of log i (j ∷ is) = end_of-logs_of log j is

    -- In the same case, the opened engine's active file is the first one in the order of the ids,
    -- and its write offset is the size of the last one.
    pub open_engine-active_first :
        (i : ℕ) (is : List ℕ)
        → sort_ids ids ≡ i ∷ is
        → (e' : Engine Ix) × (s : Disk) × (open_engine ix new_index c os a fuel opts
              (record { dir = some e.dir; merge_dir = merge_dir })
            ≡ (ok e', s))
          × (e'.active_file.file_id ≡ i)
          × (e'.active_file.write_off ≡ length (content (data_name (last_id i is)) e.dir))
    open_engine-active_first i is sorted =
        let (st, s, run, h, seq) = open_engine_found i is sorted in
        let active : (opened i is st).active_file ≡ record (fresh_file i) {
          write_off = length (log_bytes c (d.logged.log (last_id i is)));
        } =
          (raised-SameFiles st.current_seq_no (
            loaded ix c os (engine_before i is e.dir) st
              (end_of c (logs_of d.logged.log (i ∷ is))))).active_same
          ∙ (rw (end_of-logs_of d.logged.log i is) refl) in
        (
          opened i is st,
          s,
          run,
          ap (λ f. f.file_id) active,
          ap (λ f. f.write_off) active ∙ ap length (sym (d.logged.contents (last_id i is))),
        )
