-- ===== src/Durable/Opened.antt =====
-- bitcask-rs/src/db.rs: the engine as `open` has it before its index is loaded, on the files of
-- another engine.
use bitcask_rs.Base.{
  Option, ℕ, suc, ◌≤◌, ◌<◌, ==_iff, leb, ◌≡◌, ◌≢◌, refl, sym, ap, subst, ◌∙◌, true, false, ◌||◌,
  Bool-cases, inl, inr, if◌then◌else◌, none, some, List, [], ◌∷◌, Bytes, length, arith,
}
use bitcask_rs.Errors.{ok}
use bitcask_rs.Codec.{Codec}
use bitcask_rs.Fs.{
  FileName, data_name, hint_index, merge_finished, flock, name_eq, Dir, Os, IsHealthy, find,
  content, truncate_file,
}
use bitcask_rs.Disk.{DirAnswers, AllGranted}
use bitcask_rs.Options.{Options, check_options}
use bitcask_rs.Index.{Indexer}
use bitcask_rs.Data.LogRecord.{LogRecord}
use bitcask_rs.Engine.{Engine, file_for}
use bitcask_rs.Engine.Files.{HasManagers, fresh_file}
use bitcask_rs.Merge.Adopt.{is_finished, load_merge_files}
use bitcask_rs.Load.Files.{HoldLogs, IsLoadable}
use bitcask_rs.Open.{new_engine, load_memory_index, open_engine, is_bptree, no_entries}
use bitcask_rs.Open.DataFiles.{data_ids, sort_ids}
use bitcask_rs.Open.Sorting.{member, IsDistinct}
use bitcask_rs.Open.Listing.{
  content-created, find-truncate_other, data_ids-truncate, fresh_files, file_ids_of-fresh,
  lookup-pop_older, created, find-created, open_files_lem,
}
use bitcask_rs.Durable.Records.{length_log-le}
use bitcask_rs.Durable.Gather.{logs_of, ids_of-logs_of}
use bitcask_rs.Durable.Logged.{Logged}

-- A directory of data files that are listed once each, with nothing of a merge.
pub record IsPlain (ids : List ℕ) (d : Dir) : Type 0 where
  pub listed : data_ids d ≡ ok ids
  pub distinct : IsDistinct ids
  pub some_file : ids ≢ []
  pub no_hint : find hint_index d ≡ none
  pub no_merge : find merge_finished d ≡ none

-- No merge left a directory, or one without the mark that it is finished.
abbrev pub IsUnfinished : Option Dir → Type 0
IsUnfinished none = Unit
IsUnfinished (some merge_dir) = is_finished merge_dir ≡ false

-- Options for an index in memory, with the old files not mapped.
pub record IsInMemory (opts : Options) : Type 0 where
  pub checked : check_options opts ≡ ok tt
  pub in_memory : is_bptree opts.index_type ≡ false
  pub unmapped : opts.mmap_at_startup ≡ false

-- The last of some ids.
abbrev pub last_id : ℕ → List ℕ → ℕ
last_id i [] = i
last_id i (j ∷ is) = last_id j is

-- The directory with the lock file, and its files open.
abbrev pub dir_opened : List ℕ → Dir → Dir
dir_opened ids d = created ids (truncate_file flock d)

pub find-opened :
    (k : FileName) (ids : List ℕ) (d : Dir)
    → name_eq flock k ≡ false
    → ((id : ℕ) → name_eq (data_name id) k ≡ false)
    → find k (dir_opened ids d) ≡ find k d
find-opened k ids d not_lock not_data =
    find-created k ids (truncate_file flock d) not_data ∙ find-truncate_other flock k d not_lock

pub content-opened :
    (id : ℕ) (ids : List ℕ) (d : Dir)
    → content (data_name id) (dir_opened ids d) ≡ content (data_name id) d
unfolding content name_eq
content-opened id ids d =
    content-created id ids (truncate_file flock d)
    ∙ (rw (find-truncate_other flock (data_name id) d refl) refl)

module _ {Ix : Type 0} (ix : Indexer Ix) (new_index : Ix) (c : Codec) (os : Os)
    (healthy : IsHealthy os) (a : DirAnswers) (granted : AllGranted a) (fuel : ℕ) (opts : Options)
    (o : IsInMemory opts) where
  abbrev pub before : ℕ → List ℕ → Dir → Engine Ix
  before id ids d =
      new_engine ix new_index c os a fuel opts (false || no_entries (truncate_file flock d))
        (fresh_file id) (fresh_files (id ∷ ids)) (dir_opened (id ∷ ids) d)

  -- `open` up to the loading of the index.
  pub open_run :
      (d : Dir) (merge_dir : Option Dir) (listing : List ℕ) (id : ℕ) (ids : List ℕ)
      → IsUnfinished merge_dir
      → data_ids d ≡ ok listing
      → sort_ids listing ≡ id ∷ ids
      → open_engine ix new_index c os a fuel opts (record { dir = some d; merge_dir = merge_dir })
        ≡ (
          load_memory_index ix new_index c os a fuel (before id ids d),
          record { dir = some (dir_opened (id ∷ ids) d); merge_dir = none },
        )
  unfolding open_engine load_merge_files
  open_run d none listing id ids unfinished listed sorted =
      rw
        (
          o.checked,
          granted.lock_file,
          granted.lock,
          granted.read_dir,
          granted.parent,
          o.unmapped,
          data_ids-truncate d,
          listed,
          open_files_lem os healthy (sort_ids listing) (truncate_file flock d),
          sorted,
          o.in_memory,
        )
        refl
  open_run d (some m) listing id ids unfinished listed sorted =
      rw
        (
          o.checked,
          granted.lock_file,
          granted.lock,
          granted.read_dir,
          granted.parent,
          unfinished,
          granted.remove_dir,
          o.unmapped,
          data_ids-truncate d,
          listed,
          open_files_lem os healthy (sort_ids listing) (truncate_file flock d),
          sorted,
          o.in_memory,
        )
        refl

  file_for-before :
      (id : ℕ) (ids : List ℕ) (d : Dir) (j : ℕ)
      → file_for (before id ids d) j ≡ (if member j (id ∷ ids) then some (fresh_file j) else none)
  unfolding file_for
  file_for-before id ids d j = ground (arith, lookup-pop_older j ids, ==_iff id j)

  before-HasManagers : (id : ℕ) (ids : List ℕ) (d : Dir) → HasManagers (before id ids d)
  before-HasManagers id ids d = record {
    active_standard = refl;
    older_standard = λ j f found. ground (arith, lookup-pop_older j ids, found);
  }

  module _ (e : Engine Ix) (rs : List LogRecord) (l : Logged c e rs)
      (enough : length rs < fuel) where
    length_log : (j : ℕ) → length (l.log j) ≤ length rs
    length_log j = elim (Bool-cases (leb j e.active_file.file_id)) [
      | inl here ↦
          subst (λ ss. length (l.log j) ≤ length ss) l.in_all
            (length_log-le l.log 0 (suc e.active_file.file_id) j (omega arith)
              (ground (arith, here)))
      | inr later ↦ rw (l.beyond j (ground (arith, later))) (omega arith)
    ]

    holds-before :
        (id : ℕ) (ids js : List ℕ)
        → ((j : ℕ) → member j js ≡ true → member j (id ∷ ids) ≡ true)
        → HoldLogs c (before id ids e.dir) fuel (logs_of l.log js)
    holds-before id ids [] among = tt
    holds-before id ids (j ∷ js) among = (
      record {
        file = fresh_file j;
        known = file_for-before id ids e.dir j ∙ (rw (among j (ground arith)) refl);
        standard = refl;
        log = l.are_logs j;
        at_file = content-opened j (id ∷ ids) e.dir ∙ l.contents j;
        short = l.short j;
        rounds = omega (arith, length_log j, enough);
      },
      holds-before id ids js (λ i there. among i (ground (arith, there))),
    )

    pub before-IsLoadable :
        (id : ℕ) (ids : List ℕ)
        → find merge_finished e.dir ≡ none
        → ((k : Bytes) → ix.get k new_index ≡ none)
        → IsLoadable ix c (before id ids e.dir) fuel (logs_of l.log (id ∷ ids))
    unfolding name_eq
    before-IsLoadable id ids no_merge nothing = record {
      ids = ap (λ is. id ∷ is) (file_ids_of-fresh ids ∙ sym (ids_of-logs_of l.log ids));
      some_id = refl;
      no_merge = find-opened merge_finished (id ∷ ids) e.dir refl (λ i. refl) ∙ no_merge;
      nothing = nothing;
      managed = before-HasManagers id ids e.dir;
      holds = holds-before id ids (id ∷ ids) (λ j there. there);
    }
