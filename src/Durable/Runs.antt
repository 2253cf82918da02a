-- ===== src/Durable/Runs.antt =====
-- bitcask-rs/src/db.rs and batch.rs: sequences of `put`, `commit` and restarts, in any order.
use bitcask_rs.Base.{
  ℕ, List, Option, none, some, ◌∷◌, ◌+◌, ◌≤◌, ◌<◌, ◌≡◌, ◌≢◌, sym, ap, subst, ◌∙◌, [], Bytes, suc,
  length, u64_mod,
}
use bitcask_rs.Errors.{ok}
use bitcask_rs.Codec.{Codec}
use bitcask_rs.Disk.{Disk, DirAnswers, AllGranted}
use bitcask_rs.Options.{Options}
use bitcask_rs.Open.{open_engine}
use bitcask_rs.Open.DataFiles.{sort_ids}
use bitcask_rs.Fs.{Dir, data_name, content, Os, IsHealthy}
use bitcask_rs.Index.{Indexer}
use bitcask_rs.Data.LogRecord.Encode.{Fits, record_bytes}
use bitcask_rs.Engine.{Engine, put}
use bitcask_rs.Engine.Append.{HasRoom}
use bitcask_rs.Engine.Refine.{Store, store_put, put_record}
use bitcask_rs.Load.Meaning.{apply_all}
use bitcask_rs.Batch.{WriteBatch, commit}
use bitcask_rs.Batch.Log.{fin_record}
use bitcask_rs.Batch.Items.{records_of, IsBatchOf, items_bytes, HasRoomFor}
use bitcask_rs.Durable.Store.{Durable, put-Durable}
use bitcask_rs.Durable.Commit.{commit-Durable}
use bitcask_rs.Durable.Opened.{IsUnfinished, IsPlain, IsInMemory}
use bitcask_rs.Durable.Restart.{restart-Durable}

module _ {Ix : Type 0} (ix : Indexer Ix) (c : Codec) (os : Os) where
  -- A call that is answered with success, with what it does to the abstract map. A restart opens the
  -- directory of the engine with an empty index.
  pub data Call (e : Engine Ix) (m : Store) (e' : Engine Ix) (m' : Store) : Type 0 where
    put_call :
        (key value : Bytes)
        → key ≢ []
        → Fits (put_record key value)
        → HasRoom e (length (record_bytes c (put_record key value)))
        → put ix c os key value e ≡ (ok tt, e')
        → store_put key value m ≡ m'
        → Call e m e' m'
    commit_call :
        (wb wb' : WriteBatch)
        → e.seq_no + 1 < u64_mod
        → length wb.pending_write ≤ wb.options.max_batch_num
        → IsBatchOf c e.seq_no wb.pending_write
        → Fits (fin_record c e.seq_no)
        → HasRoomFor e (suc (length wb.pending_write)) (
            items_bytes c e.seq_no wb.pending_write
            + length (record_bytes c (fin_record c e.seq_no)))
        → commit ix c os wb e ≡ (ok tt, wb', e')
        → apply_all (records_of wb.pending_write) m ≡ m'
        → Call e m e' m'
    open_call :
        (new_index : Ix) (a : DirAnswers) (fuel : ℕ) (opts : Options) (i : ℕ) (ids : List ℕ)
        (merge_dir : Option Dir) (s : Disk)
        → AllGranted a
        → IsInMemory opts
        → IsPlain ids e.dir
        → sort_ids ids ≡ i ∷ []
        → length (content (data_name i) e.dir) < fuel
        → ((k : Bytes) → ix.get k new_index ≡ none)
        → IsUnfinished merge_dir
        → open_engine ix new_index c os a fuel opts
            (record { dir = some e.dir; merge_dir = merge_dir })
          ≡ (ok e', s)
        → m ≡ m'
        → Call e m e' m'

  pub data Run (e : Engine Ix) (m : Store) : Engine Ix → Store → Type 0 where
    idle : Run e m e m
    called : {e1 e2 : Engine Ix} {m1 m2 : Store} → Run e m e1 m1 → Call e1 m1 e2 m2 → Run e m e2 m2

  moved :
      {e1 e2 : Engine Ix} {m1 m2 : Store}
      → e1 ≡ e2
      → m1 ≡ m2
      → Durable ix c e1 m1
      → Durable ix c e2 m2
  moved {e2 = e2} {m1 = m1} same_engine same_map d =
      subst (λ m. Durable ix c e2 m) same_map (subst (λ e. Durable ix c e m1) same_engine d)

  module _ (healthy : IsHealthy os) where
    Call-Durable :
        {e e' : Engine Ix} {m m' : Store} → Call e m e' m' → Durable ix c e m → Durable ix c e' m'
    Call-Durable {e} {e'} {m} (put_call key value ne fits room answers says) d =
        let (found, run, after) = put-Durable ix c os healthy e m key value d ne fits room in
        moved (ap (λ r. r.1) (sym run ∙ answers)) says after
    Call-Durable {e} {e'} {m} (commit_call wb wb' in_range few batch fits room answers says) d =
        let (found, run, after) =
          commit-Durable ix c os healthy wb e m d in_range few batch fits room in
        moved (ap (λ r. r.2) (sym run ∙ answers)) says after
    Call-Durable {e} {e'} {m}
          (open_call new_index a fuel opts i ids merge_dir s granted o plain only enough nothing
            unfinished answers says)
          d =
        let (found, s', run, after) =
          restart-Durable ix new_index c os healthy a granted fuel opts o e m d i ids plain only
            enough nothing merge_dir unfinished in
        moved (cc (ap (λ r. r.0) (sym run ∙ answers))) says after

    -- With a working operating system, whatever sequence of calls of `put` and `commit`, and of
    -- restarts by `open` while there is one data file, each within its bounds and answered with
    -- success, runs on an engine that holds a map that its log describes too: afterwards both the
    -- engine and its log hold the map that the calls make of it.
    pub Run-Durable :
        {e : Engine Ix} {m : Store} {e' : Engine Ix} {m' : Store}
        → Run e m e' m'
        → Durable ix c e m
        → Durable ix c e' m'
    Run-Durable idle d = d
    Run-Durable (called run call) d = Call-Durable call (Run-Durable run d)
