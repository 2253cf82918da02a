-- ===== src/Durable/Store.antt =====
-- bitcask-rs/src/db.rs and batch.rs: a map that the engine holds, and that its log describes.
use bitcask_rs.Base.{
  u64_mod, ℕ, ◌≤◌, ◌<◌, ◌≡◌, ◌≢◌, refl, ap, ◌∙◌, none, List, [], ◌∷◌, ◌++◌, Bytes, length, arith,
}
use bitcask_rs.Errors.{ok}
use bitcask_rs.Codec.{Codec}
use bitcask_rs.Fs.{Os, IsHealthy}
use bitcask_rs.Map.{lookup}
use bitcask_rs.Keys.{parse_key-bare}
use bitcask_rs.Index.{Indexer}
use bitcask_rs.Data.LogRecord.{LogRecord}
use bitcask_rs.Data.LogRecord.Encode.{Fits, record_bytes}
use bitcask_rs.Engine.{Engine, put, index_put}
use bitcask_rs.Engine.Append.{HasRoom}
use bitcask_rs.Engine.SameFiles.{index_put-SameFiles, seq-index_put}
use bitcask_rs.Engine.Stored.{Stored-new}
use bitcask_rs.Engine.Refine.{
  Store, store_put, put_record, Refines, Refines-append, Refines-index_put, put_run,
}
use bitcask_rs.Load.Meaning.{LogView, view_log}
use bitcask_rs.Load.Numbers.{max_seq, parsed_seq, last_seq, last_seq-append, view_log-IsFree}
use bitcask_rs.Load.Files.{nothing_held}
use bitcask_rs.Load.Deletion.{view_log-put}
use bitcask_rs.Durable.Records.{view_log-append}
use bitcask_rs.Durable.Logged.{Logged, Logged-same, Logged-append}

module _ {Ix : Type 0} (ix : Indexer Ix) (c : Codec) where
  -- The engine holds the map, its files hold a log that describes the map too, and its sequence
  -- number is above those of the log.
  pub record Durable (e : Engine Ix) (m : Store) : Type 0 where
    pub holds : Refines ix c e m
    pub records : List LogRecord
    pub logged : Logged c e records
    pub view : LogView
    pub reads : view_log c records nothing_held ≡ ok view
    pub same : view.store ≡ m
    pub counted : last_seq c records 0 < e.seq_no
    pub in_range : e.seq_no < u64_mod

  -- No transaction is held back under a number that the engine has yet to use.
  pub free_from :
      (e : Engine Ix) (m : Store) (d : Durable e m) (n : ℕ)
      → e.seq_no ≤ n
      → lookup n d.view.pending ≡ none
  unfolding lookup
  free_from e m d n later =
      view_log-IsFree c d.records 0 nothing_held d.view d.reads (λ k above. refl) n
        (omega (arith, d.counted, later))

  -- The log in the engine's files describes the map.
  pub record LogSays (e : Engine Ix) (m : Store) : Type 0 where
    pub records : List LogRecord
    pub logged : Logged c e records
    pub view : LogView
    pub reads : view_log c records nothing_held ≡ ok view
    pub same : view.store ≡ m

  abbrev pub log_says : (e : Engine Ix) (m : Store) → Durable e m → LogSays e m
  log_says e m d = record {
    records = d.records;
    logged = d.logged;
    view = d.view;
    reads = d.reads;
    same = d.same;
  }

  pub view_more :
      (rs ss : List LogRecord) (v w : LogView)
      → view_log c rs nothing_held ≡ ok v
      → view_log c ss v ≡ ok w
      → view_log c (rs ++ ss) nothing_held ≡ ok w
  view_more rs ss v w first next = view_log-append c rs ss nothing_held ∙ (rw first next)

  last_seq-put :
      (key value : Bytes) (rs : List LogRecord)
      → last_seq c (rs ++ (put_record key value ∷ [])) 0 ≡ last_seq c rs 0
  unfolding last_seq
  last_seq-put key value rs =
      last_seq-append c rs (put_record key value ∷ []) 0
      ∙ ap (λ o. max_seq (last_seq c rs 0) (parsed_seq o)) (parse_key-bare c 0 key (omega arith))
      ∙ ground arith

  view_put :
      (key value : Bytes) (v : LogView)
      → view_log c (put_record key value ∷ []) v
        ≡ ok (record v { store = store_put key value v.store })
  view_put key value v = view_log-put c key value [] v ∙ (unfold view_log in refl)

  module _ (os : Os) (healthy : IsHealthy os) where
    -- On an engine that holds a map that its log describes too, with a working operating system, a
    -- non-empty key, a record that fits and room for it, `put` succeeds, and both the engine and its
    -- log then hold the map with the new value.
    pub put-Durable :
        (e : Engine Ix) (m : Store) (key value : Bytes)
        → Durable e m
        → key ≢ []
        → Fits (put_record key value)
        → HasRoom e (length (record_bytes c (put_record key value)))
        → (e' : Engine Ix) × (put ix c os key value e ≡ (ok tt, e'))
          × Durable e' (store_put key value m)
    put-Durable e m key value d ne fits room =
        let (pos, e1, run, a) = put_run ix c os healthy e key value d.holds.files ne fits room in
        let e' = index_put ix key pos e1 in
        let seq : e'.seq_no ≡ e.seq_no = seq-index_put ix key pos e1 ∙ a.seq_kept in
        (
          e',
          run,
          record {
            holds =
                Refines-index_put ix c pos key value (Refines-append ix c a d.holds)
                  (Stored-new c (put_record key value) a fits (omega arith) refl);
            records = d.records ++ (put_record key value ∷ []);
            logged =
                Logged-same c e1 e' (d.records ++ (put_record key value ∷ []))
                  (index_put-SameFiles ix key pos e1)
                  (Logged-append c (put_record key value) d.records a fits (omega arith) d.logged);
            view = record (d.view) { store = store_put key value d.view.store };
            reads =
                view_more d.records (put_record key value ∷ []) d.view _ d.reads
                  (view_put key value d.view);
            same = ap (store_put key value) d.same;
            counted = rw (seq, last_seq-put key value d.records) d.counted;
            in_range = rw seq d.in_range;
          },
        )
