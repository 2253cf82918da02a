-- ===== src/Durable/Lost.antt =====
-- bitcask-rs/src/db.rs: `delete` takes a key from the engine, but not from what the log describes.
use bitcask_rs.Base.{ℕ, ◌<◌, ◌≡◌, ◌∙◌, Option-cases, inl, inr, [], ◌∷◌, ◌++◌, Bytes, length, arith}
use bitcask_rs.Errors.{ok}
use bitcask_rs.Codec.{Codec}
use bitcask_rs.Fs.{Os, IsHealthy}
use bitcask_rs.Index.{Indexer}
use bitcask_rs.Data.LogRecord.Encode.{Fits, record_bytes}
use bitcask_rs.Engine.{Engine, delete_key, index_delete}
use bitcask_rs.Engine.Append.{HasRoom}
use bitcask_rs.Engine.SameFiles.{SameFiles-trans, index_delete-SameFiles}
use bitcask_rs.Engine.Refine.{
  Store, store_delete, delete_record, Refines, Refines-absent, Refines-deleted, counted,
  counted-SameFiles, delete_none, delete_run,
}
use bitcask_rs.Load.Deletion.{view_log-delete_lost}
use bitcask_rs.Durable.Logged.{Logged-same, Logged-append}
use bitcask_rs.Durable.Store.{Durable, LogSays, log_says, view_more}

module _ {Ix : Type 0} (ix : Indexer Ix) (c : Codec) (os : Os) (healthy : IsHealthy os) where
  -- On an engine that holds a map that its log describes too, with a working operating system, a
  -- record that fits and room for it, `delete` of a key with an ASCII byte in front, not zero,
  -- succeeds; the engine then holds the map without the key, while its log still describes the map
  -- as it was.
  pub delete_key-LogSays :
      (e : Engine Ix) (m : Store) (b : ℕ) (key : Bytes)
      → Durable ix c e m
      → 0 < b
      → b < 128
      → Fits (delete_record (b ∷ key))
      → HasRoom e (length (record_bytes c (delete_record (b ∷ key))))
      → (e' : Engine Ix) × (delete_key ix c os (b ∷ key) e ≡ (ok tt, e'))
        × Refines ix c e' (store_delete (b ∷ key) m)
        × LogSays ix c e' m
  delete_key-LogSays e m b key d pos_b small fits room =
      elim (Option-cases (ix.get (b ∷ key) e.index)) [
        | inl gone ↦ (
          e,
          delete_none ix c os healthy e (b ∷ key) (λ h. cc) gone,
          Refines-absent ix c (b ∷ key) d.holds gone,
          log_says ix c e m d,
        )
        | inr (old, here) ↦
            let r = delete_record (b ∷ key) in
            let (pos, e1, run, a) =
              delete_run ix c os healthy e (b ∷ key) old d.holds.files (λ h. cc) here fits room in
            let e2 = counted ix c os healthy e1 pos in
            let e' = index_delete ix (b ∷ key) e2 in
            let (w, reads, kept) = view_log-delete_lost c b key d.view pos_b small in
            (
              e',
              run,
              Refines-deleted ix c os healthy (b ∷ key) a d.holds,
              record {
                records = d.records ++ (r ∷ []);
                logged =
                    Logged-same c e1 e' (d.records ++ (r ∷ []))
                      (SameFiles-trans (counted-SameFiles ix c os healthy e1 pos)
                        (index_delete-SameFiles ix (b ∷ key) e2))
                      (Logged-append c r d.records a fits (omega arith) d.logged);
                view = w;
                reads = view_more ix c d.records (r ∷ []) d.view w d.reads reads;
                same = kept ∙ d.same;
              },
            )
      ]
