-- ===== src/Batch/Commit.antt =====
-- bitcask-rs/src/batch.rs: what `commit` does to the map that the engine holds.
use bitcask_rs.Base.{
  Option, some, none, refl, ◌≢◌, ◌∙◌, ap, ℕ, suc, ◌+◌, ◌≤◌, ◌<◌, ◌≡◌, refl, ltb-eq_false, Bool,
  true, false, List, [], ◌∷◌, Bytes, length, add64, u64_mod,
}
use bitcask_rs.Errors.{ok}
use bitcask_rs.Fs.{Os, IsHealthy}
use bitcask_rs.Codec.{Codec}
use bitcask_rs.Keys.{log_record_key_with_seq_lem, txn_fin_key}
use bitcask_rs.Index.{Indexer}
use bitcask_rs.Data.LogRecord.{
  LogRecord, LogRecordPos, LogRecordType, normal, delete, txn_finished, is_delete,
}
use bitcask_rs.Data.LogRecord.Encode.{Fits, record_bytes}
use bitcask_rs.Engine.{Engine}
use bitcask_rs.Engine.Files.{HasFiles, sync_file_ok}
use bitcask_rs.Engine.Append.{Appended}
use bitcask_rs.Engine.Stored.{Stored}
use bitcask_rs.Engine.SameFiles.{
  SameFiles-refl, SameFiles-trans, seq-index_put, seq-index_delete, SameFiles, Stored-same,
  index_put-SameFiles, index_delete-SameFiles,
}
use bitcask_rs.Engine.Refine.{
  Refines-same, Store, Refines, Refines-append, Refines-index_put, Refines-index_delete,
}
use bitcask_rs.Load.Meaning.{apply_record, apply_all}
use bitcask_rs.Batch.{
  update_item, position_of, Pending, WriteBatch, update_typed, update_items, sync_if, commit_as,
  commit_engine, commit, no_items,
}
use bitcask_rs.Batch.Log.{numbered_all, fin_record}
use bitcask_rs.Batch.Items.{
  Grown, records_of, append_transaction_lem, IsBatchOf, items_bytes, HasRoomFor, Located,
  Refines-Grown,
}

module _ {Ix : Type 0} (ix : Indexer Ix) (c : Codec) (os : Os) where
  update_typed-SameFiles :
      (key : Bytes) (t : LogRecordType) (pos : LogRecordPos) (e : Engine Ix)
      → SameFiles e (update_typed ix c os key t pos e)
  update_typed-SameFiles key normal pos e = index_put-SameFiles ix key pos e
  update_typed-SameFiles key delete pos e = index_delete-SameFiles ix key e
  update_typed-SameFiles key txn_finished pos e = record {
    dir_same = refl;
    active_same = refl;
    older_same = refl;
    options_same = refl;
  }

  update_typed-Refines :
      (key value : Bytes) (t : LogRecordType) (pos : LogRecordPos) (e : Engine Ix) (m : Store)
      → Refines ix c e m
      → (is_delete t ≡ false → Stored c e pos value)
      → Refines ix c (update_typed ix c os key t pos e) (apply_record key value t m)
  update_typed-Refines key value normal pos e m h st =
      Refines-index_put ix c pos key value h (st refl)
  update_typed-Refines key value delete pos e m h st = Refines-index_delete ix c key h
  update_typed-Refines key value txn_finished pos e m h st = h

  Located-same :
      (e e' : Engine Ix) (ps : List (Bytes × LogRecordPos)) (items : Pending)
      → SameFiles e e'
      → Located c e ps items
      → Located c e' ps items
  Located-same e e' ps [] same at = tt
  Located-same e e' ps ((k, item) ∷ items) same ((pos, found, st), at) = (
    (pos, found, λ live. Stored-same same c pos item.value (st live)),
    Located-same e e' ps items same at,
  )

  update_typed-seq :
      (key : Bytes) (t : LogRecordType) (pos : LogRecordPos) (e : Engine Ix)
      → (update_typed ix c os key t pos e).seq_no ≡ e.seq_no
  update_typed-seq key normal pos e = seq-index_put ix key pos e
  update_typed-seq key delete pos e = seq-index_delete ix key e
  update_typed-seq key txn_finished pos e = refl

  update_item-SameFiles :
      (item : LogRecord) (o : Option LogRecordPos) (e : Engine Ix)
      → SameFiles e (update_item ix c os item o e)
        × ((update_item ix c os item o e).seq_no ≡ e.seq_no)
  update_item-SameFiles item none e = (SameFiles-refl e, refl)
  update_item-SameFiles item (some pos) e = (
    update_typed-SameFiles item.key item.rec_type pos e,
    update_typed-seq item.key item.rec_type pos e,
  )

  pub update_items-SameFiles :
      (items : Pending) (ps : List (Bytes × LogRecordPos)) (e : Engine Ix)
      → SameFiles e (update_items ix c os items ps e)
        × ((update_items ix c os items ps e).seq_no ≡ e.seq_no)
  unfolding update_items
  update_items-SameFiles [] ps e = (SameFiles-refl e, refl)
  update_items-SameFiles ((k, item) ∷ items) ps e =
      let e1 = update_item ix c os item (position_of item.key ps) e in
      let (s, seq) = update_items-SameFiles items ps e1 in
      let (s0, seq0) = update_item-SameFiles item (position_of item.key ps) e in
      (SameFiles-trans s0 s, seq ∙ seq0)

  -- The second loop applies the records to the map.
  pub update_items-Refines :
      (items : Pending) (ps : List (Bytes × LogRecordPos)) (e : Engine Ix) (m : Store)
      → Refines ix c e m
      → Located c e ps items
      → Refines ix c (update_items ix c os items ps e) (apply_all (records_of items) m)
  unfolding update_items
  update_items-Refines [] ps e m h at = h
  update_items-Refines ((k, item) ∷ items) ps e m h ((pos, found, st), at) = rw found (
      update_items-Refines items ps (update_typed ix c os item.key item.rec_type pos e)
        (apply_record item.key item.value item.rec_type m)
        (update_typed-Refines item.key item.value item.rec_type pos e m h st)
        (Located-same e (update_typed ix c os item.key item.rec_type pos e) ps items
          (update_typed-SameFiles item.key item.rec_type pos e) at))

module _ {Ix : Type 0} (ix : Indexer Ix) (c : Codec) (os : Os) (healthy : IsHealthy os) where
  sync_if_lem : (b : Bool) (e : Engine Ix) → sync_if ix c os b e ≡ (ok tt, e)
  sync_if_lem true e = rw (sync_file_ok os healthy e.active_file)
  sync_if_lem false e = refl

  -- What the commit of a transaction does, step by step.
  pub commit_as_run :
      (seq_no : ℕ) (wb : WriteBatch) (e : Engine Ix)
      → seq_no < u64_mod
      → HasFiles e
      → IsBatchOf c seq_no wb.pending_write
      → Fits (fin_record c seq_no)
      → HasRoomFor e
          (suc (length wb.pending_write))
          (items_bytes c seq_no wb.pending_write + length (record_bytes c (fin_record c seq_no)))
      → (ps : List (Bytes × LogRecordPos)) × (e1 : Engine Ix) × (pos : LogRecordPos) × (e2 : Engine
          Ix)
        × (commit_as ix c os seq_no wb e ≡ (ok tt, update_items ix c os wb.pending_write ps e2))
        × Grown c e
            (numbered_all c seq_no (records_of wb.pending_write))
            (items_bytes c seq_no wb.pending_write)
            e1
        × Appended e1 (record_bytes c (fin_record c seq_no)) pos e2
        × Located c e2 ps wb.pending_write
  unfolding commit_as
  commit_as_run seq_no wb e in_range files batch fits room =
      let (ps, e1, pos, e2, run, run2, g, a, at) =
        append_transaction_lem ix c os healthy seq_no in_range wb.pending_write e files room batch
          fits in
      (
        ps,
        e1,
        pos,
        e2,
        rw (run, log_record_key_with_seq_lem c txn_fin_key seq_no in_range, run2, sync_if_lem) refl,
        g,
        a,
        at,
      )

  -- The engine with the next sequence number.
  abbrev pub numbered_next : Engine Ix → Engine Ix
  numbered_next e = record e { seq_no = add64 e.seq_no 1 }

  pub next-SameFiles : (e : Engine Ix) → SameFiles e (numbered_next e)
  next-SameFiles e = record {
    dir_same = refl;
    active_same = refl;
    older_same = refl;
    options_same = refl;
  }

  -- Whether there is anything to commit decides if the number of the transaction is taken.
  committed :
      (P : Engine Ix → Type 0) (items : Pending) (wb : WriteBatch) (e : Engine Ix)
      → wb.pending_write ≡ items
      → length wb.pending_write ≤ wb.options.max_batch_num
      → (wb.pending_write ≢ []
          → (e' : Engine Ix) × (commit_as ix c os e.seq_no wb (numbered_next e) ≡ (ok tt, e'))
            × P e')
      → (wb.pending_write ≡ [] → P e)
      → (e' : Engine Ix) × (commit_engine ix c os wb e ≡ (ok tt, e')) × P e'
  unfolding commit_engine
  committed P [] wb e none_held few inner h = (e, rw none_held refl, h none_held)
  committed P (i ∷ items) wb e held few inner h =
      let (e', run, after) = inner (λ none_held. cc) in
      (
        e',
        rw
            (
              ap no_items_of held,
              ltb-eq_false wb.options.max_batch_num (length wb.pending_write) few,
              run,
            )
            refl,
        after,
      )
    where
      no_items_of : Pending → Bool
      no_items_of = no_items ix c os

  -- What holds after the transaction, and of the engine itself if the batch is empty, holds after
  -- `commit`, which empties the batch.
  pub commit_run :
      (P : Engine Ix → Type 0) (wb : WriteBatch) (e : Engine Ix)
      → length wb.pending_write ≤ wb.options.max_batch_num
      → (wb.pending_write ≢ []
          → (e' : Engine Ix) × (commit_as ix c os e.seq_no wb (numbered_next e) ≡ (ok tt, e'))
            × P e')
      → (wb.pending_write ≡ [] → P e)
      → (e' : Engine Ix) × (commit ix c os wb e ≡ (ok tt, record wb { pending_write = [] }, e'))
        × P e'
  unfolding commit
  commit_run P wb e few inner empty =
      let (e', run, after) = committed P wb.pending_write wb e refl few inner empty in
      (e', rw run refl, after)

  -- A batch that is not too large, whose records and number fit, on an engine that holds a map and
  -- has room for them: `commit` succeeds, empties the batch, and leaves an engine that holds the
  -- map with all the records of the batch applied.
  pub commit-Refines :
      (wb : WriteBatch) (e : Engine Ix) (m : Store)
      → Refines ix c e m
      → e.seq_no < u64_mod
      → length wb.pending_write ≤ wb.options.max_batch_num
      → IsBatchOf c e.seq_no wb.pending_write
      → Fits (fin_record c e.seq_no)
      → HasRoomFor e (suc (length wb.pending_write)) (
          items_bytes c e.seq_no wb.pending_write + length (record_bytes c (fin_record c e.seq_no)))
      → (e' : Engine Ix) × (commit ix c os wb e ≡ (ok tt, record wb { pending_write = [] }, e'))
        × Refines ix c e' (apply_all (records_of wb.pending_write) m)
  commit-Refines wb e m h in_range few batch fits room =
      let h0 : Refines ix c (numbered_next e) m = Refines-same ix c (next-SameFiles e) refl h in
      let (ps, e1, pos, e2, run, g, a, at) =
        commit_as_run e.seq_no wb (numbered_next e) in_range h0.files batch fits
          (record { ids = room.ids; bytes = room.bytes }) in
      commit_run (λ e'. Refines ix c e' (apply_all (records_of wb.pending_write) m)) wb e few
        (λ some_item. (
          update_items ix c os wb.pending_write ps e2,
          run,
          update_items-Refines ix c os wb.pending_write ps e2 m
              (Refines-append ix c a (Refines-Grown c g h0)) at,
        ))
        (λ none_held. rw none_held h)
