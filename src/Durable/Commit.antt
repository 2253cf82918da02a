-- ===== src/Durable/Commit.antt =====
-- bitcask-rs/src/batch.rs: a committed batch is in the log as it is in the engine.
use bitcask_rs.Base.{
  List, ℕ, suc, ◌+◌, ◌≤◌, ◌<◌, ◌≡◌, ◌≢◌, refl, ap, subst, ◌∙◌, none, [], ◌∷◌, ◌++◌, append_assoc,
  length, add64, u64_mod, length-append, arith,
}
use bitcask_rs.Errors.{ok}
use bitcask_rs.Codec.{Codec}
use bitcask_rs.Keys.{txn_fin_key, parse_key-encode}
use bitcask_rs.Fs.{Os, IsHealthy}
use bitcask_rs.Map.{lookup}
use bitcask_rs.Index.{Indexer}
use bitcask_rs.Data.LogRecord.{LogRecord}
use bitcask_rs.Data.LogRecord.Encode.{Fits, record_bytes}
use bitcask_rs.Engine.{Engine}
use bitcask_rs.Engine.Refine.{Store, Refines, Refines-same, Refines-append}
use bitcask_rs.Load.Meaning.{LogView, apply_all, view_log}
use bitcask_rs.Load.Numbers.{last_seq, last_seq-append, last_seq_below, AreBelow}
use bitcask_rs.Batch.{Pending, WriteBatch, commit_as, update_items, commit}
use bitcask_rs.Batch.Log.{IsBatch, numbered_all, fin_record, view_log-committed}
use bitcask_rs.Batch.Items.{records_of, IsBatchOf, items_bytes, HasRoomFor, Refines-Grown}
use bitcask_rs.Batch.Commit.{
  update_items-SameFiles, update_items-Refines, commit_as_run, numbered_next, next-SameFiles,
  commit_run,
}
use bitcask_rs.Durable.Logged.{Logged, Logged-same, Logged-append}
use bitcask_rs.Durable.Store.{Durable, free_from, view_more}

IsBatchOf-IsBatch :
    (c : Codec) (seq_no : ℕ) (items : Pending)
    → IsBatchOf c seq_no items
    → IsBatch (records_of items)
IsBatchOf-IsBatch c seq_no [] b = tt
IsBatchOf-IsBatch c seq_no ((k, item) ∷ items) (is_item, differ, b) =
    (is_item.kind, IsBatchOf-IsBatch c seq_no items b)

-- What the log of a transaction does to what a log says.
record Committed (c : Codec) (seq_no : ℕ) (items : Pending) (v : LogView) : Type 0 where
  after : LogView
  reads :
      view_log c (numbered_all c seq_no (records_of items) ++ (fin_record c seq_no ∷ [])) v
      ≡ ok after
  applied : after.store ≡ apply_all (records_of items) v.store

view-Committed :
    (c : Codec) (seq_no : ℕ) (items : Pending) (v : LogView)
    → 0 < seq_no
    → seq_no < u64_mod
    → IsBatchOf c seq_no items
    → items ≢ []
    → lookup seq_no v.pending ≡ none
    → Committed c seq_no items v
view-Committed c seq_no [] v pos in_range batch some_item free = absurd (some_item refl)
view-Committed c seq_no ((k, item) ∷ items) v pos in_range (is_item, differ, batch) some_item free =
    let (w, reads, applied, gone, others) =
      view_log-committed c seq_no pos in_range item (records_of items) v
        (IsBatchOf-IsBatch c seq_no ((k, item) ∷ items) (is_item, differ, batch)) free in
    record { after = w; reads = reads; applied = applied }

-- The records of a transaction have its number.
numbered_all-AreBelow :
    (c : Codec) (seq_no : ℕ) (rs : List LogRecord)
    → seq_no < u64_mod
    → AreBelow c (suc seq_no) (numbered_all c seq_no rs ++ (fin_record c seq_no ∷ []))
numbered_all-AreBelow c seq_no [] in_range =
    (rw (parse_key-encode c txn_fin_key seq_no in_range) (omega arith), tt)
numbered_all-AreBelow c seq_no (r ∷ rs) in_range = (
  rw (parse_key-encode c r.key seq_no in_range) (omega arith),
  numbered_all-AreBelow c seq_no rs in_range,
)

last_seq-transaction :
    (c : Codec) (seq_no : ℕ) (items : Pending) (rs : List LogRecord)
    → seq_no + 1 < u64_mod
    → last_seq c rs 0 < seq_no
    → last_seq c (rs ++ (numbered_all c seq_no (records_of items) ++ (fin_record c seq_no ∷ []))) 0
      < add64 seq_no 1
last_seq-transaction c seq_no items rs in_range counted =
    let all = numbered_all c seq_no (records_of items) ++ (fin_record c seq_no ∷ []) in
    rw (last_seq-append c rs all 0) (
      omega (
        arith,
        last_seq_below c (suc seq_no) all (last_seq c rs 0) (omega (arith, counted))
            (numbered_all-AreBelow c seq_no (records_of items) (omega (arith, in_range))),
      ))

module _ {Ix : Type 0} (ix : Indexer Ix) (c : Codec) (os : Os) (healthy : IsHealthy os) where
  -- The transaction of a batch that is not empty.
  commit_as-Durable :
      (wb : WriteBatch) (e : Engine Ix) (m : Store)
      → Durable ix c e m
      → e.seq_no + 1 < u64_mod
      → wb.pending_write ≢ []
      → IsBatchOf c e.seq_no wb.pending_write
      → Fits (fin_record c e.seq_no)
      → HasRoomFor e (suc (length wb.pending_write)) (
          items_bytes c e.seq_no wb.pending_write + length (record_bytes c (fin_record c e.seq_no)))
      → (e' : Engine Ix) × (commit_as ix c os e.seq_no wb (numbered_next ix c os healthy e)
          ≡ (ok tt, e'))
        × Durable ix c e' (apply_all (records_of wb.pending_write) m)
  commit_as-Durable wb e m d in_range some_item batch fits room =
      let e0 = numbered_next ix c os healthy e in
      let h0 : Refines ix c e0 m =
        Refines-same ix c (next-SameFiles ix c os healthy e) refl d.holds in
      let (ps, e1, pos, e2, run, g, a, at) =
        commit_as_run ix c os healthy e.seq_no wb e0 (omega arith) h0.files batch fits
          (record { ids = room.ids; bytes = room.bytes }) in
      let e' = update_items ix c os wb.pending_write ps e2 in
      let (same, seq') = update_items-SameFiles ix c os wb.pending_write ps e2 in
      let seq : e'.seq_no ≡ add64 e.seq_no 1 = seq' ∙ a.seq_kept ∙ g.seq_kept in
      let items = numbered_all c e.seq_no (records_of wb.pending_write) in
      let all = items ++ (fin_record c e.seq_no ∷ []) in
      let w =
        view-Committed c e.seq_no wb.pending_write d.view (omega (arith, d.counted)) (omega arith)
          batch some_item (free_from ix c e m d e.seq_no (omega arith)) in
      (
        e',
        run,
        record {
          holds =
              update_items-Refines ix c os wb.pending_write ps e2 m
                (Refines-append ix c a (Refines-Grown c g h0)) at;
          records = d.records ++ all;
          logged =
              subst (λ rs. Logged c e' rs)
                (append_assoc d.records items (fin_record c e.seq_no ∷ []))
                (Logged-same c e2 e' ((d.records ++ items) ++ (fin_record c e.seq_no ∷ [])) same (
                  Logged-append c (fin_record c e.seq_no) (d.records ++ items) a fits
                    (omega (arith, length-append (c.encode_varint e.seq_no) txn_fin_key))
                    (g.logged d.records
                      (Logged-same c e e0 d.records (next-SameFiles ix c os healthy e) d.logged))));
          view = w.after;
          reads = view_more ix c d.records all d.view w.after d.reads w.reads;
          same = w.applied ∙ ap (apply_all (records_of wb.pending_write)) d.same;
          counted = rw seq (
              last_seq-transaction c e.seq_no wb.pending_write d.records (omega arith)
                (omega (arith, d.counted)));
          in_range = rw seq (omega (arith, in_range));
        },
      )

  -- On an engine that holds a map that its log describes too, with a working operating system and
  -- room, `commit` of a batch that is not too large, whose records and number fit and whose number
  -- is not the last one, succeeds and empties the batch; both the engine and its log then hold the
  -- map with all the records of the batch applied.
  pub commit-Durable :
      (wb : WriteBatch) (e : Engine Ix) (m : Store)
      → Durable ix c e m
      → e.seq_no + 1 < u64_mod
      → length wb.pending_write ≤ wb.options.max_batch_num
      → IsBatchOf c e.seq_no wb.pending_write
      → Fits (fin_record c e.seq_no)
      → HasRoomFor e (suc (length wb.pending_write)) (
          items_bytes c e.seq_no wb.pending_write + length (record_bytes c (fin_record c e.seq_no)))
      → (e' : Engine Ix) × (commit ix c os wb e ≡ (ok tt, record wb { pending_write = [] }, e'))
        × Durable ix c e' (apply_all (records_of wb.pending_write) m)
  commit-Durable wb e m d in_range few batch fits room =
      commit_run ix c os healthy (λ e'. Durable ix c e' (apply_all (records_of wb.pending_write) m))
        wb e few (λ some_item. commit_as-Durable wb e m d in_range some_item batch fits room)
        (λ none_held. rw none_held d)
