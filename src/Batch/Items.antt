-- ===== src/Batch/Items.antt =====
-- bitcask-rs/src/batch.rs: the first loop of `commit`, which appends the records of the batch.
use bitcask_rs.Base.{
  sym, ap, subst, append_assoc, append-nil, ◌++◌, suc, ◌≡◌, refl, [], ℕ, ◌+◌, ◌≤◌, ◌<◌, ◌≡◌, refl,
  false, some, List, [], ◌∷◌, All, Bytes, bytes_eq, bytes_eq_refl, length, length-append, u32_mod,
  u64_mod, ◌∙◌, arith,
}
use bitcask_rs.Errors.{ok}
use bitcask_rs.Fs.{Os, IsHealthy}
use bitcask_rs.Codec.{Codec}
use bitcask_rs.Keys.{log_record_key_with_seq_lem}
use bitcask_rs.Index.{Indexer}
use bitcask_rs.Data.LogRecord.{LogRecord, LogRecordPos, is_delete, is_txn_finished}
use bitcask_rs.Data.LogRecord.Encode.{Fits, record_bytes}
use bitcask_rs.Engine.{append_log_record, Engine}
use bitcask_rs.Engine.Files.{HasFiles}
use bitcask_rs.Engine.Append.{Appended, append_log_record_lem}
use bitcask_rs.Engine.Stored.{Stored, Stored-append, Stored-new}
use bitcask_rs.Engine.Refine.{Store, Refines}
use bitcask_rs.Batch.{Pending, position_of, append_items}
use bitcask_rs.Batch.Log.{numbered, numbered_all, fin_record}
use bitcask_rs.Data.DataFile.Read.{IsNonEmpty}
use bitcask_rs.Durable.Logged.{Logged, Logged-append}

-- A record that a batch may hold, and that fits the log under its number.
pub record IsItem (c : Codec) (seq_no : ℕ) (r : LogRecord) : Type 0 where
  pub fits : Fits (numbered c seq_no r)
  pub full : 0 < length r.key
  pub kind : is_txn_finished r.rec_type ≡ false

-- The records are such, and their keys differ, as in a hash map.
abbrev pub IsBatchOf : Codec → ℕ → Pending → Type 0
IsBatchOf c seq_no [] = Unit
IsBatchOf c seq_no ((k, item) ∷ items) =
    IsItem c seq_no item
    × All (λ later. bytes_eq item.key later.1.key ≡ false) items
    × IsBatchOf c seq_no items

abbrev pub items_bytes : Codec → ℕ → Pending → ℕ
items_bytes c seq_no [] = 0
items_bytes c seq_no ((k, item) ∷ items) =
    length (record_bytes c (numbered c seq_no item)) + items_bytes c seq_no items

-- Room for `k` records of `n` bytes in all.
pub record HasRoomFor {Ix : Type 0} (e : Engine Ix) (k n : ℕ) : Type 0 where
  pub ids : e.active_file.file_id + k < u32_mod
  pub bytes : e.active_file.write_off + n < u64_mod

-- The records of a batch, in the order in which the commit meets them.
abbrev pub records_of : Pending → List LogRecord
records_of [] = []
records_of ((k, item) ∷ items) = item ∷ records_of items

-- From `e` to `e'`, these records, of `n` bytes in all, were appended, and nothing else was done.
pub record Grown {Ix : Type 0} (c : Codec) (e : Engine Ix) (added : List LogRecord) (n : ℕ)
    (e' : Engine Ix) : Type 0 where
  pub files : HasFiles e'
  pub index_kept : e'.index ≡ e.index
  pub seq_kept : e'.seq_no ≡ e.seq_no
  pub stored : (pos : LogRecordPos) (v : Bytes) → Stored c e pos v → Stored c e' pos v
  pub logged : (rs : List LogRecord) → Logged c e rs → Logged c e' (rs ++ added)
  pub id_le : e'.active_file.file_id ≤ e.active_file.file_id + length added
  pub active_le : e'.active_file.write_off ≤ e.active_file.write_off + n

-- Each record's position is known under its key, and its value is stored there if it has one.
abbrev pub Located :
    {Ix : Type 0} → Codec → Engine Ix → List (Bytes × LogRecordPos) → Pending → Type 0
Located c e ps = All (λ x.
    (pos : LogRecordPos) × (position_of x.1.key ps ≡ some pos)
    × (is_delete x.1.rec_type ≡ false → Stored c e pos x.1.value))

module _ {Ix : Type 0} (c : Codec) where
  Located-later :
      (e : Engine Ix) (key : Bytes) (pos : LogRecordPos) (ps : List (Bytes × LogRecordPos))
      (items : Pending)
      → All (λ later. bytes_eq key later.1.key ≡ false) items
      → Located c e ps items
      → Located c e ((key, pos) ∷ ps) items
  Located-later e key pos ps [] differ at = tt
  Located-later e key pos ps ((k, item) ∷ items) (other, differ) ((p, found, st), at) =
      ((p, rw other found, st), Located-later e key pos ps items differ at)

  Located-append :
      (e1 e2 : Engine Ix) {pos : LogRecordPos} {buf : Bytes} (ps : List (Bytes × LogRecordPos))
      (items : Pending)
      → Appended e1 buf pos e2
      → Located c e1 ps items
      → Located c e2 ps items
  Located-append e1 e2 ps [] a at = tt
  Located-append e1 e2 ps ((k, item) ∷ items) a ((pos, found, st), at) = (
    (pos, found, λ live. Stored-append c pos item.value a (st live)),
    Located-append e1 e2 ps items a at,
  )

  pub Refines-Grown :
      {ix : Indexer Ix} {e e' : Engine Ix} {m : Store} {added : List LogRecord} {n : ℕ}
      → Grown c e added n e'
      → Refines ix c e m
      → Refines ix c e' m
  Refines-Grown g h = record {
    files = g.files;
    absent = rw g.index_kept h.absent;
    present = λ k pos here.
        let (v, held, old) = h.present k pos (rw g.index_kept at here) in
        (v, held, g.stored pos v old);
  }

  -- One record, and then others.
  Grown-cons :
      {e e1 e2 : Engine Ix} {pos : LogRecordPos} {added : List LogRecord} {n : ℕ} (r : LogRecord)
      → Appended e (record_bytes c r) pos e1
      → Fits r
      → IsNonEmpty r
      → Grown c e1 added n e2
      → Grown c e (r ∷ added) (length (record_bytes c r) + n) e2
  Grown-cons {e} {e1} {e2} {pos} {added} {n} r a fits full g = record {
    files = g.files;
    index_kept = g.index_kept ∙ a.index_kept;
    seq_kept = g.seq_kept ∙ a.seq_kept;
    stored = λ p v st. g.stored p v (Stored-append c p v a st);
    logged = λ rs l.
        subst (λ ss. Logged c e2 ss) (append_assoc rs (r ∷ []) added)
          (g.logged (rs ++ (r ∷ [])) (Logged-append c r rs a fits full l));
    id_le = omega (arith, g.id_le, a.id_le);
    active_le = omega (arith, g.active_le, a.active_le);
  }

  Grown-nil : (e : Engine Ix) → HasFiles e → Grown c e [] 0 e
  Grown-nil e h = record {
    files = h;
    index_kept = refl;
    seq_kept = refl;
    stored = λ pos v st. st;
    logged = λ rs l. subst (λ ss. Logged c e ss) (sym (append-nil rs)) l;
    id_le = omega arith;
    active_le = omega arith;
  }

module _ {Ix : Type 0} (ix : Indexer Ix) (c : Codec) (os : Os) (healthy : IsHealthy os) (seq_no : ℕ)
    (in_range : seq_no < u64_mod) where
  numbered-IsNonEmpty : (r : LogRecord) → IsItem c seq_no r → IsNonEmpty (numbered c seq_no r)
  numbered-IsNonEmpty r h = omega (arith, h.full, length-append (c.encode_varint seq_no) r.key)

  length-numbered_all :
      (items : Pending) → length (numbered_all c seq_no (records_of items)) ≡ length items
  length-numbered_all [] = refl
  length-numbered_all ((k, item) ∷ items) = ap suc (length-numbered_all items)

  -- The loop appends every record of the batch; their positions are known by their keys.
  pub append_items_lem :
      (items : Pending) (e : Engine Ix)
      → HasFiles e
      → HasRoomFor e (length items) (items_bytes c seq_no items)
      → IsBatchOf c seq_no items
      → (ps : List (Bytes × LogRecordPos)) × (e' : Engine Ix) × (append_items ix c os seq_no items e
          ≡ (ok ps, e'))
        × Grown c e (numbered_all c seq_no (records_of items)) (items_bytes c seq_no items) e'
        × Located c e' ps items
  unfolding append_items
  append_items_lem [] e h room batch = ([], e, refl, Grown-nil c e h, tt)
  append_items_lem ((k, item) ∷ items) e h room (is_item, differ, batch) =
      let (pos, e1, run, a) =
        append_log_record_lem c os healthy (numbered c seq_no item) e is_item.fits h
          (record { ids = omega (arith, room.ids); bytes = omega (arith, room.bytes) }) in
      let (ps, e2, run2, g, at) =
        append_items_lem items e1 a.files
          (record {
            ids = omega (arith, room.ids, a.id_le);
            bytes = omega (arith, room.bytes, a.active_le);
          })
          batch in
      (
        (item.key, pos) ∷ ps,
        e2,
        rw (log_record_key_with_seq_lem c item.key seq_no in_range, run, run2) refl,
        Grown-cons c (numbered c seq_no item) a is_item.fits (numbered-IsNonEmpty item is_item) g,
        (
          (
            pos,
            rw (bytes_eq_refl item.key) refl,
            λ live. g.stored pos item.value (
                Stored-new c (numbered c seq_no item) a is_item.fits
                  (numbered-IsNonEmpty item is_item) live),
          ),
          Located-later c e2 item.key pos ps items differ at,
        ),
      )

  -- The loop, and the mark of the end behind it.
  pub append_transaction_lem :
      (items : Pending) (e : Engine Ix)
      → HasFiles e
      → HasRoomFor e
          (suc (length items))
          (items_bytes c seq_no items + length (record_bytes c (fin_record c seq_no)))
      → IsBatchOf c seq_no items
      → Fits (fin_record c seq_no)
      → (ps : List (Bytes × LogRecordPos)) × (e1 : Engine Ix) × (pos : LogRecordPos) × (e2 : Engine
          Ix)
        × (append_items ix c os seq_no items e ≡ (ok ps, e1))
        × (append_log_record c os (fin_record c seq_no) e1 ≡ (ok pos, e2))
        × Grown c e (numbered_all c seq_no (records_of items)) (items_bytes c seq_no items) e1
        × Appended e1 (record_bytes c (fin_record c seq_no)) pos e2
        × Located c e2 ps items
  append_transaction_lem items e h room batch fits =
      let (ps, e1, run, g, at) =
        append_items_lem items e h
          (record { ids = omega (arith, room.ids); bytes = omega (arith, room.bytes) }) batch in
      let (pos, e2, run2, a) =
        append_log_record_lem c os healthy (fin_record c seq_no) e1 fits g.files (record {
          ids = omega (arith, room.ids, g.id_le, length-numbered_all items);
          bytes = omega (arith, room.bytes, g.active_le);
        }) in
      (ps, e1, pos, e2, run, run2, g, a, Located-append c e1 e2 ps items a at)
