-- ===== src/Load/Points.antt =====
-- An index that points to the values of a map, and what `update_index` makes of both.
use bitcask_rs.Base.{
  ◌≡◌, refl, ◌∙◌, subst, none, some, Bool-cases, inl, inr, List, [], ◌∷◌, Bytes, bytes_eq, All,
  arith,
}
use bitcask_rs.Codec.{Codec}
use bitcask_rs.Index.{Indexer}
use bitcask_rs.Data.LogRecord.{
  LogRecord, LogRecordPos, LogRecordType, normal, delete, txn_finished, TransactionRecord,
}
use bitcask_rs.Engine.{Engine}
use bitcask_rs.Engine.Refine.{Store}
use bitcask_rs.Engine.Stored.{Stored}
use bitcask_rs.Load.{Loading, update_index, update_all}
use bitcask_rs.Load.Meaning.{apply_record, apply_all}

abbrev pub records_of : List TransactionRecord → List LogRecord
records_of [] = []
records_of (t ∷ ts) = t.record_held ∷ records_of ts

module _ {Ix : Type 0} (ix : Indexer Ix) (c : Codec) (e : Engine Ix) where
  pub record Points (index : Ix) (m : Store) : Type 0 where
    pub absent : (k : Bytes) → ix.get k index ≡ none → m k ≡ none
    pub present :
        (k : Bytes) (pos : LogRecordPos)
        → ix.get k index ≡ some pos
        → (v : Bytes) × (m k ≡ some v) × Stored c e pos v

  -- What has to be known of a record's place: a put stands there with its value.
  abbrev pub IsPlaced : LogRecordType → LogRecordPos → Bytes → Type 0
  IsPlaced t pos value = t ≡ normal → Stored c e pos value

  pub update_index-Points :
      (key value : Bytes) (t : LogRecordType) (pos : LogRecordPos) (st : Loading Ix) (m : Store)
      → IsPlaced t pos value
      → Points st.index m
      → Points (update_index ix key t pos st).index (apply_record key value t m)
  unfolding update_index
  update_index-Points key value normal pos st m placed h = record {
    absent = λ k gone. ground (arith, ix.get-put key k pos st.index, h.absent k);
    present = λ k p here. elim (Bool-cases (bytes_eq key k)) [
      | inl mine ↦ (
        value,
        rw mine,
        subst (λ q. Stored c e q value) (ground (arith, ix.get-put key k pos st.index))
            (placed refl),
      )
      | inr other ↦
          let (v, held, old) = h.present k p (ground (arith, ix.get-put key k pos st.index)) in
          (v, rw other held, old)
    ];
  }
  update_index-Points key value delete pos st m placed h = record {
    absent = λ k gone. ground (arith, ix.get-delete key k st.index, h.absent k);
    present = λ k p here. elim (Bool-cases (bytes_eq key k)) [
      | inl mine ↦ absurd (ground (arith, ix.get-delete key k st.index))
      | inr other ↦
          let (v, held, old) = h.present k p (ground (arith, ix.get-delete key k st.index)) in
          (v, rw other held, old)
    ];
  }
  update_index-Points key value txn_finished pos st m placed h = h

  pub txns-update_index :
      (key : Bytes) (t : LogRecordType) (pos : LogRecordPos) (st : Loading Ix)
      → (update_index ix key t pos st).transaction_records ≡ st.transaction_records
  unfolding update_index
  txns-update_index key normal pos st = refl
  txns-update_index key delete pos st = refl
  txns-update_index key txn_finished pos st = refl

  abbrev pub IsHeld : TransactionRecord → Type 0
  IsHeld t = IsPlaced t.record_held.rec_type t.pos t.record_held.value

  pub update_all-Points :
      (ts : List TransactionRecord) (st : Loading Ix) (m : Store)
      → All IsHeld ts
      → Points st.index m
      → Points (update_all ix ts st).index (apply_all (records_of ts) m)
  unfolding update_all
  update_all-Points [] st m held h = h
  update_all-Points (t ∷ ts) st m (placed, held) h = update_all-Points ts _ _ held (
      update_index-Points t.record_held.key t.record_held.value t.record_held.rec_type t.pos st m
        placed h)

  pub txns-update_all :
      (ts : List TransactionRecord) (st : Loading Ix)
      → (update_all ix ts st).transaction_records ≡ st.transaction_records
  unfolding update_all
  txns-update_all [] st = refl
  txns-update_all (t ∷ ts) st =
      txns-update_all ts _ ∙ txns-update_index t.record_held.key t.record_held.rec_type t.pos st
