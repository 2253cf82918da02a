-- ===== src/Load/Meaning.antt =====
-- What a log says, read without positions: the map after its records, and the records of
-- transactions that have not finished.
use bitcask_rs.Base.{ℕ, ◌==◌, if◌then◌else◌, Option, none, some, List, [], ◌∷◌, ◌++◌, Bytes}
use bitcask_rs.Errors.{Result, ok, ◌>>=◌}
use bitcask_rs.Codec.{Codec}
use bitcask_rs.Map.{Map, lookup, insert, remove}
use bitcask_rs.Keys.{parse_log_record_key, non_transaction_seq_no}
use bitcask_rs.Data.LogRecord.{
  LogRecord, LogRecordType, normal, delete, txn_finished, is_txn_finished,
}
use bitcask_rs.Engine.Refine.{Store, store_put, store_delete}

pub record LogView : Type 0 where
  pub store : Store
  pub pending : Map (List LogRecord)

-- A record under its real key.
abbrev pub apply_record : Bytes → Bytes → LogRecordType → Store → Store
apply_record key value normal m = store_put key value m
apply_record key value delete m = store_delete key m
apply_record key value txn_finished m = m

abbrev pub apply_all : List LogRecord → Store → Store
apply_all [] m = m
apply_all (r ∷ rs) m = apply_all rs (apply_record r.key r.value r.rec_type m)

abbrev pub held_before : Option (List LogRecord) → List LogRecord
held_before none = []
held_before (some rs) = rs

-- The mark of a finished transaction lets its records take effect.
abbrev pub finished : ℕ → Option (List LogRecord) → LogView → LogView
finished seq_no none v = v
finished seq_no (some rs) v = record {
  store = apply_all rs v.store;
  pending = remove seq_no v.pending;
}

abbrev pub view_parsed : LogRecord → Bytes → ℕ → LogView → LogView
view_parsed r key seq_no v =
    if seq_no == non_transaction_seq_no
    then record v { store = apply_record key r.value r.rec_type v.store }
    else if is_txn_finished r.rec_type
    then finished seq_no (lookup seq_no v.pending) v
    else record v {
      pending =
          insert seq_no (held_before (lookup seq_no v.pending) ++ (record r { key = key } ∷ []))
            v.pending;
    }

module _ (c : Codec) where
  unfoldable pub view_log : List LogRecord → LogView → Result LogView
  view_log [] v = ok v
  view_log (r ∷ rs) v = do
    (key, seq_no) ← parse_log_record_key c r.key
    view_log rs (view_parsed r key seq_no v)
