-- ===== src/Load/Numbers.antt =====
-- bitcask-rs/src/db.rs: the largest sequence number of a log, which `open` goes on from.
use bitcask_rs.Base.{
  ℕ, ◌<◌, ◌==◌, ltb, ◌≡◌, refl, ap, subst, ◌∙◌, Bool-cases, Option-cases, inl, inr, if◌then◌else◌,
  Option, none, some, List, [], ◌∷◌, ◌++◌, Bytes, All, arith,
}
use bitcask_rs.Errors.{Result, ok, err, panic, stuck, first_of_ok}
use bitcask_rs.Codec.{Codec}
use bitcask_rs.Map.{lookup, lookup-insert, lookup-remove}
use bitcask_rs.Keys.{parse_log_record_key, non_transaction_seq_no}
use bitcask_rs.Index.{Indexer}
use bitcask_rs.Data.LogRecord.{
  LogRecord, LogRecordPos, LogRecordType, normal, delete, txn_finished, TransactionRecord,
  is_txn_finished,
}
use bitcask_rs.Load.{Loading, update_index, update_all, finish, load_parsed}
use bitcask_rs.Load.Meaning.{LogView, finished, view_parsed, view_log}

abbrev pub max_seq : ℕ → ℕ → ℕ
max_seq n seq_no = if ltb n seq_no then seq_no else n

abbrev pub parsed_seq : Result (Bytes × ℕ) → ℕ
parsed_seq (ok p) = p.1
parsed_seq (err e) = 0
parsed_seq panic = 0
parsed_seq stuck = 0

-- No record of a transaction with a number above this one is held back.
abbrev pub IsFree : ℕ → LogView → Type 0
IsFree n v = (k : ℕ) → n < k → lookup k v.pending ≡ none

finished-IsFree :
    (seq n : ℕ) (v : LogView) → IsFree n v → IsFree n (finished seq (lookup seq v.pending) v)
finished-IsFree seq n v free = elim (Option-cases (lookup seq v.pending)) [
  | inl nothing ↦ rw nothing free
  | inr (rs, held) ↦
      rw held (λ k above. ground (arith, lookup-remove seq k v.pending, free k above))
]

view_parsed-IsFree :
    (r : LogRecord) (key : Bytes) (seq n : ℕ) (v : LogView)
    → IsFree n v
    → IsFree (max_seq n seq) (view_parsed r key seq v)
view_parsed-IsFree r key seq n v free = elim (Bool-cases (seq == non_transaction_seq_no)) [
  | inl plain ↦ rw plain (λ k above. free k (ground (arith, above)))
  | inr txn ↦ elim (Bool-cases (is_txn_finished r.rec_type)) [
    | inl last ↦ rw (txn, last) (λ k above. finished-IsFree seq n v free k (ground (arith, above)))
    | inr more ↦ rw (txn, more) (λ k above. rw lookup-insert (ground (arith, above, free k)))
  ]
]

module _ (c : Codec) where
  -- The largest of a number and the sequence numbers of a log.
  unfoldable pub last_seq : List LogRecord → ℕ → ℕ
  last_seq [] n = n
  last_seq (r ∷ rs) n = last_seq rs (max_seq n (parsed_seq (parse_log_record_key c r.key)))

  pub last_seq-append :
      (rs ss : List LogRecord) (n : ℕ) → last_seq (rs ++ ss) n ≡ last_seq ss (last_seq rs n)
  unfolding last_seq
  last_seq-append [] ss n = refl
  last_seq-append (r ∷ rs) ss n = last_seq-append rs ss _

  -- The numbers of the records are below a bound.
  abbrev pub AreBelow : ℕ → List LogRecord → Type 0
  AreBelow b = All (λ r. parsed_seq (parse_log_record_key c r.key) < b)

  pub last_seq_below :
      (b : ℕ) (rs : List LogRecord) (n : ℕ) → n < b → AreBelow b rs → last_seq rs n < b
  unfolding last_seq
  last_seq_below b [] n low below = low
  last_seq_below b (r ∷ rs) n low (first, below) =
      last_seq_below b rs _ (ground (arith, low, first)) below

  -- What is held back of a log has a number of one of its records.
  pub view_log-IsFree :
      (rs : List LogRecord) (n : ℕ) (v v' : LogView)
      → view_log c rs v ≡ ok v'
      → IsFree n v
      → IsFree (last_seq rs n) v'
  unfolding view_log last_seq
  view_log-IsFree [] n v v' reads free = subst (λ w. IsFree n w) {x = v} {y = v'} (cc reads) free
  view_log-IsFree (r ∷ rs) n v v' reads free =
      let (p, rest, parsed) = first_of_ok _ (parse_log_record_key c r.key) reads in
      rw parsed (
        view_log-IsFree rs (max_seq n p.1) (view_parsed r p.0 p.1 v) v' rest
          (view_parsed-IsFree r p.0 p.1 n v free))

module _ {Ix : Type 0} (ix : Indexer Ix) where
  seq-update_index :
      (key : Bytes) (t : LogRecordType) (pos : LogRecordPos) (st : Loading Ix)
      → (update_index ix key t pos st).current_seq_no ≡ st.current_seq_no
  unfolding update_index
  seq-update_index key normal pos st = refl
  seq-update_index key delete pos st = refl
  seq-update_index key txn_finished pos st = refl

  seq-update_all :
      (ts : List TransactionRecord) (st : Loading Ix)
      → (update_all ix ts st).current_seq_no ≡ st.current_seq_no
  unfolding update_all
  seq-update_all [] st = refl
  seq-update_all (t ∷ ts) st =
      seq-update_all ts _ ∙ seq-update_index t.record_held.key t.record_held.rec_type t.pos st

  seq-finish :
      (seq : ℕ) (o : Option (List TransactionRecord)) (st : Loading Ix)
      → (finish ix seq o st).current_seq_no ≡ st.current_seq_no
  seq-finish seq none st = refl
  seq-finish seq (some ts) st = seq-update_all ts st

  pub seq-load_parsed :
      (r : LogRecord) (key : Bytes) (seq : ℕ) (pos : LogRecordPos) (st : Loading Ix)
      → (load_parsed ix r key seq pos st).current_seq_no ≡ max_seq st.current_seq_no seq
  unfolding load_parsed
  seq-load_parsed r key seq pos st = elim (Bool-cases (seq == non_transaction_seq_no)) [
    | inl plain ↦ rw plain (ap (λ n. max_seq n seq) (seq-update_index key r.rec_type pos st))
    | inr txn ↦ elim (Bool-cases (is_txn_finished r.rec_type)) [
      | inl last ↦
          rw (txn, last)
            (ap (λ n. max_seq n seq) (seq-finish seq (lookup seq st.transaction_records) st))
      | inr more ↦ rw (txn, more) refl
    ]
  ]
