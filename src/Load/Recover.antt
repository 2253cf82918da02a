-- ===== src/Load/Recover.antt =====
-- Loading a log rebuilds an index that points to what the log says.
use bitcask_rs.Base.{
  ℕ, ◌+◌, ◌<◌, ◌==◌, ◌≡◌, refl, sym, ap, subst, ◌∙◌, Option, none, some, Bool-cases, inl, inr, List,
  [], ◌∷◌, ◌++◌, append_assoc, Bytes, length, length-append, All, as_u32, u64_mod, arith,
}
use bitcask_rs.Errors.{ok, first_of_ok}
use bitcask_rs.Codec.{Codec}
use bitcask_rs.Fs.{data_name, content}
use bitcask_rs.Map.{lookup, insert, lookup-insert, lookup-remove}
use bitcask_rs.Keys.{parse_log_record_key, non_transaction_seq_no}
use bitcask_rs.Index.{Indexer}
use bitcask_rs.Data.LogRecord.{
  LogRecord, LogRecordPos, LogRecordType, normal, TransactionRecord, is_txn_finished,
}
use bitcask_rs.Data.LogRecord.Encode.{record_bytes}
use bitcask_rs.Data.DataFile.{DataFile}
use bitcask_rs.Engine.{Engine, file_for}
use bitcask_rs.Engine.Stored.{Stored}
use bitcask_rs.Load.{
  Loading, update_index, finish, hold, raise_seq, or_nil, load_parsed, load_record,
}
use bitcask_rs.Load.File.{IsLog, log_bytes, replay}
use bitcask_rs.Load.Meaning.{LogView, apply_record, finished, held_before, view_parsed, view_log}
use bitcask_rs.Load.Numbers.{max_seq, parsed_seq, last_seq, seq-load_parsed}
use bitcask_rs.Load.Points.{
  Points, IsPlaced, IsHeld, records_of, update_index-Points, txns-update_index, update_all-Points,
  txns-update_all,
}

abbrev pub records_at : Option (List TransactionRecord) → Option (List LogRecord)
records_at none = none
records_at (some ts) = some (records_of ts)

records_of-append :
    (ts : List TransactionRecord) (t : TransactionRecord)
    → records_of (ts ++ (t ∷ [])) ≡ records_of ts ++ (t.record_held ∷ [])
records_of-append [] t = refl
records_of-append (x ∷ ts) t = ap (λ rs. x.record_held ∷ rs) (records_of-append ts t)

held_before-records_at :
    (o : Option (List TransactionRecord)) (t : TransactionRecord)
    → held_before (records_at o) ++ (t.record_held ∷ []) ≡ records_of (or_nil o ++ (t ∷ []))
held_before-records_at none t = refl
held_before-records_at (some ts) t = sym (records_of-append ts t)

All-append_one {ℓ κ} :
    {A : Type ℓ} (P : A → Type κ) (xs : List A) (x : A) → All P xs → P x → All P (xs ++ (x ∷ []))
All-append_one P [] x h p = (p, tt)
All-append_one P (y ∷ xs) x (q, h) p = (q, All-append_one P xs x h p)

module _ {Ix : Type 0} (ix : Indexer Ix) (c : Codec) (e : Engine Ix) where
  -- The state of the loops stands for the view of the records so far.
  pub record Means (st : Loading Ix) (v : LogView) : Type 0 where
    pub points : Points ix c e st.index v.store
    pub same_pending : (n : ℕ) → lookup n v.pending ≡ records_at (lookup n st.transaction_records)
    pub held :
        (n : ℕ) (ts : List TransactionRecord)
        → lookup n st.transaction_records ≡ some ts
        → All (IsHeld ix c e) ts

  Means-update :
      (key value : Bytes) (t : LogRecordType) (pos : LogRecordPos) (st : Loading Ix) (v : LogView)
      → IsPlaced ix c e t pos value
      → Means st v
      → Means (update_index ix key t pos st) (record v { store = apply_record key value t v.store })
  Means-update key value t pos st v placed h = record {
    points = update_index-Points ix c e key value t pos st v.store placed h.points;
    same_pending = λ n. rw (txns-update_index ix c e key t pos st) (h.same_pending n);
    held = rw (txns-update_index ix c e key t pos st) h.held;
  }

  Means-finish :
      (seq : ℕ) (st : Loading Ix) (v : LogView) (o : Option (List TransactionRecord))
      → lookup seq st.transaction_records ≡ o
      → Means st v
      → Means (finish ix seq o st) (finished seq (records_at o) v)
  Means-finish seq st v none at h = h
  Means-finish seq st v (some ts) at h = record {
    points = update_all-Points ix c e ts st v.store (h.held seq ts at) h.points;
    same_pending = λ n. rw (txns-update_all ix c e ts st) (
        ground (
          arith,
          lookup-remove seq n v.pending,
          lookup-remove seq n st.transaction_records,
          h.same_pending n,
        ));
    held = λ n us at_n. h.held n us (
        ground (
          arith,
          rw (txns-update_all ix c e ts st) at at_n,
          lookup-remove seq n st.transaction_records,
        ));
  }

  Means-hold :
      (seq : ℕ) (t : TransactionRecord) (st : Loading Ix) (v : LogView)
      → IsHeld ix c e t
      → Means st v
      → Means (hold ix seq t st) (record v {
        pending = insert seq (held_before (lookup seq v.pending) ++ (t.record_held ∷ [])) v.pending;
      })
  Means-hold seq t st v placed h = record {
    points = h.points;
    same_pending = λ n.
        rw (lookup-insert, lookup-insert, h.same_pending seq)
          (elim (Bool-cases (seq == n)) [
            | inl here ↦
                rw here (ap some (held_before-records_at (lookup seq st.transaction_records) t))
            | inr there ↦ rw there (h.same_pending n)
          ]);
    held = λ n us at_n.
        let at_n' = (rw lookup-insert at at_n) in
        elim (Bool-cases (seq == n)) [
          | inl here ↦
              let same : or_nil (lookup seq st.transaction_records) ++ (t ∷ []) ≡ us =
                cc (rw here at at_n') in
              subst (λ xs. All (IsHeld ix c e) xs) same
                (All-append_one (IsHeld ix c e) _ t
                  (held_so_far (lookup seq st.transaction_records) refl) placed)
          | inr there ↦ h.held n us (rw there at at_n')
        ];
  }
    where
      held_so_far :
          (o : Option (List TransactionRecord))
          → lookup seq st.transaction_records ≡ o
          → All (IsHeld ix c e) (or_nil o)
      held_so_far none at = tt
      held_so_far (some ts) at = h.held seq ts at

  Means-raise :
      (seq : ℕ) (st : Loading Ix) (v : LogView) → Means st v → Means (raise_seq ix seq st) v
  Means-raise seq st v h = record {
    points = h.points;
    same_pending = h.same_pending;
    held = h.held;
  }

  -- One record: its key is parsed in the same way on both sides.
  load_parsed-Means :
      (r : LogRecord) (key : Bytes) (seq : ℕ) (pos : LogRecordPos) (st : Loading Ix) (v : LogView)
      → IsPlaced ix c e r.rec_type pos r.value
      → Means st v
      → Means (load_parsed ix r key seq pos st) (view_parsed r key seq v)
  unfolding load_parsed
  load_parsed-Means r key seq pos st v placed h =
      Means-raise seq _ _ (elim (Bool-cases (seq == non_transaction_seq_no)) [
        | inl plain ↦ rw plain (Means-update key r.value r.rec_type pos st v placed h)
        | inr txn ↦ elim (Bool-cases (is_txn_finished r.rec_type)) [
          | inl last ↦
              rw (txn, last, h.same_pending seq)
                (Means-finish seq st v (lookup seq st.transaction_records) refl h)
          | inr more ↦
              rw (txn, more)
                (Means-hold seq (record { record_held = record r { key = key }; pos = pos }) st v
                  placed h)
        ]
      ])

  replay_step :
      (id offset : ℕ) (r : LogRecord) (rs : List LogRecord) (st : Loading Ix) (p : Bytes × ℕ)
      → parse_log_record_key c r.key ≡ ok p
      → replay ix c id offset (r ∷ rs) st
        ≡ replay ix c id (offset + length (record_bytes c r)) rs (
            load_parsed ix r p.0 p.1
              (record { file_id = id; offset = offset; size = as_u32 (length (record_bytes c r)) })
              st)
  unfolding replay load_record
  replay_step id offset r rs st p parsed = rw parsed

  -- A log that stands in a file of the engine: replaying it goes through as reading it does, and
  -- the index then points to what the log says, with the largest number in the log.
  pub replay-Means :
      (id : ℕ) (f : DataFile) (rs : List LogRecord) (offset : ℕ) (before : Bytes) (st : Loading Ix)
      (v v' : LogView)
      → file_for e id ≡ some f
      → IsLog rs
      → content (data_name id) e.dir ≡ before ++ log_bytes c rs
      → offset ≡ length before
      → offset + length (log_bytes c rs) < u64_mod
      → Means st v
      → view_log c rs v ≡ ok v'
      → (st' : Loading Ix) × (replay ix c id offset rs st ≡ ok st')
        × Means st' v'
        × (st'.current_seq_no ≡ last_seq c rs st.current_seq_no)
  unfolding replay view_log load_record last_seq
  replay-Means id f [] offset before st v v' known log at_file at_offset bound h reads =
      (st, refl, subst (λ w. Means st w) (cc reads) h, refl)
  replay-Means id f (r ∷ rs) offset before st v v' known ((fits, full), log) at_file at_offset bound
        h reads =
      let (p, rest, parsed) = first_of_ok _ (parse_log_record_key c r.key) reads in
      let pos : LogRecordPos = record { file_id = id; offset = offset; size = as_u32 n } in
      let (st', run, h', seq) =
        replay-Means id f rs (offset + n) (before ++ record_bytes c r)
          (load_parsed ix r p.0 p.1 pos st) (view_parsed r p.0 p.1 v) v' known log
          (at_file ∙ sym (append_assoc before (record_bytes c r) (log_bytes c rs)))
          (omega (arith, length-append before (record_bytes c r))) (omega (arith, lens))
          (load_parsed-Means r p.0 p.1 pos st v placed h) rest in
      (
        st',
        replay_step id offset r rs st p parsed ∙ run,
        h',
        seq
            ∙ ap (last_seq c rs) (
                seq-load_parsed ix r p.0 p.1 pos st
                ∙ ap (λ o. max_seq st.current_seq_no (parsed_seq o)) (sym parsed)),
      )
    where
      n : ℕ
      n = length (record_bytes c r)

      lens : length (record_bytes c r ++ log_bytes c rs) ≡ n + length (log_bytes c rs)
      lens = length-append (record_bytes c r) (log_bytes c rs)

      placed :
          r.rec_type ≡ normal
          → Stored c e (record { file_id = id; offset = offset; size = as_u32 n }) r.value
      placed is_put = record {
        rec = r;
        fits = fits;
        full = full;
        live = rw is_put refl;
        value_of_rec = refl;
        before = before;
        after = log_bytes c rs;
        at_file = at_file;
        at_offset = at_offset;
        bound = omega (arith, lens);
        file = f;
        known = known;
      }
