-- ===== src/Load/Transactions.antt =====
-- Loading a file that holds the log of one transaction: it takes effect whole if its end stands in
-- the file, and not at all otherwise.
use bitcask_rs.Base.{
  ℕ, ◌+◌, ◌<◌, ◌≡◌, refl, sym, ap, subst, ◌∙◌, Option, none, some, List, [], ◌∷◌, ◌++◌, length,
  u64_mod, arith,
}
use bitcask_rs.Errors.{ok, ◌>>=◌}
use bitcask_rs.Codec.{Codec}
use bitcask_rs.Fs.{data_name, Os, IsHealthy}
use bitcask_rs.Map.{lookup}
use bitcask_rs.Index.{Indexer}
use bitcask_rs.Data.LogRecord.{LogRecord, TransactionRecord}
use bitcask_rs.Engine.{Engine}
use bitcask_rs.Batch.Log.{
  IsBatch, numbered_all, fin_record, view_log-committed, view_log-uncommitted,
}
use bitcask_rs.Load.{Loading, load_file}
use bitcask_rs.Load.File.{log_bytes, load_file-log}
use bitcask_rs.Load.Files.{HoldsLog}
use bitcask_rs.Load.Meaning.{LogView, apply_all, view_log}
use bitcask_rs.Load.Points.{Points}
use bitcask_rs.Load.Recover.{Means, replay-Means, records_at}

records_at-none : (o : Option (List TransactionRecord)) → none ≡ records_at o → o ≡ none
records_at-none none e = refl
records_at-none (some ts) e = cc

module _ {Ix : Type 0} (ix : Indexer Ix) (c : Codec) (os : Os) (healthy : IsHealthy os)
    (e : Engine Ix) where
  -- A file that holds a log, from its first record on.
  load_file-Means :
      (fuel id : ℕ) (rs : List LogRecord) (st : Loading Ix) (v v' : LogView)
      → HoldsLog c e fuel id rs
      → Means ix c e st v
      → view_log c rs v ≡ ok v'
      → (st' : Loading Ix) × (load_file ix c os e fuel id 0 st ≡ ok (st', length (log_bytes c rs)))
        × Means ix c e st' v'
  load_file-Means fuel id rs st v v' holds h reads =
      let (st', run, h', seq) =
        replay-Means ix c e id holds.file rs 0 [] st v v' holds.known holds.log holds.at_file refl
          (omega (arith, holds.short)) h reads in
      (
        st',
        load_file-log ix c os healthy e id holds.file (data_name id) holds.known holds.standard rs
              fuel 0 [] st holds.log holds.rounds holds.at_file refl (omega (arith, holds.short))
            ∙ ap (λ m. m >>= λ s. ok (s, 0 + length (log_bytes c rs))) run
            ∙ ap (λ n. ok (st', n)) (omega arith),
        h',
      )

  module _ (seq_no : ℕ) (is_txn : 0 < seq_no) (in_range : seq_no < u64_mod) where
    -- With a working operating system, on a file that the engine has under an id and reads through
    -- the standard manager, and whose bytes, fewer than 2^64, are the log of one transaction (the
    -- records of a batch that is not empty, none of them the mark of an end, under a number that
    -- is not 0 and below 2^64, and then the mark of its end, with fitting lengths and not empty,
    -- and with fewer records than rounds of fuel), and on a state of the loading that stands for a
    -- map and for what is held back so far, with nothing held under this number: load_file
    -- succeeds, the index then points to the values of the map with the batch's records applied to
    -- it in order, and nothing is held back under the number.
    pub load_file-committed :
        (fuel id : ℕ) (r : LogRecord) (rs : List LogRecord) (st : Loading Ix) (v : LogView)
        → HoldsLog c e fuel id (numbered_all c seq_no (r ∷ rs) ++ (fin_record c seq_no ∷ []))
        → IsBatch (r ∷ rs)
        → Means ix c e st v
        → lookup seq_no st.transaction_records ≡ none
        → (st' : Loading Ix) × (n : ℕ) × (load_file ix c os e fuel id 0 st ≡ ok (st', n))
          × Points ix c e st'.index (apply_all (r ∷ rs) v.store)
          × (lookup seq_no st'.transaction_records ≡ none)
    load_file-committed fuel id r rs st v holds batch h new =
        let (w, reads, whole, gone, others) =
          view_log-committed c seq_no is_txn in_range r rs v batch
            (h.same_pending seq_no ∙ ap records_at new) in
        let (st', run, h') = load_file-Means fuel id _ st v w holds h reads in
        (
          st',
          _,
          run,
          subst (λ m. Points ix c e st'.index m) whole h'.points,
          records_at-none _ (sym gone ∙ h'.same_pending seq_no),
        )

    -- With a working operating system, on a file that the engine has under an id and reads through
    -- the standard manager, and whose bytes, fewer than 2^64, are records of a transaction without
    -- the mark of its end (under a number that is not 0 and below 2^64, none of them such a mark,
    -- with fitting lengths and not empty, and with fewer of them than rounds of fuel), and on a
    -- state of the loading that stands for a map and for what is held back so far: load_file
    -- succeeds, and the index still points to the values of that map.
    pub load_file-uncommitted :
        (fuel id : ℕ) (rs : List LogRecord) (st : Loading Ix) (v : LogView)
        → HoldsLog c e fuel id (numbered_all c seq_no rs)
        → IsBatch rs
        → Means ix c e st v
        → (st' : Loading Ix) × (n : ℕ) × (load_file ix c os e fuel id 0 st ≡ ok (st', n))
          × Points ix c e st'.index v.store
    load_file-uncommitted fuel id rs st v holds batch h =
        let (w, reads, same) = view_log-uncommitted c seq_no is_txn in_range rs v batch in
        let (st', run, h') = load_file-Means fuel id _ st v w holds h reads in
        (st', _, run, subst (λ m. Points ix c e st'.index m) same h'.points)
