-- ===== src/Durable/Logged.antt =====
-- The data files of an engine hold a log, and what the engine writes goes to the log's end.
use bitcask_rs.Base.{
  ℕ, suc, ◌+◌, ◌-◌, ◌<◌, ◌==◌, ==_iff, ◌≡◌, ◌≢◌, sym, ap, subst, ◌∙◌, Bool-cases, inl, inr,
  if◌then◌else◌, List, [], ◌∷◌, ◌++◌, append_assoc, append-nil, length, u64_mod, length-append,
  arith,
}
use bitcask_rs.Codec.{Codec}
use bitcask_rs.Fs.{data_name, content}
use bitcask_rs.Data.LogRecord.{LogRecord, LogRecordPos}
use bitcask_rs.Data.LogRecord.Encode.{Fits, record_bytes}
use bitcask_rs.Data.DataFile.Read.{IsNonEmpty}
use bitcask_rs.Engine.{Engine}
use bitcask_rs.Engine.Append.{Appended}
use bitcask_rs.Engine.SameFiles.{SameFiles}
use bitcask_rs.Load.File.{IsLog, log_bytes}
use bitcask_rs.Durable.Records.{
  LogOf, records_from, records_from-snoc, records_from-agree, records_from-extend,
}

-- Each data file is the encoding of a log, the files behind the active one are empty, and together
-- they hold these records.
pub record Logged {Ix : Type 0} (c : Codec) (e : Engine Ix) (rs : List LogRecord) : Type 0 where
  pub log : LogOf
  pub are_logs : (id : ℕ) → IsLog (log id)
  pub contents : (id : ℕ) → content (data_name id) e.dir ≡ log_bytes c (log id)
  pub short : (id : ℕ) → length (log_bytes c (log id)) < u64_mod
  pub beyond : (id : ℕ) → e.active_file.file_id < id → log id ≡ []
  pub in_all : records_from log 0 (suc e.active_file.file_id) ≡ rs

IsLog-snoc :
    (rs : List LogRecord) (r : LogRecord)
    → IsLog rs
    → Fits r
    → IsNonEmpty r
    → IsLog (rs ++ (r ∷ []))
IsLog-snoc [] r log fits full = ((fits, full), tt)
IsLog-snoc (s ∷ rs) r (first, log) fits full = (first, IsLog-snoc rs r log fits full)

log_bytes-snoc :
    (c : Codec) (rs : List LogRecord) (r : LogRecord)
    → log_bytes c (rs ++ (r ∷ [])) ≡ log_bytes c rs ++ record_bytes c r
log_bytes-snoc c [] r = append-nil (record_bytes c r)
log_bytes-snoc c (s ∷ rs) r =
    ap (λ bs. record_bytes c s ++ bs) (log_bytes-snoc c rs r)
    ∙ sym (append_assoc (record_bytes c s) (log_bytes c rs) (record_bytes c r))

-- A record more in one of the logs.
abbrev pub with_record : ℕ → LogRecord → LogOf → LogOf
with_record id r log j = if id == j then log j ++ (r ∷ []) else log j

module _ {Ix : Type 0} (c : Codec) where
  pub Logged-same :
      (e e' : Engine Ix) (rs : List LogRecord) → SameFiles e e' → Logged c e rs → Logged c e' rs
  Logged-same e e' rs s l = record {
    log = l.log;
    are_logs = l.are_logs;
    contents = rw s.dir_same l.contents;
    short = l.short;
    beyond = rw s.active_same l.beyond;
    in_all = rw s.active_same l.in_all;
  }

  module _ {e e' : Engine Ix} {pos : LogRecordPos} (r : LogRecord) (rs : List LogRecord)
      (a : Appended e (record_bytes c r) pos e') (fits : Fits r) (full : IsNonEmpty r)
      (l : Logged c e rs) where
    abbrev new_log : LogOf
    new_log = with_record pos.file_id r l.log

    new-IsLog : (id : ℕ) → IsLog (new_log id)
    new-IsLog id = elim (Bool-cases (pos.file_id == id)) [
      | inl here ↦ rw here (IsLog-snoc (l.log id) r (l.are_logs id) fits full)
      | inr there ↦ rw there (l.are_logs id)
    ]

    new_contents : (id : ℕ) → content (data_name id) e'.dir ≡ log_bytes c (new_log id)
    new_contents id = elim (Bool-cases (pos.file_id == id)) [
      | inl here ↦ rw here (
          subst (λ j. content (data_name j) e'.dir ≡ log_bytes c (l.log j ++ (r ∷ [])))
            ((==_iff pos.file_id id).0 here)
            (a.grown
              ∙ ap (λ bs. bs ++ record_bytes c r) (l.contents pos.file_id)
              ∙ sym (log_bytes-snoc c (l.log pos.file_id) r)))
      | inr there ↦ rw there (a.others id (ground arith) ∙ l.contents id)
    ]

    new_short : (id : ℕ) → length (log_bytes c (new_log id)) < u64_mod
    new_short id = elim (Bool-cases (pos.file_id == id)) [
      | inl here ↦
          subst (λ j. length (log_bytes c (new_log j)) < u64_mod) ((==_iff pos.file_id id).0 here)
            at_pos
      | inr there ↦ rw there (l.short id)
    ]
      where
        at_pos : length (log_bytes c (new_log pos.file_id)) < u64_mod
        at_pos =
            rw (← new_contents pos.file_id, a.grown)
              (omega (
                arith,
                length-append (content (data_name pos.file_id) e.dir) (record_bytes c r),
                a.at_end,
                a.offset_fits,
              ))

    not_active : (id : ℕ) → e'.active_file.file_id ≢ id → new_log id ≡ l.log id
    not_active id ne = ground (arith, a.at_active)

    new_beyond : (id : ℕ) → e'.active_file.file_id < id → new_log id ≡ []
    new_beyond id later = not_active id (omega arith) ∙ l.beyond id (omega (arith, a.id_ge))

    new_at_active : new_log e'.active_file.file_id ≡ l.log e'.active_file.file_id ++ (r ∷ [])
    new_at_active = ground (arith, a.at_active)

    old_all : records_from l.log 0 (suc e'.active_file.file_id) ≡ rs
    old_all =
        let k = e'.active_file.file_id - e.active_file.file_id in
        ap (λ n. records_from l.log 0 n) {x = suc e'.active_file.file_id}
          {y = k + suc e.active_file.file_id} (omega (arith, a.id_ge))
        ∙ records_from-extend l.log (suc e.active_file.file_id) k
            (λ id later. l.beyond id (omega arith))
        ∙ l.in_all

    new_all : records_from new_log 0 (suc e'.active_file.file_id) ≡ rs ++ (r ∷ [])
    new_all =
        let n = e'.active_file.file_id in
        records_from-snoc new_log 0 n
        ∙ ap (λ ss. ss ++ new_log (0 + n))
            (records_from-agree l.log new_log 0 n (λ id low high. not_active id (omega arith)))
        ∙ ap (λ ss. records_from l.log 0 n ++ ss) (ap new_log {y = n} (omega arith) ∙ new_at_active)
        ∙ sym (append_assoc (records_from l.log 0 n) (l.log n) (r ∷ []))
        ∙ ap (λ ss. ss ++ (r ∷ []))
            (ap (λ i. records_from l.log 0 n ++ l.log i) {y = 0 + n} (omega arith)
              ∙ sym (records_from-snoc l.log 0 n)
              ∙ old_all)

    -- An appended record is the last one of the log.
    pub Logged-append : Logged c e' (rs ++ (r ∷ []))
    Logged-append = record {
      log = new_log;
      are_logs = new-IsLog;
      contents = new_contents;
      short = new_short;
      beyond = new_beyond;
      in_all = new_all;
    }
