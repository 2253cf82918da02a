-- ===== src/Durable/Gather.antt =====
-- bitcask-rs/src/db.rs: the data files that are there, read in ascending order, say what the files
-- of all ids say.
use bitcask_rs.Base.{
  ℕ, zero, suc, ◌+◌, ◌≤◌, ◌<◌, ◌==◌, ==_iff, ◌≡◌, refl, sym, ap, subst, ◌∙◌, false, Bool-cases, inl,
  inr, List, [], ◌∷◌, ◌++◌, All, arith,
}
use bitcask_rs.Errors.{>>=_congr}
use bitcask_rs.Codec.{Codec}
use bitcask_rs.Data.LogRecord.{LogRecord}
use bitcask_rs.Data.LogRecord.Encode.{record_bytes}
use bitcask_rs.Load.File.{log_bytes}
use bitcask_rs.Load.Meaning.{LogView, view_log}
use bitcask_rs.Load.Numbers.{last_seq, last_seq-append}
use bitcask_rs.Load.Files.{Logs, ids_of, view_logs, last_seqs}
use bitcask_rs.Open.Sorting.{member, IsAscending, member_below}
use bitcask_rs.Durable.Records.{LogOf, records_from, view_log-append}

abbrev pub logs_of : LogOf → List ℕ → Logs
logs_of log [] = []
logs_of log (id ∷ ids) = (id, log id) ∷ logs_of log ids

pub ids_of-logs_of : (log : LogOf) (ids : List ℕ) → ids_of (logs_of log ids) ≡ ids
ids_of-logs_of log [] = refl
ids_of-logs_of log (id ∷ ids) = ap (λ is. id ∷ is) (ids_of-logs_of log ids)

abbrev pub gathered : LogOf → List ℕ → List LogRecord
gathered log [] = []
gathered log (id ∷ ids) = log id ++ gathered log ids

module _ (c : Codec) where
  pub view_logs-gathered :
      (log : LogOf) (ids : List ℕ) (v : LogView)
      → view_logs c (logs_of log ids) v ≡ view_log c (gathered log ids) v
  unfolding view_logs view_log
  view_logs-gathered log [] v = refl
  view_logs-gathered log (id ∷ ids) v =
      >>=_congr (view_log c (log id) v) (λ w. view_logs-gathered log ids w)
      ∙ sym (view_log-append c (log id) (gathered log ids) v)

  pub last_seqs-gathered :
      (log : LogOf) (ids : List ℕ) (n : ℕ)
      → last_seqs c (logs_of log ids) n ≡ last_seq c (gathered log ids) n
  unfolding last_seqs last_seq
  last_seqs-gathered log [] n = refl
  last_seqs-gathered log (id ∷ ids) n =
      last_seqs-gathered log ids (last_seq c (log id) n)
      ∙ sym (last_seq-append c (log id) (gathered log ids) n)

  -- A log without bytes has no records.
  pub log_bytes_nil : (rs : List LogRecord) → log_bytes c rs ≡ [] → rs ≡ []
  unfolding record_bytes
  log_bytes_nil [] none_there = refl
  log_bytes_nil (r ∷ rs) none_there = cc

abbrev pub AllBelow : ℕ → List ℕ → Type 0
AllBelow n ids = All (λ id. id < n) ids

pub AllBelow-same : (m n : ℕ) (ids : List ℕ) → m ≡ n → AllBelow m ids → AllBelow n ids
AllBelow-same m n ids same = subst (λ i. AllBelow i ids) same

-- Ids in ascending order below a bound, which leave out only files without records.
pub gathered-records_from :
    (log : LogOf) (lo n : ℕ) (ids : List ℕ)
    → IsAscending lo ids
    → AllBelow (lo + n) ids
    → ((id : ℕ) → lo ≤ id → member id ids ≡ false → log id ≡ [])
    → gathered log ids ≡ records_from log lo n
gathered-records_from log lo zero [] up below rest = refl
gathered-records_from log lo zero (id ∷ ids) (low, up) (below, all) rest = absurd (omega arith)
gathered-records_from log lo (suc n) [] up below rest =
    gathered-records_from log (suc lo) n [] tt tt (λ id low absent. rest id (omega arith) refl)
    ∙ sym (ap (λ rs. rs ++ records_from log (suc lo) n) (rest lo (omega arith) refl))
gathered-records_from log lo (suc n) (id ∷ ids) (low, up) (below, all) rest =
    elim (Bool-cases (lo == id)) [
      | inl here ↦
          ap (λ i. log i ++ gathered log ids) {x = id} {y = lo} (sym ((==_iff lo id).0 here))
          ∙ ap (λ rs. log lo ++ rs)
              (gathered-records_from log (suc lo) n ids
                (subst (λ i. IsAscending (suc i) ids) (sym ((==_iff lo id).0 here)) up)
                (AllBelow-same (lo + suc n) (suc lo + n) ids (omega arith) all)
                (λ j above absent. rest j (omega arith) (ground (arith, absent, here))))
      | inr later ↦
          gathered-records_from log (suc lo) n (id ∷ ids) (ground (arith, later), up)
            (omega arith, AllBelow-same (lo + suc n) (suc lo + n) ids (omega arith) all)
            (λ j above absent. rest j (omega arith) absent)
          ∙ sym (
              ap (λ rs. rs ++ records_from log (suc lo) n)
                (rest lo (omega arith)
                  (member_below (suc lo) lo (id ∷ ids) (ground (arith, later), up) (omega arith))))
    ]

abbrev pub bound : List ℕ → ℕ
bound [] = 0
bound (id ∷ ids) = suc id + bound ids

pub below_bound : (k : ℕ) (ids : List ℕ) → AllBelow (k + bound ids) ids
below_bound k [] = tt
below_bound k (id ∷ ids) = (
  omega arith,
  AllBelow-same ((k + suc id) + bound ids) (k + bound (id ∷ ids)) ids (omega arith)
      (below_bound (k + suc id) ids),
)
