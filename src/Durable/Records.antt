-- ===== src/Durable/Records.antt =====
-- The records of several data files in the order of their ids, and what they say.
use bitcask_rs.Base.{
  ◌==◌, ==_iff, Bool-cases, inl, inr, subst, ℕ, zero, suc, ◌+◌, ◌≤◌, ◌<◌, ◌≡◌, refl, sym, ap, ◌∙◌,
  List, [], ◌∷◌, ◌++◌, append_assoc, append-nil, length, length-append, arith,
}
use bitcask_rs.Errors.{◌>>=◌, >>=_congr, >>=_assoc}
use bitcask_rs.Codec.{Codec}
use bitcask_rs.Keys.{parse_log_record_key}
use bitcask_rs.Data.LogRecord.{LogRecord}
use bitcask_rs.Load.Meaning.{LogView, view_parsed, view_log}

abbrev pub LogOf : Type 0
LogOf = ℕ → List LogRecord

-- The records of `n` files from an id on.
abbrev pub records_from : LogOf → ℕ → ℕ → List LogRecord
records_from log lo zero = []
records_from log lo (suc n) = log lo ++ records_from log (suc lo) n

pub records_from-snoc :
    (log : LogOf) (lo n : ℕ) → records_from log lo (suc n) ≡ records_from log lo n ++ log (lo + n)
records_from-snoc log lo zero = append-nil (log lo) ∙ ap log (omega arith)
records_from-snoc log lo (suc n) =
    ap (λ rs. log lo ++ rs)
      (records_from-snoc log (suc lo) n
        ∙ ap (λ i. records_from log (suc lo) n ++ log i) (omega arith))
    ∙ sym (append_assoc (log lo) (records_from log (suc lo) n) (log (lo + suc n)))

-- Logs that agree on the files in question have the same records there.
pub records_from-agree :
    (log log' : LogOf) (lo n : ℕ)
    → ((id : ℕ) → lo ≤ id → id < lo + n → log' id ≡ log id)
    → records_from log' lo n ≡ records_from log lo n
records_from-agree log log' lo zero same = refl
records_from-agree log log' lo (suc n) same =
    ap (λ rs. rs ++ records_from log' (suc lo) n) (same lo (omega arith) (omega arith))
    ∙ ap (λ rs. log lo ++ rs)
        (records_from-agree log log' (suc lo) n
          (λ id low high. same id (omega arith) (omega arith)))

-- Files without records add nothing.
pub records_from-extend :
    (log : LogOf) (n k : ℕ)
    → ((id : ℕ) → n ≤ id → log id ≡ [])
    → records_from log 0 (k + n) ≡ records_from log 0 n
records_from-extend log n zero none = ap (λ i. records_from log 0 i) (omega arith)
records_from-extend log n (suc k) none =
    ap (λ i. records_from log 0 i) {y = suc (k + n)} (omega arith)
    ∙ records_from-snoc log 0 (k + n)
    ∙ ap (λ rs. records_from log 0 (k + n) ++ rs) (none (0 + (k + n)) (omega arith))
    ∙ append-nil (records_from log 0 (k + n))
    ∙ records_from-extend log n k none

pub length_log-le :
    (log : LogOf) (lo n id : ℕ)
    → lo ≤ id
    → id < lo + n
    → length (log id) ≤ length (records_from log lo n)
length_log-le log lo zero id low high = absurd (omega arith)
length_log-le log lo (suc n) id low high = elim (Bool-cases (lo == id)) [
  | inl here ↦
      subst (λ i. length (log i) ≤ length (log lo ++ records_from log (suc lo) n))
        ((==_iff lo id).0 here)
        (omega (arith, length-append (log lo) (records_from log (suc lo) n)))
  | inr later ↦ omega (
    arith,
    length-append (log lo) (records_from log (suc lo) n),
    length_log-le log (suc lo) n id (ground arith) (omega arith),
  )
]

module _ (c : Codec) where
  pub view_log-append :
      (rs ss : List LogRecord) (v : LogView)
      → view_log c (rs ++ ss) v ≡ (view_log c rs v >>= λ w. view_log c ss w)
  unfolding view_log
  view_log-append [] ss v = refl
  view_log-append (r ∷ rs) ss v =
      >>=_congr (parse_log_record_key c r.key)
        (λ k. view_log-append rs ss (view_parsed r k.0 k.1 v))
      ∙ sym (
          >>=_assoc (parse_log_record_key c r.key) (λ k. view_log c rs (view_parsed r k.0 k.1 v))
            (λ w. view_log c ss w))
