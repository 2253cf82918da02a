-- ===== src/Batch/Log.antt =====
-- What a commit writes to the log, and what loading makes of it: all of the batch or nothing.
use bitcask_rs.Base.{
  ◌≢◌, ℕ, ◌<◌, ◌==◌, ◌≡◌, ==_refl, refl, sym, ap, ◌∙◌, false, none, some, List, [], ◌∷◌, ◌++◌,
  append_assoc, append-nil, All, Bytes, u64_mod, arith,
}
use bitcask_rs.Errors.{ok}
use bitcask_rs.Codec.{Codec}
use bitcask_rs.Map.{lookup, insert, remove, lookup-insert, lookup-remove}
use bitcask_rs.Keys.{parse_key-encode, txn_fin_key}
use bitcask_rs.Data.LogRecord.{LogRecord, txn_finished, is_txn_finished}
use bitcask_rs.Load.Meaning.{LogView, apply_all, held_before, view_parsed, view_log}

-- The records of a batch: none of them is the mark of an end.
abbrev pub IsBatch : List LogRecord → Type 0
IsBatch = All (λ r. is_txn_finished r.rec_type ≡ false)

-- The records of a batch, and the log of their transaction.
module _ (c : Codec) (seq_no : ℕ) where
  abbrev pub numbered : LogRecord → LogRecord
  numbered r = record r { key = c.encode_varint seq_no ++ r.key }

  abbrev pub numbered_all : List LogRecord → List LogRecord
  numbered_all [] = []
  numbered_all (r ∷ rs) = numbered r ∷ numbered_all rs

  abbrev pub fin_record : LogRecord
  fin_record = record {
    key = c.encode_varint seq_no ++ txn_fin_key;
    value = [];
    rec_type = txn_finished;
  }

  -- A record of a transaction that has not finished is held back.
  abbrev pub held : LogRecord → LogView → LogView
  held r v = record v {
    pending = insert seq_no (held_before (lookup seq_no v.pending) ++ (r ∷ [])) v.pending;
  }

  unfoldable pub held_all : List LogRecord → LogView → LogView
  held_all [] v = v
  held_all (r ∷ rs) v = held_all rs (held r v)

  store-held_all : (rs : List LogRecord) (v : LogView) → (held_all rs v).store ≡ v.store
  unfolding held_all
  store-held_all [] v = refl
  store-held_all (r ∷ rs) v = store-held_all rs (held r v)

  lookup-held :
      (r : LogRecord) (v : LogView)
      → lookup seq_no (held r v).pending ≡ some (held_before (lookup seq_no v.pending) ++ (r ∷ []))
  lookup-held r v = rw (lookup-insert, ==_refl)

  lookup-held_all :
      (r : LogRecord) (rs : List LogRecord) (v : LogView)
      → lookup seq_no (held_all (r ∷ rs) v).pending
        ≡ some (held_before (lookup seq_no v.pending) ++ (r ∷ rs))
  unfolding held_all
  lookup-held_all r [] v = rw (lookup-insert, ==_refl)
  lookup-held_all r (s ∷ rs) v =
      lookup-held_all s rs (held r v)
      ∙ ap (λ o. some (held_before o ++ (s ∷ rs))) (lookup-held r v)
      ∙ ap some (append_assoc (held_before (lookup seq_no v.pending)) (r ∷ []) (s ∷ rs))

  lookup-held_all_other :
      (n : ℕ) (rs : List LogRecord) (v : LogView)
      → n ≢ seq_no
      → lookup n (held_all rs v).pending ≡ lookup n v.pending
  unfolding held_all
  lookup-held_all_other n [] v ne = refl
  lookup-held_all_other n (r ∷ rs) v ne =
      lookup-held_all_other n rs (held r v) ne
      ∙ ground (
        arith,
        lookup-insert seq_no n (held_before (lookup seq_no v.pending) ++ (r ∷ [])) v.pending,
      )

  module _ (is_txn : 0 < seq_no) (in_range : seq_no < u64_mod) where
    step_numbered :
        (s : LogRecord) (key : Bytes) (rs : List LogRecord) (v : LogView)
        → s.key ≡ c.encode_varint seq_no ++ key
        → view_log c (s ∷ rs) v ≡ view_log c rs (view_parsed s key seq_no v)
    unfolding view_log
    step_numbered s key rs v at_key = rw (at_key, parse_key-encode c key seq_no in_range)

    not_plain : (seq_no == 0) ≡ false
    not_plain = ground arith

    view_log-numbered_all :
        (rs rest : List LogRecord) (v : LogView)
        → IsBatch rs
        → view_log c (numbered_all rs ++ rest) v ≡ view_log c rest (held_all rs v)
    unfolding held_all
    view_log-numbered_all [] rest v batch = refl
    view_log-numbered_all (r ∷ rs) rest v (kind, batch) =
        step_numbered (numbered r) r.key (numbered_all rs ++ rest) v refl
        ∙ (rw (not_plain, kind) (view_log-numbered_all rs rest (held r v) batch))

    -- A transaction whose end is not in the log changes nothing, however many of its records are.
    pub view_log-uncommitted :
        (rs : List LogRecord) (v : LogView)
        → IsBatch rs
        → (w : LogView) × (view_log c (numbered_all rs) v ≡ ok w) × (w.store ≡ v.store)
    view_log-uncommitted rs v batch = (
      held_all rs v,
      ap (λ l. view_log c l v) (sym (append-nil (numbered_all rs)))
          ∙ view_log-numbered_all rs [] v batch
          ∙ (unfold view_log in refl),
      store-held_all rs v,
    )

    -- A transaction whose end is in the log takes effect whole, in the order of its records, and
    -- nothing of it is held back any more; what is held back of others stays.
    pub view_log-committed :
        (r : LogRecord) (rs : List LogRecord) (v : LogView)
        → IsBatch (r ∷ rs)
        → lookup seq_no v.pending ≡ none
        → (w : LogView) × (view_log c (numbered_all (r ∷ rs) ++ (fin_record ∷ [])) v ≡ ok w)
          × (w.store ≡ apply_all (r ∷ rs) v.store)
          × (lookup seq_no w.pending ≡ none)
          × ((n : ℕ) → n ≢ seq_no → lookup n w.pending ≡ lookup n v.pending)
    view_log-committed r rs v batch new = (
      record {
        store = apply_all (r ∷ rs) (held_all (r ∷ rs) v).store;
        pending = remove seq_no (held_all (r ∷ rs) v).pending;
      },
      view_log-numbered_all (r ∷ rs) (fin_record ∷ []) v batch
          ∙ step_numbered fin_record txn_fin_key [] (held_all (r ∷ rs) v) refl
          ∙ rw (not_plain, lookup-held_all, new) (unfold view_log in refl),
      ap (λ m. apply_all (r ∷ rs) m) (store-held_all (r ∷ rs) v),
      rw (lookup-remove, ==_refl) refl,
      λ n ne. lookup-removed n ne ∙ lookup-held_all_other n (r ∷ rs) v ne,
    )
      where
        lookup-removed :
            (n : ℕ)
            → n ≢ seq_no
            → lookup n (remove seq_no (held_all (r ∷ rs) v).pending)
              ≡ lookup n (held_all (r ∷ rs) v).pending
        lookup-removed n ne = ground (arith, lookup-remove seq_no n (held_all (r ∷ rs) v).pending)
