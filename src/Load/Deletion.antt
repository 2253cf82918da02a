-- ===== src/Load/Deletion.antt =====
-- What loading makes of the records that `put` and `delete` write.
use bitcask_rs.Base.{ℕ, ◌<◌, ◌≡◌, refl, ◌∙◌, [], ◌∷◌, List, Bytes, arith}
use bitcask_rs.Errors.{ok}
use bitcask_rs.Codec.{Codec}
use bitcask_rs.Keys.{parse_key-bare}
use bitcask_rs.Data.LogRecord.{LogRecord}
use bitcask_rs.Engine.Refine.{store_put, put_record, delete_record}
use bitcask_rs.Load.Meaning.{LogView, view_parsed, view_log}

module _ (c : Codec) where
  parsed_bare :
      (r : LogRecord) (b : ℕ) (key : Bytes) (rs : List LogRecord) (v : LogView)
      → r.key ≡ b ∷ key
      → b < 128
      → view_log c (r ∷ rs) v ≡ view_log c rs (view_parsed r key b v)
  unfolding view_log
  parsed_bare r b key rs v at_key small = rw (at_key, parse_key-bare c b key small)

  -- A record that `put` writes puts its value when the log is loaded.
  pub view_log-put :
      (key value : Bytes) (rs : List LogRecord) (v : LogView)
      → view_log c (put_record key value ∷ rs) v
        ≡ view_log c rs (record v { store = store_put key value v.store })
  view_log-put key value rs v = parsed_bare (put_record key value) 0 key rs v refl (omega arith)

  -- A record that `delete` writes for a key with an ASCII byte in front, which is not zero,
  -- deletes nothing when the log is loaded: no key of the map changes.
  pub view_log-delete_lost :
      (b : ℕ) (key : Bytes) (v : LogView)
      → 0 < b
      → b < 128
      → (w : LogView) × (view_log c (delete_record (b ∷ key) ∷ []) v ≡ ok w) × (w.store ≡ v.store)
  view_log-delete_lost b key v pos small = (
    view_parsed (delete_record (b ∷ key)) key b v,
    parsed_bare (delete_record (b ∷ key)) b key [] v refl small ∙ (unfold view_log in refl),
    kept,
  )
    where
      kept : (view_parsed (delete_record (b ∷ key)) key b v).store ≡ v.store
      kept = ground arith
