-- ===== src/Keys.antt =====
-- bitcask-rs/src/batch.rs: the sequence number in front of a record's key.
use bitcask_rs.Base.{ℕ, ◌<◌, ◌≡◌, refl, [], ◌∷◌, ◌++◌, Bytes, u64_mod, arith}
use bitcask_rs.Errors.{Result, ok, encode_error, decode_error, or_err, ◌>>=◌}
use bitcask_rs.Codec.{Codec}

abbrev pub non_transaction_seq_no : ℕ
non_transaction_seq_no = 0

-- `"txn-fin"`
abbrev pub txn_fin_key : Bytes
txn_fin_key = b't' ∷ b'x' ∷ b'n' ∷ b'-' ∷ b'f' ∷ b'i' ∷ b'n' ∷ []

module _ (c : Codec) where
  unfoldable pub log_record_key_with_seq : Bytes → ℕ → Result Bytes
  log_record_key_with_seq key seq_no = do
    enc ← or_err (c.encode_length_delimiter seq_no) encode_error
    ok (enc ++ key)

  unfoldable pub parse_log_record_key : Bytes → Result (Bytes × ℕ)
  parse_log_record_key key = do
    (seq_no, rest) ← or_err (c.decode_length_delimiter key) decode_error
    ok (rest, seq_no)

  pub log_record_key_with_seq_lem :
      (key : Bytes) (n : ℕ)
      → n < u64_mod
      → log_record_key_with_seq key n ≡ ok (c.encode_varint n ++ key)
  unfolding log_record_key_with_seq
  log_record_key_with_seq_lem key n h = rw (c.encode_delimiter n h)

  -- The key of a record outside of transactions.
  pub key_with_zero : (key : Bytes) → log_record_key_with_seq key 0 ≡ ok (0 ∷ key)
  key_with_zero key =
      rw (log_record_key_with_seq_lem key 0 (omega arith), c.encode_varint_small 0 (omega arith))
        refl

  pub parse_key-encode :
      (key : Bytes) (n : ℕ)
      → n < u64_mod
      → parse_log_record_key (c.encode_varint n ++ key) ≡ ok (key, n)
  unfolding parse_log_record_key
  parse_key-encode key n h = rw (c.decode_delimiter_encode n key h)

  -- A key without a number in front is taken for one: its first byte is the number.
  pub parse_key-bare :
      (b : ℕ) (key : Bytes) → b < 128 → parse_log_record_key (b ∷ key) ≡ ok (key, b)
  parse_key-bare b key h = rw (c.encode_varint_small b h) at (parse_key-encode key b (omega arith))
