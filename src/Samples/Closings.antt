-- ===== src/Samples/Closings.antt =====
-- The theorem about the sequence number of a closed engine, at an engine that was closed before.
use bitcask_rs.Base.{true, ◌≡◌, sym, some, [], ◌∷◌, append-nil, arith}
use bitcask_rs.Errors.{ok}
use bitcask_rs.Fs.{seq_no_name, find, name_eq, content}
use bitcask_rs.Index.BTree.{BTree}
use bitcask_rs.Samples.{codec, calm, calm-IsHealthy}
use bitcask_rs.Samples.Engines.{empty_engine}
use bitcask_rs.Samples.Reopens.{granted, granted-AllGranted}
use bitcask_rs.Data.LogRecord.Encode.{record_bytes}
use bitcask_rs.Engine.{Engine}
use bitcask_rs.Open.SeqNo.{seq_no_record, load_seq_no, close}
use bitcask_rs.Open.Closing.{kept_bytes, close-load_seq_no}

-- It was closed at number 3, and is at number 5 now.
abbrev closed_before : Engine BTree
closed_before = record empty_engine {
  dir = (seq_no_name, record_bytes codec (seq_no_record codec calm granted 3)) ∷ [];
  seq_no = 5;
}

first_is_three :
    content seq_no_name closed_before.dir
    ≡ kept_bytes codec calm calm-IsHealthy granted granted-AllGranted (some 3) []
unfolding content find name_eq
first_is_three = sym (append-nil (record_bytes codec (seq_no_record codec calm granted 3)))

close-load_seq_no_example :
    (e' : Engine BTree) × (close codec calm granted true closed_before ≡ (ok tt, e'))
    × ((load_seq_no codec calm granted e'.dir).0 ≡ ok (some 3))
close-load_seq_no_example =
    close-load_seq_no codec calm calm-IsHealthy granted granted-AllGranted closed_before (some 3) []
      first_is_three (omega arith)
