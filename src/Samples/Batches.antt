-- ===== src/Samples/Batches.antt =====
-- A batch with a put and a delete, and that it is one of a commit.
use bitcask_rs.Base.{◌≡◌, refl, [], ◌∷◌, arith}
use bitcask_rs.Base.{◌+◌, length, bytes_eq, bytes_eq_cons, false}
use bitcask_rs.Options.{default_write_batch_options}
use bitcask_rs.Samples.{codec}
use bitcask_rs.Samples.Leb.{leb_encode, be32}
use bitcask_rs.Samples.Engines.{empty_engine}
use bitcask_rs.Data.LogRecord.Encode.{Fits, record_bytes}
use bitcask_rs.Batch.{WriteBatch}
use bitcask_rs.Batch.Items.{IsBatchOf, items_bytes, HasRoomFor}
use bitcask_rs.Data.LogRecord.{LogRecord, normal, delete}
use bitcask_rs.Batch.Log.{fin_record}

abbrev pub first_record : LogRecord
first_record = record { key = b'k' ∷ []; value = b'v' ∷ []; rec_type = normal }

abbrev pub second_record : LogRecord
second_record = record { key = b'j' ∷ []; value = []; rec_type = delete }

abbrev pub a_batch : WriteBatch
a_batch = record {
  pending_write = (b'k' ∷ [], first_record) ∷ ((b'j' ∷ [], second_record) ∷ []);
  options = default_write_batch_options;
}

different : bytes_eq (b'k' ∷ []) (b'j' ∷ []) ≡ false
different = rw bytes_eq_cons refl

pub a_batch-IsBatchOf : IsBatchOf codec 1 a_batch.pending_write
unfolding leb_encode
a_batch-IsBatchOf = (
  record {
    fits = record { key_fits = omega arith; value_fits = omega arith };
    full = omega arith;
    kind = refl;
  },
  (different, tt),
  (
    record {
      fits = record { key_fits = omega arith; value_fits = omega arith };
      full = omega arith;
      kind = refl;
    },
    tt,
    tt,
  ),
)

pub fin_record-Fits : Fits (fin_record codec 1)
unfolding leb_encode
fin_record-Fits = record { key_fits = omega arith; value_fits = omega arith }

pub batch-HasRoomFor :
    HasRoomFor empty_engine 3
      (items_bytes codec 1 a_batch.pending_write + length (record_bytes codec (fin_record codec 1)))
unfolding record_bytes leb_encode be32
batch-HasRoomFor = record { ids = omega arith; bytes = omega arith }
