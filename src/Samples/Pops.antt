-- ===== src/Samples/Pops.antt =====
-- An engine that holds a map with a Redis list of one element.
use bitcask_rs.Base.{
  ◌<◌, ◌≡◌, ◌≢◌, refl, subst, true, false, Bool-cases, inl, inr, some, Option, [], ◌∷◌, ◌++◌, Bytes,
  bytes_eq, bytes_eq_refl, bytes_eq_iff, length, arith,
}
use bitcask_rs.Fs.{data_name, find, content, name_eq}
use bitcask_rs.Map.{lookup}
use bitcask_rs.Index.BTree.{BTree, btree_indexer, get as tree_get}
use bitcask_rs.Samples.{codec, calm}
use bitcask_rs.Samples.Leb.{leb_encode, be32}
use bitcask_rs.Samples.Engines.{empty_engine, no_values}
use bitcask_rs.Samples.Strings.{buf, be64, be128, a_list}
use bitcask_rs.Data.LogRecord.{LogRecordPos}
use bitcask_rs.Data.LogRecord.Encode.{Fits, record_bytes}
use bitcask_rs.Engine.{Engine, file_for}
use bitcask_rs.Engine.Append.{HasRoom}
use bitcask_rs.Engine.Stored.{Stored}
use bitcask_rs.Engine.Files.{HasFiles, fresh_file}
use bitcask_rs.Engine.Refine.{Store, Refines, put_record, store_put}
use bitcask_rs.Redis.{Clock}
use bitcask_rs.Redis.Meta.{encode_metadata, encode_list_key}
use bitcask_rs.Redis.Ops.{popped}

abbrev pub clock : Clock
clock = record { checked_at = 100; made_at = 100 }

abbrev pub list_name : Bytes
list_name = b'l' ∷ []

abbrev pub part_key : Bytes
part_key = encode_list_key codec buf (record { key = list_name; version = 7; index = 5 })

abbrev pub element : Bytes
element = b'x' ∷ []

abbrev pub meta_bytes : Bytes
meta_bytes = encode_metadata codec buf a_list

abbrev pub meta_written : Bytes
meta_written = record_bytes codec (put_record list_name meta_bytes)

abbrev pub part_written : Bytes
part_written = record_bytes codec (put_record part_key element)

abbrev pub meta_pos : LogRecordPos
meta_pos = record { file_id = 0; offset = 0; size = length meta_written }

abbrev pub part_pos : LogRecordPos
part_pos = record { file_id = 0; offset = length meta_written; size = length part_written }

abbrev pub list_engine : Engine BTree
list_engine = record empty_engine {
  dir = (data_name 0, meta_written ++ part_written) ∷ [];
  active_file = record (fresh_file 0) { write_off = length (meta_written ++ part_written) };
  index = (list_name, meta_pos) ∷ ((part_key, part_pos) ∷ []);
}

abbrev pub list_map : Store
list_map = store_put list_name meta_bytes (store_put part_key element no_values)

no_later : (id : _) → 0 < id → content (data_name id) list_engine.dir ≡ []
unfolding content find name_eq
no_later id later = ground arith

list_engine-HasFiles : HasFiles list_engine
unfolding content find lookup name_eq
list_engine-HasFiles = record {
  active_standard = refl;
  older_standard = λ id f found. cc;
  at_end = refl;
  fresh = no_later;
}

meta_Stored : Stored codec list_engine meta_pos meta_bytes
unfolding content find name_eq file_for record_bytes leb_encode be32 be64 be128 encode_metadata
meta_Stored = record {
  rec = put_record list_name meta_bytes;
  fits = record { key_fits = omega arith; value_fits = omega arith };
  full = omega arith;
  live = refl;
  value_of_rec = refl;
  before = [];
  after = part_written;
  at_file = refl;
  at_offset = refl;
  bound = omega arith;
  file = list_engine.active_file;
  known = refl;
}

part_Stored : Stored codec list_engine part_pos element
unfolding content find name_eq file_for record_bytes leb_encode be32 be64 be128 encode_metadata
    encode_list_key
part_Stored = record {
  rec = put_record part_key element;
  fits = record { key_fits = omega arith; value_fits = omega arith };
  full = omega arith;
  live = refl;
  value_of_rec = refl;
  before = meta_written;
  after = [];
  at_file = refl;
  at_offset = refl;
  bound = omega arith;
  file = list_engine.active_file;
  known = refl;
}

one_value : {p q : LogRecordPos} → Option.some p ≡ some q → p ≡ q
one_value h = cc

pub list_engine-Refines : Refines btree_indexer codec list_engine list_map
unfolding tree_get
list_engine-Refines = record {
  files = list_engine-HasFiles;
  absent = λ k gone. elim (Bool-cases (bytes_eq list_name k)) [
    | inl mine ↦ absurd (ground arith)
    | inr other ↦ elim (Bool-cases (bytes_eq part_key k)) [
      | inl part ↦ absurd (ground arith)
      | inr neither ↦ rw (other, neither) refl
    ]
  ];
  present = λ k pos here. elim (Bool-cases (bytes_eq list_name k)) [
    | inl mine ↦ (
      meta_bytes,
      rw mine refl,
      subst (λ p. Stored codec list_engine p meta_bytes) (one_value (rw mine at here)) meta_Stored,
    )
    | inr other ↦ elim (Bool-cases (bytes_eq part_key k)) [
      | inl part ↦ (
        element,
        rw (other, part) refl,
        subst (λ p. Stored codec list_engine p element) (one_value (rw (other, part) at here))
            part_Stored,
      )
      | inr neither ↦ absurd (ground arith)
    ]
  ];
}

pub popped-Fits : Fits (
    put_record list_name
      (encode_metadata codec buf (popped btree_indexer codec calm buf clock true a_list)))
unfolding encode_metadata be128 be64 be32
popped-Fits = record { key_fits = omega arith; value_fits = omega arith }

pub popped-HasRoom : HasRoom list_engine (
    length (
      record_bytes codec (
        put_record list_name
          (encode_metadata codec buf (popped btree_indexer codec calm buf clock true a_list)))))
unfolding record_bytes leb_encode be32 encode_metadata encode_list_key be128 be64
popped-HasRoom = record { ids = omega arith; bytes = omega arith }

pub at_meta : list_map list_name ≡ some meta_bytes
at_meta = rw (bytes_eq_refl list_name) refl

other_name : list_name ≢ part_key
unfolding encode_list_key be128 be64 be32
other_name h = cc

other_key : bytes_eq list_name part_key ≡ false
other_key = elim (Bool-cases (bytes_eq list_name part_key)) [
  | inl same ↦ absurd (other_name ((bytes_eq_iff list_name part_key).0 same))
  | inr other ↦ other
]

pub at_part : list_map part_key ≡ some element
at_part = rw (other_key, bytes_eq_refl part_key) refl
