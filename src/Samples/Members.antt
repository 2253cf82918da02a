-- ===== src/Samples/Members.antt =====
-- The theorem about `s_is_member`, on an engine with the metadata of a set.
use bitcask_rs.Base.{
  ℕ, ◌<◌, ◌≡◌, refl, subst, Bool-cases, inl, inr, some, Option, [], ◌∷◌, Bytes, bytes_eq,
  bytes_eq_refl, length, arith,
}
use bitcask_rs.Errors.{ok}
use bitcask_rs.Fs.{data_name, find, content, name_eq}
use bitcask_rs.Map.{lookup}
use bitcask_rs.Index.BTree.{BTree, btree_indexer, get as tree_get}
use bitcask_rs.Samples.{codec, calm, calm-IsHealthy}
use bitcask_rs.Samples.Leb.{leb_encode, be32}
use bitcask_rs.Samples.Engines.{empty_engine, no_values}
use bitcask_rs.Samples.Strings.{buf, be64, be128}
use bitcask_rs.Data.LogRecord.{LogRecordPos}
use bitcask_rs.Data.LogRecord.Encode.{record_bytes}
use bitcask_rs.Engine.{Engine, file_for}
use bitcask_rs.Engine.Stored.{Stored}
use bitcask_rs.Engine.Files.{HasFiles, fresh_file}
use bitcask_rs.Engine.Refine.{Store, Refines, put_record, store_put}
use bitcask_rs.Redis.{Clock, set}
use bitcask_rs.Redis.Meta.{Metadate, MetaFits, encode_metadata, encode_set_key}
use bitcask_rs.Redis.Ops.{s_is_member}
use bitcask_rs.Redis.Ops.Members.{is_held, s_is_member-Refines}

abbrev pub later : Clock
later = record { checked_at = 100; made_at = 100 }

abbrev a_set : Metadate
a_set = record { data_type = set; expire = 200; version = 7; size = 1; head = 0; tail = 0 }

a_set-MetaFits : MetaFits a_set
a_set-MetaFits = record {
  expire_fits = omega arith;
  version_fits = omega arith;
  size_fits = omega arith;
  head_fits = omega arith;
  tail_fits = omega arith;
}

abbrev set_name : Bytes
set_name = b's' ∷ []

abbrev set_bytes : Bytes
set_bytes = encode_metadata codec buf a_set

abbrev set_written : Bytes
set_written = record_bytes codec (put_record set_name set_bytes)

abbrev set_pos : LogRecordPos
set_pos = record { file_id = 0; offset = 0; size = length set_written }

abbrev set_engine : Engine BTree
set_engine = record empty_engine {
  dir = (data_name 0, set_written) ∷ [];
  active_file = record (fresh_file 0) { write_off = length set_written };
  index = (set_name, set_pos) ∷ [];
}

abbrev set_map : Store
set_map = store_put set_name set_bytes no_values

nothing_later : (id : ℕ) → 0 < id → content (data_name id) set_engine.dir ≡ []
unfolding content find name_eq
nothing_later id behind = ground arith

set_engine-HasFiles : HasFiles set_engine
unfolding content find lookup name_eq
set_engine-HasFiles = record {
  active_standard = refl;
  older_standard = λ id f found. cc;
  at_end = refl;
  fresh = nothing_later;
}

set_Stored : Stored codec set_engine set_pos set_bytes
unfolding content find name_eq file_for record_bytes leb_encode be32 be64 be128 encode_metadata
set_Stored = record {
  rec = put_record set_name set_bytes;
  fits = record { key_fits = omega arith; value_fits = omega arith };
  full = omega arith;
  live = refl;
  value_of_rec = refl;
  before = [];
  after = [];
  at_file = refl;
  at_offset = refl;
  bound = omega arith;
  file = set_engine.active_file;
  known = refl;
}

pub same_pos : {p q : LogRecordPos} → Option.some p ≡ some q → p ≡ q
same_pos h = cc

set_engine-Refines : Refines btree_indexer codec set_engine set_map
unfolding tree_get
set_engine-Refines = record {
  files = set_engine-HasFiles;
  absent = λ k gone. elim (Bool-cases (bytes_eq set_name k)) [
    | inl mine ↦ absurd (ground arith)
    | inr other ↦ rw other refl
  ];
  present = λ k pos here. elim (Bool-cases (bytes_eq set_name k)) [
    | inl mine ↦ (
      set_bytes,
      rw mine refl,
      subst (λ p. Stored codec set_engine p set_bytes) (same_pos (rw mine at here)) set_Stored,
    )
    | inr other ↦ absurd (ground arith)
  ];
}

at_set : set_map set_name ≡ some set_bytes
at_set = rw (bytes_eq_refl set_name) refl

s_is_member-Refines_example :
    s_is_member btree_indexer codec calm buf later set_name (b'x' ∷ []) set_engine ≡ (
      ok (
          is_held (
            set_map (
              encode_set_key codec buf
                (record { key = set_name; version = 7; member = b'x' ∷ [] })))),
      set_engine,
    )
s_is_member-Refines_example =
    s_is_member-Refines btree_indexer codec calm buf later set_engine set_map set_name (b'x' ∷ [])
      a_set calm-IsHealthy set_engine-Refines (λ h. cc) at_set a_set-MetaFits refl refl
      (omega arith)
