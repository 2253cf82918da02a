-- ===== src/Samples/Restarts.antt =====
-- The theorems about a restart and about a deletion, at an engine with one data file that holds one
-- value.
use bitcask_rs.Base.{
  ℕ, ◌<◌, ◌==◌, ◌≡◌, ◌∙◌, refl, if◌then◌else◌, some, [], ◌∷◌, Bool-cases, inl, inr, none-ne-some,
  some-inj, subst, length, bytes_eq, arith,
}
use bitcask_rs.Errors.{ok}
use bitcask_rs.Fs.{data_name, name_eq, find, content}
use bitcask_rs.Map.{lookup}
use bitcask_rs.Keys.{parse_log_record_key}
use bitcask_rs.Disk.{Disk}
use bitcask_rs.Index.BTree.{BTree, btree_indexer, get as tree_get}
use bitcask_rs.Samples.{codec, calm, calm-IsHealthy}
use bitcask_rs.Samples.Leb.{leb_encode, leb_decode, be32}
use bitcask_rs.Samples.Engines.{empty_engine, a_key, a_value, put-Fits, delete-Fits}
use bitcask_rs.Samples.Loads.{one_log, view_after, one_log-IsLog, one_log_short, one_view}
use bitcask_rs.Samples.Reopens.{
  a_pos, a_pos-bound, granted, granted-AllGranted, unmapped_options, unmapped-IsInMemory,
  half_merged, nothing_in,
}
use bitcask_rs.Data.LogRecord.Encode.{record_bytes}
use bitcask_rs.Engine.{Engine, file_for, delete_key}
use bitcask_rs.Engine.Append.{HasRoom}
use bitcask_rs.Engine.Files.{fresh_file}
use bitcask_rs.Engine.Stored.{Stored}
use bitcask_rs.Engine.Refine.{Refines, put_record, delete_record, store_delete, delete_key-Refines}
use bitcask_rs.Load.File.{log_bytes}
use bitcask_rs.Load.Numbers.{last_seq}
use bitcask_rs.Merge.Adopt.{is_finished}
use bitcask_rs.Open.{open_engine}
use bitcask_rs.Open.DataFiles.{data_ids, insert_id, sort_ids}
use bitcask_rs.Durable.Records.{LogOf}
use bitcask_rs.Durable.Logged.{Logged}
use bitcask_rs.Durable.Store.{Durable}
use bitcask_rs.Durable.Opened.{IsPlain}
use bitcask_rs.Durable.Restart.{restart-Durable}

abbrev one_file : Engine BTree
one_file = record empty_engine {
  dir = (data_name 0, log_bytes codec one_log) ∷ [];
  active_file = record (fresh_file 0) { write_off = length (log_bytes codec one_log) };
  index = (a_key, a_pos) ∷ [];
}

abbrev log_of : LogOf
log_of id = if id == 0 then one_log else []

contents : (id : ℕ) → content (data_name id) one_file.dir ≡ log_bytes codec (log_of id)
unfolding content find name_eq
contents id = ground arith

one_file-Logged : Logged codec one_file one_log
one_file-Logged = record {
  log = log_of;
  are_logs = λ id. elim (Bool-cases (id == 0)) [ inl z ↦ rw z one_log-IsLog | inr nz ↦ rw nz tt ];
  contents = contents;
  short = λ id. elim (Bool-cases (id == 0)) [
    | inl z ↦ rw z one_log_short
    | inr nz ↦ rw nz (omega arith)
  ];
  beyond = λ id later. ground (arith, later);
  in_all = refl;
}

a_pos-Stored_one : Stored codec one_file a_pos a_value
unfolding file_for
a_pos-Stored_one = record {
  rec = put_record a_key a_value;
  fits = put-Fits;
  full = omega arith;
  live = refl;
  value_of_rec = refl;
  before = [];
  after = [];
  at_file = contents 0;
  at_offset = refl;
  bound = a_pos-bound;
  file = one_file.active_file;
  known = refl;
}

one_file-Refines : Refines btree_indexer codec one_file view_after.store
unfolding tree_get lookup
one_file-Refines = record {
  files = record {
    active_standard = refl;
    older_standard = λ id f. cc;
    at_end = rw (contents 0) refl;
    fresh = λ id later. contents id ∙ ground (arith, later);
  };
  absent = λ k gone. elim (Bool-cases (bytes_eq a_key k)) [
    | inl mine ↦ absurd (none-ne-some (rw mine at gone) refl)
    | inr other ↦ rw other refl
  ];
  present = λ k pos here. elim (Bool-cases (bytes_eq a_key k)) [
    | inl mine ↦ (
      a_value,
      rw mine refl,
      subst (λ p. Stored codec one_file p a_value) (some-inj (rw mine at here)) a_pos-Stored_one,
    )
    | inr other ↦ absurd (none-ne-some refl (rw other at here))
  ];
}

deletion-HasRoom : HasRoom one_file (length (record_bytes codec (delete_record a_key)))
unfolding record_bytes leb_encode be32
deletion-HasRoom = record { ids = omega arith; bytes = omega arith }

delete_key-Refines_example :
    (e' : Engine BTree) × (delete_key btree_indexer codec calm a_key one_file ≡ (ok tt, e'))
    × Refines btree_indexer codec e' (store_delete a_key view_after.store)
delete_key-Refines_example =
    delete_key-Refines btree_indexer codec calm calm-IsHealthy one_file view_after.store a_key
      one_file-Refines (λ h. cc) delete-Fits deletion-HasRoom

one_file-Durable : Durable btree_indexer codec one_file view_after.store
unfolding last_seq parse_log_record_key leb_decode
one_file-Durable = record {
  holds = one_file-Refines;
  records = one_log;
  logged = one_file-Logged;
  view = view_after;
  reads = one_view;
  same = refl;
  counted = omega arith;
  in_range = omega arith;
}

one_file-IsPlain : IsPlain (0 ∷ []) one_file.dir
unfolding data_ids find name_eq
one_file-IsPlain = record {
  listed = refl;
  distinct = (refl, tt);
  some_file = λ h. cc;
  no_hint = refl;
  no_merge = refl;
}

one_id : sort_ids (0 ∷ []) ≡ 0 ∷ []
unfolding sort_ids insert_id
one_id = refl

one_file-short : length (content (data_name 0) one_file.dir) < 100
unfolding content find name_eq record_bytes leb_encode be32
one_file-short = omega arith

restart-Durable_example :
    (e' : Engine BTree) × (s : Disk) × (open_engine btree_indexer [] codec calm granted 100
        unmapped_options
        (record { dir = some one_file.dir; merge_dir = some half_merged })
      ≡ (ok e', s))
    × Durable btree_indexer codec e' view_after.store
unfolding is_finished
restart-Durable_example =
    restart-Durable btree_indexer [] codec calm calm-IsHealthy granted granted-AllGranted 100
      unmapped_options unmapped-IsInMemory one_file view_after.store one_file-Durable 0 (0 ∷ [])
      one_file-IsPlain one_id one_file-short nothing_in (some half_merged) refl
