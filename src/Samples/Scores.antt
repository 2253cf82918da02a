-- ===== src/Samples/Scores.antt =====
-- The theorem about `zscore`, on an engine with the metadata of a sorted set and one member.
use bitcask_rs.Base.{
  ℕ, ◌<◌, ◌≡◌, refl, subst, Bool, true, false, if◌then◌else◌, Bool-cases, inl, inr, some, none,
  Option, [], ◌∷◌, ◌++◌, Bytes, bytes_eq, bytes_eq_refl, bytes_eq_iff, length-append, bytes_eq_cons,
  ap, ◌==◌, ◌≢◌, length, arith,
}
use bitcask_rs.Errors.{ok}
use bitcask_rs.Fs.{data_name, find, content, name_eq}
use bitcask_rs.Map.{lookup}
use bitcask_rs.Index.BTree.{BTree, btree_indexer, get as tree_get}
use bitcask_rs.Samples.{codec, calm, calm-IsHealthy}
use bitcask_rs.Samples.Leb.{leb_encode, be32}
use bitcask_rs.Samples.Engines.{empty_engine, no_values}
use bitcask_rs.Samples.Strings.{buf, be64, be128}
use bitcask_rs.Samples.Members.{later, same_pos}
use bitcask_rs.Data.LogRecord.{LogRecordPos}
use bitcask_rs.Data.LogRecord.Encode.{record_bytes}
use bitcask_rs.Engine.{Engine, file_for}
use bitcask_rs.Engine.Stored.{Stored}
use bitcask_rs.Engine.Files.{HasFiles, fresh_file}
use bitcask_rs.Engine.Refine.{Store, Refines, put_record, store_put}
use bitcask_rs.Redis.{zset}
use bitcask_rs.Redis.Meta.{Metadate, MetaFits, encode_metadata}
use bitcask_rs.Redis.ZSet.{Floats, encode_member, zadd, zscore, zscore-Refines}

-- Three numbers in place of all of `f64`.
pub data Score : Type 0 where
  minus_one zero one : Score

abbrev pub score_text : Score → Bytes
score_text minus_one = b'-' ∷ (b'1' ∷ [])
score_text zero = b'0' ∷ []
score_text one = b'1' ∷ []

abbrev pub score_of : Bytes → Option Score
score_of text =
    if bytes_eq text (score_text one)
    then some one
    else if bytes_eq text (score_text zero)
    then some zero
    else if bytes_eq text (score_text minus_one)
    then some minus_one
    else none

abbrev pub score_eq : Score → Score → Bool
score_eq minus_one minus_one = true
score_eq zero zero = true
score_eq one one = true
score_eq _ _ = false

first_differs : (x y : ℕ) (xs ys : Bytes) → (x == y) ≡ false → bytes_eq (x ∷ xs) (y ∷ ys) ≡ false
first_differs x y xs ys ne = rw (bytes_eq_cons, ne) refl

differ : (xs ys : Bytes) → xs ≢ ys → bytes_eq xs ys ≡ false
differ xs ys ne = elim (Bool-cases (bytes_eq xs ys)) [
  | inl same ↦ absurd (ne ((bytes_eq_iff xs ys).0 same))
  | inr other ↦ other
]

pub score_of-text : (x : Score) → score_eq x x ≡ true → score_of (score_text x) ≡ some x
score_of-text minus_one h =
    rw
      (
        first_differs b'-' b'1' (b'1' ∷ []) [] refl,
        first_differs b'-' b'0' (b'1' ∷ []) [] refl,
        bytes_eq_refl (score_text minus_one),
      )
      refl
score_of-text zero h = rw (first_differs b'0' b'1' [] [] refl, bytes_eq_refl (score_text zero)) refl
score_of-text one h = rw (bytes_eq_refl (score_text one)) refl

pub score_utf8 : (x : Score) → buf.is_utf8 (score_text x) ≡ true
score_utf8 minus_one = refl
score_utf8 zero = refl
score_utf8 one = refl

abbrev pub scores : Floats buf Score
scores = record {
  to_string = score_text;
  parse = score_of;
  eq = score_eq;
  zero = zero;
  minus_one = minus_one;
  parse_to_string = score_of-text;
  utf8_to_string = score_utf8;
}

abbrev a_zset : Metadate
a_zset = record { data_type = zset; expire = 0; version = 7; size = 1; head = 0; tail = 0 }

a_zset-MetaFits : MetaFits a_zset
a_zset-MetaFits = record {
  expire_fits = omega arith;
  version_fits = omega arith;
  size_fits = omega arith;
  head_fits = omega arith;
  tail_fits = omega arith;
}

abbrev zset_name : Bytes
zset_name = b'z' ∷ []

abbrev member_name : Bytes
member_name =
    encode_member codec buf scores
      (record { key = zset_name; version = 7; score = one; member = b'x' ∷ [] })

abbrev zset_bytes : Bytes
zset_bytes = encode_metadata codec buf a_zset

abbrev first_written : Bytes
first_written = record_bytes codec (put_record zset_name zset_bytes)

abbrev second_written : Bytes
second_written = record_bytes codec (put_record member_name (score_text one))

abbrev first_pos : LogRecordPos
first_pos = record { file_id = 0; offset = 0; size = length first_written }

abbrev second_pos : LogRecordPos
second_pos = record { file_id = 0; offset = length first_written; size = length second_written }

abbrev zset_engine : Engine BTree
zset_engine = record empty_engine {
  dir = (data_name 0, first_written ++ second_written) ∷ [];
  active_file = record (fresh_file 0) { write_off = length (first_written ++ second_written) };
  index = (zset_name, first_pos) ∷ ((member_name, second_pos) ∷ []);
}

abbrev zset_map : Store
zset_map = store_put zset_name zset_bytes (store_put member_name (score_text one) no_values)

nothing_later : (id : ℕ) → 0 < id → content (data_name id) zset_engine.dir ≡ []
unfolding content find name_eq
nothing_later id behind = ground arith

zset_engine-HasFiles : HasFiles zset_engine
unfolding content find lookup name_eq
zset_engine-HasFiles = record {
  active_standard = refl;
  older_standard = λ id f found. cc;
  at_end = refl;
  fresh = nothing_later;
}

first_Stored : Stored codec zset_engine first_pos zset_bytes
unfolding content find name_eq file_for record_bytes leb_encode be32 be64 be128 encode_metadata
first_Stored = record {
  rec = put_record zset_name zset_bytes;
  fits = record { key_fits = omega arith; value_fits = omega arith };
  full = omega arith;
  live = refl;
  value_of_rec = refl;
  before = [];
  after = second_written;
  at_file = refl;
  at_offset = refl;
  bound = omega arith;
  file = zset_engine.active_file;
  known = refl;
}

second_Stored : Stored codec zset_engine second_pos (score_text one)
unfolding content find name_eq file_for record_bytes leb_encode be32 be64 be128 encode_metadata
    encode_member
second_Stored = record {
  rec = put_record member_name (score_text one);
  fits = record { key_fits = omega arith; value_fits = omega arith };
  full = omega arith;
  live = refl;
  value_of_rec = refl;
  before = first_written;
  after = [];
  at_file = refl;
  at_offset = refl;
  bound = omega arith;
  file = zset_engine.active_file;
  known = refl;
}

zset_engine-Refines : Refines btree_indexer codec zset_engine zset_map
unfolding tree_get
zset_engine-Refines = record {
  files = zset_engine-HasFiles;
  absent = λ k gone. elim (Bool-cases (bytes_eq zset_name k)) [
    | inl mine ↦ absurd (ground arith)
    | inr other ↦ elim (Bool-cases (bytes_eq member_name k)) [
      | inl part ↦ absurd (ground arith)
      | inr neither ↦ rw (other, neither) refl
    ]
  ];
  present = λ k pos here. elim (Bool-cases (bytes_eq zset_name k)) [
    | inl mine ↦ (
      zset_bytes,
      rw mine refl,
      subst (λ p. Stored codec zset_engine p zset_bytes) (same_pos (rw mine at here)) first_Stored,
    )
    | inr other ↦ elim (Bool-cases (bytes_eq member_name k)) [
      | inl part ↦ (
        score_text one,
        rw (other, part) refl,
        subst (λ p. Stored codec zset_engine p (score_text one))
            (same_pos (rw (other, part) at here)) second_Stored,
      )
      | inr neither ↦ absurd (ground arith)
    ]
  ];
}

at_zset : zset_map zset_name ≡ some zset_bytes
at_zset = rw (bytes_eq_refl zset_name) refl

at_member : zset_map member_name ≡ some (score_text one)
unfolding encode_member be128
at_member =
    rw
      (
        differ zset_name member_name
            (λ e. omega (arith, ap length e, length-append (buf.put_u128 7) (b'x' ∷ []))),
        bytes_eq_refl member_name,
      )
      refl

zscore-Refines_example :
    (zscore codec buf scores btree_indexer calm later zset_name (b'x' ∷ []) zset_engine
      ≡ (ok one, zset_engine))
    × (zadd codec buf scores btree_indexer calm later zset_name one (b'x' ∷ []) zset_engine
        ≡ (ok false, zset_engine))
zscore-Refines_example =
    zscore-Refines codec buf scores btree_indexer calm later zset_engine zset_map zset_name
      (b'x' ∷ []) a_zset one calm-IsHealthy zset_engine-Refines (λ h. cc) at_zset a_zset-MetaFits
      refl refl (omega arith) refl at_member
