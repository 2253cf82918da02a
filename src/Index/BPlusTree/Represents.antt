-- ===== src/Index/BPlusTree/Represents.antt =====
-- bitcask-rs/src/index/bptree.rs: a bucket of encoded positions stands for a map from keys to
-- positions.
use bitcask_rs.Base.{
  subst, some-inj, none-ne-some, bytes_eq_iff, ◌<◌, ◌≡◌, refl, ap, ◌∙◌, Bool-cases, Option-cases,
  inl, inr, true, false, if◌then◌else◌, Option, none, some, Bytes, bytes_eq, u32_mod, u64_mod,
}
use bitcask_rs.Errors.{ok}
use bitcask_rs.Codec.{Codec}
use bitcask_rs.Data.LogRecord.{LogRecordPos, encode_pos}
use bitcask_rs.Data.LogRecord.Encode.{decode-encode_pos}
use bitcask_rs.Index.BPlusTree.{DbAnswers, AllWell, Bucket, decode_kv, put, get, delete}

-- The fields of a position are in their ranges.
pub record PosFits (p : LogRecordPos) : Type 0 where
  pub id_fits : p.file_id < u32_mod
  pub offset_fits : p.offset < u64_mod
  pub size_fits : p.size < u32_mod

-- The calls of a transaction succeed, but for its commit.
pub record FailsCommit (a : DbAnswers) : Type 0 where
  pub tx : a.tx_ok ≡ true
  pub bucket : a.bucket_ok ≡ true
  pub put : a.put_ok ≡ true
  pub commit : a.commit_ok ≡ false

abbrev pub Positions : Type 0
Positions = Bytes → Option LogRecordPos

abbrev pub set_at : Bytes → Option LogRecordPos → Positions → Positions
set_at key o f j = if bytes_eq key j then o else f j

module _ {D : Type 0} (db : Bucket D) (c : Codec) where
  abbrev pub encoded : Option LogRecordPos → Option Bytes
  encoded none = none
  encoded (some p) = some (encode_pos c p)

  pub record Represents (d : D) (f : Positions) : Type 0 where
    pub fits : (k : Bytes) (p : LogRecordPos) → f k ≡ some p → PosFits p
    pub same : (k : Bytes) → db.get_kv k d ≡ encoded (f k)

  decode_encoded :
      (a : DbAnswers) (o : Option LogRecordPos)
      → ((p : LogRecordPos) → o ≡ some p → PosFits p)
      → decode_kv db c a (encoded o) ≡ ok o
  decode_encoded a none fits = refl
  decode_encoded a (some p) fits =
      let h = fits p refl in rw (decode-encode_pos c p h.id_fits h.offset_fits h.size_fits) refl

  decode_found :
      (a : DbAnswers) (d : D) (f : Positions) (k : Bytes)
      → Represents d f
      → decode_kv db c a (db.get_kv k d) ≡ ok (f k)
  decode_found a d f k r = rw (r.same k) (decode_encoded a (f k) (r.fits k))

  encoded_if :
      (key j : Bytes) (o : Option LogRecordPos) (f : Positions)
      → (if bytes_eq key j then encoded o else encoded (f j)) ≡ encoded (set_at key o f j)
  encoded_if key j o f = elim (Bool-cases (bytes_eq key j)) [
    | inl mine ↦ rw mine refl
    | inr other ↦ rw other refl
  ]

  set-Represents :
      (d d' : D) (f : Positions) (key : Bytes) (o : Option LogRecordPos)
      → ((j : Bytes) → db.get_kv j d' ≡ (if bytes_eq key j then encoded o else db.get_kv j d))
      → ((p : LogRecordPos) → o ≡ some p → PosFits p)
      → Represents d f
      → Represents d' (set_at key o f)
  set-Represents d d' f key o now fits r = record {
    fits = λ k p here. elim (Bool-cases (bytes_eq key k)) [
      | inl mine ↦ fits p (rw mine at here)
      | inr other ↦ r.fits k p (rw other at here)
    ];
    same = λ k. now k ∙ (rw (r.same k) (encoded_if key k o f));
  }

  module _ (a : DbAnswers) (well : AllWell a) where
    -- Where the database's calls succeed, `get` answers what the bucket stands for.
    pub get-Represents :
        (d : D) (f : Positions) (key : Bytes) → Represents d f → get db c a key d ≡ ok (f key)
    unfolding get
    get-Represents d f key r = rw (well.tx, well.bucket) (decode_found a d f key r)

    -- Where the database's calls succeed, `put` answers the old position, and the bucket stands
    -- for the map with the new one.
    pub put-Represents :
        (d : D) (f : Positions) (key : Bytes) (pos : LogRecordPos)
        → PosFits pos
        → Represents d f
        → (d' : D) × (put db c a key pos d ≡ (ok (f key), d'))
          × Represents d' (set_at key (some pos) f)
    unfolding put
    put-Represents d f key pos fits r = (
      db.put key (encode_pos c pos) d,
      rw (well.tx, well.bucket, decode_found a d f key r, well.put, well.commit) refl,
      set-Represents d (db.put key (encode_pos c pos) d) f key (some pos)
          (λ j. db.get_kv-put key j (encode_pos c pos) d)
          (λ p e. subst (λ q. PosFits q) (some-inj e) fits) r,
    )

    forget_none :
        (d : D) (f : Positions) (key : Bytes)
        → f key ≡ none
        → Represents d f
        → Represents d (set_at key none f)
    forget_none d f key gone r = record {
      fits = λ k p here. elim (Bool-cases (bytes_eq key k)) [
        | inl mine ↦ absurd (none-ne-some refl (rw mine at here))
        | inr other ↦ r.fits k p (rw other at here)
      ];
      same = still;
    }
      where
        still : (k : Bytes) → db.get_kv k d ≡ encoded (set_at key none f k)
        still k = elim (Bool-cases (bytes_eq key k)) [
          | inl mine ↦ rw mine (r.same k ∙ ap encoded (rw ((bytes_eq_iff key k).0 mine) at gone))
          | inr other ↦ rw other (r.same k)
        ]

    -- Where the database's calls succeed, `delete` answers the old position, and the bucket stands
    -- for the map without the key.
    pub delete-Represents :
        (d : D) (f : Positions) (key : Bytes)
        → Represents d f
        → (d' : D) × (delete db c a key d ≡ (ok (f key), d')) × Represents d' (set_at key none f)
    unfolding delete
    delete-Represents d f key r = elim (Option-cases (f key)) [
      | inl gone ↦ (
        d,
        rw (well.tx, well.bucket, decode_found a d f key r, gone) refl,
        forget_none d f key gone r,
      )
      | inr (p, here) ↦ (
        db.delete key d,
        rw (well.tx, well.bucket, decode_found a d f key r, here, well.commit) refl,
        set-Represents d (db.delete key d) f key none (λ j. db.get_kv-delete key j d)
            (λ q e. absurd (none-ne-some refl e)) r,
      )
    ]
