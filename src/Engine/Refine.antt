-- ===== src/Engine/Refine.antt =====
-- The engine implements a map from keys to values: what `get`, `put` and `delete` do is what the
-- map's operations do.
use bitcask_rs.Base.{
  ◌≡◌, ◌≢◌, refl, ap, false, if◌then◌else◌, Option, none, some, Option-cases, Bool-cases, inl, inr,
  [], ◌∷◌, Bytes, bytes_eq, bytes_eq_iff, length, add64, subst, arith,
}
use bitcask_rs.Errors.{Result, ok, err, key_is_empty, key_not_found}
use bitcask_rs.Fs.{Os, IsHealthy}
use bitcask_rs.Codec.{Codec}
use bitcask_rs.Keys.{key_with_zero}
use bitcask_rs.Options.{is_empty}
use bitcask_rs.Index.{Indexer}
use bitcask_rs.Data.LogRecord.{LogRecord, LogRecordPos, normal, delete}
use bitcask_rs.Data.LogRecord.Encode.{Fits, record_bytes}
use bitcask_rs.Engine.{Engine, value_at, get, put, delete_key, index_put, index_delete}
use bitcask_rs.Engine.Files.{HasFiles, HasManagers, managers}
use bitcask_rs.Engine.Append.{HasRoom, Appended, append_log_record_lem}
use bitcask_rs.Engine.SameFiles.{
  SameFiles, HasFiles-same, HasManagers-same, Stored-same, index_put-SameFiles, index-index_put,
  index_delete-SameFiles, index-index_delete,
}
use bitcask_rs.Engine.Stored.{Stored, get_value-Stored, Stored-append, Stored-new}

-- The abstract store.
abbrev pub Store : Type 0
Store = Bytes → Option Bytes

abbrev pub store_put : Bytes → Bytes → Store → Store
store_put key value m j = if bytes_eq key j then some value else m j

abbrev pub store_delete : Bytes → Store → Store
store_delete key m j = if bytes_eq key j then none else m j

abbrev pub found : Option Bytes → Result Bytes
found none = err key_not_found
found (some v) = ok v

abbrev pub store_get : Bytes → Store → Result Bytes
store_get key m = if is_empty key then err key_is_empty else found (m key)

not_empty : (key : Bytes) → key ≢ [] → is_empty key ≡ false
not_empty [] ne = absurd (ne refl)
not_empty (b ∷ key) ne = refl

-- The record that `put` writes, and the one that `delete` writes.
abbrev pub put_record : Bytes → Bytes → LogRecord
put_record key value = record { key = 0 ∷ key; value = value; rec_type = normal }

abbrev pub delete_record : Bytes → LogRecord
delete_record key = record { key = key; value = []; rec_type = delete }

module _ {Ix : Type 0} (ix : Indexer Ix) (c : Codec) where
  -- The engine's files are laid out well, and its index points to the values of the map.
  pub record Refines (e : Engine Ix) (m : Store) : Type 0 where
    pub files : HasFiles e
    pub absent : (k : Bytes) → ix.get k e.index ≡ none → m k ≡ none
    pub present :
        (k : Bytes) (pos : LogRecordPos)
        → ix.get k e.index ≡ some pos
        → (v : Bytes) × (m k ≡ some v) × Stored c e pos v

  -- What `get` needs of it: the files can be read, and the index points to the values of the map.
  pub record Reads (e : Engine Ix) (m : Store) : Type 0 where
    pub managed : HasManagers e
    pub absent : (k : Bytes) → ix.get k e.index ≡ none → m k ≡ none
    pub present :
        (k : Bytes) (pos : LogRecordPos)
        → ix.get k e.index ≡ some pos
        → (v : Bytes) × (m k ≡ some v) × Stored c e pos v

  pub Refines-Reads : {e : Engine Ix} {m : Store} → Refines e m → Reads e m
  Refines-Reads h = record { managed = managers h.files; absent = h.absent; present = h.present }

  pub Reads-same :
      {e e' : Engine Ix} {m : Store} → SameFiles e e' → e'.index ≡ e.index → Reads e m → Reads e' m
  Reads-same same index h = record {
    managed = HasManagers-same same h.managed;
    absent = rw index h.absent;
    present = λ k pos here.
        let (v, held, old) = h.present k pos (rw index at here) in
        (v, held, Stored-same same c pos v old);
  }

  -- What the engine holds is kept when its files and its index are.
  pub Refines-same :
      {e e' : Engine Ix} {m : Store}
      → SameFiles e e'
      → e'.index ≡ e.index
      → Refines e m
      → Refines e' m
  Refines-same same index h =
      let r = Reads-same same index (Refines-Reads h) in
      record { files = HasFiles-same same h.files; absent = r.absent; present = r.present }

  -- A record is written, and the index does not know it.
  pub Refines-append :
      {e e1 : Engine Ix} {m : Store} {buf : Bytes} {pos : LogRecordPos}
      → Appended e buf pos e1
      → Refines e m
      → Refines e1 m
  Refines-append a h = record {
    files = a.files;
    absent = rw a.index_kept h.absent;
    present = λ k pos here.
        let (v, held, old) = h.present k pos (rw a.index_kept at here) in
        (v, held, Stored-append c pos v a old);
  }

  -- The index is made to point to a value that is stored.
  pub Refines-index_put :
      {e : Engine Ix} {m : Store} (pos : LogRecordPos) (key value : Bytes)
      → Refines e m
      → Stored c e pos value
      → Refines (index_put ix key pos e) (store_put key value m)
  Refines-index_put {e} {m} pos key value h st = record {
    files = HasFiles-same same h.files;
    absent = λ k gone. ground (arith, at_key k, h.absent k);
    present = λ k p here. at_present k p here;
  }
    where
      same : SameFiles e (index_put ix key pos e)
      same = index_put-SameFiles ix key pos e

      at_key :
          (k : Bytes)
          → ix.get k (index_put ix key pos e).index
            ≡ (if bytes_eq key k then some pos else ix.get k e.index)
      at_key k = rw (index-index_put, ix.get-put)

      at_present :
          (k : Bytes) (p : LogRecordPos)
          → ix.get k (index_put ix key pos e).index ≡ some p
          → (v : Bytes) × (store_put key value m k ≡ some v) × Stored c (index_put ix key pos e) p v
      at_present k p here = elim (Bool-cases (bytes_eq key k)) [
        | inl mine ↦ (
          value,
          rw mine,
          subst (λ q. Stored c (index_put ix key pos e) q value) (ground (arith, at_key k))
              (Stored-same same c pos value st),
        )
        | inr other ↦
            let (v, held, old) = h.present k p (ground (arith, at_key k)) in
            (v, rw other held, Stored-same same c p v old)
      ]

  -- The index forgets the key.
  pub Refines-index_delete :
      {e : Engine Ix} {m : Store} (key : Bytes)
      → Refines e m
      → Refines (index_delete ix key e) (store_delete key m)
  Refines-index_delete {e} {m} key h = record {
    files = HasFiles-same same h.files;
    absent = λ k gone. ground (arith, at_key k, h.absent k);
    present = λ k p here. at_present k p here;
  }
    where
      same : SameFiles e (index_delete ix key e)
      same = index_delete-SameFiles ix key e

      at_key :
          (k : Bytes)
          → ix.get k (index_delete ix key e).index
            ≡ (if bytes_eq key k then none else ix.get k e.index)
      at_key k = rw (index-index_delete, ix.get-delete)

      at_present :
          (k : Bytes) (p : LogRecordPos)
          → ix.get k (index_delete ix key e).index ≡ some p
          → (v : Bytes) × (store_delete key m k ≡ some v) × Stored c (index_delete ix key e) p v
      at_present k p here = elim (Bool-cases (bytes_eq key k)) [
        | inl mine ↦ absurd (ground (arith, at_key k))
        | inr other ↦
            let (v, held, old) = h.present k p (ground (arith, at_key k)) in
            (v, rw other held, Stored-same same c p v old)
      ]

  -- Deleting a key that the index lacks changes nothing.
  pub Refines-absent :
      {e : Engine Ix} {m : Store} (key : Bytes)
      → Refines e m
      → ix.get key e.index ≡ none
      → Refines e (store_delete key m)
  Refines-absent {e} {m} key h gone = record {
    files = h.files;
    absent = λ k none_at. ground (arith, h.absent k);
    present = λ k p here. elim (Bool-cases (bytes_eq key k)) [
      | inl mine ↦ absurd (cc (gone, here, (bytes_eq_iff key k).0 mine))
      | inr other ↦ let (v, held, old) = h.present k p here in (v, rw other held, old)
    ];
  }

  module _ (os : Os) (healthy : IsHealthy os) where
    -- `get` answers what the map holds, an empty key and a missing one by their errors.
    pub get-Reads :
        (e : Engine Ix) (m : Store) (key : Bytes) → Reads e m → get ix c os key e ≡ store_get key m
    unfolding get
    get-Reads e m key h =
        ap (λ r. if is_empty key then err key_is_empty else r) (agrees (ix.get key e.index) refl)
      where
        agrees :
            (o : Option LogRecordPos)
            → ix.get key e.index ≡ o
            → value_at ix c os e o ≡ found (m key)
        agrees none gone = rw (h.absent key gone)
        agrees (some pos) here =
            let (v, held, st) = h.present key pos here in
            rw held (get_value-Stored c os e pos v healthy h.managed st)

    -- `get` answers what the map holds, an empty key and a missing one by their errors.
    pub get-Refines :
        (e : Engine Ix) (m : Store) (key : Bytes)
        → Refines e m
        → get ix c os key e ≡ store_get key m
    get-Refines e m key h = get-Reads e m key (Refines-Reads h)

    -- `put` appends one record, and points the index to it.
    pub put_run :
        (e : Engine Ix) (key value : Bytes)
        → HasFiles e
        → key ≢ []
        → Fits (put_record key value)
        → HasRoom e (length (record_bytes c (put_record key value)))
        → (pos : LogRecordPos) × (e1 : Engine Ix) × (put ix c os key value e
            ≡ (ok tt, index_put ix key pos e1))
          × Appended e (record_bytes c (put_record key value)) pos e1
    unfolding put
    put_run e key value files ne fits room =
        let (pos, e1, run, a) =
          append_log_record_lem c os healthy (put_record key value) e fits files room in
        (pos, e1, rw (not_empty key ne, key_with_zero, run), a)

    -- `put` succeeds, and the engine holds the map with the new value.
    pub put-Refines :
        (e : Engine Ix) (m : Store) (key value : Bytes)
        → Refines e m
        → key ≢ []
        → Fits (put_record key value)
        → HasRoom e (length (record_bytes c (put_record key value)))
        → (e' : Engine Ix) × (put ix c os key value e ≡ (ok tt, e'))
          × Refines e' (store_put key value m)
    put-Refines e m key value h ne fits room =
        let (pos, e1, run, a) = put_run e key value h.files ne fits room in
        (
          index_put ix key pos e1,
          run,
          Refines-index_put pos key value (Refines-append a h)
              (Stored-new c (put_record key value) a fits (omega arith) refl),
        )

    -- The bytes of a deletion count as reclaimable.
    abbrev pub counted : Engine Ix → LogRecordPos → Engine Ix
    counted e pos = record e { reclaim_size = add64 e.reclaim_size pos.size }

    pub counted-SameFiles : (e : Engine Ix) (pos : LogRecordPos) → SameFiles e (counted e pos)
    counted-SameFiles e pos = record {
      dir_same = refl;
      active_same = refl;
      older_same = refl;
      options_same = refl;
    }

    -- `delete` of a key that the index has appends one record, and the index forgets the key.
    pub delete_run :
        (e : Engine Ix) (key : Bytes) (old : LogRecordPos)
        → HasFiles e
        → key ≢ []
        → ix.get key e.index ≡ some old
        → Fits (delete_record key)
        → HasRoom e (length (record_bytes c (delete_record key)))
        → (pos : LogRecordPos) × (e1 : Engine Ix) × (delete_key ix c os key e
            ≡ (ok tt, index_delete ix key (counted e1 pos)))
          × Appended e (record_bytes c (delete_record key)) pos e1
    unfolding delete_key
    delete_run e key old files ne here fits room =
        let (pos, e1, run, a) =
          append_log_record_lem c os healthy (delete_record key) e fits files room in
        (pos, e1, rw (not_empty key ne, here, run), a)

    -- `delete` of a key that the index lacks does nothing.
    pub delete_none :
        (e : Engine Ix) (key : Bytes)
        → key ≢ []
        → ix.get key e.index ≡ none
        → delete_key ix c os key e ≡ (ok tt, e)
    unfolding delete_key
    delete_none e key ne gone = rw (not_empty key ne, gone) refl

    pub Refines-deleted :
        {e e1 : Engine Ix} {m : Store} {pos : LogRecordPos} (key : Bytes)
        → Appended e (record_bytes c (delete_record key)) pos e1
        → Refines e m
        → Refines (index_delete ix key (counted e1 pos)) (store_delete key m)
    Refines-deleted {e1 = e1} {pos = pos} key a h =
        Refines-index_delete key (Refines-same (counted-SameFiles e1 pos) refl (Refines-append a h))

    -- `delete` succeeds, and the engine holds the map without the key.
    pub delete_key-Refines :
        (e : Engine Ix) (m : Store) (key : Bytes)
        → Refines e m
        → key ≢ []
        → Fits (delete_record key)
        → HasRoom e (length (record_bytes c (delete_record key)))
        → (e' : Engine Ix) × (delete_key ix c os key e ≡ (ok tt, e'))
          × Refines e' (store_delete key m)
    delete_key-Refines e m key h ne fits room = elim (Option-cases (ix.get key e.index)) [
      | inl gone ↦ (e, delete_none e key ne gone, Refines-absent key h gone)
      | inr (old, here) ↦
          let (pos, e1, run, a) = delete_run e key old h.files ne here fits room in
          (index_delete ix key (counted e1 pos), run, Refines-deleted key a h)
    ]
