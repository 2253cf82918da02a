-- ===== src/Redis/Ops/Pops.antt =====
-- redis/src/types.rs: what `find_metadata` makes of live metadata.
use bitcask_rs.Base.{
  ℕ, subst, ◌<◌, ◌==◌, ◌≡◌, ◌≢◌, refl, ◌∙◌, leb, false, not, ◌&&◌, [], ◌∷◌, ◌++◌, Bytes, ==_refl,
  arith,
}
use bitcask_rs.Errors.{ok}
use bitcask_rs.Codec.{Codec}
use bitcask_rs.Options.{is_empty}
use bitcask_rs.Redis.{Buf, Clock, RedisDataType, list}
use bitcask_rs.Redis.Meta.{
  Metadate, MetaFits, kept, encode_metadata, encode_list_key, type_from-byte,
  decode_metadata-encode,
}
use bitcask_rs.Redis.Ops.{metadata_from, unless_expired}

-- The metadata is not past its expiry.
abbrev pub IsLive : Clock → Metadate → Type 0
IsLive clock m = (not (m.expire == 0) && leb m.expire clock.checked_at) ≡ false

kept_list : (m : Metadate) → m.data_type ≡ list → kept m ≡ m
kept_list m h = rw h refl

pub not_empty : (key : Bytes) → key ≢ [] → is_empty key ≡ false
not_empty [] ne = absurd (ne refl)
not_empty (x ∷ key) ne = refl

pub append_not_empty : (key rest : Bytes) → key ≢ [] → is_empty (key ++ rest) ≡ false
append_not_empty [] rest ne = absurd (ne refl)
append_not_empty (x ∷ key) rest ne = refl

pub positive_size : (n : ℕ) → 0 < n → (n == 0) ≡ false
positive_size n h = ground arith

module _ (c : Codec) (b : Buf) (clock : Clock) where
  pub metadata_from-encode :
      (m : Metadate)
      → MetaFits m
      → metadata_from c b clock m.data_type (ok (encode_metadata c b m))
        ≡ ok (unless_expired c b clock m.data_type (kept m))
  unfolding metadata_from encode_metadata
  metadata_from-encode m h =
      rw (type_from-byte m.data_type, ==_refl, decode_metadata-encode c b m h)

  -- Live metadata of the type that is asked for.
  pub metadata_from-live :
      (m : Metadate) (t : RedisDataType)
      → MetaFits m
      → m.data_type ≡ t
      → IsLive clock m
      → metadata_from c b clock t (ok (encode_metadata c b m)) ≡ ok (kept m)
  metadata_from-live m t h of_type live =
      subst
        (λ t'.
          metadata_from c b clock t' (ok (encode_metadata c b m))
          ≡ ok (unless_expired c b clock t' (kept m)))
        of_type (metadata_from-encode m h)
      ∙ (rw live refl)

  pub metadata_from-list :
      (m : Metadate)
      → MetaFits m
      → m.data_type ≡ list
      → IsLive clock m
      → metadata_from c b clock list (ok (encode_metadata c b m)) ≡ ok m
  metadata_from-list m h is_a_list live =
      metadata_from-live m list h is_a_list live ∙ (rw (kept_list m is_a_list) refl)

pub list_key_not_empty :
    (c : Codec) (b : Buf) (key : Bytes) (version index : ℕ)
    → key ≢ []
    → is_empty (encode_list_key c b (record { key = key; version = version; index = index }))
      ≡ false
unfolding encode_list_key
list_key_not_empty c b key version index ne = append_not_empty key _ ne
