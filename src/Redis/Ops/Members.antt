-- ===== src/Redis/Ops/Members.antt =====
-- redis/src/types.rs: `s_is_member` on an engine that holds a map.
use bitcask_rs.Base.{ℕ, ◌<◌, ◌≡◌, ◌≢◌, refl, Bool, true, false, Option, none, some, [], Bytes}
use bitcask_rs.Errors.{ok, is_key_not_found}
use bitcask_rs.Codec.{Codec}
use bitcask_rs.Fs.{Os, IsHealthy}
use bitcask_rs.Index.{Indexer}
use bitcask_rs.Options.{is_empty}
use bitcask_rs.Engine.{Engine}
use bitcask_rs.Engine.Refine.{Store, found, Refines, get-Refines}
use bitcask_rs.Redis.{Buf, Clock, set}
use bitcask_rs.Redis.Meta.{Metadate, MetaFits, encode_metadata, encode_set_key}
use bitcask_rs.Redis.Ops.{find_metadata, s_is_member, member_or_err}
use bitcask_rs.Redis.Ops.Pops.{
  IsLive, metadata_from-live, not_empty, append_not_empty, positive_size,
}

-- Whether the map has the key.
abbrev pub is_held : Option Bytes → Bool
is_held none = false
is_held (some v) = true

set_key_not_empty :
    (c : Codec) (b : Buf) (key member : Bytes) (version : ℕ)
    → key ≢ []
    → is_empty (encode_set_key c b (record { key = key; version = version; member = member }))
      ≡ false
unfolding encode_set_key
set_key_not_empty c b key member version ne = append_not_empty key _ ne

member_or_err-found : (o : Option Bytes) → member_or_err (found o) ≡ ok (is_held o)
unfolding is_key_not_found
member_or_err-found none = refl
member_or_err-found (some v) = refl

module _ {Ix : Type 0} (ix : Indexer Ix) (c : Codec) (os : Os) (b : Buf) (clock : Clock) where
  -- With a working operating system, on an engine that holds a map in which a non-empty key has the
  -- live metadata of a set with members, whose numbers fit: `s_is_member` answers whether the map has
  -- the member's key, and changes nothing.
  pub s_is_member-Refines :
      (e : Engine Ix) (m : Store) (key member : Bytes) (meta : Metadate)
      → IsHealthy os
      → Refines ix c e m
      → key ≢ []
      → m key ≡ some (encode_metadata c b meta)
      → MetaFits meta
      → meta.data_type ≡ set
      → IsLive clock meta
      → 0 < meta.size
      → s_is_member ix c os b clock key member e ≡ (
        ok (
            is_held (
              m (
                encode_set_key c b
                  (record { key = key; version = meta.version; member = member })))),
        e,
      )
  unfolding s_is_member find_metadata
  s_is_member-Refines e m key member meta healthy h ne held fits is_a_set live some_member =
      rw
        (
          get-Refines ix c os healthy e m key h,
          not_empty key ne,
          held,
          metadata_from-live c b clock meta set fits is_a_set live,
          positive_size meta.size some_member,
          get-Refines ix c os healthy e m
              (encode_set_key c b (record { key = key; version = meta.version; member = member }))
              h,
          set_key_not_empty c b key member meta.version ne,
          member_or_err-found,
        )
        refl
