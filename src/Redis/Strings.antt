-- ===== src/Redis/Strings.antt =====
-- redis/src/types.rs and redis/src/generic.rs: the string operations, `del` and `key_type`.
use bitcask_rs.Base.{
  ℕ, ◌<◌, ◌==◌, ◌≡◌, ◌≢◌, refl, ltb, leb, Bool, true, false, ◌&&◌, if◌then◌else◌, Option, some,
  none, [], ◌∷◌, ◌++◌, Bytes, length, bytes_eq_refl,
}
use bitcask_rs.Errors.{Result, ok, err, wrong_type_operation, or_panic, ◌>>=◌}
use bitcask_rs.Exec.{Exec, pure}
use bitcask_rs.Codec.{Codec}
use bitcask_rs.Fs.{Os, IsHealthy}
use bitcask_rs.Index.{Indexer}
use bitcask_rs.Options.{is_empty}
use bitcask_rs.Engine.{Engine, get, put, delete_key}
use bitcask_rs.Engine.Append.{HasRoom}
use bitcask_rs.Engine.Refine.{Store, store_put, put_record, Refines, get-Refines, put-Refines}
use bitcask_rs.Data.LogRecord.Encode.{Fits, record_bytes}
use bitcask_rs.Redis.{Buf, RedisDataType, string, same_type, type_byte, type_from, get_u8, u128_mod}
use bitcask_rs.Redis.Meta.{type_from-byte}
use bitcask_rs.Redis.Ops.{utf8}

-- The expiry that `set` stores: 0 without a time to live, or if the clock cannot reach it.
-- `reached` is the clock's answer to `checked_add(ttl)`.
unfoldable pub expiry : ℕ → Option ℕ → ℕ
expiry ttl none = 0
expiry ttl (some t) = if ttl == 0 then 0 else t

-- `exprie > 0 && exprie <= now`
abbrev pub is_expired : ℕ → ℕ → Bool
is_expired exprie now = ltb 0 exprie && leb exprie now

module _ (b : Buf) where
  unfoldable pub encode_string : Bytes → ℕ → Bytes
  encode_string value exprie = type_byte string ∷ (b.put_u128 exprie ++ value)

  abbrev text_of : Bytes → Result (Option Bytes)
  text_of v = do text ← utf8 b v; ok (some text)

  abbrev unless_past : ℕ → ℕ × Bytes → Result (Option Bytes)
  unless_past now (exprie, v) = if is_expired exprie now then ok none else text_of v

  abbrev string_in : Bool → ℕ → Bytes → Result (Option Bytes)
  string_in true now buf = do payload ← or_panic (b.get_u128 buf); unless_past now payload
  string_in false now buf = err wrong_type_operation

  -- `get` on what the engine's `get` answered.
  unfoldable pub decode_string : ℕ → Bytes → Result (Option Bytes)
  decode_string now buf0 = do
    (byte, buf1) ← or_panic (get_u8 buf0)
    key_type ← type_from byte
    string_in (same_type key_type string) now buf1

module _ {Ix : Type 0} (ix : Indexer Ix) (c : Codec) (os : Os) (b : Buf) where
  -- An empty value is not written.
  unfoldable pub set : Bytes → Bytes → ℕ → Option ℕ → Exec (Engine Ix) Unit
  set key value ttl reached =
      if is_empty value
      then pure tt
      else put ix c os key (encode_string b value (expiry ttl reached))

  unfoldable pub get_string : ℕ → Bytes → Engine Ix → Result (Option Bytes)
  get_string now key e = do buf ← get ix c os key e; decode_string b now buf

  unfoldable pub del : Bytes → Exec (Engine Ix) Unit
  del key = delete_key ix c os key

  unfoldable pub key_type : Bytes → Engine Ix → Result RedisDataType
  key_type key e = do buf ← get ix c os key e; first ← or_panic (get_u8 buf); type_from first.0

not_empty : (key : Bytes) → key ≢ [] → is_empty key ≡ false
not_empty [] ne = absurd (ne refl)
not_empty (x ∷ key) ne = refl

module _ (b : Buf) where
  pub decode_string-encode :
      (now exprie : ℕ) (value : Bytes)
      → exprie < u128_mod
      → b.is_utf8 value ≡ true
      → decode_string b now (encode_string b value exprie)
        ≡ ok (if is_expired exprie now then none else some value)
  unfolding decode_string encode_string
  decode_string-encode now exprie value h text =
      rw (type_from-byte string, b.get_u128_put exprie value h, text)
        (either (is_expired exprie now))
    where
      either :
          (past : Bool)
          → (if past then Result.ok none else ok (some value))
            ≡ ok (if past then none else some value)
      either true = refl
      either false = refl

module _ {Ix : Type 0} (ix : Indexer Ix) (c : Codec) (os : Os) (b : Buf) where
  -- With a working operating system, on an engine that holds a map, a key and a value that are not
  -- empty, a value in UTF-8, an expiry below 2^128, and a record that fits and has room: `set`
  -- succeeds, the engine then holds the map with the encoded string, and a `get` that follows answers
  -- the value, or none once it has expired.
  pub set-get :
      (e : Engine Ix) (m : Store) (key value : Bytes) (ttl now : ℕ) (reached : Option ℕ)
      → IsHealthy os
      → Refines ix c e m
      → key ≢ []
      → value ≢ []
      → expiry ttl reached < u128_mod
      → b.is_utf8 value ≡ true
      → Fits (put_record key (encode_string b value (expiry ttl reached)))
      → HasRoom e
          (length (record_bytes c (put_record key (encode_string b value (expiry ttl reached)))))
      → (e' : Engine Ix) × (set ix c os b key value ttl reached e ≡ (ok tt, e'))
        × Refines ix c e' (store_put key (encode_string b value (expiry ttl reached)) m)
        × (get_string ix c os b now key e'
            ≡ ok (if is_expired (expiry ttl reached) now then none else some value))
  unfolding set get_string
  set-get e m key value ttl now reached healthy h ne full small text fits room =
      let stored = encode_string b value (expiry ttl reached) in
      let (e', run, after) = put-Refines ix c os healthy e m key stored h ne fits room in
      (
        e',
        rw (not_empty value full, run),
        after,
        rw (
          get-Refines ix c os healthy e' (store_put key stored m) key after,
          not_empty key ne,
          bytes_eq_refl key,
          decode_string-encode b now (expiry ttl reached) value small text,
        ),
      )
