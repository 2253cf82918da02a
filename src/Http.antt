-- ===== src/Http.antt =====
-- http/src/main.rs: the handlers of the HTTP server. A response is its status and its body; what
-- `serde_json` prints is a parameter.
use bitcask_rs.Base.{
  ℕ, ◌≡◌, refl, Bool, true, false, if◌then◌else◌, Option, some, none, Option-cases, inl, inr, List,
  [], ◌∷◌, Bytes,
}
use bitcask_rs.Errors.{AppError, Result, ok, err, panic, stuck, key_is_empty, is_key_not_found}
use bitcask_rs.Exec.{Exec}
use bitcask_rs.Codec.{Codec}
use bitcask_rs.Fs.{Os, IsHealthy}
use bitcask_rs.Index.{Indexer}
use bitcask_rs.Index.BTree.{BTree}
use bitcask_rs.Options.{is_empty}
use bitcask_rs.Engine.{Engine, get, put, delete_key}
use bitcask_rs.Engine.Refine.{Store, Reads, get-Reads}
use bitcask_rs.Iterator.{engine_keys}
use bitcask_rs.Stats.{Stat, stat}

-- The body's text, where it is not data.
pub data Body : Type 0 where
  ok_body failed_to_put failed_to_get failed_to_delete failed_to_stat key_not_found_body : Body
  bytes_body : Bytes → Body

pub data Response : Type 0 where
  ok_response internal_server_error : Body → Response

-- `e == AppError::KeyIsEmpty`.
abbrev pub is_key_is_empty : AppError → Bool
is_key_is_empty key_is_empty = true
is_key_is_empty _ = false

module _ {Ix : Type 0} (ix : Indexer Ix) (c : Codec) (os : Os) where
  -- The first failed `put` ends the loop; the pairs come in the order of the hash map.
  abbrev next_put :
      Result (Unit {0}) × Engine Ix → Exec (Engine Ix) Response → Result Response × Engine Ix
  next_put (ok x, e) rest = rest e
  next_put (err er, e) rest = (ok (internal_server_error failed_to_put), e)
  next_put (panic, e) rest = (panic, e)
  next_put (stuck, e) rest = (stuck, e)

  unfoldable pub put_handler : List (Bytes × Bytes) → Exec (Engine Ix) Response
  put_handler [] e = (ok (ok_response ok_body), e)
  put_handler ((key, value) ∷ data_pairs) e =
      next_put (put ix c os key value e) (put_handler data_pairs)

  abbrev get_answered : Result Bytes → Result Response
  get_answered (ok value) = ok (ok_response (bytes_body value))
  get_answered (err e) =
      if is_key_not_found e
      then ok (ok_response key_not_found_body)
      else ok (internal_server_error failed_to_get)
  get_answered panic = panic
  get_answered stuck = stuck

  unfoldable pub get_handler : Bytes → Engine Ix → Result Response
  get_handler key e = get_answered (get ix c os key e)

  abbrev delete_answered : Result (Unit {0}) × Engine Ix → Result Response × Engine Ix
  delete_answered (ok x, e) = (ok (ok_response ok_body), e)
  delete_answered (err er, e) = (
    ok (if is_key_is_empty er then ok_response ok_body else internal_server_error failed_to_delete),
    e,
  )
  delete_answered (panic, e) = (panic, e)
  delete_answered (stuck, e) = (stuck, e)

  unfoldable pub delete_handler : Bytes → Exec (Engine Ix) Response
  delete_handler key e = delete_answered (delete_key ix c os key e)

  -- What the map says to a `get`.
  abbrev pub map_response : Option Bytes → Response
  map_response none = ok_response key_not_found_body
  map_response (some value) = ok_response (bytes_body value)

  -- With a working operating system, where what can be read from the engine is a map, the get
  -- handler responds the value, that the key is not found, and to the empty key with an internal
  -- error.
  pub get_handler-Reads :
      (e : Engine Ix) (m : Store) (key : Bytes)
      → IsHealthy os
      → Reads ix c e m
      → get_handler key e
        ≡ ok (if is_empty key then internal_server_error failed_to_get else map_response (m key))
  unfolding get_handler is_key_not_found
  get_handler-Reads e m [] healthy h = rw (get-Reads ix c os healthy e m [] h) refl
  get_handler-Reads e m (b ∷ key) healthy h = elim (Option-cases (m (b ∷ key))) [
    | inl gone ↦ rw (get-Reads ix c os healthy e m (b ∷ key) h, gone) refl
    | inr (v, held) ↦ rw (get-Reads ix c os healthy e m (b ∷ key) h, held) refl
  ]

module _ (all_utf8 : List Bytes → Bool) (keys_json : List Bytes → Bytes)
    (stat_json : Stat → Bytes) where
  -- Keys that are not UTF-8 are a panic.
  unfoldable pub listkeys_handler : Engine BTree → Result Response
  listkeys_handler e =
      let keys = engine_keys e in
      if all_utf8 keys then ok (ok_response (bytes_body (keys_json keys))) else panic

  abbrev stat_answered : Result Stat → Result Response
  stat_answered (ok s) = ok (ok_response (bytes_body (stat_json s)))
  stat_answered (err e) = ok (internal_server_error failed_to_stat)
  stat_answered panic = panic
  stat_answered stuck = stuck

  unfoldable pub stat_handler : ℕ → Engine BTree → Result Response
  unfolding stat
  stat_handler dir_size e = stat_answered (stat dir_size e)
