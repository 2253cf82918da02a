-- ===== src/Redis/Server.antt =====
-- redis/src/main.rs: the commands of the Redis server. What a handler writes to the connection is a
-- list of replies; the texts of errors are left to their values.
use bitcask_rs.Base.{
  ℕ, ◌≡◌, ◌≢◌, refl, Bool, true, false, if◌then◌else◌, Option, some, none, List, [], ◌∷◌, Bytes,
  length, bytes_eq, bytes_eq_refl, bytes_eq_cons, arith,
}
use bitcask_rs.Errors.{AppError, Result, ok, err, panic, stuck, key_is_empty}
use bitcask_rs.Exec.{Exec}
use bitcask_rs.Codec.{Codec}
use bitcask_rs.Fs.{Os, IsHealthy}
use bitcask_rs.Index.{Indexer}
use bitcask_rs.Engine.{Engine, put}
use bitcask_rs.Engine.Append.{HasRoom}
use bitcask_rs.Engine.Refine.{Store, put_record, Refines}
use bitcask_rs.Data.LogRecord.Encode.{Fits, record_bytes}
use bitcask_rs.Redis.{Buf, Clock}
use bitcask_rs.Redis.Strings.{set, get_string, encode_string, set-get, expiry}
use bitcask_rs.Redis.Ops.{hset, sadd, lpush, rpush}
use bitcask_rs.Redis.Ops.Pops.{not_empty}
use bitcask_rs.Redis.ZSet.{Floats, zadd}

pub data Message : Type 0 where
  wrong_number unknown_command : Message
  of_error : AppError → Message

pub data Reply : Type 0 where
  write_error : Message → Reply
  write_string : Bytes → Reply
  write_integer : ℕ → Reply

-- What the server takes from the standard library's strings.
pub record Texts : Type 0 where
  pub from_utf8_lossy : Bytes → Bytes
  pub to_lowercase : Bytes → Bytes

abbrev pub ok_text : Bytes
ok_text = b'O' ∷ (b'K' ∷ [])

abbrev pub set_word : Bytes
set_word = b's' ∷ (b'e' ∷ (b't' ∷ []))

abbrev pub get_word : Bytes
get_word = b'g' ∷ (b'e' ∷ (b't' ∷ []))

abbrev pub as_integer : Bool → ℕ
as_integer true = 1
as_integer false = 0

module _ {Ix : Type 0} where
  -- `Ok(val) => ..., Err(e) => conn.write_error(..)`
  abbrev pub replied :
      {A : Type 0}
      → (A → Result (List Reply))
      → Result A × Engine Ix
      → Result (List Reply) × Engine Ix
  replied f (ok x, e) = (f x, e)
  replied f (err er, e) = (ok (write_error (of_error er) ∷ []), e)
  replied f (panic, e) = (panic, e)
  replied f (stuck, e) = (stuck, e)

  -- `set` writes OK behind an error too.
  abbrev pub set_replied : Result (Unit {0}) × Engine Ix → Result (List Reply) × Engine Ix
  set_replied (ok x, e) = (ok (write_string ok_text ∷ []), e)
  set_replied (err er, e) = (ok (write_error (of_error er) ∷ (write_string ok_text ∷ [])), e)
  set_replied (panic, e) = (panic, e)
  set_replied (stuck, e) = (stuck, e)

  abbrev pub wrong_arguments : Exec (Engine Ix) (List Reply)
  wrong_arguments e = (ok (write_error wrong_number ∷ []), e)

-- `val.unwrap()`
abbrev pub string_reply : Option Bytes → Result (List Reply)
string_reply none = panic
string_reply (some text) = ok (write_string text ∷ [])

abbrev pub bool_reply : Bool → Result (List Reply)
bool_reply b = ok (write_integer (as_integer b) ∷ [])

abbrev pub number_reply : ℕ → Result (List Reply)
number_reply n = ok (write_integer n ∷ [])

module _ {Ix : Type 0} (ix : Indexer Ix) (c : Codec) (os : Os) (b : Buf) (clock : Clock)
    {F : Type 0} (fl : Floats b F) (t : Texts) where
  open t use {from_utf8_lossy}

  unfoldable pub handle_set : List Bytes → Exec (Engine Ix) (List Reply)
  handle_set (name ∷ (key ∷ (value ∷ []))) e =
      set_replied
        (set ix c os b (from_utf8_lossy key) (from_utf8_lossy value) 0 (some clock.made_at) e)
  handle_set _ e = wrong_arguments e

  unfoldable pub handle_get : List Bytes → Exec (Engine Ix) (List Reply)
  handle_get (name ∷ (key ∷ [])) e =
      replied string_reply (get_string ix c os b clock.checked_at (from_utf8_lossy key) e, e)
  handle_get _ e = wrong_arguments e

  unfoldable pub handle_hset : List Bytes → Exec (Engine Ix) (List Reply)
  handle_hset (name ∷ (key ∷ (field ∷ (value ∷ [])))) e =
      replied bool_reply (
        hset ix c os b clock (from_utf8_lossy key) (from_utf8_lossy field) (from_utf8_lossy value)
          e)
  handle_hset _ e = wrong_arguments e

  unfoldable pub handle_sadd : List Bytes → Exec (Engine Ix) (List Reply)
  handle_sadd (name ∷ (key ∷ (member ∷ []))) e =
      replied bool_reply (sadd ix c os b clock (from_utf8_lossy key) (from_utf8_lossy member) e)
  handle_sadd _ e = wrong_arguments e

  unfoldable pub handle_lpush : List Bytes → Exec (Engine Ix) (List Reply)
  handle_lpush (name ∷ (key ∷ (value ∷ []))) e =
      replied number_reply (lpush ix c os b clock (from_utf8_lossy key) (from_utf8_lossy value) e)
  handle_lpush _ e = wrong_arguments e

  unfoldable pub handle_rpush : List Bytes → Exec (Engine Ix) (List Reply)
  handle_rpush (name ∷ (key ∷ (value ∷ []))) e =
      replied number_reply (rpush ix c os b clock (from_utf8_lossy key) (from_utf8_lossy value) e)
  handle_rpush _ e = wrong_arguments e

  -- A score that is no number is a panic.
  abbrev zadd_parsed : Bytes → Option F → Bytes → Exec (Engine Ix) (List Reply)
  zadd_parsed key none member e = (panic, e)
  zadd_parsed key (some score) member e =
      replied bool_reply (zadd c b fl ix os clock key score member e)

  unfoldable pub handle_zadd : List Bytes → Exec (Engine Ix) (List Reply)
  handle_zadd (name ∷ (key ∷ (score ∷ (member ∷ [])))) e =
      zadd_parsed (from_utf8_lossy key) (fl.parse (from_utf8_lossy score)) (from_utf8_lossy member)
        e
  handle_zadd _ e = wrong_arguments e

  -- The handler of a name, if the command is supported.
  abbrev pub handler_of : Bytes → List Bytes → Exec (Engine Ix) (List Reply)
  handler_of name args e =
      if bytes_eq name set_word
      then handle_set args e
      else if bytes_eq name get_word
      then handle_get args e
      else if bytes_eq name (b'h' ∷ (b's' ∷ (b'e' ∷ (b't' ∷ []))))
      then handle_hset args e
      else if bytes_eq name (b's' ∷ (b'a' ∷ (b'd' ∷ (b'd' ∷ []))))
      then handle_sadd args e
      else if bytes_eq name (b'l' ∷ (b'p' ∷ (b'u' ∷ (b's' ∷ (b'h' ∷ [])))))
      then handle_lpush args e
      else if bytes_eq name (b'r' ∷ (b'p' ∷ (b'u' ∷ (b's' ∷ (b'h' ∷ [])))))
      then handle_rpush args e
      else if bytes_eq name (b'z' ∷ (b'a' ∷ (b'd' ∷ (b'd' ∷ []))))
      then handle_zadd args e
      else (ok (write_error unknown_command ∷ []), e)

  -- `args[0]` panics without arguments.
  unfoldable pub command : List Bytes → Exec (Engine Ix) (List Reply)
  unfolding handle_set handle_get handle_hset handle_sadd handle_lpush handle_rpush handle_zadd
  command [] e = (panic, e)
  command (name ∷ args) e = handler_of (t.to_lowercase (from_utf8_lossy name)) (name ∷ args) e

  -- With a working operating system, on an engine that holds a map and has room, the command `set`,
  -- in any case of its letters, with a non-empty key and value that are UTF-8 and fit a record,
  -- replies OK, and the command `get` of the key that follows replies the value.
  pub command-set_get :
      (e : Engine Ix) (m : Store) (set_name get_name key value : Bytes)
      → IsHealthy os
      → Refines ix c e m
      → t.to_lowercase (from_utf8_lossy set_name) ≡ set_word
      → t.to_lowercase (from_utf8_lossy get_name) ≡ get_word
      → key ≢ []
      → value ≢ []
      → from_utf8_lossy key ≡ key
      → from_utf8_lossy value ≡ value
      → b.is_utf8 value ≡ true
      → Fits (put_record key (encode_string b value 0))
      → HasRoom e (length (record_bytes c (put_record key (encode_string b value 0))))
      → (e' : Engine Ix) × (command (set_name ∷ (key ∷ (value ∷ []))) e
          ≡ (ok (write_string ok_text ∷ []), e'))
        × (command (get_name ∷ (key ∷ [])) e' ≡ (ok (write_string value ∷ []), e'))
  unfolding command handle_set handle_get expiry
  command-set_get e m set_name get_name key value healthy h is_set is_get ne full key_text
        value_text text fits room =
      let (e', run, after, got) =
        set-get ix c os b e m key value 0 clock.checked_at (some clock.made_at) healthy h ne full
          (omega arith) text fits room in
      (
        e',
        rw (is_set, bytes_eq_refl set_word, key_text, value_text, run) refl,
        rw (is_get, bytes_eq_cons, bytes_eq_refl get_word, key_text, got) refl,
      )

  -- A `set` of an empty key and a non-empty value replies an error and then OK, and changes nothing.
  pub handle_set-empty_key :
      (e : Engine Ix) (set_name key value : Bytes)
      → from_utf8_lossy key ≡ []
      → from_utf8_lossy value ≢ []
      → handle_set (set_name ∷ (key ∷ (value ∷ []))) e
        ≡ (ok (write_error (of_error key_is_empty) ∷ (write_string ok_text ∷ [])), e)
  unfolding handle_set set put
  handle_set-empty_key e set_name key value empty full =
      rw (not_empty (t.from_utf8_lossy value) full, empty) refl
