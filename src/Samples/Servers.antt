-- ===== src/Samples/Servers.antt =====
-- The theorems about the servers, from an engine with no data.
use bitcask_rs.Base.{◌+◌, leb, ◌&&◌, if◌then◌else◌, ◌≡◌, refl, [], ◌∷◌, Bytes, length, arith}
use bitcask_rs.Errors.{ok}
use bitcask_rs.Index.BTree.{BTree, btree_indexer}
use bitcask_rs.Samples.{codec, calm, calm-IsHealthy}
use bitcask_rs.Samples.Leb.{leb_encode, be32}
use bitcask_rs.Samples.Engines.{empty_engine, empty_engine-Refines, no_values, a_key, a_value}
use bitcask_rs.Samples.Strings.{buf, be64, be128}
use bitcask_rs.Samples.Members.{later}
use bitcask_rs.Samples.Scores.{scores}
use bitcask_rs.Data.LogRecord.Encode.{Fits, record_bytes}
use bitcask_rs.Engine.{Engine}
use bitcask_rs.Engine.Append.{HasRoom}
use bitcask_rs.Engine.Refine.{put_record, Refines-Reads}
use bitcask_rs.Http.{get_handler, map_response, get_handler-Reads}
use bitcask_rs.Redis.Strings.{encode_string}
use bitcask_rs.Redis.Server.{Texts, write_string, ok_text, command, command-set_get}

abbrev lower : Bytes → Bytes
lower [] = []
lower (x ∷ xs) = (if leb 65 x && leb x 90 then x + 32 else x) ∷ lower xs

-- Texts of ASCII bytes.
abbrev ascii : Texts
ascii = record { from_utf8_lossy = λ bs. bs; to_lowercase = lower }

abbrev set_upper : Bytes
set_upper = b'S' ∷ (b'E' ∷ (b'T' ∷ []))

abbrev get_mixed : Bytes
get_mixed = b'G' ∷ (b'e' ∷ (b't' ∷ []))

text-Fits : Fits (put_record a_key (encode_string buf a_value 0))
unfolding encode_string be128 be64 be32
text-Fits = record { key_fits = omega arith; value_fits = omega arith }

text-HasRoom :
    HasRoom empty_engine
      (length (record_bytes codec (put_record a_key (encode_string buf a_value 0))))
unfolding record_bytes leb_encode be32 encode_string be128 be64
text-HasRoom = record { ids = omega arith; bytes = omega arith }

command-set_get_example :
    (e' : Engine BTree) × (command btree_indexer codec calm buf later scores ascii
        (set_upper ∷ (a_key ∷ (a_value ∷ [])))
        empty_engine
      ≡ (ok (write_string ok_text ∷ []), e'))
    × (command btree_indexer codec calm buf later scores ascii (get_mixed ∷ (a_key ∷ [])) e'
        ≡ (ok (write_string a_value ∷ []), e'))
command-set_get_example =
    command-set_get btree_indexer codec calm buf later scores ascii empty_engine no_values set_upper
      get_mixed a_key a_value calm-IsHealthy empty_engine-Refines refl refl (λ h. cc) (λ h. cc) refl
      refl refl text-Fits text-HasRoom

get_handler-Reads_example :
    get_handler btree_indexer codec calm a_key empty_engine
    ≡ ok (map_response btree_indexer codec calm (no_values a_key))
get_handler-Reads_example =
    get_handler-Reads btree_indexer codec calm empty_engine no_values a_key calm-IsHealthy
      (Refines-Reads btree_indexer codec empty_engine-Refines)
