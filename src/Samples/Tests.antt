-- ===== src/Samples/Tests.antt =====
-- Runs of the model that the source's own tests have, with their results.
use bitcask_rs.Base.{◌≡◌, refl, [], ◌∷◌, Bytes}
use bitcask_rs.Errors.{ok}
use bitcask_rs.Samples.Leb.{leb_encode, be32}
use bitcask_rs.Samples.Crc.{crc32_ieee}
use bitcask_rs.Samples.{codec}
use bitcask_rs.Data.LogRecord.{normal, delete, encode, get_crc}

abbrev name_key : Bytes
name_key = b'n' ∷ b'a' ∷ b'm' ∷ b'e' ∷ []

abbrev bitcask_value : Bytes
bitcask_value = b'b' ∷ b'i' ∷ b't' ∷ b'c' ∷ b'a' ∷ b's' ∷ b'k' ∷ b'-' ∷ b'r' ∷ b's' ∷ []

encode_normal :
    encode codec (record { key = name_key; value = bitcask_value; rec_type = normal })
    ≡ ok (
        1 ∷ 4 ∷ 10 ∷ 110 ∷ 97 ∷ 109 ∷ 101 ∷ 98 ∷ 105 ∷ 116 ∷ 99 ∷ 97 ∷ 115 ∷ 107 ∷ 45 ∷ 114 ∷ 115
        ∷ 60 ∷ 209 ∷ 119 ∷ 130 ∷ [])
unfolding encode leb_encode be32 crc32_ieee
encode_normal = refl

crc_normal :
    get_crc codec (record { key = name_key; value = bitcask_value; rec_type = normal })
    ≡ ok 1020360578
unfolding get_crc leb_encode crc32_ieee
crc_normal = refl

encode_empty_value :
    encode codec (record { key = name_key; value = []; rec_type = normal })
    ≡ ok (1 ∷ 4 ∷ 0 ∷ 110 ∷ 97 ∷ 109 ∷ 101 ∷ 223 ∷ 237 ∷ 55 ∷ 198 ∷ [])
unfolding encode leb_encode be32 crc32_ieee
encode_empty_value = refl

encode_deleted :
    encode codec (record { key = name_key; value = bitcask_value; rec_type = delete })
    ≡ ok (
        2 ∷ 4 ∷ 10 ∷ 110 ∷ 97 ∷ 109 ∷ 101 ∷ 98 ∷ 105 ∷ 116 ∷ 99 ∷ 97 ∷ 115 ∷ 107 ∷ 45 ∷ 114 ∷ 115
        ∷ 111 ∷ 75 ∷ 44 ∷ 6 ∷ [])
unfolding encode leb_encode be32 crc32_ieee
encode_deleted = refl
