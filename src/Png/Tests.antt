-- ===== src/Png/Tests.antt =====
-- An example for src/png.rs.
use smallishtalk.Base.{ℕ, ◌≡◌, refl, arith, List, [], ◌∷◌, some}
use smallishtalk.Png.{crc32, crc_bytes, crc_bits, crc_bit, adler32, adler_from, encode_rgb}
use smallishtalk.Png.Decode.{decode_rgb}
use smallishtalk.Png.RoundTrip.{decode_rgb-encode_rgb}

-- A red and a blue pixel above each other.
abbrev pixels : List ℕ
pixels = 255 ∷ 0 ∷ 0 ∷ 0 ∷ 0 ∷ 255 ∷ []

decode_rgb-encode_rgb_example :
    (file : List ℕ) × (encode_rgb 1 2 pixels ≡ some file) × (decode_rgb file ≡ some (1, 2, pixels))
decode_rgb-encode_rgb_example =
    decode_rgb-encode_rgb 1 2 pixels refl (omega arith) (omega arith) (omega arith)

-- The check value of CRC-32 for the digits 1 to 9, and the Adler-32 of them.
abbrev digits_of_ten : List ℕ
digits_of_ten = 49 ∷ 50 ∷ 51 ∷ 52 ∷ 53 ∷ 54 ∷ 55 ∷ 56 ∷ 57 ∷ []

crc32_check : crc32 digits_of_ten ≡ 0xcbf43926
unfolding crc32 crc_bytes crc_bits crc_bit
crc32_check = refl

adler32_check : adler32 digits_of_ten ≡ 0x091e01de
unfolding adler32 adler_from
adler32_check = refl
