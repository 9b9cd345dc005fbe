-- ===== src/Png.antt =====
-- src/png.rs: the writer of PNG files, with stored DEFLATE blocks in a zlib stream. A file and its
-- parts are lists of bytes. A panic of the source is `none`.
pub mod Sums
pub mod Checked
pub mod Decode
pub mod Parts
pub mod Blocks
pub mod RoundTrip
mod Tests
use Prim.Native.Nat.{bit_and, bit_or, bit_xor}
use smallishtalk.Base.{
  ℕ, zero, suc, ◌+◌, ◌-◌, ◌*◌, ◌/◌, ◌%◌, ◌^◌, Bool, true, false, not, Option, none, some, List, [],
  ◌∷◌, ◌++◌, length, take, drop, ltb, leb, ◌==◌, if◌then◌else◌, ◌>>=◌,
}
use smallishtalk.Base.Words.{u16_mod, u32_mod, shl}

-- x.wrapping_neg() of a u32
abbrev wrapping_neg : ℕ → ℕ
wrapping_neg x = (u32_mod - x) % u32_mod

unfoldable pub crc_bit : ℕ → ℕ
crc_bit crc = bit_xor (crc / 2) (bit_and 0xedb88320 (wrapping_neg (bit_and crc 1)))

-- for _ in 0..n
unfoldable pub crc_bits : (n : ℕ) → ℕ → ℕ
unfolding crc_bit
crc_bits zero crc = crc
crc_bits (suc n) crc = crc_bits n (crc_bit crc)

unfoldable pub crc_bytes : ℕ → List ℕ → ℕ
unfolding crc_bits
crc_bytes crc [] = crc
crc_bytes crc (b ∷ bs) = crc_bytes (crc_bits 8 (bit_xor crc b)) bs

unfoldable pub crc32 : List ℕ → ℕ
unfolding crc_bytes
crc32 bytes = u32_mod - 1 - crc_bytes (u32_mod - 1) bytes

unfoldable pub adler_from : (a b : ℕ) → List ℕ → ℕ
adler_from a b [] = bit_or (shl u32_mod b 16) a
adler_from a b (byte ∷ bytes) =
    let a' = (a + byte) % 65521 in adler_from a' ((b + a') % 65521) bytes

unfoldable pub adler32 : List ℕ → ℕ
unfolding adler_from
adler32 bytes = adler_from 1 0 bytes

-- to_be_bytes of a u32, to_le_bytes of a u16
abbrev pub be_bytes : ℕ → List ℕ
be_bytes x = x / 2 ^ 24 % 256 ∷ x / 2 ^ 16 % 256 ∷ x / 2 ^ 8 % 256 ∷ x % 256 ∷ []

abbrev pub le_bytes : ℕ → List ℕ
le_bytes x = x % 256 ∷ x / 2 ^ 8 % 256 ∷ []

abbrev pub is_nil : List ℕ → Bool
is_nil [] = true
is_nil (b ∷ bs) = false

abbrev pub min_len : ℕ → ℕ → ℕ
min_len a b = if leb a b then a else b

-- The stored block of the first bytes that are left.
unfoldable pub stored_block : List ℕ → List ℕ
stored_block rest =
    let len = min_len (length rest) 0xffff in
    (if leb (length rest) len then 1 else 0) ∷ le_bytes (len % u16_mod)
    ++ le_bytes (u16_mod - 1 - len % u16_mod)
    ++ take len rest

-- The loop over what is left of the bytes, raw[i..].
unfoldable pub stored_blocks : (fuel : ℕ) → List ℕ → Option (List ℕ)
unfolding stored_block
stored_blocks zero rest = none
stored_blocks (suc fuel) rest =
    let more = stored_blocks fuel (drop (min_len (length rest) 0xffff) rest) in
    if is_nil rest then some [] else (do blocks ← more; some (stored_block rest ++ blocks))

-- The loop ends after a round for each byte at most.
unfoldable pub zlib_stored : List ℕ → Option (List ℕ)
unfolding stored_blocks adler32
zlib_stored raw =
    let finish = λ (blocks : List ℕ). some (0x78 ∷ 0x01 ∷ blocks ++ be_bytes (adler32 raw)) in
    if is_nil raw
    then finish (0x01 ∷ 0x00 ∷ 0x00 ∷ 0xff ∷ 0xff ∷ [])
    else (stored_blocks (length raw + 1) raw >>= finish)

unfoldable pub chunk : (name body : List ℕ) → List ℕ
unfolding crc32
chunk name body =
    be_bytes (length body % u32_mod) ++ name ++ body ++ be_bytes (crc32 (name ++ body))

-- The scanlines from row `y` on, each with a filter byte 0 before it.
unfoldable pub scanlines : (y n stride : ℕ) → List ℕ → List ℕ
scanlines y zero stride rgb = []
scanlines y (suc n) stride rgb =
    0 ∷ take stride (drop (y * stride) rgb) ++ scanlines (y + 1) n stride rgb

abbrev pub signature : List ℕ
signature = 137 ∷ 80 ∷ 78 ∷ 71 ∷ 13 ∷ 10 ∷ 26 ∷ 10 ∷ []

abbrev pub name_ihdr : List ℕ
name_ihdr = 73 ∷ 72 ∷ 68 ∷ 82 ∷ []

abbrev pub name_idat : List ℕ
name_idat = 73 ∷ 68 ∷ 65 ∷ 84 ∷ []

abbrev pub name_iend : List ℕ
name_iend = 73 ∷ 69 ∷ 78 ∷ 68 ∷ []

abbrev pub ihdr_of : (width height : ℕ) → List ℕ
ihdr_of width height = be_bytes width ++ be_bytes height ++ 8 ∷ 2 ∷ 0 ∷ 0 ∷ 0 ∷ []

unfoldable pub encode_rgb : (width height : ℕ) → List ℕ → Option (List ℕ)
unfolding scanlines zlib_stored chunk
encode_rgb width height rgb =
    let stride = width * 3 % u32_mod in
    let file = λ (idat : List ℕ). some (
      signature
      ++ chunk name_ihdr (ihdr_of width height)
      ++ chunk name_idat idat
      ++ chunk name_iend []) in
    if length rgb == width * height % u32_mod * 3 % u32_mod
    then (zlib_stored (scanlines 0 height stride rgb) >>= file)
    else none
