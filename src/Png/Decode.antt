-- ===== src/Png/Decode.antt =====
-- src/png.rs: a reader of the files, by the PNG, zlib and DEFLATE formats, for stored blocks and
-- unfiltered scanlines of 8-bit truecolor. Its checksums are those of Png/Sums.
use smallishtalk.Base.{
  ℕ, zero, suc, ◌+◌, ◌*◌, ◌/◌, ◌%◌, Bool, true, false, ◌&&◌, Option, none, some, List, [], ◌∷◌,
  ◌++◌, length, take, drop, leb, ◌==◌, if◌then◌else◌, ◌>>=◌,
}
use smallishtalk.Png.Sums.{crc_of, adler_of}
use smallishtalk.Png.{be_bytes, is_nil, signature, name_ihdr, name_idat, name_iend}

abbrev pub eq_list : List ℕ → List ℕ → Bool
eq_list [] [] = true
eq_list [] (y ∷ ys) = false
eq_list (x ∷ xs) [] = false
eq_list (x ∷ xs) (y ∷ ys) = (x == y) && eq_list xs ys

abbrev pub from_le : List ℕ → ℕ
from_le [] = 0
from_le (b ∷ bs) = b + 256 * from_le bs

abbrev pub from_be : ℕ → List ℕ → ℕ
from_be acc [] = acc
from_be acc (b ∷ bs) = from_be (acc * 256 + b) bs

-- A stored block with this head, these lengths and these bytes after them; `more` reads on.
unfoldable pub inflate_block :
    (List ℕ → Option (List ℕ × List ℕ)) → (head len nlen : ℕ) → List ℕ → Option (List ℕ × List ℕ)
inflate_block more head len nlen s =
    let body = take len s in
    let next = more (drop len s) in
    if head / 2 % 4 == 0 && (len + nlen == 0xffff) && leb len (length s)
    then (if head % 2 == 1
        then some (body, drop len s)
        else (next >>= λ got. some (body ++ got.0, got.1)))
    else none

-- The bytes of stored blocks and what follows the final one.
unfoldable pub inflate : (fuel : ℕ) → List ℕ → Option (List ℕ × List ℕ)
unfolding inflate_block
inflate zero s = none
inflate (suc fuel) [] = none
inflate (suc fuel) (head ∷ s) =
    inflate_block (inflate fuel) head (from_le (take 2 s)) (from_le (take 2 (drop 2 s))) (drop 4 s)

-- A zlib stream: the header, the blocks and the checksum.
unfoldable pub unzlib : List ℕ → Option (List ℕ)
unfolding inflate
unzlib s = inflate (length s) (drop 2 s) >>= λ got.
    if eq_list (take 2 s) (0x78 ∷ 0x01 ∷ []) && eq_list got.1 (be_bytes (adler_of got.0))
    then some got.0
    else none

-- The body of a chunk of this name and length, in what follows them.
unfoldable pub read_body : (name found : List ℕ) → (len : ℕ) → List ℕ → Option (List ℕ × List ℕ)
read_body name found len s =
    let body = take len s in
    let after = drop len s in
    if eq_list found name
      && leb len (length s)
      && eq_list (take 4 after) (be_bytes (crc_of (name ++ body)))
    then some (body, drop 4 after)
    else none

-- The body of the chunk with this name at the start, and what follows it.
unfoldable pub read_chunk : (name : List ℕ) → List ℕ → Option (List ℕ × List ℕ)
unfolding read_body
read_chunk name s = read_body name (take 4 (drop 4 s)) (from_be 0 (take 4 s)) (drop 8 s)

-- The scanlines without their filter bytes.
unfoldable pub unfilter : (n stride : ℕ) → List ℕ → Option (List ℕ)
unfilter zero stride s = if is_nil s then some [] else none
unfilter (suc n) stride [] = none
unfilter (suc n) stride (filter ∷ s) =
    let rest = unfilter n stride (drop stride s) in
    if (filter == 0) && leb stride (length s)
    then (rest >>= λ rows. some (take stride s ++ rows))
    else none

-- The rest of the image, once its three chunks are read.
unfoldable pub decode_body : (head idat end rest : List ℕ) → Option (ℕ × ℕ × List ℕ)
unfolding unzlib unfilter
decode_body head idat end rest =
    let width = from_be 0 (take 4 head) in
    let height = from_be 0 (take 4 (drop 4 head)) in
    if eq_list (drop 8 head) (8 ∷ 2 ∷ 0 ∷ 0 ∷ 0 ∷ []) && is_nil end && is_nil rest
    then (unzlib idat >>= λ raw.
        unfilter height (width * 3) raw >>= λ rows. some (width, height, rows))
    else none

-- The size and the bytes of an image.
unfoldable pub decode_rgb : List ℕ → Option (ℕ × ℕ × List ℕ)
unfolding read_chunk decode_body
decode_rgb file =
    if eq_list (take 8 file) signature
    then (read_chunk name_ihdr (drop 8 file) >>= λ head. read_chunk name_idat head.1 >>= λ idat.
        read_chunk name_iend idat.1 >>= λ end. decode_body head.0 idat.0 end.0 end.1)
    else none
