-- ===== src/Png/RoundTrip.antt =====
-- src/png.rs: an image written and read back.
use smallishtalk.Base.{
  ℕ, zero, suc, ◌+◌, ◌*◌, ◌%◌, ◌^◌, ◌<◌, ◌≤◌, ◌≡◌, ap, sym, ◌∙◌, arith, true, some, List, [], ◌++◌,
  length, take, drop, length-take_le, length-append, append_assoc, append-nil, take_all, ◌==◌,
  if_true, bind-some, ◌>>=◌,
}
use smallishtalk.Base.Words.{u32_mod}
use smallishtalk.Png.{
  be_bytes, zlib_stored, chunk, scanlines, signature, name_ihdr, name_idat, name_iend, ihdr_of,
  encode_rgb,
}
use smallishtalk.Png.Decode.{from_be, read_chunk, unzlib, unfilter, decode_body, decode_rgb}
use smallishtalk.Png.Parts.{from_be-be_bytes, read_chunk-chunk, unfilter-scanlines}
use smallishtalk.Png.Blocks.{zlib_stored-unzlib}

length-scanlines :
    (n y stride : ℕ) (rgb : List ℕ) → length (scanlines y n stride rgb) ≤ n * (stride + 1)
unfolding scanlines
length-scanlines zero y stride rgb = omega arith
length-scanlines (suc n) y stride rgb = omega (
  arith,
  length-append (take stride (drop (y * stride) rgb)) (scanlines (y + 1) n stride rgb),
  length-take_le stride (drop (y * stride) rgb),
  length-scanlines n (y + 1) stride rgb,
)

-- The three chunks.
abbrev file_of : (width height : ℕ) → List ℕ → List ℕ
file_of width height idat =
    signature
    ++ chunk name_ihdr (ihdr_of width height)
    ++ chunk name_idat idat
    ++ chunk name_iend []

decode-file_of :
    (width height : ℕ) (idat raw rgb : List ℕ)
    → width < 2 ^ 32
    → height < 2 ^ 32
    → length idat < 2 ^ 32
    → unzlib idat ≡ some raw
    → unfilter height (width * 3) raw ≡ some rgb
    → decode_rgb (file_of width height idat) ≡ some (width, height, rgb)
unfolding decode_rgb decode_body
decode-file_of width height idat raw rgb w h l unzipped rows =
    let ihdr = ihdr_of width height in
    let last = chunk name_iend [] in
    let head : read_chunk name_ihdr ((chunk name_ihdr ihdr ++ chunk name_idat idat) ++ last)
        ≡ some (ihdr, chunk name_idat idat ++ last) =
      ap (read_chunk name_ihdr) (append_assoc (chunk name_ihdr ihdr) (chunk name_idat idat) last)
      ∙ read_chunk-chunk 73 72 68 82 ihdr (chunk name_idat idat ++ last) (omega arith) in
    let middle : read_chunk name_idat (chunk name_idat idat ++ last) ≡ some (idat, last) =
      read_chunk-chunk 73 68 65 84 idat last l in
    let final : read_chunk name_iend last ≡ some ([], []) =
      ap (read_chunk name_iend) (sym (append-nil last))
      ∙ read_chunk-chunk 73 69 78 68 [] [] (omega arith) in
    bind-some _ head
    ∙ bind-some _ middle
    ∙ bind-some _ final
    ∙ bind-some _ unzipped
    ∙ ap (λ v. unfilter height' (v * 3) raw >>= λ rs. some (v, height', rs))
        (from_be-be_bytes width w)
    ∙ ap (λ v. unfilter v (width * 3) raw >>= λ rs. some (width, v, rs)) (from_be-be_bytes height h)
    ∙ bind-some _ rows
  where
    height' : ℕ
    height' = from_be 0 (be_bytes height)

-- A PNG file that `encode_rgb` writes is read back by the format: `encode_rgb` does not panic on
-- `width * height * 3` bytes, and the reader, which checks every length, complement and checksum
-- against its own CRC-32 and Adler-32 by their definitions, finds in its file the width, the height
-- and those bytes. The sizes have to fit in 32 bits.
pub decode_rgb-encode_rgb :
    (width height : ℕ) (rgb : List ℕ)
    → length rgb ≡ width * height * 3
    → width * 3 < 2 ^ 32
    → height < 2 ^ 32
    → height * (width * 3 + 1) * 6 + 11 < 2 ^ 32
    → (file : List ℕ) × (encode_rgb width height rgb ≡ some file)
      × (decode_rgb file ≡ some (width, height, rgb))
unfolding encode_rgb
decode_rgb-encode_rgb width height rgb size w h fits =
    let stride : width * 3 % u32_mod ≡ width * 3 = omega arith in
    let raw = scanlines 0 height (width * 3) rgb in
    let (idat, zipped, unzipped, short) = zlib_stored-unzlib raw in
    let rows : unfilter height (width * 3) raw ≡ some rgb =
      unfilter-scanlines height 0 (width * 3) rgb (omega arith)
      ∙ ap (λ t. some (take (height * (width * 3)) (drop t rgb))) nothing
      ∙ ap (λ t. some (take t rgb)) whole
      ∙ ap some (take_all rgb) in
    (
      file_of width height idat,
      if_true _ _ checked
          ∙ ap (λ t. zlib_stored (scanlines 0 height t rgb) >>= λ z. some (file_of width height z))
              stride
          ∙ ap (λ o. o >>= λ z. some (file_of width height z)) zipped,
      decode-file_of width height idat raw rgb (omega arith) h
          (omega (arith, length-scanlines height 0 (width * 3) rgb)) unzipped rows,
    )
  where
    whole : height * (width * 3) ≡ length rgb
    whole = omega arith

    checked : (length rgb == width * height % u32_mod * 3 % u32_mod) ≡ true
    checked =
        let exact : width * height % u32_mod * 3 % u32_mod ≡ width * height * 3 = omega arith in
        ground (arith, exact)

    nothing : 0 * (width * 3) ≡ 0
    nothing = omega arith
