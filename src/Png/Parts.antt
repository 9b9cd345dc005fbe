-- ===== src/Png/Parts.antt =====
-- src/png.rs: the parts of a file, written and read back.
use smallishtalk.Base.{
  ℕ, zero, suc, ◌+◌, ◌*◌, ◌/◌, ◌%◌, ◌^◌, ◌<◌, ◌≤◌, ◌≡◌, refl, ap, sym, ◌∙◌, arith, Bool, true, ◌&&◌,
  Option, some, List, [], ◌∷◌, ◌++◌, length, take, drop, length-take, length-drop, length-append,
  take-add, take-append, drop-append, append_assoc, drop-drop, leb, ◌==◌, if◌then◌else◌, if_true,
  ◌>>=◌,
}
use smallishtalk.Base.Words.{u32_mod}
use smallishtalk.Png.{be_bytes, crc32, chunk, scanlines}
use smallishtalk.Png.Sums.{crc_of}
use smallishtalk.Png.Checked.{crc32-crc_of}
use smallishtalk.Png.Decode.{eq_list, from_be, read_body, read_chunk, inflate_block, unfilter}

pub eq_list_refl : (xs : List ℕ) → eq_list xs xs ≡ true
eq_list_refl [] = refl
eq_list_refl (x ∷ xs) = ground (arith, eq_list_refl xs)

pub and_true : (a b : Bool) → a ≡ true → b ≡ true → (a && b) ≡ true
and_true a b p q = rw (p, q) refl

pub from_be-be_bytes : (x : ℕ) → x < 2 ^ 32 → from_be 0 (be_bytes x) ≡ x
from_be-be_bytes x h = omega arith

-- A list of a known length, before another.
pub take-front : (n : ℕ) (xs ys : List ℕ) → length xs ≡ n → take n (xs ++ ys) ≡ xs
take-front n xs ys e = ap (λ k. take k (xs ++ ys)) (sym e) ∙ take-append xs ys

pub drop-front : (n : ℕ) (xs ys : List ℕ) → length xs ≡ n → drop n (xs ++ ys) ≡ ys
drop-front n xs ys e = ap (λ k. drop k (xs ++ ys)) (sym e) ∙ drop-append xs ys

pub length-front : (n : ℕ) (xs ys : List ℕ) → length xs ≡ n → leb n (length (xs ++ ys)) ≡ true
length-front n xs ys e = ground (arith, length-append xs ys)

read_body-lem :
    (name body rest : List ℕ)
    → read_body name name (length body) (body ++ (be_bytes (crc_of (name ++ body)) ++ rest))
      ≡ some (body, rest)
unfolding read_body
read_body-lem name body rest =
    let sum = be_bytes (crc_of (name ++ body)) in
    let left : take (length body) (body ++ (sum ++ rest)) ≡ body = take-append body (sum ++ rest) in
    let right : drop (length body) (body ++ (sum ++ rest)) ≡ sum ++ rest =
      drop-append body (sum ++ rest) in
    rw (left, right)
      (if_true _ _ (
        and_true _ _
          (and_true _ _ (eq_list_refl name) (length-front (length body) body (sum ++ rest) refl))
          (eq_list_refl sum)))

-- The four numbers of a chunk's name are written out.
pub read_chunk-chunk :
    (a b c d : ℕ) (body rest : List ℕ)
    → length body < 2 ^ 32
    → (let name = a ∷ b ∷ c ∷ d ∷ [] in
        read_chunk name (chunk name body ++ rest) ≡ some (body, rest))
unfolding read_chunk chunk
read_chunk-chunk a b c d body rest h =
    let name = a ∷ b ∷ c ∷ d ∷ [] in
    let fits : length body % u32_mod ≡ length body = omega arith in
    let len : from_be 0 (be_bytes (length body % u32_mod)) ≡ length body =
      ap (λ n. from_be 0 (be_bytes n)) fits ∙ from_be-be_bytes (length body) h in
    ap (λ n. read_body name name n ((body ++ be_bytes (crc32 (name ++ body))) ++ rest)) len
    ∙ ap (λ s. read_body name name (length body) s)
        (append_assoc body (be_bytes (crc32 (name ++ body))) rest)
    ∙ ap (λ k. read_body name name (length body) (body ++ (be_bytes k ++ rest)))
        (crc32-crc_of (name ++ body))
    ∙ read_body-lem name body rest

-- One stored block.
pub inflate_block-lem :
    (more : List ℕ → Option (List ℕ × List ℕ)) (head len nlen : ℕ) (body rest : List ℕ)
    → length body ≡ len
    → head < 2
    → len + nlen ≡ 0xffff
    → inflate_block more head len nlen (body ++ rest) ≡ (
        if head % 2 == 1
        then some (body, rest)
        else (more rest >>= λ got. some (body ++ got.0, got.1)))
unfolding inflate_block
inflate_block-lem more head len nlen body rest e h n =
    rw (take-front len body rest e, drop-front len body rest e)
      (if_true _ _ (and_true _ _ (and_true _ _ stored lengths) (length-front len body rest e)))
  where
    stored : (head / 2 % 4 == 0) ≡ true
    stored = ground arith

    lengths : (len + nlen == 0xffff) ≡ true
    lengths = ground arith

next_row : (y stride : ℕ) → (y + 1) * stride ≡ y * stride + stride
next_row y stride = omega arith

row_fits :
    (n y stride : ℕ) (rgb : List ℕ)
    → (y + suc n) * stride ≤ length rgb
    → stride ≤ length (drop (y * stride) rgb)
row_fits n y stride rgb h = omega (arith, length-drop (y * stride) rgb)

pub unfilter-scanlines :
    (n y stride : ℕ) (rgb : List ℕ)
    → (y + n) * stride ≤ length rgb
    → unfilter n stride (scanlines y n stride rgb)
      ≡ some (take (n * stride) (drop (y * stride) rgb))
unfolding unfilter scanlines
unfilter-scanlines zero y stride rgb h =
    ap some (ap (λ t. take t (drop (y * stride) rgb)) none_left)
  where
    none_left : 0 ≡ 0 * stride
    none_left = omega arith
unfilter-scanlines (suc n) y stride rgb h =
    let at = drop (y * stride) rgb in
    let row = take stride at in
    let more = scanlines (y + 1) n stride rgb in
    let wide : length row ≡ stride = length-take stride at (row_fits n y stride rgb h) in
    let ih = unfilter-scanlines n (y + 1) stride rgb (omega arith) in
    let below : drop ((y + 1) * stride) rgb ≡ drop stride at =
      ap (λ t. drop t rgb) (next_row y stride) ∙ sym (drop-drop (y * stride) stride rgb) in
    if_true _ _ (length-front stride row more wide)
    ∙ ap (λ t. unfilter n stride t >>= λ rows. some (take stride (row ++ more) ++ rows))
        (drop-front stride row more wide)
    ∙ ap (λ t. unfilter n stride more >>= λ rows. some (t ++ rows))
        (take-front stride row more wide)
    ∙ ap (λ o. o >>= λ rows. some (row ++ rows)) ih
    ∙ ap (λ t. some (row ++ take (n * stride) t)) below
    ∙ ap some (sym (take-add stride (n * stride) at) ∙ ap (λ t. take t at) whole)
  where
    whole : stride + n * stride ≡ suc n * stride
    whole = omega arith
