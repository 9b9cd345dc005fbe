-- ===== src/Png/Blocks.antt =====
-- src/png.rs: the stored blocks and the zlib stream, written and read back.
use smallishtalk.Base.{
  ℕ, zero, suc, ◌+◌, ◌-◌, ◌*◌, ◌%◌, ◌<◌, ◌≤◌, ◌≡◌, refl, ap, sym, ◌∙◌, arith, inl, inr, Bool-cases,
  true, false, true≢false, ◌&&◌, Option, none, some, List, [], ◌∷◌, ◌++◌, length, take, drop,
  length-take, length-drop, length-append, take-append_drop, append_assoc, take_all, leb, ◌==◌,
  if◌then◌else◌, if_true, if_false, ◌>>=◌,
}
use smallishtalk.Base.Words.{u16_mod}
use smallishtalk.Png.{
  be_bytes, le_bytes, is_nil, min_len, adler32, stored_block, stored_blocks, zlib_stored,
}
use smallishtalk.Png.Sums.{adler_of}
use smallishtalk.Png.Checked.{adler32-adler_of}
use smallishtalk.Png.Decode.{eq_list, from_le, inflate_block, inflate, unzlib}
use smallishtalk.Png.Parts.{eq_list_refl, inflate_block-lem}

empty : (xs : List ℕ) → length xs ≡ 0 → xs ≡ []
empty [] e = refl
empty (x ∷ xs) e = absurd (omega (arith, e))

not_empty : (xs : List ℕ) → 0 < length xs → is_nil xs ≡ false
not_empty [] h = absurd (omega arith)
not_empty (x ∷ xs) h = refl

le_read : (n : ℕ) → n < u16_mod → from_le (le_bytes (n % u16_mod)) ≡ n
le_read n h = omega arith

le_read_not : (n : ℕ) → n < u16_mod → from_le (le_bytes (u16_mod - 1 - n % u16_mod)) ≡ 0xffff - n
le_read_not n h = omega arith

abbrev final_bit : List ℕ → ℕ
final_bit raw = if leb (length raw) (min_len (length raw) 0xffff) then 1 else 0

-- A block is read back, whatever follows it.
read_block :
    (f : ℕ) (raw more tail : List ℕ)
    → (let len = min_len (length raw) 0xffff in
        inflate (suc f) ((stored_block raw ++ more) ++ tail) ≡ (
          if final_bit raw % 2 == 1
          then some (take len raw, more ++ tail)
          else (inflate f (more ++ tail) >>= λ got. some (take len raw ++ got.0, got.1))))
unfolding inflate stored_block
read_block f raw more tail =
    let len = min_len (length raw) 0xffff in
    let head = final_bit raw in
    let body = take len raw in
    ap
      (λ n.
        inflate_block (inflate f) head n (from_le (le_bytes (u16_mod - 1 - len % u16_mod)))
          ((body ++ more) ++ tail))
      (le_read len short)
    ∙ ap (λ n. inflate_block (inflate f) head len n ((body ++ more) ++ tail))
        (le_read_not len short)
    ∙ ap (λ s. inflate_block (inflate f) head len (0xffff - len) s) (append_assoc body more tail)
    ∙ inflate_block-lem (inflate f) head len (0xffff - len) body (more ++ tail)
        (length-take len raw fits) bit sum
  where
    short : min_len (length raw) 0xffff < u16_mod
    short = ground arith

    fits : min_len (length raw) 0xffff ≤ length raw
    fits = ground arith

    bit : final_bit raw < 2
    bit = ground arith

    sum : min_len (length raw) 0xffff + (0xffff - min_len (length raw) 0xffff) ≡ 0xffff
    sum = ground arith

-- Blocks that `inflate` reads back as `raw`, and their length.
record AreBlocks (raw blocks : List ℕ) : Type 0 where
  bounded : length blocks ≤ length raw * 6
  read :
      is_nil raw ≡ false
      → (f : ℕ) (tail : List ℕ) → length blocks ≤ f
      → inflate f (blocks ++ tail) ≡ some (raw, tail)

bytes_of : Option (List ℕ) → List ℕ
bytes_of none = []
bytes_of (some bs) = bs

nil_blocks : (fuel : ℕ) (blocks : List ℕ) → stored_blocks (suc fuel) [] ≡ some blocks → blocks ≡ []
unfolding stored_blocks bytes_of
nil_blocks fuel blocks e = sym (ap bytes_of e)

length-stored_block : (raw : List ℕ) → length (stored_block raw) ≡ 5 + min_len (length raw) 0xffff
unfolding stored_block
length-stored_block raw = omega (arith, length-take (min_len (length raw) 0xffff) raw fits)
  where
    fits : min_len (length raw) 0xffff ≤ length raw
    fits = ground arith

module _ (raw more : List ℕ) (full : 0 < length raw) where
  abbrev len : ℕ
  len = min_len (length raw) 0xffff

  abbrev rest : List ℕ
  rest = drop len raw

  step-bounded : length more ≤ length rest * 6 → length (stored_block raw ++ more) ≤ length raw * 6
  step-bounded h =
      let size : length rest ≡ length raw - len = length-drop len raw in
      let len1 : 1 ≤ len = ground arith in
      let len2 : len ≤ length raw = ground arith in
      omega (arith, length-append (stored_block raw) more, length-stored_block raw)

  -- The last block.
  last-read :
      leb (length raw) len ≡ true
      → more ≡ []
      → (f : ℕ) (tail : List ℕ)
      → inflate (suc f) ((stored_block raw ++ more) ++ tail) ≡ some (raw, tail)
  last-read last e f tail =
      let bit : (final_bit raw % 2 == 1) ≡ true = ap (λ b. (if b then 1 else 0) % 2 == 1) last in
      let whole : len ≡ length raw = ground arith in
      read_block f raw more tail
      ∙ if_true _ _ bit
      ∙ ap (λ t. some (t, more ++ tail)) (ap (λ n. take n raw) whole ∙ take_all raw)
      ∙ ap (λ t. some (raw, t ++ tail)) e

  -- A block before others.
  more-read :
      leb (length raw) len ≡ false
      → (f : ℕ) (tail : List ℕ) → inflate f (more ++ tail) ≡ some (rest, tail)
      → inflate (suc f) ((stored_block raw ++ more) ++ tail) ≡ some (raw, tail)
  more-read many f tail e =
      let bit : (final_bit raw % 2 == 1) ≡ false = ap (λ b. (if b then 1 else 0) % 2 == 1) many in
      read_block f raw more tail
      ∙ if_false _ _ bit
      ∙ ap (λ o. o >>= λ got. some (take len raw ++ got.0, got.1)) e
      ∙ ap (λ t. some (t, tail)) (take-append_drop len raw)

  rest_full : leb (length raw) len ≡ false → 0 < length rest
  rest_full many =
      let size = length-drop len raw in let low : len < length raw = ground arith in omega arith

  no_more :
      (fuel : ℕ)
      → length raw < suc fuel
      → leb (length raw) len ≡ true
      → stored_blocks fuel rest ≡ some more
      → more ≡ []
  no_more zero lt last made = absurd (omega arith)
  no_more (suc fuel) lt last made =
      let nothing : rest ≡ [] = empty rest (
        let size = length-drop len raw in
        let high : length raw ≤ len = ground arith in omega arith) in
      nil_blocks fuel more (ap (stored_blocks (suc fuel)) (sym nothing) ∙ made)

  step-read :
      (fuel : ℕ)
      → length raw < suc fuel
      → stored_blocks fuel rest ≡ some more
      → AreBlocks rest more
      → (f : ℕ) (tail : List ℕ) → length (stored_block raw ++ more) ≤ f
      → inflate f ((stored_block raw ++ more) ++ tail) ≡ some (raw, tail)
  step-read fuel lt made ih zero tail h =
      absurd (omega (arith, length-append (stored_block raw) more, length-stored_block raw))
  step-read fuel lt made ih (suc f) tail h = elim (Bool-cases (leb (length raw) len)) [
    | inl last ↦ last-read last (no_more fuel lt last made) f tail
    | inr many ↦ more-read many f tail (
        ih.read (not_empty rest (rest_full many)) f tail
          (omega (arith, length-append (stored_block raw) more, length-stored_block raw)))
  ]

  step-AreBlocks :
      (fuel : ℕ)
      → length raw < suc fuel
      → stored_blocks fuel rest ≡ some more
      → AreBlocks rest more
      → AreBlocks raw (stored_block raw ++ more)
  step-AreBlocks fuel lt made ih = record {
    bounded = step-bounded ih.bounded;
    read = λ full' f tail h. step-read fuel lt made ih f tail h;
  }

shorter :
    (fuel : ℕ) (raw : List ℕ)
    → 0 < length raw
    → length raw < suc fuel
    → length (drop (min_len (length raw) 0xffff) raw) < fuel
shorter fuel raw full lt =
    let size = length-drop (min_len (length raw) 0xffff) raw in
    let len1 : 1 ≤ min_len (length raw) 0xffff = ground arith in omega arith

-- The blocks of some bytes, with fuel for a round each.
stored_blocks-AreBlocks :
    (fuel : ℕ) (raw : List ℕ)
    → length raw < fuel
    → (blocks : List ℕ) × (stored_blocks fuel raw ≡ some blocks) × AreBlocks raw blocks
unfolding stored_blocks
stored_blocks-AreBlocks zero raw lt = absurd (omega arith)
stored_blocks-AreBlocks (suc fuel) [] lt =
    ([], refl, record { bounded = omega arith; read = λ e. absurd (true≢false e) })
stored_blocks-AreBlocks (suc fuel) (x ∷ xs) lt =
    let raw = x ∷ xs in
    let len = min_len (length raw) 0xffff in
    let (more, made, ih) =
      stored_blocks-AreBlocks fuel (drop len raw) (shorter fuel raw (omega arith) lt) in
    (
      stored_block raw ++ more,
      ap (λ o. o >>= λ blocks. some (stored_block raw ++ blocks)) made,
      step-AreBlocks raw more (omega arith) fuel lt made ih,
    )

sum_checked : (raw : List ℕ) → eq_list (be_bytes (adler32 raw)) (be_bytes (adler_of raw)) ≡ true
sum_checked raw =
    ap (λ k. eq_list (be_bytes (adler32 raw)) (be_bytes k)) (sym (adler32-adler_of raw))
    ∙ eq_list_refl (be_bytes (adler32 raw))

-- The zlib stream of some bytes, and its length.
pub zlib_stored-unzlib :
    (raw : List ℕ)
    → (z : List ℕ) × (zlib_stored raw ≡ some z)
      × (unzlib z ≡ some raw)
      × (length z ≤ length raw * 6 + 11)
unfolding zlib_stored unzlib inflate
zlib_stored-unzlib [] =
    let sum = be_bytes (adler32 []) in
    (
      0x78 ∷ 0x01 ∷ 0x01 ∷ 0x00 ∷ 0x00 ∷ 0xff ∷ 0xff ∷ sum,
      refl,
      ap
            (λ o. o >>= λ got.
              if eq_list (0x78 ∷ 0x01 ∷ []) (0x78 ∷ 0x01 ∷ [])
                && eq_list got.1 (be_bytes (adler_of got.0))
              then some got.0
              else none)
            (inflate_block-lem (inflate 10) 1 0 0xffff [] sum refl (omega arith) refl)
          ∙ if_true (some []) none (sum_checked []),
      omega arith,
    )
zlib_stored-unzlib (x ∷ xs) =
    let raw = x ∷ xs in
    let (blocks, made, are) = stored_blocks-AreBlocks (length raw + 1) raw (omega arith) in
    let sum = be_bytes (adler32 raw) in
    (
      0x78 ∷ 0x01 ∷ blocks ++ sum,
      ap (λ o. o >>= λ bs. some (0x78 ∷ 0x01 ∷ bs ++ be_bytes (adler32 raw))) made,
      ap
            (λ o. o >>= λ got.
              if eq_list (0x78 ∷ 0x01 ∷ []) (0x78 ∷ 0x01 ∷ [])
                && eq_list got.1 (be_bytes (adler_of got.0))
              then some got.0
              else none)
            (are.read refl (length (0x78 ∷ 0x01 ∷ blocks ++ sum)) sum
              (omega (arith, length-append blocks sum)))
          ∙ if_true _ _ (sum_checked raw),
      omega (arith, length-append blocks sum, are.bounded),
    )
