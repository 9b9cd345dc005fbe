-- ===== src/Heap/Bytes.antt =====
-- src/heap.rs: the bytes of a body within its words.
use smallishtalk.Base.{
  ℕ, zero, suc, ◌+◌, ◌*◌, ◌/◌, ◌%◌, ◌^◌, ◌<◌, ◌≡◌, ◌≢◌, refl, ◌∙◌, inl, inr, Bool-cases, true,
  false, arith, ◌==◌, if◌then◌else◌,
}
use smallishtalk.Space.{Memory}
use smallishtalk.Heap.{slot, slot_addr, byte, set_byte}

-- A claim of each place in a word.
each_8 : (P : ℕ → Type 0) → P 0 → P 1 → P 2 → P 3 → P 4 → P 5 → P 6 → P 7 → (n : ℕ) → n < 8 → P n
each_8 P a b c d e f g h zero k = a
each_8 P a b c d e f g h (suc zero) k = b
each_8 P a b c d e f g h (suc (suc zero)) k = c
each_8 P a b c d e f g h (suc (suc (suc zero))) k = d
each_8 P a b c d e f g h (suc (suc (suc (suc zero)))) k = e
each_8 P a b c d e f g h (suc (suc (suc (suc (suc zero))))) k = f
each_8 P a b c d e f g h (suc (suc (suc (suc (suc (suc zero)))))) k = g
each_8 P a b c d e f g h (suc (suc (suc (suc (suc (suc (suc zero))))))) k = h
each_8 P a b c d e f g h (suc (suc (suc (suc (suc (suc (suc (suc n)))))))) k = absurd (omega arith)

-- Byte `s` of a word into which `b` is written as byte `r`.
abbrev Inserted : ℕ → ℕ → ℕ → ℕ → Type 0
Inserted w b r s =
    (w / (2 ^ (8 * r) * 256) * (2 ^ (8 * r) * 256) + b * 2 ^ (8 * r) + w % 2 ^ (8 * r))
      / 2 ^ (8 * s)
      % 256
    ≡ (if s == r then b else w / 2 ^ (8 * s) % 256)

byte_insert : (w b : ℕ) → b < 256 → (r : ℕ) → r < 8 → (s : ℕ) → s < 8 → Inserted w b r s
byte_insert w b h =
    each_8 (λ (r : ℕ). (s : ℕ) → s < 8 → Inserted w b r s)
      (each_8 (Inserted w b 0) (omega arith) (omega arith) (omega arith) (omega arith) (omega arith)
        (omega arith) (omega arith) (omega arith))
      (each_8 (Inserted w b 1) (omega arith) (omega arith) (omega arith) (omega arith) (omega arith)
        (omega arith) (omega arith) (omega arith))
      (each_8 (Inserted w b 2) (omega arith) (omega arith) (omega arith) (omega arith) (omega arith)
        (omega arith) (omega arith) (omega arith))
      (each_8 (Inserted w b 3) (omega arith) (omega arith) (omega arith) (omega arith) (omega arith)
        (omega arith) (omega arith) (omega arith))
      (each_8 (Inserted w b 4) (omega arith) (omega arith) (omega arith) (omega arith) (omega arith)
        (omega arith) (omega arith) (omega arith))
      (each_8 (Inserted w b 5) (omega arith) (omega arith) (omega arith) (omega arith) (omega arith)
        (omega arith) (omega arith) (omega arith))
      (each_8 (Inserted w b 6) (omega arith) (omega arith) (omega arith) (omega arith) (omega arith)
        (omega arith) (omega arith) (omega arith))
      (each_8 (Inserted w b 7) (omega arith) (omega arith) (omega arith) (omega arith) (omega arith)
        (omega arith) (omega arith) (omega arith))

module _ (m : Memory) (obj i j b : ℕ) where
  read_same :
      j / 8 ≡ i / 8
      → byte (set_byte m obj i b) obj j ≡ (
          let w = slot m obj (i / 8) in
          (w / (2 ^ (8 * (i % 8)) * 256) * (2 ^ (8 * (i % 8)) * 256)
            + b * 2 ^ (8 * (i % 8))
            + w % 2 ^ (8 * (i % 8)))
          / 2 ^ (8 * (j % 8))
          % 256)
  unfolding byte set_byte
  read_same e =
      let here : (slot_addr obj (j / 8) == slot_addr obj (i / 8)) ≡ true = ground (arith, e) in
      rw here refl

  read_other : j / 8 ≢ i / 8 → byte (set_byte m obj i b) obj j ≡ byte m obj j
  unfolding byte set_byte
  read_other ne =
      let there : (slot_addr obj (j / 8) == slot_addr obj (i / 8)) ≡ false = ground (arith, ne) in
      rw there refl

  kept_byte :
      j / 8 ≡ i / 8
      → (let w = slot m obj (i / 8) in if j % 8 == i % 8 then b else w / 2 ^ (8 * (j % 8)) % 256)
        ≡ (if j == i then b else byte m obj j)
  unfolding byte
  kept_byte e = let same : (j % 8 == i % 8) ≡ (j == i) = ground (arith, e) in rw (same, e) refl

  -- Writing a byte of a body writes that byte and no other byte of the body, whichever words they
  -- lie in.
  pub byte-set_byte :
      b < 256 → byte (set_byte m obj i b) obj j ≡ (if j == i then b else byte m obj j)
  byte-set_byte h = elim (Bool-cases (j / 8 == i / 8)) [
    | inl same ↦
        let e : j / 8 ≡ i / 8 = ground arith in
        read_same e
        ∙ byte_insert (slot m obj (i / 8)) b h (i % 8) (omega arith) (j % 8) (omega arith)
        ∙ kept_byte e
    | inr other ↦ let ne : (j == i) ≡ false = ground arith in read_other (ground arith) ∙ rw ne refl
  ]
