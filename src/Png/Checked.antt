-- ===== src/Png/Checked.antt =====
-- src/png.rs: the checksums are those of the formats.
use Prim.Native.Nat.{bit_and, bit_xor, bit_xor-bitwise, digits, differ}
use smallishtalk.Base.{
  ℕ, zero, suc, ◌+◌, ◌-◌, ◌*◌, ◌/◌, ◌%◌, ◌^◌, ◌≤◌, ◌≡◌, refl, ap, ◌∙◌, arith, inl, inr, Bool-cases,
  List, [], ◌∷◌, ◌==◌,
}
use smallishtalk.Base.Words.{u32_mod, shl}
use smallishtalk.Base.Bits.{land_mask, lor_fields}
use smallishtalk.Png.{crc_bit, crc_bits, crc_bytes, crc32, adler_from, adler32}
use smallishtalk.Png.Sums.{times_x, times_power, divide, crc_of, sum_of, sum_of_sums, adler_of}

differ_zero : (x : ℕ) → differ x 0 ≡ x
differ_zero zero = refl
differ_zero (suc x) = refl

xor-zero_below : (n a : ℕ) → a ≤ n → digits (λ y. y) differ n a 0 ≡ a
xor-zero_below zero zero h = refl
xor-zero_below zero (suc a) h = absurd (omega arith)
xor-zero_below (suc n) zero h = refl
xor-zero_below (suc n) (suc a) h =
    omega (arith, xor-zero_below n (suc a / 2) (omega arith), differ_zero (suc a % 2))

xor_zero : (x : ℕ) → bit_xor x 0 ≡ x
xor_zero x = bit_xor-bitwise x 0 ∙ xor-zero_below x x (omega arith)

low_bit : (c : ℕ) → bit_and c 1 ≡ c % 2
low_bit c = land_mask 1 c

crc_bit-times_x : (c : ℕ) → crc_bit c ≡ times_x c
unfolding crc_bit
crc_bit-times_x c = elim (Bool-cases (c % 2 == 1)) [
  | inl odd ↦ let one : c % 2 ≡ 1 = ground (arith, odd) in rw (low_bit c) (rw one refl)
  | inr even ↦
      let none_left : c % 2 ≡ 0 = ground (arith, even) in
      rw (low_bit c) (rw none_left (xor_zero (c / 2)))
]

crc_bits-times_power : (n c : ℕ) → crc_bits n c ≡ times_power n c
unfolding crc_bits times_power
crc_bits-times_power zero c = refl
crc_bits-times_power (suc n) c =
    crc_bits-times_power n (crc_bit c) ∙ ap (times_power n) (crc_bit-times_x c)

crc_bytes-divide : (c : ℕ) (bytes : List ℕ) → crc_bytes c bytes ≡ divide c bytes
unfolding crc_bytes divide
crc_bytes-divide c [] = refl
crc_bytes-divide c (b ∷ bs) =
    crc_bytes-divide (crc_bits 8 (bit_xor c b)) bs
    ∙ ap (λ r. divide r bs) (crc_bits-times_power 8 (bit_xor c b))

pub crc32-crc_of : (bytes : List ℕ) → crc32 bytes ≡ crc_of bytes
unfolding crc32 crc_of
crc32-crc_of bytes = ap (λ r. 4294967295 - r) (crc_bytes-divide 4294967295 bytes)

adler_from-sums :
    (a b s t : ℕ) (bytes : List ℕ)
    → a ≡ s % 65521
    → b ≡ t % 65521
    → adler_from a b bytes ≡ sum_of_sums s t bytes % 65521 * 65536 + sum_of s bytes % 65521
unfolding adler_from sum_of sum_of_sums
adler_from-sums a b s t [] e f =
    let fits : shl u32_mod b 16 ≡ b * 2 ^ 16 = omega (arith, f) in
    rw fits (lor_fields 16 b a (omega (arith, e)) ∙ omega (arith, e, f))
adler_from-sums a b s t (x ∷ xs) e f =
    adler_from-sums ((a + x) % 65521) ((b + (a + x) % 65521) % 65521) (s + x) (t + (s + x)) xs
      (omega (arith, e)) (omega (arith, e, f))

pub adler32-adler_of : (bytes : List ℕ) → adler32 bytes ≡ adler_of bytes
unfolding adler32 adler_of
adler32-adler_of bytes = adler_from-sums 1 0 1 0 bytes refl refl
