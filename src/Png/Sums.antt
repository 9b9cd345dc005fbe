-- ===== src/Png/Sums.antt =====
-- The checksums of a file as the formats define them, with no use of src/png.rs. CRC-32 (PNG,
-- annex D; ISO 3309) is the remainder of a division of polynomials over the bits, lowest bit first;
-- Adler-32 (RFC 1950) is a pair of plain sums, reduced once at the end.
use Prim.Native.Nat.{bit_xor}
use smallishtalk.Base.{
  ℕ, zero, suc, ◌+◌, ◌-◌, ◌*◌, ◌/◌, ◌%◌, ◌^◌, List, [], ◌∷◌, ◌==◌, if◌then◌else◌,
}

-- The exponents of the generator below 32.
abbrev exponents : List ℕ
exponents = 26 ∷ 23 ∷ 22 ∷ 16 ∷ 12 ∷ 11 ∷ 10 ∷ 8 ∷ 7 ∷ 5 ∷ 4 ∷ 2 ∷ 1 ∷ 0 ∷ []

-- A polynomial as a word of 32 bits, in which the highest exponent is the lowest bit.
abbrev polynomial : List ℕ → ℕ
polynomial [] = 0
polynomial (e ∷ es) = 2 ^ (31 - e) + polynomial es

-- The register multiplied by x, and reduced where a term of degree 32 arises.
abbrev pub times_x : ℕ → ℕ
times_x c = if c % 2 == 1 then bit_xor (c / 2) (polynomial exponents) else c / 2

unfoldable pub times_power : (n : ℕ) → ℕ → ℕ
times_power zero c = c
times_power (suc n) c = times_power n (times_x c)

unfoldable pub divide : ℕ → List ℕ → ℕ
unfolding times_power
divide c [] = c
divide c (b ∷ bs) = divide (times_power 8 (bit_xor c b)) bs

-- The division starts from 32 ones, and the remainder is complemented.
unfoldable pub crc_of : List ℕ → ℕ
unfolding divide
crc_of bytes = 4294967295 - divide 4294967295 bytes

-- The sum of the bytes, from `a` on.
unfoldable pub sum_of : ℕ → List ℕ → ℕ
sum_of a [] = a
sum_of a (b ∷ bs) = sum_of (a + b) bs

-- The sum of the sums after each byte, from `s` on.
unfoldable pub sum_of_sums : (a s : ℕ) → List ℕ → ℕ
sum_of_sums a s [] = s
sum_of_sums a s (b ∷ bs) = sum_of_sums (a + b) (s + (a + b)) bs

unfoldable pub adler_of : List ℕ → ℕ
unfolding sum_of sum_of_sums
adler_of bytes = sum_of_sums 1 0 bytes % 65521 * 65536 + sum_of 1 bytes % 65521
