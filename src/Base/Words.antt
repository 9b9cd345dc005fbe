-- ===== src/Base/Words.antt =====
-- Machine words: a `uN` is a native number below its modulus, an `iN` an integer in its range.
-- Shifts, complements and casts as Rust defines them on such words.
use smallishtalk.Base.{ℕ, ◌-◌, ◌*◌, ◌/◌, ◌%◌, ◌^◌, ◌<◌, ◌≡◌, arith, ltb, if◌then◌else◌}
use smallishtalk.Base.Int.{ℤ, pos, negsuc}

abbrev pub u16_mod : ℕ
u16_mod = 2 ^ 16

abbrev pub u32_mod : ℕ
u32_mod = 2 ^ 32

abbrev pub u64_mod : ℕ
u64_mod = 2 ^ 64

-- x << k in the type with modulus m
abbrev pub shl : ℕ → ℕ → ℕ → ℕ
shl m x k = (x * 2 ^ k) % m

-- x >> k of an unsigned word
abbrev pub shr : ℕ → ℕ → ℕ
shr x k = x / 2 ^ k

-- !x of a u64
abbrev pub not64 : ℕ → ℕ
not64 x = u64_mod - 1 - x

-- z as uN
abbrev pub as_unsigned : ℕ → ℤ → ℕ
as_unsigned m (pos n) = n % m
as_unsigned m (negsuc n) = m - 1 - n % m

-- w as iN
abbrev pub as_signed : ℕ → ℕ → ℤ
as_signed m w = if ltb (w * 2) m then pos w else negsuc (m - 1 - w)

-- the range of iN
abbrev pub InRange : ℕ → ℤ → Type 0
InRange m (pos n) = n * 2 < m
InRange m (negsuc n) = n * 2 < m

pub as_signed-as_unsigned_16 :
    (z : ℤ) → InRange u16_mod z → as_signed u16_mod (as_unsigned u16_mod z) ≡ z
as_signed-as_unsigned_16 (pos n) h = ground arith
as_signed-as_unsigned_16 (negsuc n) h = ground arith

pub as_unsigned-lt_16 : (z : ℤ) → as_unsigned u16_mod z < u16_mod
as_unsigned-lt_16 (pos n) = omega arith
as_unsigned-lt_16 (negsuc n) = omega arith

pub as_signed-InRange_16 : (w : ℕ) → w < u16_mod → InRange u16_mod (as_signed u16_mod w)
as_signed-InRange_16 w h = ground arith
