-- ===== src/Value.antt =====
-- src/value.rs: the tagged 64-bit word. A `Value` is its raw word, a native number below 2^64; an
-- `i64` is an integer. The debug assertions of `from_int` and `as_ptr` are compiled out of a release
-- build and are left out; the assertion of `from_ptr` is not, and its panic is `none`.
pub mod Tagging
mod Tests
use Prim.Native.Nat.{bit_and, bit_or}
use smallishtalk.Base.{
  ℕ, ◌-◌, ◌/◌, ◌^◌, Bool, not, ◌&&◌, Option, none, some, leb, ◌==◌, if◌then◌else◌,
}
use smallishtalk.Base.Int.{ℤ, pos, negsuc, ltb_ℤ}
use smallishtalk.Base.Words.{u64_mod, shl, as_unsigned, as_signed}
use smallishtalk.Treaty.Words.{tag_int_bit, tag_ptr_mask, tag_ptr}

abbrev pub Value : Type 0
Value = ℕ

abbrev pub smallint_max : ℤ
smallint_max = pos (2 ^ 62 - 1)

-- -(1 << 62)
abbrev pub smallint_min : ℤ
smallint_min = negsuc (2 ^ 62 - 1)

unfoldable pub from_int : ℤ → Value
from_int n = bit_or (shl u64_mod (as_unsigned u64_mod n) 1) tag_int_bit

-- (min..=max).contains(&n)
abbrev pub in_smallint : ℤ → Bool
in_smallint n = not (ltb_ℤ n smallint_min) && not (ltb_ℤ smallint_max n)

unfoldable pub try_from_int : ℤ → Option Value
try_from_int n =
    if in_smallint n
    then some (bit_or (shl u64_mod (as_unsigned u64_mod n) 1) tag_int_bit)
    else none

-- An arithmetic shift of an i64 rounds down.
abbrev pub sar : ℤ → ℕ → ℤ
sar (pos n) k = pos (n / 2 ^ k)
sar (negsuc n) k = negsuc (n / 2 ^ k)

unfoldable pub as_int : Value → ℤ
as_int v = sar (as_signed u64_mod v) 1

unfoldable pub is_int : Value → Bool
is_int v = not (bit_and v tag_int_bit == 0)

unfoldable pub is_ptr : Value → Bool
is_ptr v = bit_and v tag_ptr_mask == tag_ptr

unfoldable pub from_ptr : ℕ → Option Value
from_ptr addr = if bit_and addr tag_ptr_mask == 0 then some addr else none

unfoldable pub as_ptr : Value → ℕ
as_ptr v = v
