-- ===== src/Value/Tagging.antt =====
-- src/value.rs: the tags and the conversions of values.
use smallishtalk.Base.{
  ◌/◌, ap, ◌∙◌, ℕ, ◌+◌, ◌*◌, ◌%◌, ◌^◌, ◌<◌, ◌≡◌, ◌⊎◌, inl, inr, Bool-cases, ◌↔◌, true, false, none,
  some, arith,
}
use Prim.Native.Nat.{bit_or}
use smallishtalk.Base.Bits.{land_mask, lor_fields}
use smallishtalk.Base.Int.{ℤ, pos, negsuc, ◌≤ℤ◌}
use smallishtalk.Base.Words.{u64_mod, shl, as_unsigned}
use smallishtalk.Value.{
  Value, smallint_max, smallint_min, from_int, in_smallint, try_from_int, as_int, is_int, is_ptr,
  from_ptr, as_ptr,
}

abbrev pub IsSmallInt : ℤ → Type 0
IsSmallInt n = (smallint_min ≤ℤ n) × (n ≤ℤ smallint_max)

-- A shifted word has a free lowest bit.
tag_sum : (x : ℕ) → bit_or (shl u64_mod x 1) 1 ≡ shl u64_mod x 1 + 1
tag_sum x =
    ap (λ (t : ℕ). bit_or t 1) even
    ∙ lor_fields 1 (shl u64_mod x 1 / 2) 1 (omega arith)
    ∙ omega arith
  where
    even : shl u64_mod x 1 ≡ (shl u64_mod x 1 / 2) * 2 ^ 1
    even = omega arith

pub is_int_lem : (v : Value) → is_int v ≡ true ↔ (v % 2 ≡ 1)
unfolding is_int
is_int_lem v = ground (arith, land_mask 1 v)

pub is_ptr_lem : (v : Value) → is_ptr v ≡ true ↔ (v % 8 ≡ 0)
unfolding is_ptr
is_ptr_lem v = ground (arith, land_mask 3 v)

pub in_smallint_iff : (n : ℤ) → in_smallint n ≡ true ↔ IsSmallInt n
in_smallint_iff n = ground arith

from_int_sum : (n : ℤ) → from_int n ≡ shl u64_mod (as_unsigned u64_mod n) 1 + 1
unfolding from_int
from_int_sum n = tag_sum (as_unsigned u64_mod n)

pub as_int-from_int : (n : ℤ) → IsSmallInt n → as_int (from_int n) ≡ n
unfolding as_int
as_int-from_int (pos n) h = rw (from_int_sum (pos n)) (ground arith)
as_int-from_int (negsuc n) h = rw (from_int_sum (negsuc n)) (ground arith)

pub from_int-as_int : (v : Value) → v < u64_mod → v % 2 ≡ 1 → from_int (as_int v) ≡ v
unfolding as_int
from_int-as_int v h odd = rw (from_int_sum (as_int v)) (ground arith)

pub as_int-IsSmallInt : (v : Value) → v < u64_mod → IsSmallInt (as_int v)
unfolding as_int
as_int-IsSmallInt v h = ground arith

pub try_from_int-eq_some : (n : ℤ) → IsSmallInt n → try_from_int n ≡ some (from_int n)
unfolding try_from_int from_int
try_from_int-eq_some n h = ground (arith, in_smallint_iff n)

pub from_int_word : (n : ℤ) → (from_int n < u64_mod) × (is_int (from_int n) ≡ true)
from_int_word n = rw (from_int_sum n) (omega arith, (is_int_lem _).1 (omega arith))

pub try_from_int_out : (n : ℤ) → ¬ IsSmallInt n → try_from_int n ≡ none
unfolding try_from_int
try_from_int_out n h = ground (arith, in_smallint_iff n)

pub IsSmallInt-cases : (n : ℤ) → IsSmallInt n ⊎ ¬ IsSmallInt n
IsSmallInt-cases n = elim (Bool-cases (in_smallint n)) [
  | inl e ↦ inl ((in_smallint_iff n).0 e)
  | inr e ↦ inr (λ h. cc (e, (in_smallint_iff n).1 h))
]

pub try_from_int_sound :
    (n : ℤ) (v : Value)
    → try_from_int n ≡ some v
    → (v < u64_mod) × (is_int v ≡ true) × (as_int v ≡ n)
try_from_int_sound n v e = elim (IsSmallInt-cases n) [
  | inl small ↦
      let same : from_int n ≡ v = cc (try_from_int-eq_some n small) in
      rw (← same) ((from_int_word n).0, (from_int_word n).1, as_int-from_int n small)
  | inr big ↦ cc (try_from_int_out n big)
]

-- `try_from_int` answers a word exactly when it is a 64-bit word with the integer tag that
-- `as_int` reads back as the given integer.
pub try_from_int_iff :
    (n : ℤ) (v : Value)
    → try_from_int n ≡ some v ↔ ((v < u64_mod) × (is_int v ≡ true) × (as_int v ≡ n))
try_from_int_iff n v = (
  try_from_int_sound n v,
  λ (h, i, e). rw (← e) (
      try_from_int-eq_some (as_int v) (as_int-IsSmallInt v h)
      ∙ ap (λ (t : Value). some t) (from_int-as_int v h ((is_int_lem v).0 i))),
)

-- `try_from_int` refuses exactly the integers outside -(2^62) .. 2^62 - 1.
pub try_from_int-none_iff : (n : ℤ) → try_from_int n ≡ none ↔ ¬ IsSmallInt n
unfolding try_from_int
try_from_int-none_iff n = ground (arith, in_smallint_iff n)

-- `from_ptr` answers a word exactly when the address is a multiple of 8 and the word is the pointer
-- to that address, which is no integer.
pub from_ptr_iff :
    (addr v : ℕ)
    → (from_ptr addr ≡ some v
        ↔ ((is_ptr v ≡ true) × (is_int v ≡ false) × (as_ptr v ≡ addr) × (addr % 8 ≡ 0)))
unfolding from_ptr as_ptr is_ptr is_int
from_ptr_iff addr v = ground (arith, land_mask 3 addr, land_mask 3 v, land_mask 1 v)
