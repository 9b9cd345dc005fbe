-- ===== src/SmallInt.antt =====
-- src/interp.rs and src/prims.rs: arithmetic on SmallIntegers, in the specialized sends of the
-- interpreter and in the integer primitives. An `i64` is an integer; a checked operation is `none`
-- where the exact result is no `i64`. `none` of a specialized send is its slow path, the send.
pub mod Floored
pub mod Exact
pub mod Compare
mod Tests
use Prim.Native.Nat.{bit_and, bit_or, bit_xor}
use smallishtalk.Base.{
  ℕ, zero, suc, ◌+◌, ◌-◌, ◌*◌, ◌/◌, ◌%◌, ◌^◌, Bool, true, false, not, ◌&&◌, ◌||◌, Option, none,
  some, ltb, leb, ◌==◌, if◌then◌else◌, ◌>>=◌,
}
use smallishtalk.Base.Int.{ℤ, pos, negsuc, pos_part, neg_part, sub_ℕ, ◌+ℤ◌, ◌-ℤ◌, ◌*ℤ◌, ltb_ℤ}
use smallishtalk.Base.Words.{u64_mod, shl, as_unsigned, as_signed}
use smallishtalk.Value.{Value, try_from_int, as_int, is_int, sar}

-- Whether an integer is an i64.
abbrev pub in_i64 : ℤ → Bool
in_i64 (pos n) = ltb n (2 ^ 63)
in_i64 (negsuc n) = ltb n (2 ^ 63)

abbrev pub checked : ℤ → Option ℤ
checked z = if in_i64 z then some z else none

-- `x / y` and `x % y` of Rust round towards zero.
unfoldable pub quot : ℤ → ℤ → ℤ
quot (pos a) (pos b) = pos (a / b)
quot (pos a) (negsuc b) = sub_ℕ 0 (a / suc b)
quot (negsuc a) (pos b) = sub_ℕ 0 (suc a / b)
quot (negsuc a) (negsuc b) = pos (suc a / suc b)

unfoldable pub rem : ℤ → ℤ → ℤ
rem (pos a) (pos b) = pos (a % b)
rem (pos a) (negsuc b) = pos (a % suc b)
rem (negsuc a) (pos b) = sub_ℕ 0 (suc a % b)
rem (negsuc a) (negsuc b) = sub_ℕ 0 (suc a % suc b)

abbrev pub is_negative : ℤ → Bool
is_negative z = ltb_ℤ z (pos 0)

abbrev pub eq_ℤ : ℤ → ℤ → Bool
eq_ℤ (pos a) (pos b) = a == b
eq_ℤ (pos a) (negsuc b) = false
eq_ℤ (negsuc a) (pos b) = false
eq_ℤ (negsuc a) (negsuc b) = a == b

abbrev xor : Bool → Bool → Bool
xor true b = not b
xor false b = b

unfoldable pub floored_divmod : ℤ → ℤ → ℤ × ℤ
floored_divmod x y =
    let q = quot x y in
    let r = rem x y in
    if not (eq_ℤ r (pos 0)) && xor (is_negative r) (is_negative y)
    then (q -ℤ pos 1, r +ℤ y)
    else (q, r)

pub data ArithOp : Type 0 where
  add sub mul : ArithOp

-- The exact operation, and its checked form on i64.
abbrev pub exact : ArithOp → ℤ → ℤ → ℤ
exact add a b = a +ℤ b
exact sub a b = a -ℤ b
exact mul a b = a *ℤ b

-- OP_ADD, OP_SUB and OP_MUL: the value put into the destination, or `none` for the send.
unfoldable pub fast_arith : ArithOp → Value → Value → Option Value
fast_arith op x y =
    if is_int x && is_int y then checked (exact op (as_int x) (as_int y)) >>= try_from_int else none

-- OP_DIV and OP_MOD.
unfoldable pub fast_div : Value → Value → Option Value
fast_div x y =
    if is_int x && is_int y && not (eq_ℤ (as_int y) (pos 0))
    then try_from_int (floored_divmod (as_int x) (as_int y)).0
    else none

unfoldable pub fast_mod : Value → Value → Option Value
fast_mod x y =
    if is_int x && is_int y && not (eq_ℤ (as_int y) (pos 0))
    then try_from_int (floored_divmod (as_int x) (as_int y)).1
    else none

pub data CompareOp : Type 0 where
  lt gt le ge eq_num : CompareOp

unfoldable pub compare_ints : CompareOp → ℤ → ℤ → Bool
compare_ints lt a b = ltb_ℤ a b
compare_ints gt a b = ltb_ℤ b a
compare_ints le a b = not (ltb_ℤ b a)
compare_ints ge a b = not (ltb_ℤ a b)
compare_ints eq_num a b = eq_ℤ a b

-- OP_LT, OP_GT, OP_LE, OP_GE and OP_EQNUM: the Boolean answered, or `none` for the send.
unfoldable pub fast_compare : CompareOp → Value → Value → Option Bool
fast_compare op x y =
    if is_int x && is_int y then some (compare_ints op (as_int x) (as_int y)) else none

-- The integer primitives.
pub data IntPrim : Type 0 where
  int_add int_sub int_mul int_div int_mod int_quo int_bit_and int_bit_or int_bit_xor int_bit_shift :
      IntPrim

-- A bitwise operation on i64 works on the two's complement words.
abbrev pub bitwise : (ℕ → ℕ → ℕ) → ℤ → ℤ → ℤ
bitwise f a b = as_signed u64_mod (f (as_unsigned u64_mod a) (as_unsigned u64_mod b))

-- a.checked_shl(b).filter(|s| (s >> b) == a), for 0 <= b < 63
unfoldable pub shift_left : ℤ → ℕ → Option ℤ
shift_left a b =
    let s = as_signed u64_mod (shl u64_mod (as_unsigned u64_mod a) b) in
    if eq_ℤ (sar s b) a then some s else none

unfoldable pub bit_shift : ℤ → ℤ → Option ℤ
bit_shift a (pos b) = if leb 63 b then none else shift_left a b
bit_shift a (negsuc b) =
    if leb 63 (suc b)
    then some (if is_negative a then negsuc 0 else pos 0)
    else some (sar a (suc b))

unfoldable pub int_result : IntPrim → ℤ → ℤ → Option ℤ
int_result int_add a b = checked (a +ℤ b)
int_result int_sub a b = checked (a -ℤ b)
int_result int_mul a b = checked (a *ℤ b)
int_result int_div a b = if eq_ℤ b (pos 0) then none else some (floored_divmod a b).0
int_result int_mod a b = if eq_ℤ b (pos 0) then none else some (floored_divmod a b).1
int_result int_quo a b = if eq_ℤ b (pos 0) then none else some (quot a b)
int_result int_bit_and a b = some (bitwise bit_and a b)
int_result int_bit_or a b = some (bitwise bit_or a b)
int_result int_bit_xor a b = some (bitwise bit_xor a b)
int_result int_bit_shift a b = bit_shift a b

pub data PrimOutcome : Type 0 where
  value : Value → PrimOutcome
  control : PrimOutcome
  fail : ℕ → PrimOutcome

-- src/prims.rs: failure codes
abbrev pub fail_wrong_type : ℕ
fail_wrong_type = 2

abbrev pub fail_unsupported_context : ℕ
fail_unsupported_context = 7

abbrev pub fail_overflow : ℕ
fail_overflow = 6

abbrev or_fail : Option Value → ℕ → PrimOutcome
or_fail none code = fail code
or_fail (some v) code = value v

unfoldable pub prim_int_binary : IntPrim → Value → Value → PrimOutcome
prim_int_binary n x y =
    if not (is_int x) || not (is_int y)
    then fail fail_wrong_type
    else or_fail (int_result n (as_int x) (as_int y) >>= try_from_int) fail_overflow
