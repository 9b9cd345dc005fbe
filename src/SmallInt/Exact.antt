-- ===== src/SmallInt/Exact.antt =====
-- src/interp.rs and src/prims.rs: the specialized sends and the primitives against exact arithmetic.
use smallishtalk.Base.{
  ◌<◌, ◌≡◌, ◌≢◌, ◌↔◌, ◌⊎◌, inl, inr, sym, ◌∙◌, true, none, some, arith, Bool-cases, ◌>>=◌,
}
use smallishtalk.Base.Int.{ℤ, pos, negsuc, ◌+ℤ◌, ◌*ℤ◌}
use smallishtalk.Base.Words.{u64_mod}
use smallishtalk.Value.{Value, from_int, try_from_int, as_int, is_int}
use smallishtalk.Value.Tagging.{
  IsSmallInt, IsSmallInt-cases, try_from_int-eq_some, try_from_int_iff, try_from_int_out,
  as_int-IsSmallInt,
}
use smallishtalk.SmallInt.{
  checked, eq_ℤ, floored_divmod, ArithOp, add, sub, mul, exact, fast_arith, fast_div, fast_mod,
  IntPrim, int_add, int_sub, int_mul, int_div, int_mod, value, prim_int_binary, int_result,
}
use smallishtalk.SmallInt.Floored.{IsFlooredRem, floored_divmod_lem}

-- The i64 check never decides: a SmallInteger is an i64.
checked_small : (z : ℤ) → IsSmallInt z → checked z ≡ some z
checked_small (pos n) h = ground arith
checked_small (negsuc n) h = ground arith

checked-cases : (z : ℤ) → (checked z ≡ some z) ⊎ (checked z ≡ none)
checked-cases z = ground arith

pub checked-try_from_int : (z : ℤ) → (checked z >>= try_from_int) ≡ try_from_int z
checked-try_from_int z = elim (IsSmallInt-cases z) [
  | inl small ↦ rw (checked_small z small)
  | inr big ↦ elim (checked-cases z) [ inl e ↦ rw e | inr e ↦ rw (e, try_from_int_out z big) ]
]

-- A specialized `+`, `-` or `*` answers a word exactly when both operands are integers and the word
-- is the tagged exact result; where the exact result is no SmallInteger the send is made.
pub fast_arith_iff :
    (op : ArithOp) (x y v : Value)
    → fast_arith op x y ≡ some v ↔ (
        (is_int x ≡ true)
        × (is_int y ≡ true)
        × (v < u64_mod)
        × (is_int v ≡ true)
        × (as_int v ≡ exact op (as_int x) (as_int y)))
unfolding fast_arith
fast_arith_iff op x y v =
    rw (checked-try_from_int (exact op (as_int x) (as_int y)))
      (ground (arith, try_from_int_iff (exact op (as_int x) (as_int y)) v))

pub eq_ℤ_iff : (a b : ℤ) → eq_ℤ a b ≡ true ↔ (a ≡ b)
eq_ℤ_iff (pos a) (pos b) = ground arith
eq_ℤ_iff (pos a) (negsuc b) = ground arith
eq_ℤ_iff (negsuc a) (pos b) = ground arith
eq_ℤ_iff (negsuc a) (negsuc b) = ground arith

FlooredRem-IsSmallInt : (r y : ℤ) → IsSmallInt y → IsFlooredRem r y → IsSmallInt r
FlooredRem-IsSmallInt (pos r) (pos b) h f = ground arith
FlooredRem-IsSmallInt (pos r) (negsuc b) h f = ground arith
FlooredRem-IsSmallInt (negsuc r) (pos b) h f = ground arith
FlooredRem-IsSmallInt (negsuc r) (negsuc b) h f = ground arith

small-some : (z : ℤ) → IsSmallInt z → (v : Value) × (try_from_int z ≡ some v) × (as_int v ≡ z)
small-some z h =
    let e = try_from_int-eq_some z h in (from_int z, e, ((try_from_int_iff z (from_int z)).0 e).2)

fast_mod_run :
    (x y : Value)
    → is_int x ≡ true
    → is_int y ≡ true
    → as_int y ≢ pos 0
    → fast_mod x y ≡ try_from_int (floored_divmod (as_int x) (as_int y)).1
unfolding fast_mod
fast_mod_run x y ix iy h = elim (Bool-cases (eq_ℤ (as_int y) (pos 0))) [
  | inl e ↦ absurd (h ((eq_ℤ_iff (as_int y) (pos 0)).0 e))
  | inr e ↦ rw (ix, iy, e)
]

fast_div_run :
    (x y : Value)
    → is_int x ≡ true
    → is_int y ≡ true
    → as_int y ≢ pos 0
    → fast_div x y ≡ try_from_int (floored_divmod (as_int x) (as_int y)).0
unfolding fast_div
fast_div_run x y ix iy h = elim (Bool-cases (eq_ℤ (as_int y) (pos 0))) [
  | inl e ↦ absurd (h ((eq_ℤ_iff (as_int y) (pos 0)).0 e))
  | inr e ↦ rw (ix, iy, e)
]

-- A specialized remainder of two integer words with a nonzero divisor always answers an integer,
-- which has the sign of the divisor, is smaller in size, and makes up the dividend with some
-- multiple of the divisor.
pub fast_mod_total :
    (x y : Value)
    → x < u64_mod
    → y < u64_mod
    → is_int x ≡ true
    → is_int y ≡ true
    → as_int y ≢ pos 0
    → (v : Value) × (fast_mod x y ≡ some v)
      × IsFlooredRem (as_int v) (as_int y)
      × ((q : ℤ) × (q *ℤ as_int y +ℤ as_int v ≡ as_int x))
fast_mod_total x y hx hy ix iy h =
    let parts = floored_divmod_lem (as_int x) (as_int y) h in
    let small = FlooredRem-IsSmallInt _ (as_int y) (as_int-IsSmallInt y hy) parts.1 in
    let got = small-some _ small in
    (
      got.0,
      fast_mod_run x y ix iy h ∙ got.1,
      rw got.2 parts.1,
      ((floored_divmod (as_int x) (as_int y)).0, rw got.2 parts.0),
    )

-- Where a specialized division answers, the answer is the quotient rounded down: what it leaves has
-- the sign of the divisor and is smaller in size.
pub fast_div_lem :
    (x y v : Value)
    → is_int x ≡ true
    → is_int y ≡ true
    → as_int y ≢ pos 0
    → fast_div x y ≡ some v
    → (r : ℤ) × (as_int v *ℤ as_int y +ℤ r ≡ as_int x) × IsFlooredRem r (as_int y)
fast_div_lem x y v ix iy h e =
    let parts = floored_divmod_lem (as_int x) (as_int y) h in
    let got = (try_from_int_iff _ v).0 (sym (fast_div_run x y ix iy h) ∙ e) in
    ((floored_divmod (as_int x) (as_int y)).1, rw got.2 parts.0, parts.1)

-- The primitive of each specialized operation.
abbrev pub prim_of : ArithOp → IntPrim
prim_of add = int_add
prim_of sub = int_sub
prim_of mul = int_mul

-- The integer primitives agree with the specialized sends: the primitive for `+`, `-`, `*`, `//` or
-- `\\` succeeds with a word exactly where the specialized send answers that word, for all words.
pub prim-fast_iff :
    (op : ArithOp) (x y v : Value)
    → ((prim_int_binary (prim_of op) x y ≡ value v) ↔ (fast_arith op x y ≡ some v))
      × ((prim_int_binary int_div x y ≡ value v) ↔ (fast_div x y ≡ some v))
      × ((prim_int_binary int_mod x y ≡ value v) ↔ (fast_mod x y ≡ some v))
unfolding prim_int_binary fast_arith fast_div fast_mod int_result
prim-fast_iff add x y v = (ground arith, ground arith, ground arith)
prim-fast_iff sub x y v = (ground arith, ground arith, ground arith)
prim-fast_iff mul x y v = (ground arith, ground arith, ground arith)
