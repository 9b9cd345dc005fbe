-- ===== src/SmallInt/Tests.antt =====
-- Examples for the SmallInteger arithmetic of src/interp.rs and src/prims.rs.
use smallishtalk.Base.{Bool, not, ◌==◌, ℕ, ◌<◌, ◌≡◌, ◌≢◌, refl, ◌↔◌, true, some, arith}
use smallishtalk.Base.Int.{◌≤ℤ◌, ℤ, pos, negsuc, ◌+ℤ◌, ◌-ℤ◌, ◌*ℤ◌}
use smallishtalk.Base.Words.{u64_mod}
use smallishtalk.Value.{is_int, as_int, try_from_int}
use smallishtalk.SmallInt.{
  lt, gt, le, ge, eq_num, fast_compare, quot, rem, add, sub, exact, fast_arith, fast_div, fast_mod,
  floored_divmod, int_div, int_mod, value, prim_int_binary,
}
use smallishtalk.SmallInt.Floored.{IsFlooredRem, floored_divmod_lem}
use smallishtalk.SmallInt.Compare.{fast_compare_lem}
use smallishtalk.SmallInt.Exact.{
  prim_of, fast_arith_iff, fast_mod_total, fast_div_lem, prim-fast_iff,
}

-- -7 divided by 2 is -4, remainder 1.
floored_divmod_minus_seven : floored_divmod (negsuc 6) (pos 2) ≡ (negsuc 3, pos 1)
unfolding floored_divmod quot rem ◌+ℤ◌ ◌-ℤ◌
floored_divmod_minus_seven = refl

floored_divmod_lem_example :
    let qr = floored_divmod (negsuc 6) (pos 2) in
    (qr.0 *ℤ pos 2 +ℤ qr.1 ≡ negsuc 6) × IsFlooredRem qr.1 (pos 2)
floored_divmod_lem_example = floored_divmod_lem (negsuc 6) (pos 2) (λ e. ground (arith, e))

-- The words of 20 and 22 and 42.
fast_arith_iff_example : fast_arith add 41 45 ≡ some 85 ↔ (
    (is_int 41 ≡ true)
    × (is_int 45 ≡ true)
    × (85 < u64_mod)
    × (is_int 85 ≡ true)
    × (as_int 85 ≡ exact add (as_int 41) (as_int 45)))
fast_arith_iff_example = fast_arith_iff add 41 45 85

is_int-41 : is_int 41 ≡ true
unfolding is_int
is_int-41 = refl

is_int-7 : is_int 7 ≡ true
unfolding is_int
is_int-7 = refl

as_int-7 : as_int 7 ≢ pos 0
unfolding as_int
as_int-7 e = ground (arith, e)

fast_div_twenty : fast_div 41 7 ≡ some 13
unfolding fast_div floored_divmod quot rem try_from_int is_int as_int ◌+ℤ◌ ◌-ℤ◌
fast_div_twenty = refl

fast_mod_total_example :
    (v : ℕ) × (fast_mod 41 7 ≡ some v)
    × IsFlooredRem (as_int v) (as_int 7)
    × ((q : ℤ) × (q *ℤ as_int 7 +ℤ as_int v ≡ as_int 41))
fast_mod_total_example = fast_mod_total 41 7 (omega arith) (omega arith) is_int-41 is_int-7 as_int-7

fast_div_lem_example :
    (r : ℤ) × (as_int 13 *ℤ as_int 7 +ℤ r ≡ as_int 41) × IsFlooredRem r (as_int 7)
fast_div_lem_example = fast_div_lem 41 7 13 is_int-41 is_int-7 as_int-7 fast_div_twenty

prim-fast_iff_example :
    ((prim_int_binary (prim_of sub) 41 7 ≡ value 35) ↔ (fast_arith sub 41 7 ≡ some 35))
    × ((prim_int_binary int_div 41 7 ≡ value 35) ↔ (fast_div 41 7 ≡ some 35))
    × ((prim_int_binary int_mod 41 7 ≡ value 35) ↔ (fast_mod 41 7 ≡ some 35))
prim-fast_iff_example = prim-fast_iff sub 41 7 35

fast_compare_lem_example :
    (b : Bool) × (fast_compare lt 41 7 ≡ some b)
    × (fast_compare ge 41 7 ≡ some (not b))
    × ((b ≡ true) ↔ (as_int 41 +ℤ pos 1 ≤ℤ as_int 7))
    × (fast_compare gt 7 41 ≡ some b)
    × (fast_compare le 7 41 ≡ some (not b))
    × (fast_compare eq_num 41 7 ≡ some (41 == 7))
fast_compare_lem_example = fast_compare_lem 41 7 (omega arith) (omega arith) is_int-41 is_int-7
