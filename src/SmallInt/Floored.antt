-- ===== src/SmallInt/Floored.antt =====
-- src/interp.rs: division and remainder that round down.
use native.Mathlib.Nat.{div-add-mod}
use smallishtalk.Base.{
  ℕ, zero, suc, ◌+◌, ◌-◌, ◌*◌, ◌/◌, ◌%◌, ◌<◌, ◌≡◌, ◌≢◌, refl, arith, Bool-cases, inl, inr, ◌==◌,
  if◌then◌else◌,
}
use smallishtalk.Base.Int.{ℤ, sub_ℕ, pos, negsuc, pos_part, neg_part, ◌+ℤ◌, ◌-ℤ◌, ◌*ℤ◌, ◌≤ℤ◌}
use smallishtalk.SmallInt.{quot, rem, floored_divmod}

-- The remainder has the sign of the divisor and is smaller in size.
abbrev pub IsFlooredRem : ℤ → ℤ → Type 0
IsFlooredRem r (pos b) = (pos 0 ≤ℤ r) × (pos_part r < b)
IsFlooredRem r (negsuc b) = (r ≤ℤ pos 0) × (neg_part r < suc b)

division : (a b : ℕ) → b * (a / b) + a % b ≡ a
division a b = omega (arith, div-add-mod a b)

floored-rem : (x y : ℤ) → y ≢ pos 0 → IsFlooredRem (floored_divmod x y).1 y
unfolding floored_divmod quot rem ◌+ℤ◌ ◌-ℤ◌
floored-rem (pos a) (pos zero) h = absurd (h refl)
floored-rem (pos a) (pos (suc b)) h = ground arith
floored-rem (pos a) (negsuc b) h = ground arith
floored-rem (negsuc a) (pos zero) h = absurd (h refl)
floored-rem (negsuc a) (pos (suc b)) h = ground arith
floored-rem (negsuc a) (negsuc b) h = ground arith

-- The two results where the signs differ.
floored_pos-negsuc :
    (a b : ℕ)
    → floored_divmod (pos a) (negsuc b) ≡ (
        if a % suc b == 0
        then (sub_ℕ 0 (a / suc b), pos 0)
        else (negsuc (a / suc b), negsuc (b - a % suc b)))
unfolding floored_divmod quot rem ◌+ℤ◌ ◌-ℤ◌
floored_pos-negsuc a b = ground arith

floored_negsuc-pos :
    (a b : ℕ)
    → floored_divmod (negsuc a) (pos (suc b)) ≡ (
        if suc a % suc b == 0
        then (sub_ℕ 0 (suc a / suc b), pos 0)
        else (negsuc (suc a / suc b), pos (suc b - suc a % suc b)))
unfolding floored_divmod quot rem ◌+ℤ◌ ◌-ℤ◌
floored_negsuc-pos a b = ground arith

floored_negsuc-negsuc :
    (a b : ℕ)
    → floored_divmod (negsuc a) (negsuc b) ≡ (pos (suc a / suc b), sub_ℕ 0 (suc a % suc b))
unfolding floored_divmod quot rem ◌+ℤ◌ ◌-ℤ◌
floored_negsuc-negsuc a b = ground arith

floored_pos-pos :
    (a b : ℕ) → floored_divmod (pos a) (pos (suc b)) ≡ (pos (a / suc b), pos (a % suc b))
unfolding floored_divmod quot rem ◌+ℤ◌ ◌-ℤ◌
floored_pos-pos a b = ground arith

floored-sum : (x y : ℤ) → y ≢ pos 0 → (floored_divmod x y).0 *ℤ y +ℤ (floored_divmod x y).1 ≡ x
unfolding ◌+ℤ◌ ◌*ℤ◌
floored-sum (pos a) (pos zero) h = absurd (h refl)
floored-sum (pos a) (pos (suc b)) h = rw (floored_pos-pos a b) (ground (arith, division a (suc b)))
floored-sum (pos a) (negsuc b) h = rw (floored_pos-negsuc a b) (elim (Bool-cases (a % suc b == 0)) [
  | inl e ↦ rw e (ground (arith, division a (suc b)))
  | inr e ↦ rw e (ground (arith, division a (suc b)))
])
floored-sum (negsuc a) (pos zero) h = absurd (h refl)
floored-sum (negsuc a) (pos (suc b)) h =
    rw (floored_negsuc-pos a b) (elim (Bool-cases (suc a % suc b == 0)) [
      | inl e ↦ rw e (ground (arith, division (suc a) (suc b)))
      | inr e ↦ rw e (ground (arith, division (suc a) (suc b)))
    ])
floored-sum (negsuc a) (negsuc b) h =
    rw (floored_negsuc-negsuc a b) (ground (arith, division (suc a) (suc b)))

-- Division by a nonzero divisor rounds down: the quotient times the divisor and the remainder make
-- up the dividend, and the remainder has the sign of the divisor and is smaller in size.
pub floored_divmod_lem :
    (x y : ℤ)
    → y ≢ pos 0
    → let qr = floored_divmod x y in (qr.0 *ℤ y +ℤ qr.1 ≡ x) × IsFlooredRem qr.1 y
floored_divmod_lem x y h = (floored-sum x y h, floored-rem x y h)
