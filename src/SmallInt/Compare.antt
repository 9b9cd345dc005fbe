-- ===== src/SmallInt/Compare.antt =====
-- src/interp.rs: the specialized comparisons.
use smallishtalk.Base.Int.{pos, ltb_ℤ, ◌+ℤ◌, ◌≤ℤ◌}
use smallishtalk.Base.{
  true≢false, ◌≢◌, ◌↔◌, Bool, refl, ◌≡◌, sym, ap, ◌∙◌, inl, inr, Bool-cases, true, not, some, ◌==◌,
  ◌<◌, arith,
}
use smallishtalk.Base.Words.{u64_mod}
use smallishtalk.Value.{Value, is_int, as_int, from_int}
use smallishtalk.Value.Tagging.{from_int-as_int, is_int_lem}
use smallishtalk.SmallInt.{lt, gt, le, ge, eq_num, eq_ℤ, compare_ints, fast_compare}
use smallishtalk.SmallInt.Exact.{eq_ℤ_iff}

module _ (x y : Value) (hx : x < u64_mod) (hy : y < u64_mod) (ix : is_int x ≡ true)
    (iy : is_int y ≡ true) where
  same_word : eq_ℤ (as_int x) (as_int y) ≡ (x == y)
  same_word = elim (Bool-cases (eq_ℤ (as_int x) (as_int y))) [
    | inl e ↦
        let z = (eq_ℤ_iff (as_int x) (as_int y)).0 e in
        let same : x ≡ y =
          sym (from_int-as_int x hx ((is_int_lem x).0 ix))
          ∙ ap from_int z
          ∙ from_int-as_int y hy ((is_int_lem y).0 iy) in
        e ∙ ground (arith, same)
    | inr ne ↦
        let other : x ≢ y =
          λ z. true≢false (sym ((eq_ℤ_iff (as_int x) (as_int y)).1 (ap as_int z)) ∙ ne) in
        ne ∙ ground (arith, other)
  ]

  -- On words that are integers a specialized comparison always answers: `=` whether the words are
  -- the same, `>` what `<` answers with the operands exchanged, `>=` and `<=` the negations of `<`
  -- and `>`, and `<` whether the integer of the first word is the smaller one.
  pub fast_compare_lem :
      (b : Bool) × (fast_compare lt x y ≡ some b)
      × (fast_compare ge x y ≡ some (not b))
      × ((b ≡ true) ↔ (as_int x +ℤ pos 1 ≤ℤ as_int y))
      × (fast_compare gt y x ≡ some b)
      × (fast_compare le y x ≡ some (not b))
      × (fast_compare eq_num x y ≡ some (x == y))
  unfolding fast_compare compare_ints ◌+ℤ◌
  fast_compare_lem = (
    ltb_ℤ (as_int x) (as_int y),
    rw (ix, iy) refl,
    rw (ix, iy) refl,
    ground arith,
    rw (ix, iy) refl,
    rw (ix, iy) refl,
    rw (ix, iy) (ap (λ (t : Bool). some t) same_word),
  )
