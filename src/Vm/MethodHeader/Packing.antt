-- ===== src/Vm/MethodHeader/Packing.antt =====
-- src/vm.rs: the getters on a packed method header.
use Prim.Native.Nat.{bit_and, bit_or}
use smallishtalk.Base.{
  ◌⊎◌, ◌≢◌, inl, inr, Option-cases, ℕ, ◌+◌, ◌-◌, ◌*◌, ◌/◌, ◌%◌, ◌^◌, ◌≤◌, ◌<◌, ◌≡◌, ap, ◌∙◌, Option,
  none, some, arith, if◌then◌else◌, ◌==◌,
}
use smallishtalk.Base.Bits.{land_mask, lor_fields'}
use smallishtalk.Base.Int.{ℤ, pos}
use smallishtalk.Base.Words.{u64_mod, shl, as_signed}
use smallishtalk.Vm.MethodHeader.{
  field, pack_word, pack_method_header, method_frame_slots, method_argc, method_primitive,
  method_handler_slot_base, method_flags,
}

packed : (f a p h b g : ℕ) → ℕ
packed f a p h b g = f + a * 2 ^ 8 + p * 2 ^ 12 + h * 2 ^ 24 + b * 2 ^ 25 + g * 2 ^ 33

-- One more field above the ones that are there.
above : (x v k : ℕ) → x < 2 ^ k → v * 2 ^ k < u64_mod → bit_or x (shl u64_mod v k) ≡ v * 2 ^ k + x
above x v k h fits =
    let plain : shl u64_mod v k ≡ v * 2 ^ k = grind arith in
    ap (λ (t : ℕ). bit_or x t) plain ∙ lor_fields' k v x h

pack_word_sum :
    (f a p h b g : ℕ)
    → f < 2 ^ 8
    → a < 2 ^ 4
    → p < 2 ^ 12
    → h < 2
    → b < 2 ^ 8
    → g < 2 ^ 30
    → pack_word f a p h b g ≡ packed f a p h b g
unfolding pack_word packed
pack_word_sum f a p h b g hf ha hp hh hb hg =
    ap
      (λ (t : ℕ).
        bit_or (bit_or (bit_or (bit_or t (shl u64_mod p 12)) (shl u64_mod h 24)) (shl u64_mod b 25))
          (shl u64_mod g 33))
      (above f a 8 (omega arith) (omega arith))
    ∙ ap
        (λ (t : ℕ).
          bit_or (bit_or (bit_or t (shl u64_mod h 24)) (shl u64_mod b 25)) (shl u64_mod g 33))
        (above (a * 2 ^ 8 + f) p 12 (omega arith) (omega arith))
    ∙ ap (λ (t : ℕ). bit_or (bit_or t (shl u64_mod b 25)) (shl u64_mod g 33))
        (above (p * 2 ^ 12 + (a * 2 ^ 8 + f)) h 24 (omega arith) (omega arith))
    ∙ ap (λ (t : ℕ). bit_or t (shl u64_mod g 33))
        (above (h * 2 ^ 24 + (p * 2 ^ 12 + (a * 2 ^ 8 + f))) b 25 (omega arith) (omega arith))
    ∙ above (b * 2 ^ 25 + (h * 2 ^ 24 + (p * 2 ^ 12 + (a * 2 ^ 8 + f)))) g 33 (omega arith)
        (omega arith)
    ∙ omega arith

-- A getter of a header that is not negative reads a remainder.
field-pos : (w k b : ℕ) → w / 2 ^ k < u64_mod → field (pos w) k (2 ^ b - 1) ≡ w / 2 ^ k % 2 ^ b
field-pos w k b h =
    let whole : w / 2 ^ k % u64_mod ≡ w / 2 ^ k = omega arith in
    ap (λ (t : ℕ). bit_and t (2 ^ b - 1)) whole ∙ land_mask b (w / 2 ^ k)

-- The limits that the packing asserts.
abbrev pub PrimFits : Option ℕ → Type 0
PrimFits none = Unit
PrimFits (some n) = n < 4096

abbrev pub Limits : ℕ → ℕ → Option ℕ → ℕ → Type 0
Limits f a p b = (f ≤ 255) × (a ≤ 15) × (b ≤ 255) × PrimFits p

-- What the getters read.
abbrev pub Reads : ℤ → ℕ → ℕ → Option ℕ → ℕ → ℕ → Type 0
Reads bits f a p b g =
    (method_frame_slots bits ≡ f)
    × (method_argc bits ≡ a)
    × (method_primitive bits ≡ p)
    × (method_handler_slot_base bits ≡ b)
    × (method_flags bits ≡ g)

fields_of :
    (f a p h b g : ℕ)
    → f < 2 ^ 8
    → a < 2 ^ 4
    → p < 2 ^ 12
    → h < 2
    → b < 2 ^ 8
    → g < 2 ^ 30
    → Reads (as_signed u64_mod (pack_word f a p h b g)) f a (if h == 0 then none else some p) b g
unfolding method_frame_slots method_argc method_primitive method_handler_slot_base method_flags
    packed
fields_of f a p h b g hf ha hp hh hb hg =
    let w = packed f a p h b g in
    let small : as_signed u64_mod (pack_word f a p h b g) ≡ pos w =
      rw (pack_word_sum f a p h b g hf ha hp hh hb hg) (ground arith) in
    rw small (
      field-pos w 0 8 (omega arith) ∙ omega arith,
      field-pos w 8 4 (omega arith) ∙ omega arith,
      ground (arith, field-pos w 24 1, field-pos w 12 12),
      field-pos w 25 8 (omega arith) ∙ omega arith,
      omega arith,
    )

not_both : (o : Option ℤ) (z : ℤ) → o ≡ none → o ≢ some z
not_both o z e f = ground (arith, e, f)

-- The limits and the fields, as functions of the outcome.
pack-Limits :
    (f a b g : ℕ) (p : Option ℕ)
    → g < 2 ^ 30
    → (Limits f a p b → (bits : ℤ) × (pack_method_header f a p b g ≡ some bits))
      × ((bits : ℤ)
          → pack_method_header f a p b g ≡ some bits
          → Limits f a p b × Reads bits f a p b g)
unfolding pack_method_header
pack-Limits f a b g none hg = (
  (λ ok. (as_signed u64_mod (pack_word f a 0 0 b g), ground arith)),
  (λ bits e.
      let ok : Limits f a none b = ground arith in
      let same : as_signed u64_mod (pack_word f a 0 0 b g) ≡ bits = ground arith in
      (
        ok,
        rw (← same) (
            fields_of f a 0 0 b g (omega arith) (omega arith) (omega arith) (omega arith)
              (omega arith) hg),
      )),
)
pack-Limits f a b g (some n) hg = (
  (λ ok. (as_signed u64_mod (pack_word f a n 1 b g), ground arith)),
  (λ bits e.
      let ok : Limits f a (some n) b = ground arith in
      let same : as_signed u64_mod (pack_word f a n 1 b g) ≡ bits = ground arith in
      (
        ok,
        rw (← same) (
            fields_of f a n 1 b g (omega arith) (omega arith) (omega arith) (omega arith)
              (omega arith) hg),
      )),
)

-- Packing fails exactly outside the limits (255 frame slots, 15 arguments, a handler slot base of
-- 255, a primitive below 4096); within them the getters read every field of the header back. The
-- flags are below 2^30, so that the header's integer is not negative.
pub pack_method_header_lem :
    (f a b g : ℕ) (p : Option ℕ)
    → g < 2 ^ 30
    → ((pack_method_header f a p b g ≡ none) × ¬ Limits f a p b)
      ⊎ ((bits : ℤ) × (pack_method_header f a p b g ≡ some bits)
          × Limits f a p b
          × Reads bits f a p b g)
pack_method_header_lem f a b g p hg =
    let both = pack-Limits f a b g p hg in
    elim (Option-cases (pack_method_header f a p b g)) [
      | inl e ↦ inl (e, λ ok. not_both _ _ e (both.0 ok).1)
      | inr (bits, e) ↦ let reads = both.1 bits e in inr (bits, e, reads.0, reads.1)
    ]
