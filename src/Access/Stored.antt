-- ===== src/Access/Stored.antt =====
-- src/prims.rs: the bounds of indexed access, and access after a store.
use Prim.Native.Nat.{bit_or}
use smallishtalk.Base.{
  ℕ, ◌+◌, ◌*◌, ◌≤◌, ◌<◌, ◌≡◌, ◌≢◌, refl, ap, ◌∙◌, inl, inr, ◌↔◌, true, false, ◌&&◌, Option, none,
  some, arith, ◌==◌, if◌then◌else◌, Bool-cases, Option-cases, ◌>>=◌,
}
use smallishtalk.Base.Int.{pos, ◌≤ℤ◌}
use smallishtalk.Base.Words.{u64_mod, as_signed}
use smallishtalk.Treaty.Words.{fmt_ptrs}
use smallishtalk.Header
use smallishtalk.Header.Fields.{with_gc_bits_fields, gc_bits_lem}
use smallishtalk.Value.{Value, is_int, is_ptr, as_int, as_ptr, from_int}
use smallishtalk.Space.{Memory}
use smallishtalk.Heap.{
  Heap, header, num_slots, has_overflow_word, in_old_space, byte_size, slot, is_immutable,
  set_slot_raw,
}
use smallishtalk.Heap.Barrier.{store_slot, write_barrier, remember, points_young, is_remembered}
use smallishtalk.Heap.Barrier.Remembered.{set_bit}
use smallishtalk.Access.{index_within, at_value, at_put_value, size_value}

-- The size that `size` answers for an object that can be indexed.
abbrev pub indexed_size : Memory → Value → ℕ
indexed_size m recv =
    if Header.format (header m (as_ptr recv)) == fmt_ptrs
    then num_slots m (as_ptr recv)
    else byte_size m (as_ptr recv)

-- For an integer index, access answers a value exactly where `size` answers a size and the index is
-- from 1 up to it.
pub at_value_iff :
    (m : Memory) (recv idx : Value)
    → is_int idx ≡ true
    → (at_value m recv idx ≢ none) ↔ (
        (size_value m recv ≡ some (from_int (as_signed u64_mod (indexed_size m recv))))
        × (pos 1 ≤ℤ as_int idx)
        × (as_int idx ≤ℤ as_signed u64_mod (indexed_size m recv)))
unfolding at_value size_value index_within
at_value_iff m recv idx i = ground arith

-- Where two memories differ in gc bits of `o` alone.
abbrev SameShape : Memory → ℕ → Memory → Type 0
SameShape m o m' =
    (Header.format (m' o) ≡ Header.format (m o))
    × (num_slots m' o ≡ num_slots m o)
    × ((a : ℕ) → a ≢ o → m' a ≡ m a)

remembered-SameShape :
    (h : Heap) (o : ℕ) → 8 ≤ o → h.mem o < u64_mod → SameShape h.mem o (remember h o).mem
unfolding remember num_slots has_overflow_word
remembered-SameShape h o high w =
    let bits = set_bit (Header.gc_bits (h.mem o)) (omega (arith, gc_bits_lem (h.mem o))) in
    let fields = with_gc_bits_fields (h.mem o) (bit_or (Header.gc_bits (h.mem o)) 2) w bits.1 in
    (ground (arith, fields.3), ground (arith, fields.4), λ a ne. ground (arith, ne))

barrier-SameShape :
    (h : Heap) (o : ℕ) (v : Value)
    → 8 ≤ o
    → h.mem o < u64_mod
    → SameShape h.mem o (write_barrier h o v).mem
unfolding write_barrier
barrier-SameShape h o v high w =
    let marked = remembered-SameShape h o high w in
    let quiet : SameShape h.mem o h.mem = (refl, refl, λ a ne. refl) in
    elim (Bool-cases (points_young h v && in_old_space h o)) [
      | inr other ↦ rw other quiet
      | inl young ↦ rw young (elim (Bool-cases (is_remembered h.mem o)) [
        | inl was ↦ rw was quiet
        | inr new ↦ rw new marked
      ])
    ]

-- A store into a slot, barrier and all, leaves the format and the size of its object.
store_slot-shape :
    (h : Heap) (o k : ℕ) (v : Value)
    → 8 ≤ o
    → h.mem o < u64_mod
    → let m' = (store_slot h o k v).mem in
      (Header.format (m' o) ≡ Header.format (h.mem o))
      × (num_slots m' o ≡ num_slots h.mem o)
      × (slot m' o k ≡ v)
unfolding store_slot num_slots
store_slot-shape h o k v high w =
    let after = record h { mem = set_slot_raw h.mem o k v } in
    let header_same : after.mem o ≡ h.mem o = ground arith in
    let s = barrier-SameShape after o v high (rw header_same w) in
    (
      s.0 ∙ ap Header.format header_same,
      s.1 ∙ ground arith,
      s.2 (o + 8 + k * 8) (λ e. omega (arith, e)) ∙ ground arith,
    )

module _ (recv idx : Value) where
  at_value-tags :
      (m : Memory) → at_value m recv idx ≢ none → (is_ptr recv ≡ true) × (is_int idx ≡ true)
  unfolding at_value
  at_value-tags m ans = ground arith

  module _ (p : is_ptr recv ≡ true) (i : is_int idx ≡ true) where
    at_value-ptrs :
        (m : Memory)
        → Header.format (m recv) ≡ fmt_ptrs
        → at_value m recv idx
          ≡ (index_within (as_int idx) (num_slots m recv) >>= λ k. some (slot m recv k))
    unfolding at_value as_ptr
    at_value-ptrs m f = rw (p, i, f) refl

    at_put_value-ptrs :
        (h : Heap) (val : Value)
        → Header.format (h.mem recv) ≡ fmt_ptrs
        → is_immutable h.mem recv ≡ false
        → at_put_value h recv idx val ≡ (
            index_within (as_int idx) (num_slots h.mem recv) >>= λ k.
            some (val, store_slot h recv k val))
    unfolding at_put_value as_ptr
    at_put_value-ptrs h val f g = rw (p, i, f, g) refl

-- Storing into a pointer object that is not immutable, at an index at which `at:` has an answer,
-- succeeds with the stored value, and `at:` at that index then answers the value.
pub at_put_value_lem :
    (h : Heap) (recv idx val : Value)
    → 8 ≤ recv
    → h.mem recv < u64_mod
    → Header.format (h.mem recv) ≡ fmt_ptrs
    → is_immutable h.mem recv ≡ false
    → at_value h.mem recv idx ≢ none
    → (h' : Heap) × (at_put_value h recv idx val ≡ some (val, h'))
      × (at_value h'.mem recv idx ≡ some val)
at_put_value_lem h recv idx val high w ptrs mut_ok ans =
    let tags = at_value-tags recv idx h.mem ans in
    let at_run = at_value-ptrs recv idx tags.0 tags.1 in
    let put_run = at_put_value-ptrs recv idx tags.0 tags.1 h val ptrs mut_ok in
    elim (Option-cases (index_within (as_int idx) (num_slots h.mem recv))) [
      | inl out ↦
          absurd (
            ans
              (at_run h.mem ptrs ∙ ap (λ (o : Option ℕ). o >>= λ k. some (slot h.mem recv k)) out))
      | inr (k, within) ↦
          let h' = store_slot h recv k val in
          let shape = store_slot-shape h recv k val high w in
          (
            h',
            put_run ∙ ap (λ (o : Option ℕ). o >>= λ j. some (val, store_slot h recv j val)) within,
            at_run h'.mem (shape.0 ∙ ptrs)
                ∙ ap (λ (n : ℕ). index_within (as_int idx) n >>= λ j. some (slot h'.mem recv j))
                    shape.1
                ∙ ap (λ (o : Option ℕ). o >>= λ j. some (slot h'.mem recv j)) within
                ∙ ap (λ (x : Value). some x) shape.2,
          )
    ]
