-- ===== src/Heap/Barrier/Note.antt =====
-- src/vm.rs: setting the remembered bit of an old object.
use Prim.Native.Nat.{bit_or}
use smallishtalk.Base.{
  ℕ, ◌-◌, ◌/◌, ◌<◌, ◌^◌, ◌≡◌, ◌≢◌, sym, subst, ◌∙◌, inl, inr, true, false, List, [], ◌∷◌, ◌++◌, In,
  In-snoc, Distinct-snoc, arith, Bool-cases, ◌==◌,
}
use smallishtalk.Base.Words.{u64_mod}
use smallishtalk.Header
use smallishtalk.Header.Fields.{with_gc_bits_fields, with_gc_bits_sum}
use smallishtalk.Space.{Memory}
use smallishtalk.Heap.{Heap, num_slots, slot, slot_addr, set_header}
use smallishtalk.Heap.Walk.Apart.{slot-ne-header, header-ne-overflow}
use smallishtalk.Heap.Walk.History.{Tiles-reheader}
use smallishtalk.Heap.Barrier.{is_remembered, remember, points_young}
use smallishtalk.Heap.Barrier.Remembered.{
  Remembered, is_remembered-frame, num_slots-frame, write-ne, set_bit, gc_bits-lt, In-append,
  In-last,
}

-- Remembering an object.
module _ (h : Heap) {objs : List ℕ} (r : Remembered h objs) (o : ℕ) (io : In o objs) where
  abbrev marked_header : ℕ
  marked_header = Header.with_gc_bits (h.mem o) (bit_or (Header.gc_bits (h.mem o)) 2)

  abbrev noted : Memory
  noted = set_header h.mem o marked_header

  marked_fields :
      (marked_header < u64_mod)
      × (Header.gc_bits marked_header ≡ bit_or (Header.gc_bits (h.mem o)) 2)
      × (Header.num_slots_field marked_header ≡ Header.num_slots_field (h.mem o))
      × (marked_header / 2 ^ 42 ≡ h.mem o / 2 ^ 42)
  marked_fields =
      let bits = (set_bit (Header.gc_bits (h.mem o)) (gc_bits-lt h r o)).1 in
      let all = with_gc_bits_fields (h.mem o) _ (r.words64 o io) bits in
      (all.0, all.1, all.4, omega (arith, with_gc_bits_sum (h.mem o) _ (r.words64 o io) bits))

  noted-header : (b : ℕ) → b ≢ o → noted b ≡ h.mem b
  noted-header b ne = write-ne h.mem o marked_header b (λ e. ne (sym e))

  noted_self : noted o ≡ marked_header
  noted_self = ground arith

  pub noted-remembered_self : is_remembered noted o ≡ true
  unfolding is_remembered
  noted-remembered_self =
      rw noted_self (rw marked_fields.1 (set_bit (Header.gc_bits (h.mem o)) (gc_bits-lt h r o)).0)

  noted-remembered : (b : ℕ) → is_remembered h.mem b ≡ true → is_remembered noted b ≡ true
  noted-remembered b rem = elim (Bool-cases (b == o)) [
    | inl e ↦ let same : b ≡ o = ground arith in rw same noted-remembered_self
    | inr e ↦ is_remembered-frame h.mem noted b (noted-header b (ground arith)) ∙ rem
  ]

  pub noted-num_slots : (b : ℕ) → In b objs → num_slots noted b ≡ num_slots h.mem b
  noted-num_slots b ib = num_slots-frame h.mem noted b (ground (arith, marked_fields.2)) (λ ov.
      write-ne h.mem o marked_header (b - 8) (header-ne-overflow r.high r.tiled o b io ib ov))

  noted-slot : (b j : ℕ) → In b objs → j < num_slots h.mem b → slot noted b j ≡ slot h.mem b j
  noted-slot b j ib k =
      write-ne h.mem o marked_header (slot_addr b j)
        (λ e. (slot-ne-header r.high r.tiled b j o ib k io).0 (sym e))

  noted-words64 : (b : ℕ) → In b objs → noted b < u64_mod
  noted-words64 b ib = elim (Bool-cases (b == o)) [
    | inl e ↦ let same : b ≡ o = ground arith in rw same (rw noted_self marked_fields.0)
    | inr e ↦ rw (noted-header b (ground arith)) (r.words64 b ib)
  ]

  noted-listed : (b : ℕ) → In b objs → is_remembered noted b ≡ true → In b (h.ssb ++ o ∷ [])
  noted-listed b ib rem = elim (Bool-cases (b == o)) [
    | inl e ↦ let same : b ≡ o = ground arith in rw same (In-last o h.ssb)
    | inr e ↦ In-append b o h.ssb (
        r.listed b ib
          (sym (is_remembered-frame h.mem noted b (noted-header b (ground arith))) ∙ rem))
  ]

  pub remember-Remembered : is_remembered h.mem o ≡ false → Remembered (remember h o) objs
  unfolding remember
  remember-Remembered new = record {
    high = r.high;
    fits = r.fits;
    tiled = Tiles-reheader o marked_header r.high r.tiled io (marked_fields.3, marked_fields.2);
    words64 = λ b ib. noted-words64 b ib;
    covered = λ b j ib kb y.
        let kb' = subst (λ (n : ℕ). j < n) (noted-num_slots b ib) kb in
        noted-remembered b (
          r.covered b j ib kb'
            (subst (λ (x : ℕ). points_young h x ≡ true) (noted-slot b j ib kb') y));
    listed = λ b ib rem. noted-listed b ib rem;
    marked = λ b ib. elim (In-snoc b o h.ssb ib) [
      | inl old ↦ let was = r.marked b old in (was.0, noted-remembered b was.1)
      | inr e ↦ rw e (io, noted-remembered_self)
    ];
    unique = Distinct-snoc o h.ssb r.unique (λ i. cc (new, (r.marked o i).1));
  }
