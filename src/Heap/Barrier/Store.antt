-- ===== src/Heap/Barrier/Store.antt =====
-- src/vm.rs: the raw store into a slot of an old object.
use smallishtalk.Base.{
  ℕ, ◌-◌, ◌<◌, ◌≡◌, refl, sym, ap, subst, ◌∙◌, inl, inr, true, List, In, arith, Bool-cases, ◌==◌,
}
use smallishtalk.Header
use smallishtalk.Space.{Memory}
use smallishtalk.Value.{Value}
use smallishtalk.Heap.{Heap, num_slots, slot, slot_addr, set_slot_raw}
use smallishtalk.Heap.Walk.Apart.{slot-ne-header, slot-injective}
use smallishtalk.Heap.Walk.History.{Tiles-store}
use smallishtalk.Heap.Barrier.{is_remembered, points_young}
use smallishtalk.Heap.Barrier.Remembered.{
  Remembered, is_remembered-frame, num_slots-frame, write-ne,
}

-- A store that the barrier need not note.
module _ (h : Heap) {objs : List ℕ} (r : Remembered h objs) (o i : ℕ) (v : Value) (io : In o objs)
    (k : i < num_slots h.mem o) where
  abbrev pub stored : Memory
  stored = set_slot_raw h.mem o i v

  pub stored-header : (b : ℕ) → In b objs → stored b ≡ h.mem b
  stored-header b ib =
      write-ne h.mem (slot_addr o i) v b (slot-ne-header r.high r.tiled o i b io k ib).0

  pub stored-remembered : (b : ℕ) → In b objs → is_remembered stored b ≡ is_remembered h.mem b
  stored-remembered b ib = is_remembered-frame h.mem stored b (stored-header b ib)

  pub stored-num_slots : (b : ℕ) → In b objs → num_slots stored b ≡ num_slots h.mem b
  stored-num_slots b ib =
      num_slots-frame h.mem stored b (ap Header.num_slots_field (stored-header b ib)) (λ ov.
        write-ne h.mem (slot_addr o i) v (b - 8)
          ((slot-ne-header r.high r.tiled o i b io k ib).1 ov))

  stored-covered :
      (points_young h v ≡ true → is_remembered h.mem o ≡ true)
      → (b j : ℕ) → In b objs
      → j < num_slots h.mem b
      → points_young h (slot stored b j) ≡ true
      → is_remembered h.mem b ≡ true
  stored-covered quiet b j ib kb y = elim (Bool-cases (slot_addr b j == slot_addr o i)) [
    | inl e ↦
        let addr : slot_addr b j ≡ slot_addr o i = ground arith in
        let same = (slot-injective r.high r.tiled b j o i ib kb io k addr).0 in
        let got : points_young h v ≡ true =
          subst (λ (x : ℕ). points_young h x ≡ true) (rw e refl) y in
        rw same (quiet got)
    | inr e ↦ r.covered b j ib kb (subst (λ (x : ℕ). points_young h x ≡ true) (rw e refl) y)
  ]

  pub store-quiet :
      (points_young h v ≡ true → is_remembered h.mem o ≡ true)
      → Remembered (record h { mem = stored }) objs
  store-quiet quiet = record {
    high = r.high;
    fits = r.fits;
    tiled = Tiles-store o i v r.tiled io k;
    words64 = λ b ib. rw (stored-header b ib) (r.words64 b ib);
    covered = λ b j ib kb y.
        stored-remembered b ib
        ∙ stored-covered quiet b j ib (subst (λ (n : ℕ). j < n) (stored-num_slots b ib) kb) y;
    listed = λ b ib rem. r.listed b ib (sym (stored-remembered b ib) ∙ rem);
    marked = λ b ib. let old = r.marked b ib in (old.0, stored-remembered b old.0 ∙ old.1);
    unique = r.unique;
  }
