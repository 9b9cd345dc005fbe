-- ===== src/Heap/Barrier/Slot.antt =====
-- src/vm.rs: `store_slot` and the remembered set.
use Prim.Native.Nat.{bit_or}
use smallishtalk.Base.{
  ℕ, ◌<◌, ◌≡◌, sym, ap, subst, ◌∙◌, inl, inr, true, false, List, In, ◌&&◌, ◌==◌, arith, Bool-cases,
  if◌then◌else◌,
}
use smallishtalk.Header
use smallishtalk.Value.{Value}
use smallishtalk.Heap.{Heap, slot, in_old_space, num_slots, slot_addr, set_slot_raw}
use smallishtalk.Heap.Walk.Apart.{slot-ne-header, slot-injective}
use smallishtalk.Heap.Barrier.{is_remembered, remember, points_young, write_barrier, store_slot}
use smallishtalk.Heap.Barrier.Remembered.{Remembered, write-ne, write_comm, object-old}
use smallishtalk.Heap.Barrier.Store.{
  store-quiet, stored-header, stored-remembered, stored-num_slots,
}
use smallishtalk.Heap.Barrier.Note.{remember-Remembered, noted-num_slots, noted-remembered_self}

barrier_note :
    (h : Heap) (o : ℕ) (v : Value)
    → points_young h v ≡ true
    → in_old_space h o ≡ true
    → write_barrier h o v ≡ (if is_remembered h.mem o then h else remember h o)
unfolding write_barrier
barrier_note h o v y old = rw (y, old)

barrier_quiet : (h : Heap) (o : ℕ) (v : Value) → points_young h v ≡ false → write_barrier h o v ≡ h
unfolding write_barrier
barrier_quiet h o v y = rw y

module _ (h : Heap) {objs : List ℕ} (r : Remembered h objs) (o i : ℕ) (v : Value) (io : In o objs)
    (k : i < num_slots h.mem o) where
  abbrev after : Heap
  after = record h { mem = set_slot_raw h.mem o i v }

  -- The store and the note touch different words.
  remember_comm :
      remember after o ≡ record (remember h o) { mem = set_slot_raw (remember h o).mem o i v }
  unfolding remember
  remember_comm =
      let same = stored-header h r o i v io k o io in
      rw (
        same,
        write_comm h.mem (slot_addr o i) v o
            (Header.with_gc_bits (h.mem o) (bit_or (Header.gc_bits (h.mem o)) 2))
            (slot-ne-header r.high r.tiled o i o io k io).0,
      )

  noted_store : is_remembered h.mem o ≡ false → Remembered (remember after o) objs
  unfolding remember
  noted_store new = rw remember_comm (
      store-quiet (remember h o) (remember-Remembered h r o io new) o i v io
        (subst (λ (n : ℕ). i < n) (sym (noted-num_slots h r o io o io)) k)
        (λ _. noted-remembered_self h r o io))

  -- A barriered store of any value into any slot of an old object keeps the remembered set complete
  -- and exact: every object of old space with a pointer into young space has the remembered bit,
  -- and the store buffer lists the objects with that bit, each once.
  pub store_slot-Remembered : Remembered (store_slot h o i v) objs
  unfolding store_slot
  store_slot-Remembered = elim (Bool-cases (points_young h v)) [
    | inr quiet ↦
        rw (barrier_quiet after o v quiet) (store-quiet h r o i v io k (λ y. cc (quiet, y)))
    | inl young ↦
        rw
          (
            barrier_note after o v young (object-old h r o io),
            stored-remembered h r o i v io k o io,
          )
          (elim (Bool-cases (is_remembered h.mem o)) [
            | inl was ↦ rw was (store-quiet h r o i v io k (λ _. was))
            | inr new ↦ rw new (noted_store new)
          ])
  ]

  noted_slot :
      (b j : ℕ)
      → In b objs
      → j < num_slots h.mem b
      → slot (remember after o).mem b j ≡ slot after.mem b j
  unfolding remember
  noted_slot b j ib kb =
      write-ne after.mem o _ (slot_addr b j)
        (λ e. (slot-ne-header r.high r.tiled b j o ib kb io).0 (sym e))

  barrier_slot :
      (b j : ℕ)
      → In b objs
      → j < num_slots h.mem b
      → slot (write_barrier after o v).mem b j ≡ slot after.mem b j
  unfolding write_barrier
  barrier_slot b j ib kb = ground (arith, noted_slot b j ib kb)

  -- A barriered store writes the slot and no other slot of any object of old space.
  pub slot-store_slot :
      (b j : ℕ)
      → In b objs
      → j < num_slots h.mem b
      → slot (store_slot h o i v).mem b j ≡ (if (b == o) && (j == i) then v else slot h.mem b j)
  unfolding store_slot
  slot-store_slot b j ib kb =
      barrier_slot b j ib kb ∙ ground (arith, slot-injective r.high r.tiled b j o i ib kb io k)

  noted_num_slots :
      is_remembered h.mem o ≡ false
      → (b : ℕ) → In b objs
      → num_slots (remember after o).mem b ≡ num_slots h.mem b
  unfolding remember
  noted_num_slots new b ib =
      ap (λ (g : Heap). num_slots g.mem b) remember_comm
      ∙ stored-num_slots (remember h o) (remember-Remembered h r o io new) o i v io
          (subst (λ (n : ℕ). i < n) (sym (noted-num_slots h r o io o io)) k) b ib
      ∙ noted-num_slots h r o io b ib

  pub num_slots-store_slot :
      (b : ℕ) → In b objs → num_slots (store_slot h o i v).mem b ≡ num_slots h.mem b
  unfolding store_slot
  num_slots-store_slot b ib =
      let plain = stored-num_slots h r o i v io k b ib in
      elim (Bool-cases (points_young h v)) [
        | inr quiet ↦ rw (barrier_quiet after o v quiet) plain
        | inl young ↦
            rw
              (
                barrier_note after o v young (object-old h r o io),
                stored-remembered h r o i v io k o io,
              )
              (elim (Bool-cases (is_remembered h.mem o)) [
                | inl was ↦ rw was plain
                | inr new ↦ rw new (noted_num_slots new b ib)
              ])
      ]
