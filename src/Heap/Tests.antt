-- ===== src/Heap/Tests.antt =====
-- Examples for src/heap.rs and the write barrier of src/vm.rs.
use smallishtalk.Base.{
  ℕ, ◌+◌, ◌≤◌, ◌<◌, ◌≡◌, ◌⊎◌, inl, inr, refl, ◌==◌, ◌&&◌, if◌then◌else◌, false, some, none, [], ◌∷◌,
  arith,
}
use smallishtalk.Header
use smallishtalk.Value.{as_ptr, is_ptr}
use smallishtalk.Space
use smallishtalk.Space.{Memory, Space, alloc_words}
use smallishtalk.Heap.{
  Heap, num_slots, footprint, storage_start, has_overflow_word, slot, walk_region,
}
use smallishtalk.Heap.{byte, set_byte}
use smallishtalk.Heap.Bytes.{byte-set_byte}
use smallishtalk.Heap.Alloc
use smallishtalk.Heap.Alloc.{overflow_words, alloc_in, default_config}
use smallishtalk.Heap.Alloc.Fresh.{IsRequest, IsFresh, alloc_in_lem}
use smallishtalk.Heap.Walk.Tiles.{done, object}
use smallishtalk.Heap.Walk.History.{Region, allocate, Reach, here, next, walk_region-Reach}
use smallishtalk.Heap.Barrier.{is_remembered, points_young, store_slot}
use smallishtalk.Heap.Barrier.Remembered.{Remembered}
use smallishtalk.Heap.Barrier.Slot.{store_slot-Remembered, slot-store_slot}

-- An empty space of 400 words, and a large object in it.
abbrev blank : Memory
blank _ = 0

abbrev empty : Space
empty = record { ptr = 4096; words = 400; alloc = 0 }

request : IsRequest 7 0 300
request = record {
  class_pos = omega arith;
  class_lt = omega arith;
  format_lt = omega arith;
  nslots_lt = omega arith;
}

alloc_in_lem_example :
    ((empty.words < empty.alloc + (overflow_words 300 + 1 + 300))
      × (alloc_in blank empty 7 0 300 ≡ none))
    ⊎ ((empty.alloc + (overflow_words 300 + 1 + 300) ≤ empty.words)
        × ((obj : ℕ) × (m' : Memory) × (s' : Space) × (alloc_in blank empty 7 0 300
              ≡ some (obj, m', s'))
            × IsFresh m' (Space.top empty) obj 7 0 300
            × (Space.top s' ≡ Space.top empty + footprint m' obj)
            × ((a : ℕ) → (a < Space.top empty) ⊎ (Space.top s' ≤ a) → m' a ≡ blank a)))
alloc_in_lem_example = alloc_in_lem blank empty request

abbrev one_object : Memory
one_object = Space.write (Space.write blank 4096 300) 4104 (Header.new 7 0 255)

abbrev one_space : Space
one_space = record { ptr = 4096; words = 400; alloc = 302 }

one_allocated : alloc_in blank (Space.new 4096 3200) 7 0 300 ≡ some (4104, one_object, one_space)
unfolding alloc_in alloc_words Space.new
one_allocated = refl

abbrev one_region : Region
one_region = record { mem = one_object; space = one_space; objs = 4104 ∷ [] }

one_Reach : Reach (record { mem = blank; space = Space.new 4096 3200; objs = [] }) one_region
one_Reach = next here (allocate _ 7 0 300 4104 one_object one_space request one_allocated)

walk_region-Reach_example :
    walk_region 303 one_object (Space.base one_space) (Space.top one_space) ≡ some (4104 ∷ [])
walk_region-Reach_example =
    walk_region-Reach blank 4096 3200 (omega arith) one_Reach 303 (omega arith)

-- An old object of two slots at 20000000, and young space from 65536 on.
abbrev old_word : Memory
old_word a = if a == 20000000 then 30786325585920 else 0

abbrev heap : Heap
heap =
    let h = Alloc.new default_config 65536 10000000 20000000 in
    let s = h.old in record h { mem = old_word; old = record s { alloc = 3 } }

heap_slots : num_slots heap.mem 20000000 ≡ 2
unfolding num_slots Header.num_slots_field
heap_slots = refl

heap_quiet : points_young heap 0 ≡ false
unfolding Alloc.new Space.new as_ptr is_ptr
heap_quiet = refl

heap_unmarked : is_remembered heap.mem 20000000 ≡ false
unfolding is_remembered Header.gc_bits
heap_unmarked = refl

heap-Remembered : Remembered heap (20000000 ∷ [])
unfolding Alloc.new Space.new num_slots has_overflow_word footprint storage_start
    Header.num_slots_field
heap-Remembered = record {
  high = omega arith;
  fits = omega arith;
  tiled = object _ 20000000 20000024 [] refl (omega arith) (omega arith) refl refl (done _ refl);
  words64 = λ o h. ground arith;
  covered = λ o i h k y. elim h [
    | inl e ↦
        (let empty : slot heap.mem o i ≡ 0 = ground arith in absurd (ground (arith, heap_quiet)))
    | inr h' ↦ elim h' [ ]
  ];
  listed = λ o h r. absurd (ground (arith, heap_unmarked));
  marked = λ o h. elim h [ ];
  unique = tt;
}

store_slot-Remembered_example : Remembered (store_slot heap 20000000 1 65544) (20000000 ∷ [])
store_slot-Remembered_example =
    store_slot-Remembered heap heap-Remembered 20000000 1 65544 (inl refl)
      (omega (arith, heap_slots))

slot-store_slot_example :
    slot (store_slot heap 20000000 1 65544).mem 20000000 0
    ≡ (if (20000000 == 20000000) && (0 == 1) then 65544 else slot heap.mem 20000000 0)
slot-store_slot_example =
    slot-store_slot heap heap-Remembered 20000000 1 65544 (inl refl) (omega (arith, heap_slots))
      20000000 0 (inl refl) (omega (arith, heap_slots))

byte-set_byte_example :
    byte (set_byte old_word 20000000 9 77) 20000000 9
    ≡ (if 9 == 9 then 77 else byte old_word 20000000 9)
byte-set_byte_example = byte-set_byte old_word 20000000 9 9 77 (omega arith)
