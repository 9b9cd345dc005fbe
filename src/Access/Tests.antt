-- ===== src/Access/Tests.antt =====
-- Examples for indexed access: an array of two slots at 4096 in young space.
use smallishtalk.Base.{◌≡◌, ◌≢◌, refl, ◌↔◌, some, none, true, false, ◌==◌, if◌then◌else◌, arith}
use smallishtalk.Base.Int.{pos, ◌≤ℤ◌}
use smallishtalk.Base.Words.{u64_mod, as_signed}
use smallishtalk.Header
use smallishtalk.Space.{Memory}
use smallishtalk.Value.{is_int, is_ptr, as_int, as_ptr, from_int}
use smallishtalk.Heap.{Heap, num_slots, is_immutable}
use smallishtalk.Heap.Alloc
use smallishtalk.Access.{index_within, at_value, at_put_value, size_value}
use smallishtalk.Access.Stored.{indexed_size, at_value_iff, at_put_value_lem}
use smallishtalk.Access.Fast.{at_fast, atput_fast, size_fast, fast-value}

-- Class 16, format 1, two slots.
abbrev words : Memory
words a = if a == 4096 then 70368744186112 else if a == 4112 then 99 else 7

abbrev heap : Heap
heap = let h = Alloc.new Alloc.default_config 65536 10000000 20000000 in record h { mem = words }

-- The word of the index 2.
index-is_int : is_int 5 ≡ true
unfolding is_int
index-is_int = refl

second_slot : at_value words 4096 5 ≡ some 99
unfolding at_value index_within is_ptr is_int as_ptr as_int Header.format num_slots
    Header.num_slots_field
second_slot = refl

array-format : Header.format (words 4096) ≡ 1
unfolding Header.format
array-format = refl

array-mutable : is_immutable words 4096 ≡ false
unfolding is_immutable Header.gc_bits
array-mutable = refl

at_value_iff_example : (at_value words 4096 5 ≢ none) ↔ (
    (size_value words 4096 ≡ some (from_int (as_signed u64_mod (indexed_size words 4096))))
    × (pos 1 ≤ℤ as_int 5)
    × (as_int 5 ≤ℤ as_signed u64_mod (indexed_size words 4096)))
at_value_iff_example = at_value_iff words 4096 5 index-is_int

at_put_value_lem_example :
    (h' : Heap) × (at_put_value heap 4096 5 4104 ≡ some (4104, h'))
    × (at_value h'.mem 4096 5 ≡ some 4104)
at_put_value_lem_example =
    at_put_value_lem heap 4096 5 4104 (omega arith) (omega arith) array-format array-mutable
      (λ e. ground (arith, second_slot, e))

fast-value_example :
    (at_fast words 4096 5 ≡ at_value words 4096 5)
    × (atput_fast heap 4096 5 4104 ≡ at_put_value heap 4096 5 4104)
    × (size_fast words 4096 ≡ size_value words 4096)
fast-value_example = fast-value heap 4096 5 4104
