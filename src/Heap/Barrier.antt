-- ===== src/Heap/Barrier.antt =====
-- src/vm.rs: the write barrier and the barriered slot store, on the heap that the VM owns.
pub mod Remembered
pub mod Store
pub mod Note
pub mod Slot
use Prim.Native.Nat.{bit_and, bit_or}
use smallishtalk.Base.{ℕ, Bool, not, ◌&&◌, List, [], ◌∷◌, ◌++◌, ◌==◌, if◌then◌else◌}
use smallishtalk.Treaty.Words.{gc_bit_remembered}
use smallishtalk.Header
use smallishtalk.Value.{Value, is_ptr, as_ptr}
use smallishtalk.Heap.{Heap, header, set_header, set_slot_raw, is_young, in_old_space}
use smallishtalk.Space.{Memory}

-- h.gc_bits() & GC_BIT_REMEMBERED == 0 is "not remembered".
unfoldable pub is_remembered : Memory → ℕ → Bool
is_remembered m obj = not (bit_and (Header.gc_bits (header m obj)) gc_bit_remembered == 0)

-- Set the remembered bit and put the object at the end of the store buffer.
unfoldable pub remember : Heap → ℕ → Heap
remember h obj =
    let hd = header h.mem obj in
    record h {
      mem =
          set_header h.mem obj
            (Header.with_gc_bits hd (bit_or (Header.gc_bits hd) gc_bit_remembered));
      ssb = h.ssb ++ obj ∷ [];
    }

abbrev pub points_young : Heap → Value → Bool
points_young h v = is_ptr v && is_young h (as_ptr v)

unfoldable pub write_barrier : Heap → ℕ → Value → Heap
write_barrier h obj v =
    if points_young h v && in_old_space h obj
    then (if is_remembered h.mem obj then h else remember h obj)
    else h

unfoldable pub store_slot : Heap → ℕ → ℕ → Value → Heap
store_slot h obj i v = write_barrier (record h { mem = set_slot_raw h.mem obj i v }) obj v
