-- ===== src/Access.antt =====
-- src/prims.rs and src/interp.rs: 1-based access to the slots of pointer objects and the bytes of
-- byte objects, as the primitives and as the specialized sends do it. An access that stores answers
-- the heap with its value; where it answers none, nothing has changed.
pub mod Stored
pub mod Fast
mod Tests
use smallishtalk.Base.{
  ℕ, ◌+◌, ◌-◌, Bool, true, false, not, ◌&&◌, ◌||◌, Option, none, some, ltb, ◌==◌, if◌then◌else◌,
  ◌>>=◌,
}
use smallishtalk.Base.Int.{ℤ, pos, pos_part, ltb_ℤ}
use smallishtalk.Base.Words.{u64_mod, as_signed}
use smallishtalk.Treaty.Words.{fmt_ptrs}
use smallishtalk.Header
use smallishtalk.Value.{Value, is_int, is_ptr, as_int, as_ptr, from_int}
use smallishtalk.Space.{Memory}
use smallishtalk.Heap.{Heap, header, num_slots, byte_size, slot, byte, set_byte, is_immutable}
use smallishtalk.Heap.Barrier.{store_slot}

-- i >= 1 && i <= n as i64, and then (i - 1) as usize
unfoldable pub index_within : ℤ → ℕ → Option ℕ
index_within i n =
    if not (ltb_ℤ i (pos 1)) && not (ltb_ℤ (as_signed u64_mod n) i)
    then some (pos_part i - 1)
    else none

unfoldable pub at_value : Memory → (recv idx : Value) → Option Value
unfolding index_within
at_value m recv idx =
    let addr = as_ptr recv in
    let h = header m addr in
    let i = as_int idx in
    if not (is_ptr recv) || not (is_int idx)
    then none
    else if Header.format h == fmt_ptrs
    then (index_within i (num_slots m addr) >>= λ k. some (slot m addr k))
    else if Header.is_bytes h
    then (index_within i (byte_size m addr) >>= λ k. some (from_int (pos (byte m addr k))))
    else none

unfoldable pub at_put_value : Heap → (recv idx val : Value) → Option (Value × Heap)
unfolding index_within
at_put_value heap recv idx val =
    let addr = as_ptr recv in
    let h = header heap.mem addr in
    let i = as_int idx in
    let b = as_int val in
    if not (is_ptr recv) || not (is_int idx)
    then none
    else if is_immutable heap.mem addr
    then none
    else if Header.format h == fmt_ptrs
    then (index_within i (num_slots heap.mem addr) >>= λ k. some (val, store_slot heap addr k val))
    else if Header.is_bytes h
    then (index_within i (byte_size heap.mem addr) >>= λ k.
        if is_int val && not (ltb_ℤ b (pos 0)) && not (ltb_ℤ (pos 255) b)
        then some (val, record heap { mem = set_byte heap.mem addr k (pos_part b) })
        else none)
    else none

unfoldable pub size_value : Memory → Value → Option Value
size_value m recv =
    let addr = as_ptr recv in
    let h = header m addr in
    if not (is_ptr recv)
    then none
    else if Header.format h == fmt_ptrs
    then some (from_int (as_signed u64_mod (num_slots m addr)))
    else if Header.is_bytes h
    then some (from_int (as_signed u64_mod (byte_size m addr)))
    else none
