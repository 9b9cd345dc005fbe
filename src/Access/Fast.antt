-- ===== src/Access/Fast.antt =====
-- src/interp.rs: the specialized sends of at:, at:put: and size, which read the object themselves.
use smallishtalk.Base.{
  ◌-◌, ◌≡◌, refl, Bool, not, ◌&&◌, ◌||◌, Option, none, some, ◌==◌, if◌then◌else◌, arith,
}
use smallishtalk.Base.Int.{ℤ, pos, pos_part, ltb_ℤ}
use smallishtalk.Base.Words.{u64_mod, as_signed}
use smallishtalk.Treaty.Words.{fmt_ptrs}
use smallishtalk.Header
use smallishtalk.Value.{Value, is_int, is_ptr, as_int, as_ptr, from_int}
use smallishtalk.Space.{Memory}
use smallishtalk.Heap.{Heap, header, num_slots, byte_size, slot, byte, set_byte, is_immutable}
use smallishtalk.Heap.Barrier.{store_slot}
use smallishtalk.Access.{index_within, at_value, at_put_value, size_value}

-- i >= 1 && i <= n
abbrev within : ℤ → ℤ → Bool
within i n = not (ltb_ℤ i (pos 1)) && not (ltb_ℤ n i)

unfoldable pub at_fast : Memory → (recv idx : Value) → Option Value
at_fast m recv idx =
    let addr = as_ptr recv in
    let h = header m addr in
    let i = as_int idx in
    if not (is_ptr recv) || not (is_int idx)
    then none
    else if Header.format h == fmt_ptrs
    then (if within i (as_signed u64_mod (num_slots m addr))
        then some (slot m addr (pos_part i - 1))
        else none)
    else if Header.is_bytes h
    then (if within i (as_signed u64_mod (byte_size m addr))
        then some (from_int (pos (byte m addr (pos_part i - 1))))
        else none)
    else none

unfoldable pub atput_fast : Heap → (recv idx val : Value) → Option (Value × Heap)
atput_fast heap recv idx val =
    let addr = as_ptr recv in
    let h = header heap.mem addr in
    let i = as_int idx in
    let b = as_int val in
    if not (is_ptr recv) || not (is_int idx)
    then none
    else if is_immutable heap.mem addr
    then none
    else if Header.format h == fmt_ptrs
    then (if within i (as_signed u64_mod (num_slots heap.mem addr))
        then some (val, store_slot heap addr (pos_part i - 1) val)
        else none)
    else if Header.is_bytes h
    then (if within i (as_signed u64_mod (byte_size heap.mem addr)) && is_int val
        then (if not (ltb_ℤ b (pos 0)) && not (ltb_ℤ (pos 255) b)
            then some
                (val, record heap { mem = set_byte heap.mem addr (pos_part i - 1) (pos_part b) })
            else none)
        else none)
    else none

unfoldable pub size_fast : Memory → Value → Option Value
size_fast m recv =
    let addr = as_ptr recv in
    let h = header m addr in
    if not (is_ptr recv)
    then none
    else if Header.format h == fmt_ptrs
    then some (from_int (as_signed u64_mod (num_slots m addr)))
    else if Header.is_bytes h
    then some (from_int (as_signed u64_mod (byte_size m addr)))
    else none

-- The specialized sends answer and store what the primitives do, on every object, index and value.
pub fast-value :
    (heap : Heap) (recv idx val : Value)
    → (at_fast heap.mem recv idx ≡ at_value heap.mem recv idx)
      × (atput_fast heap recv idx val ≡ at_put_value heap recv idx val)
      × (size_fast heap.mem recv ≡ size_value heap.mem recv)
unfolding at_fast at_value atput_fast at_put_value size_fast size_value index_within
fast-value heap recv idx val = (ground arith, ground arith, refl)
