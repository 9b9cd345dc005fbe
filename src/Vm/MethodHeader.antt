-- ===== src/Vm/MethodHeader.antt =====
-- src/vm.rs: the packed header of a compiled method.
pub mod Packing
use Prim.Native.Nat.{bit_and, bit_or}
use smallishtalk.Base.{
  ℕ, ◌+◌, ◌-◌, ◌*◌, ◌%◌, ◌^◌, Bool, not, ◌&&◌, Option, none, some, ltb, leb, ◌==◌, if◌then◌else◌,
}
use smallishtalk.Base.Int.{ℤ, pos, negsuc}
use smallishtalk.Base.Words.{u64_mod, shl, as_unsigned, as_signed}
use smallishtalk.Treaty.Layout.{
  mh_frame_slots_shift, mh_argc_shift, mh_primitive_shift, mh_has_primitive_shift,
  mh_handler_slot_base_shift, mh_flags_shift,
}
use smallishtalk.Treaty.Frames.{max_frame_slots}
use smallishtalk.Treaty.Prims.{prim_table_size}
use smallishtalk.Value.{sar}

-- (bits >> shift) & mask of an i64
abbrev pub field : ℤ → ℕ → ℕ → ℕ
field bits shift mask = bit_and (as_unsigned u64_mod (sar bits shift)) mask

-- The getters, over the header's integer.
unfoldable pub method_frame_slots : ℤ → ℕ
method_frame_slots bits = field bits mh_frame_slots_shift 0xff

unfoldable pub method_argc : ℤ → ℕ
method_argc bits = field bits mh_argc_shift 0xf

unfoldable pub method_primitive : ℤ → Option ℕ
method_primitive bits =
    if not (field bits mh_has_primitive_shift 1 == 0)
    then some (field bits mh_primitive_shift 0xfff % 2 ^ 16)
    else none

unfoldable pub method_handler_slot_base : ℤ → ℕ
method_handler_slot_base bits = field bits mh_handler_slot_base_shift 0xff

unfoldable pub method_flags : ℤ → ℕ
method_flags bits = as_unsigned u64_mod (sar bits mh_flags_shift)

-- The six fields put together; the shifts of an i64 are those of its word.
unfoldable pub pack_word : (frame_slots argc prim has handler_slot_base flags : ℕ) → ℕ
pack_word frame_slots argc prim has handler_slot_base flags =
    bit_or
      (bit_or
        (bit_or
          (bit_or (bit_or frame_slots (shl u64_mod argc mh_argc_shift))
            (shl u64_mod prim mh_primitive_shift))
          (shl u64_mod has mh_has_primitive_shift))
        (shl u64_mod handler_slot_base mh_handler_slot_base_shift))
      (shl u64_mod flags mh_flags_shift)

-- A failing assertion is `none`.
unfoldable pub pack_method_header :
    (frame_slots argc : ℕ) → Option ℕ → (handler_slot_base flags : ℕ) → Option ℤ
unfolding pack_word
pack_method_header frame_slots argc none handler_slot_base flags =
    if leb frame_slots max_frame_slots && leb argc 15 && leb handler_slot_base 255
    then some (as_signed u64_mod (pack_word frame_slots argc 0 0 handler_slot_base flags))
    else none
pack_method_header frame_slots argc (some n) handler_slot_base flags =
    if leb frame_slots max_frame_slots
      && leb argc 15
      && leb handler_slot_base 255
      && ltb n prim_table_size
    then some (as_signed u64_mod (pack_word frame_slots argc n 1 handler_slot_base flags))
    else none
