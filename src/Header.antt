-- ===== src/Header.antt =====
-- src/heap.rs: the 64-bit header word of an object, five bit fields. The debug assertions of the
-- setters are compiled out of a release build and are left out.
pub mod Fields
use Prim.Native.Nat.{bit_and, bit_or}
use smallishtalk.Base.{ℕ, ◌-◌, ◌*◌, ◌%◌, ◌^◌, Bool, leb}
use smallishtalk.Base.Words.{u32_mod, u64_mod, shl, shr, not64}
use smallishtalk.Treaty.Words.{
  hdr_class_shift, hdr_class_bits, hdr_hash_shift, hdr_hash_bits, hdr_nslots_shift, hdr_nslots_bits,
  hdr_format_shift, hdr_format_bits, hdr_gc_shift, hdr_gc_bits, fmt_bytes_base,
}

-- The raw word.
abbrev pub Header : Type 0
Header = ℕ

-- (1 << bits) - 1
abbrev pub mask : ℕ → ℕ
mask bits = 2 ^ bits - 1

unfoldable pub new : ℕ → ℕ → ℕ → Header
new class_index format num_slots_field =
    bit_or
      (bit_or (shl u64_mod class_index hdr_class_shift)
        (shl u64_mod num_slots_field hdr_nslots_shift))
      (shl u64_mod format hdr_format_shift)

unfoldable pub class_index : Header → ℕ
class_index h = bit_and (shr h hdr_class_shift) (mask hdr_class_bits) % u32_mod

unfoldable pub hash : Header → ℕ
hash h = bit_and (shr h hdr_hash_shift) (mask hdr_hash_bits) % u32_mod

unfoldable pub with_hash : Header → ℕ → Header
with_hash h hash =
    bit_or (bit_and h (not64 (shl u64_mod (mask hdr_hash_bits) hdr_hash_shift)))
      (shl u64_mod hash hdr_hash_shift)

unfoldable pub num_slots_field : Header → ℕ
num_slots_field h = bit_and (shr h hdr_nslots_shift) (mask hdr_nslots_bits)

unfoldable pub format : Header → ℕ
format h = bit_and (shr h hdr_format_shift) (mask hdr_format_bits)

unfoldable pub gc_bits : Header → ℕ
gc_bits h = bit_and (shr h hdr_gc_shift) (mask hdr_gc_bits)

unfoldable pub with_gc_bits : Header → ℕ → Header
with_gc_bits h bits =
    bit_or (bit_and h (not64 (shl u64_mod (mask hdr_gc_bits) hdr_gc_shift)))
      (shl u64_mod bits hdr_gc_shift)

unfoldable pub is_bytes : Header → Bool
is_bytes h = leb fmt_bytes_base (format h)
