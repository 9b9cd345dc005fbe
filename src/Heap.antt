-- ===== src/Heap.antt =====
-- src/heap.rs: the heap's three spaces over one memory, the shape of an object, and its slots and
-- bytes. Addresses are byte addresses of header words. The debug assertions are left out: they are
-- compiled out of a release build. Bytes within a word are in the order of a little-endian machine.
pub mod Alloc
pub mod Walk
pub mod Bytes
pub mod Barrier
mod Tests
use Prim.Native.Nat.{bit_and, bit_or}
use smallishtalk.Base.{
  Option, none, some, ◌>>=◌, ℕ, zero, suc, ◌+◌, ◌-◌, ◌*◌, ◌/◌, ◌%◌, ◌^◌, Bool, true, false, not,
  ◌&&◌, ◌||◌, List, [], ◌∷◌, ltb, leb, ◌==◌, if◌then◌else◌,
}
use smallishtalk.Base.Words.{shr}
use smallishtalk.Treaty.Words.{
  hdr_class_shift, hdr_nslots_overflow, fmt_bytes_base, gc_bit_immutable,
}
use smallishtalk.Treaty.Frames.{young_space_bytes_default, large_object_bytes}
use smallishtalk.Header
use smallishtalk.Header.{Header}
use smallishtalk.Space.{Memory, write, Space, contains}
use smallishtalk.Value.{Value}

pub record HeapConfig : Type 0 where
  pub young_bytes : ℕ
  pub old_bytes : ℕ
  pub large_object_bytes : ℕ

pub record Heap : Type 0 where
  pub mem : Memory
  pub young_from : Space
  pub young_to : Space
  pub old : Space
  pub ssb : List ℕ
  pub config : HeapConfig
  pub alloc_young_count : ℕ
  pub alloc_young_bytes : ℕ
  pub alloc_old_count : ℕ
  pub alloc_old_bytes : ℕ
  pub alloc_large_count : ℕ

abbrev pub word : Heap → ℕ → ℕ
word h addr = h.mem addr

abbrev pub set_word : Heap → ℕ → ℕ → Heap
set_word h addr w = record h { mem = write h.mem addr w }

abbrev pub plausible : Heap → ℕ → Bool
plausible h addr =
    (addr % 8 == 0)
    && (contains h.young_from addr || contains h.young_to addr || contains h.old addr)

-- Headers and object shape, read from the memory.
abbrev pub header : Memory → ℕ → Header
header m obj = m obj

abbrev pub set_header : Memory → ℕ → Header → Memory
set_header m obj h = write m obj h

unfoldable pub has_overflow_word : Memory → ℕ → Bool
has_overflow_word m obj = Header.num_slots_field (header m obj) == hdr_nslots_overflow

unfoldable pub num_slots : Memory → ℕ → ℕ
num_slots m obj =
    let f = Header.num_slots_field (header m obj) in
    if f == hdr_nslots_overflow then m (obj - 8) else f

unfoldable pub byte_size : Memory → ℕ → ℕ
byte_size m obj = num_slots m obj * 8 - (Header.format (header m obj) - fmt_bytes_base)

unfoldable pub footprint : Memory → ℕ → ℕ
footprint m obj = 8 + num_slots m obj * 8 + (if has_overflow_word m obj then 8 else 0)

unfoldable pub storage_start : Memory → ℕ → ℕ
storage_start m obj = if has_overflow_word m obj then obj - 8 else obj

-- Slots, 0-indexed.
abbrev pub slot_addr : ℕ → ℕ → ℕ
slot_addr obj i = obj + 8 + i * 8

abbrev pub slot : Memory → ℕ → ℕ → Value
slot m obj i = m (slot_addr obj i)

abbrev pub set_slot_raw : Memory → ℕ → ℕ → Value → Memory
set_slot_raw m obj i v = write m (slot_addr obj i) v

-- Byte `i` of the body lies in word `i / 8`.
unfoldable pub byte : Memory → ℕ → ℕ → ℕ
byte m obj i = slot m obj (i / 8) / 2 ^ (8 * (i % 8)) % 256

unfoldable pub set_byte : Memory → ℕ → ℕ → ℕ → Memory
set_byte m obj i b =
    let w = slot m obj (i / 8) in
    let k = 2 ^ (8 * (i % 8)) in
    set_slot_raw m obj (i / 8) (w / (k * 256) * (k * 256) + b * k + w % k)

-- The 32-bit instruction `i` of a bytecodes array.
unfoldable pub insn_at : Memory → ℕ → ℕ → ℕ
insn_at m obj i = slot m obj (i / 2) / 2 ^ (32 * (i % 2)) % 2 ^ 32

bytes_from : Memory → ℕ → ℕ → ℕ → List ℕ
bytes_from m obj i zero = []
bytes_from m obj i (suc n) = byte m obj i ∷ bytes_from m obj (i + 1) n

pub bytes : Memory → ℕ → List ℕ
unfolding bytes_from
bytes m obj = bytes_from m obj 0 (byte_size m obj)

write_from : Memory → ℕ → ℕ → List ℕ → Memory
write_from m obj i [] = m
write_from m obj i (b ∷ bs) = write_from (set_byte m obj i b) obj (i + 1) bs

pub write_bytes : Memory → ℕ → List ℕ → Memory
unfolding write_from
write_bytes m obj bs = write_from m obj 0 bs

-- Immutability.
unfoldable pub is_immutable : Memory → ℕ → Bool
is_immutable m obj = not (bit_and (Header.gc_bits (header m obj)) gc_bit_immutable == 0)

unfoldable pub set_immutable : Memory → ℕ → Memory
set_immutable m obj =
    let h = header m obj in
    set_header m obj (Header.with_gc_bits h (bit_or (Header.gc_bits h) gc_bit_immutable))

-- Space predicates.
abbrev pub is_young : Heap → ℕ → Bool
is_young h addr = contains h.young_from addr

abbrev pub in_old_space : Heap → ℕ → Bool
in_old_space h addr = contains h.old addr

-- The loop of `walk_region`: `f` is called with each object in turn, so the objects are listed.
-- `none` is a walk that has not ended when the fuel runs out.
unfoldable pub walk_region : ℕ → Memory → ℕ → ℕ → Option (List ℕ)
walk_region zero m p top = none
walk_region (suc fuel) m p top =
    let w = m p in
    let obj = if shr w hdr_class_shift == 0 then p + 8 else p in
    let rest = walk_region fuel m (storage_start m obj + footprint m obj) top in
    if ltb p top then (do objs ← rest; some (obj ∷ objs)) else some []
