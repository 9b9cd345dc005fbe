-- ===== src/Heap/Alloc.antt =====
-- src/heap.rs: allocation. A failing allocation answers `none` and changes nothing; the counters are
-- taken as numbers that do not wrap.
pub mod Fresh
use smallishtalk.Base.{
  [], ℕ, zero, suc, ◌+◌, ◌-◌, ◌*◌, ◌/◌, Bool, true, false, Option, none, some, ltb, leb,
  if◌then◌else◌, ◌>>=◌,
}
use smallishtalk.Treaty.Words.{hdr_nslots_overflow, fmt_fixed, fmt_ptrs, fmt_bytes_base}
use smallishtalk.Treaty.Frames.{young_space_bytes_default, large_object_bytes}
use smallishtalk.Header
use smallishtalk.Space
use smallishtalk.Space.{Memory, write, Space, alloc_words}
use smallishtalk.Value.{Value}
use smallishtalk.Heap.{HeapConfig, Heap, slot_addr}

abbrev pub default_config : HeapConfig
default_config = record {
  young_bytes = young_space_bytes_default;
  old_bytes = 64 * 1024 * 1024;
  large_object_bytes = large_object_bytes;
}

-- `Heap::new`, given the addresses of the three regions; fresh memory is zero.
unfoldable pub new : HeapConfig → ℕ → ℕ → ℕ → Heap
new config from to old = record {
  mem = λ _. 0;
  young_from = Space.new from config.young_bytes;
  young_to = Space.new to config.young_bytes;
  old = Space.new old config.old_bytes;
  ssb = [];
  config = config;
  alloc_young_count = 0;
  alloc_young_bytes = 0;
  alloc_old_count = 0;
  alloc_old_bytes = 0;
  alloc_large_count = 0;
}

-- Whether a size does not fit the slot field: one word for the overflow count.
abbrev pub overflow_words : ℕ → ℕ
overflow_words nslots = if leb hdr_nslots_overflow nslots then 1 else 0

abbrev pub size_field : ℕ → ℕ
size_field nslots = if leb hdr_nslots_overflow nslots then hdr_nslots_overflow else nslots

-- Header (and overflow word) at the top of the space; the body is left as it is.
unfoldable pub alloc_in :
    Memory → Space → (class_index format nslots : ℕ) → Option (ℕ × Memory × Space)
alloc_in m space class_index format nslots = do
  let extra = overflow_words nslots
  (start, space') ← alloc_words space (extra + 1 + nslots)
  let obj = start + extra * 8
  let m' = if leb hdr_nslots_overflow nslots then write m start nslots else m
  some (obj, write m' obj (Header.new class_index format (size_field nslots)), space')

-- for i in 0..nslots { set_word(obj + 8 + i * 8, fill) }, from `i` on for `n` rounds
unfoldable pub fill_from : Memory → ℕ → ℕ → ℕ → Value → Memory
fill_from m obj i zero fill = m
fill_from m obj i (suc n) fill = fill_from (write m (slot_addr obj i) fill) obj (i + 1) n fill

unfoldable pub fill_slots : Memory → ℕ → ℕ → Value → Memory
unfolding fill_from
fill_slots m obj nslots fill = fill_from m obj 0 nslots fill

unfoldable pub alloc_footprint : ℕ → ℕ
alloc_footprint nslots = (overflow_words nslots + 1 + nslots) * 8

unfoldable pub count_young : Heap → ℕ → Heap
count_young h nslots = record h {
  alloc_young_count = h.alloc_young_count + 1;
  alloc_young_bytes = h.alloc_young_bytes + alloc_footprint nslots;
}

unfoldable pub count_old : Heap → ℕ → Bool → Heap
count_old h nslots large = record h {
  alloc_old_count = h.alloc_old_count + 1;
  alloc_old_bytes = h.alloc_old_bytes + alloc_footprint nslots;
  alloc_large_count = h.alloc_large_count + (if large then 1 else 0);
}

-- `Self::alloc_in(&mut self.old, ..)?; self.count_old(nslots, large)`
unfoldable pub alloc_old : Heap → (class_index format nslots : ℕ) → Bool → Option (ℕ × Heap)
unfolding alloc_in count_old
alloc_old h class_index format nslots large = do
  (obj, m, s) ← alloc_in h.mem h.old class_index format nslots
  some (obj, count_old (record h { mem = m; old = s }) nslots large)

-- `Self::alloc_in(&mut self.young_from, ..)?; self.count_young(nslots)`
unfoldable pub alloc_young : Heap → (class_index format nslots : ℕ) → Option (ℕ × Heap)
unfolding alloc_in count_young
alloc_young h class_index format nslots = do
  (obj, m, s) ← alloc_in h.mem h.young_from class_index format nslots
  some (obj, count_young (record h { mem = m; young_from = s }) nslots)

unfoldable pub alloc_body : Heap → (class_index format nslots : ℕ) → Option (ℕ × Heap)
unfolding alloc_old alloc_young
alloc_body h class_index format nslots =
    if ltb h.config.large_object_bytes (nslots * 8)
    then alloc_old h class_index format nslots true
    else alloc_young h class_index format nslots

abbrev filled : ℕ → Value → ℕ × Heap → Option (ℕ × Heap)
filled nslots fill (obj, h) = some (obj, record h { mem = fill_slots h.mem obj nslots fill })

unfoldable pub alloc_fixed : Heap → (class_index nslots : ℕ) → Value → Option (ℕ × Heap)
unfolding alloc_body fill_slots
alloc_fixed h class_index nslots fill =
    alloc_body h class_index fmt_fixed nslots >>= filled nslots fill

unfoldable pub alloc_ptrs : Heap → (class_index nslots : ℕ) → Value → Option (ℕ × Heap)
unfolding alloc_body fill_slots
alloc_ptrs h class_index nslots fill =
    alloc_body h class_index fmt_ptrs nslots >>= filled nslots fill

-- byte_len.div_ceil(8), and the unused bytes of the last word
abbrev pub byte_slots : ℕ → ℕ
byte_slots byte_len = (byte_len + 7) / 8

abbrev pub byte_format : ℕ → ℕ
byte_format byte_len = fmt_bytes_base + (byte_slots byte_len * 8 - byte_len)

unfoldable pub alloc_bytes : Heap → (class_index byte_len : ℕ) → Option (ℕ × Heap)
unfolding alloc_old alloc_young
alloc_bytes h class_index byte_len =
    if ltb h.config.large_object_bytes byte_len
    then alloc_old h class_index (byte_format byte_len) (byte_slots byte_len) true
    else alloc_young h class_index (byte_format byte_len) (byte_slots byte_len)

unfoldable pub alloc_fixed_old : Heap → (class_index nslots : ℕ) → Value → Option (ℕ × Heap)
unfolding alloc_old fill_slots
alloc_fixed_old h class_index nslots fill =
    alloc_old h class_index fmt_fixed nslots false >>= filled nslots fill

unfoldable pub alloc_ptrs_old : Heap → (class_index nslots : ℕ) → Value → Option (ℕ × Heap)
unfolding alloc_old fill_slots
alloc_ptrs_old h class_index nslots fill =
    alloc_old h class_index fmt_ptrs nslots false >>= filled nslots fill

unfoldable pub alloc_bytes_old : Heap → (class_index byte_len : ℕ) → Option (ℕ × Heap)
unfolding alloc_old
alloc_bytes_old h class_index byte_len =
    alloc_old h class_index (byte_format byte_len) (byte_slots byte_len) false
