-- ===== src/Gc.antt =====
-- src/gc.rs: the collection of the young generation. The state of a collection is the heap with the
-- stack of objects to scan, whose top comes first, the tenured objects and the counts of copied
-- bytes. A panic is `none`, and so is a collection that has not ended when its fuel runs out. The
-- profiler's sample and the time spent are left out.
pub mod Young
pub mod Copied
pub mod Copy
pub mod Forward
mod Tests
use Prim.Native.Nat.{bit_and, bit_or, bit_xor}
use smallishtalk.Base.{
  ℕ, zero, suc, ◌+◌, ◌-◌, ◌*◌, ◌/◌, ◌%◌, ◌^◌, Bool, true, false, not, ◌&&◌, ◌||◌, Option, none,
  some, List, [], ◌∷◌, ◌++◌, length, get_or, ltb, leb, ◌==◌, if◌then◌else◌, ◌>>=◌,
}
use smallishtalk.Base.Words.{u64_mod, not64}
use smallishtalk.Treaty.Words.{
  hdr_nslots_overflow, gc_age_shift, gc_age_bits, gc_bit_immutable, gc_bit_pinned,
  gc_bit_remembered,
}
use smallishtalk.Header
use smallishtalk.Header.{Header}
use smallishtalk.Space.{Memory, write, Space, contains, alloc_words}
use smallishtalk.Value.{Value, as_ptr, is_ptr, from_ptr}
use smallishtalk.Heap.{Heap, header, set_header, slot, set_slot_raw, num_slots, is_young}

pub record Gc : Type 0 where
  pub heap : Heap
  pub tenure_threshold : ℕ
  pub work : List ℕ
  pub tenured : List ℕ
  pub bytes_copied : ℕ
  pub bytes_tenured : ℕ

-- ptr::copy_nonoverlapping of `n` words, in ascending order
unfoldable pub copy_words : Memory → (src dst n : ℕ) → Memory
copy_words m src dst zero = m
copy_words m src dst (suc n) = copy_words (write m dst (m src)) (src + 8) (dst + 8) n

-- (header.gc_bits() >> GC_AGE_SHIFT) & mask(GC_AGE_BITS), one older up to the mask
unfoldable pub new_age_of : Header → ℕ
new_age_of hd =
    let age = bit_and (Header.gc_bits hd / 2 ^ gc_age_shift) (2 ^ gc_age_bits - 1) in
    if leb (age + 1) (2 ^ gc_age_bits - 1) then age + 1 else 2 ^ gc_age_bits - 1

-- The bits kept by a copy, with its age.
unfoldable pub aged_header : Header → ℕ → Header
aged_header hd age = Header.with_gc_bits hd (
    bit_or (bit_and (Header.gc_bits hd) (bit_or gc_bit_immutable gc_bit_pinned))
      (age * 2 ^ gc_age_shift % u64_mod))

unfoldable pub to_young : Heap → ℕ → Option (ℕ × Bool × Heap)
unfolding alloc_words
to_young h n =
    alloc_words h.young_to n >>= λ got. some (got.0, false, record h { young_to = got.1 })

-- Old space if it has room, else to-space.
unfoldable pub place_old : Heap → ℕ → Option (ℕ × Space) → Option (ℕ × Bool × Heap)
unfolding to_young
place_old h n (some (start, old')) = some (start, true, record h { old = old' })
place_old h n none = to_young h n

-- The room for a copy.
unfoldable pub place_copy : Heap → (wants_tenure : Bool) → ℕ → Option (ℕ × Bool × Heap)
unfolding alloc_words place_old
place_copy h false n = to_young h n
place_copy h true n = place_old h n (alloc_words h.old n)

abbrev pub has_over : Header → Bool
has_over hd = Header.num_slots_field hd == hdr_nslots_overflow

-- The words of an object before its slots, and with them.
abbrev pub extra_words : Header → ℕ
extra_words hd = if has_over hd then 1 else 0

abbrev pub words_of : Memory → ℕ → ℕ
words_of m addr =
    let hd = header m addr in
    extra_words hd + 1 + (if has_over hd then m (addr - 8) else Header.num_slots_field hd)

-- The object copied to `start`, and its new address left in its old header.
unfoldable pub copy_object : Gc → (addr : ℕ) → (start : ℕ) → Bool → Heap → Option (Value × Gc)
unfolding copy_words aged_header new_age_of
copy_object g addr start is_old h =
    let hd = header h.mem addr in
    let extra = extra_words hd in
    let total = words_of h.mem addr in
    let new_obj = start + extra * 8 in
    let m1 = copy_words h.mem (addr - extra * 8) start total in
    let m2 = set_header m1 new_obj (aged_header hd (new_age_of hd)) in
    let m3 = write m2 addr (bit_or new_obj 1) in
    from_ptr new_obj >>= λ v. some (
      v,
      record g {
        heap = record h { mem = m3 };
        work = new_obj ∷ g.work;
        tenured = if is_old then g.tenured ++ new_obj ∷ [] else g.tenured;
        bytes_copied = g.bytes_copied + total * 8;
        bytes_tenured = if is_old then g.bytes_tenured + total * 8 else g.bytes_tenured;
      },
    )

-- An object of from-space that is not forwarded yet.
unfoldable pub evacuate : Gc → ℕ → Option (Value × Gc)
unfolding place_copy copy_object new_age_of
evacuate g addr =
    let h = g.heap in
    let wants_tenure = leb g.tenure_threshold (new_age_of (header h.mem addr)) in
    place_copy h wants_tenure (words_of h.mem addr) >>= λ at. copy_object g addr at.0 at.1 at.2

unfoldable pub forward : Gc → Value → Option (Value × Gc)
unfolding evacuate
forward g v =
    let h = g.heap in
    let hword = h.mem (as_ptr v) in
    if not (is_ptr v)
    then some (v, g)
    else if not (contains h.young_from (as_ptr v))
    then some (v, g)
    else if bit_and hword 1 == 1
    then (from_ptr (bit_and hword (not64 1)) >>= λ f. some (f, g))
    else evacuate g (as_ptr v)

-- for i in 0..n, from `i` on for `n` rounds
unfoldable pub scan_slots : Gc → (obj i n : ℕ) → Option Gc
unfolding forward
scan_slots g obj i zero = some g
scan_slots g obj i (suc n) = forward g (slot g.heap.mem obj i) >>= λ got.
    (let h = got.1.heap in
      let stored = record (got.1) { heap = record h { mem = set_slot_raw h.mem obj i got.0 } } in
      scan_slots (if got.0 == slot g.heap.mem obj i then got.1 else stored) obj (i + 1) n)

unfoldable pub scan_object : Gc → ℕ → Option Gc
unfolding scan_slots
scan_object g obj =
    let m = g.heap.mem in
    if Header.is_bytes (header m obj) then some g else scan_slots g obj 0 (num_slots m obj)

unfoldable pub scan_all : Gc → List ℕ → Option Gc
unfolding scan_object
scan_all g [] = some g
scan_all g (obj ∷ objs) = scan_object g obj >>= λ g'. scan_all g' objs

-- The transitive closure.
unfoldable pub drain : (fuel : ℕ) → Gc → Option Gc
unfolding scan_object
drain zero g = none
drain (suc fuel) g = elim (g.work) [
  | [] ↦ some g
  | obj ∷ work ↦ (scan_object (record g { work = work }) obj >>= λ g'. drain fuel g')
]

unfoldable pub forward_all : Gc → List Value → Option (List Value × Gc)
unfolding forward
forward_all g [] = some ([], g)
forward_all g (v ∷ vs) = do (f, g1) ← forward g v; (fs, g2) ← forward_all g1 vs; some (f ∷ fs, g2)

-- The values of pairs.
unfoldable pub forward_values {ℓ} :
    {K : Type ℓ} → Gc → List (K × Value) → Option (List (K × Value) × Gc)
unfolding forward
forward_values g [] = some ([], g)
forward_values g ((k, v) ∷ vs) = do
  (f, g1) ← forward g v
  (fs, g2) ← forward_values g1 vs
  some ((k, f) ∷ fs, g2)

unfoldable pub any_young : Heap → (obj i n : ℕ) → Bool
any_young h obj i zero = false
any_young h obj i (suc n) =
    let v = slot h.mem obj i in
    let rest = any_young h obj (i + 1) n in (is_ptr v && is_young h (as_ptr v)) || rest

unfoldable pub object_points_young : Heap → ℕ → Bool
unfolding any_young
object_points_young h obj =
    if Header.is_bytes (header h.mem obj) then false else any_young h obj 0 (num_slots h.mem obj)
