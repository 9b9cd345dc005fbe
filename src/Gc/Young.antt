-- ===== src/Gc/Young.antt =====
-- src/gc.rs: the scavenge, from the roots to the new remembered set.
use Prim.Native.Nat.{bit_and, bit_or}
use smallishtalk.Base.{
  ℕ, ◌+◌, not, ◌&&◌, Option, some, List, [], ◌∷◌, ◌++◌, length, get_or, ltb, leb, ◌==◌,
  if◌then◌else◌, ◌>>=◌,
}
use smallishtalk.Base.Words.{not64}
use smallishtalk.Treaty.Words.{gc_bit_remembered}
use smallishtalk.Treaty.Layout.{process_stack, special_nil}
use smallishtalk.Header
use smallishtalk.Space.{reset}
use smallishtalk.Value.{Value, as_ptr, is_ptr}
use smallishtalk.Heap.{Heap, header, set_header, slot, set_slot_raw, in_old_space}
use smallishtalk.Vm.{Vm, default_entry}
use smallishtalk.Gc.{
  Gc, forward, scan_object, scan_all, drain, forward_all, forward_values, object_points_young,
}

-- sort_unstable and dedup
abbrev insert : ℕ → List ℕ → List ℕ
insert a [] = a ∷ []
insert a (x ∷ xs) =
    let rest = insert a xs in if a == x then x ∷ xs else if ltb a x then a ∷ x ∷ xs else x ∷ rest

unfoldable pub sorted : List ℕ → List ℕ
sorted [] = []
sorted (x ∷ xs) = insert x (sorted xs)

abbrev flushed : Vm → Vm
flushed vm = record vm {
  gc_epoch = vm.gc_epoch + 1;
  scavenge_count = vm.scavenge_count + 1;
  lookup_cache = λ _. default_entry;
}

unfoldable pub start_of : Vm → Gc
start_of vm = record {
  heap = vm.heap;
  tenure_threshold = vm.tenure_threshold;
  work = [];
  tenured = [];
  bytes_copied = vm.counters.gc_bytes_copied;
  bytes_tenured = vm.counters.gc_bytes_tenured;
}

-- The roots, in the order of the source.
unfoldable pub forward_roots : Vm → Gc → Option (Vm × Gc)
unfolding forward_all forward_values forward
forward_roots vm g0 = do
  (specials, g1) ← forward_all g0 vm.specials
  (class_table, g2) ← forward_all g1 vm.class_table
  (temp_roots, g3) ← forward_all g2 vm.temp_roots
  (site_registry, g4) ← forward_all g3 vm.site_registry
  (symbols, g5) ← forward_values g4 vm.symbols
  (timer_requests, g6) ← forward_values g5 vm.timer_requests
  (active_process, g7) ← forward g6 vm.active_process
  some (
    record vm {
      specials = specials;
      class_table = class_table;
      temp_roots = temp_roots;
      site_registry = site_registry;
      symbols = symbols;
      timer_requests = timer_requests;
      active_process = active_process;
    },
    g7,
  )

-- The stack of the running process, forwarded and scanned; its address where it is in old space.
unfoldable pub scan_stack : Gc → (p : ℕ) → (stack : Value) → Option (List ℕ × Gc)
unfolding forward scan_object
scan_stack g p stack = forward g stack >>= λ got.
    (let f = got.0 in
      let h = got.1.heap in
      let told = record (got.1) {
        heap = record h { mem = set_slot_raw h.mem p process_stack f };
      } in
      scan_object (if f == stack then got.1 else told) (as_ptr f) >>= λ g'.
      some (if in_old_space g'.heap (as_ptr f) then as_ptr f ∷ [] else [], g'))

unfoldable pub scan_active_stack : Vm → Gc → Option (List ℕ × Gc)
unfolding scan_stack
scan_active_stack vm g =
    let nil = get_or vm.specials special_nil 0 in
    let p = as_ptr vm.active_process in
    let stack = slot g.heap.mem p process_stack in
    if is_ptr vm.active_process
      && not (vm.active_process == nil)
      && is_ptr stack
      && not (stack == nil)
    then scan_stack g p stack
    else some ([], g)

unfoldable pub flip : Heap → Heap
unfolding reset
flip h =
    let emptied = reset h.mem h.young_from in
    record h { mem = emptied.0; young_from = h.young_to; young_to = emptied.1 }

-- Remembered exactly where it still points young.
unfoldable pub recheck : Heap → ℕ → Heap
unfolding object_points_young
recheck h obj =
    let hd = header h.mem obj in
    let bits = Header.gc_bits hd in
    let set = λ (b : ℕ). set_header h.mem obj (Header.with_gc_bits hd b) in
    let marked = not (bit_and bits gc_bit_remembered == 0) in
    if object_points_young h obj
    then record h {
      mem = if marked then h.mem else set (bit_or bits gc_bit_remembered);
      ssb = h.ssb ++ obj ∷ [];
    }
    else if marked
    then record h { mem = set (bit_and bits (not64 gc_bit_remembered)) }
    else h

unfoldable pub recheck_all : Heap → List ℕ → Heap
unfolding recheck
recheck_all h [] = h
recheck_all h (obj ∷ objs) = recheck_all (recheck h obj) objs

abbrev max_of : ℕ → ℕ → ℕ
max_of a b = if leb a b then b else a

abbrev count_drained : Vm → ℕ → Vm
count_drained vm n =
    let c = vm.counters in
    record vm {
      counters = record c {
        gc_ssb_drained = c.gc_ssb_drained + n;
        gc_ssb_drained_max = max_of c.gc_ssb_drained_max n;
      };
    }

-- The machine after the flip and the new remembered set.
unfoldable pub finish : Vm → Gc → (ssb active_old_stack : List ℕ) → Vm
unfolding flip recheck_all sorted
finish vm g ssb active_old_stack =
    let h = recheck_all (flip g.heap) (sorted (ssb ++ g.tenured ++ active_old_stack)) in
    let c = vm.counters in
    record vm {
      heap = h;
      counters = record c {
        gc_bytes_copied = g.bytes_copied;
        gc_bytes_tenured = g.bytes_tenured;
        gc_remembered_rebuilt = c.gc_remembered_rebuilt + length h.ssb;
      };
    }

unfoldable pub collect_young : (fuel : ℕ) → Vm → Option Vm
unfolding start_of forward_roots scan_active_stack scan_all drain finish
collect_young fuel vm0 = do
  (vm, g1) ← forward_roots (flushed vm0) (start_of vm0)
  (active_old_stack, g2) ← scan_active_stack vm g1
  let h = g2.heap
  let ssb = h.ssb
  g3 ← scan_all (record g2 { heap = record h { ssb = [] } }) ssb
  g4 ← drain fuel g3
  some (finish (count_drained vm (length ssb)) g4 ssb active_old_stack)
