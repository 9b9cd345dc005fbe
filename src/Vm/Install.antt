-- ===== src/Vm/Install.antt =====
-- src/vm.rs: the operations that change classes and methods, and the flush of the caches that each
-- ends with. A failing assertion or `expect` is `none`.
pub mod Flushed
use smallishtalk.Base.{
  ℕ, zero, suc, ◌+◌, ◌*◌, ◌/◌, ◌^◌, Bool, true, false, not, ◌&&◌, Option, none, some, List, [], ◌∷◌,
  ◌++◌, length, ltb, ◌==◌, if◌then◌else◌, ◌>>=◌,
}
use smallishtalk.Base.Int.{pos}
use smallishtalk.Treaty.Words.{hdr_class_bits}
use smallishtalk.Treaty.Classes.{class_array}
use smallishtalk.Treaty.Layout.{
  mdict_keys, mdict_values, behavior_method_dictionary, behavior_class_index, method_selector,
  method_class, method_send_sites, site_stride, site_cache_class, site_cache_method,
}
use smallishtalk.Space.{Memory}
use smallishtalk.Value.{Value, as_ptr, is_ptr, from_int, from_ptr}
use smallishtalk.Heap.{Heap, slot, set_slot_raw, num_slots}
use smallishtalk.Heap.Alloc.{alloc_ptrs_old}
use smallishtalk.Heap.Barrier.{store_slot}
use smallishtalk.Vm.{Vm, nil, default_entry}

-- The inline caches of the sites from `s` on, `n` of them left.
unfoldable pub clear_sites : Memory → (nil : Value) → (addr s n : ℕ) → Memory
clear_sites m nil addr s zero = m
clear_sites m nil addr s (suc n) =
    let m1 = set_slot_raw m addr (s * site_stride + site_cache_class) (from_int (pos 0)) in
    let m2 = set_slot_raw m1 addr (s * site_stride + site_cache_method) nil in
    clear_sites m2 nil addr (s + 1) n

unfoldable pub clear_registry : Memory → (nil : Value) → List Value → Memory
unfolding clear_sites
clear_registry m nil [] = m
clear_registry m nil (sites ∷ rest) =
    let addr = as_ptr sites in
    clear_registry (clear_sites m nil addr 0 (num_slots m addr / site_stride)) nil rest

unfoldable pub flush_caches : Vm → Vm
unfolding clear_registry
flush_caches vm =
    let c = vm.counters in
    let h = vm.heap in
    record vm {
      counters = record c { cache_flushes = c.cache_flushes + 1 };
      lookup_cache = λ _. default_entry;
      heap = record h { mem = clear_registry h.mem (nil vm) vm.site_registry };
    }

abbrev contains : List Value → Value → Bool
contains [] v = false
contains (x ∷ xs) v = if x == v then true else contains xs v

unfoldable pub stamp_and_flush : Vm → (method selector class : Value) → Vm
unfolding flush_caches
stamp_and_flush vm method selector class =
    let m = as_ptr method in
    let h1 = store_slot vm.heap m method_selector selector in
    let h2 = store_slot h1 m method_class class in
    let sites = slot h2.mem m method_send_sites in
    let registry =
      if is_ptr sites && not (sites == nil vm) && not (contains vm.site_registry sites)
      then vm.site_registry ++ sites ∷ []
      else vm.site_registry in
    flush_caches (record vm { heap = h2; site_registry = registry })

-- The index of the selector among the keys from `i` on, `n` of them left.
unfoldable pub key_index : Memory → (keys selector : Value) → (i n : ℕ) → Option ℕ
key_index m keys selector i zero = none
key_index m keys selector i (suc n) =
    if slot m (as_ptr keys) i == selector then some i else key_index m keys selector (i + 1) n

-- The entries from `i` on, `n` of them left, stored into the new arrays.
unfoldable pub copy_entries : Heap → (keys vals : Value) → (new_keys new_vals i n : ℕ) → Heap
copy_entries h keys vals new_keys new_vals i zero = h
copy_entries h keys vals new_keys new_vals i (suc n) =
    let k = slot h.mem (as_ptr keys) i in
    let v = slot h.mem (as_ptr vals) i in
    let h1 = store_slot h new_keys i k in
    let h2 = store_slot h1 new_vals i v in copy_entries h2 keys vals new_keys new_vals (i + 1) n

-- A dictionary with one more entry, in new arrays.
unfoldable pub grow_mdict : Heap → (nil mdict selector method : Value) → Option Heap
unfolding copy_entries
grow_mdict h nil mdict selector method = do
  let keys = slot h.mem (as_ptr mdict) mdict_keys
  let vals = slot h.mem (as_ptr mdict) mdict_values
  let n = num_slots h.mem (as_ptr keys)
  (new_keys, h1) ← alloc_ptrs_old h class_array (n + 1) nil
  (new_vals, h2) ← alloc_ptrs_old h1 class_array (n + 1) nil
  let h3 = copy_entries h2 keys vals new_keys new_vals 0 n
  let h4 = store_slot h3 new_keys n selector
  let h5 = store_slot h4 new_vals n method
  keys' ← from_ptr new_keys
  vals' ← from_ptr new_vals
  some
      (store_slot (store_slot h5 (as_ptr mdict) mdict_keys keys') (as_ptr mdict) mdict_values vals')

unfoldable pub install_method : Vm → (class selector method : Value) → Option Vm
unfolding key_index grow_mdict stamp_and_flush
install_method vm class selector method =
    let c = vm.counters in
    let counted = record vm { counters = record c { method_installs = c.method_installs + 1 } } in
    let mdict = slot vm.heap.mem (as_ptr class) behavior_method_dictionary in
    let keys = slot vm.heap.mem (as_ptr mdict) mdict_keys in
    let vals = slot vm.heap.mem (as_ptr mdict) mdict_values in
    elim (key_index vm.heap.mem keys selector 0 (num_slots vm.heap.mem (as_ptr keys))) [
      | some i ↦ some (
          stamp_and_flush (record counted { heap = store_slot vm.heap (as_ptr vals) i method })
            method selector class)
      | none ↦ (do
        h ← grow_mdict vm.heap (nil vm) mdict selector method
        some (stamp_and_flush (record counted { heap = h }) method selector class))
    ]

unfoldable pub register_class : Vm → Value → Option (ℕ × Vm)
unfolding flush_caches
register_class vm class =
    let idx = length vm.class_table in
    let h = vm.heap in
    let m = set_slot_raw h.mem (as_ptr class) behavior_class_index (from_int (pos idx)) in
    if ltb idx (2 ^ hdr_class_bits)
    then some (
      idx,
      flush_caches
          (record vm { class_table = vm.class_table ++ class ∷ []; heap = record h { mem = m } }),
    )
    else none
