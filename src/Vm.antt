-- ===== src/Vm.antt =====
-- src/vm.rs: the machine state that lookup and scheduling work on, the well-known values, and the
-- method lookup with its global cache (src/interp.rs). Of the machine's fields those are kept that
-- these operations read or write. An index outside a vector, a panic in the source, reads 0.
pub mod Lookup
pub mod Cache
pub mod MethodHeader
pub mod IdentityHash
pub mod Install
mod Tests
use Prim.Native.Nat.{bit_and}
use smallishtalk.Base.{
  ℕ, zero, suc, ◌+◌, ◌-◌, ◌*◌, ◌/◌, ◌%◌, ◌^◌, Bool, true, false, not, ◌&&◌, Option, none, some,
  List, [], ◌∷◌, get_or, ◌==◌, if◌then◌else◌, ◌>>=◌,
}
use smallishtalk.Base.Int.{ℤ, pos}
use smallishtalk.Base.Words.{u32_mod, u64_mod, as_unsigned}
use smallishtalk.Treaty.Words.{hdr_hash_bits}
use smallishtalk.Treaty.Classes.{class_smallinteger}
use smallishtalk.Treaty.Layout.{
  special_nil, special_true, special_false, behavior_superclass, behavior_method_dictionary,
  behavior_class_index, behavior_format_and_slots, format_and_slots_format_shift,
  format_and_slots_nslots_mask, mdict_keys, mdict_values,
}
use smallishtalk.Treaty.Frames.{lookup_cache_size}
use smallishtalk.Header
use smallishtalk.Value.{Value, as_int, as_ptr, is_int, sar}
use smallishtalk.Heap.{Heap, num_slots, slot, header, set_header}

pub record LookupEntry : Type 0 where
  pub class_index : ℕ
  pub selector : Value
  pub method : Value

abbrev pub default_entry : LookupEntry
default_entry = record { class_index = 0; selector = 0; method = 0 }

pub record Counters : Type 0 where
  pub global_cache_miss : ℕ
  pub dict_walks : ℕ
  pub dict_classes_walked : ℕ
  pub method_installs : ℕ
  pub cache_flushes : ℕ
  pub process_switches : ℕ
  pub semaphore_blocks : ℕ
  pub unwind_runs : ℕ
  pub ensure_interceptions : ℕ
  pub nlrs : ℕ
  pub inline_cache_miss : ℕ
  pub dnu : ℕ
  pub must_be_boolean : ℕ
  pub sends_staged : ℕ
  pub spec_fallthrough : ℕ → ℕ
  pub gc_bytes_copied : ℕ
  pub gc_bytes_tenured : ℕ
  pub gc_ssb_drained : ℕ
  pub gc_ssb_drained_max : ℕ
  pub gc_remembered_rebuilt : ℕ

-- The lookup cache is a vector of `LOOKUP_CACHE_SIZE` entries, by index.
pub record Vm : Type 0 where
  pub heap : Heap
  pub class_table : List Value
  pub specials : List Value
  pub active_process : Value
  pub site_registry : List Value
  pub lookup_cache : ℕ → LookupEntry
  pub hash_counter : ℕ
  pub timer_requests : List (ℤ × Value)
  pub counters : Counters
  pub gc_epoch : ℕ
  pub max_stack_bytes : ℕ
  pub stack_grow_count : ℕ
  pub temp_roots : List Value
  pub symbols : List (List ℕ × Value)
  pub tenure_threshold : ℕ
  pub scavenge_count : ℕ

abbrev pub nil : Vm → Value
nil vm = get_or vm.specials special_nil 0

abbrev pub true_v : Vm → Value
true_v vm = get_or vm.specials special_true 0

abbrev pub false_v : Vm → Value
false_v vm = get_or vm.specials special_false 0

unfoldable pub bool_v : Vm → Bool → Value
bool_v vm b = if b then true_v vm else false_v vm

-- An index out of range, where the source panics, answers 0.
abbrev pub class_table_at : Vm → ℕ → Value
class_table_at vm idx = get_or vm.class_table idx 0

unfoldable pub class_index_of : Vm → Value → ℕ
class_index_of vm v =
    if is_int v then class_smallinteger else Header.class_index (header vm.heap.mem (as_ptr v))

unfoldable pub class_of : Vm → Value → Value
class_of vm v = class_table_at vm (class_index_of vm v)

unfoldable pub class_format_and_slots : Vm → Value → ℕ × ℕ
class_format_and_slots vm class =
    let fas = as_int (slot vm.heap.mem (as_ptr class) behavior_format_and_slots) in
    (
      as_unsigned u64_mod (sar fas format_and_slots_format_shift),
      bit_and (as_unsigned u64_mod fas) format_and_slots_nslots_mask,
    )

-- The scan of the keys from index `i` on, `n` of them left.
unfoldable pub mdict_scan : (Value → ℕ → Value) → Value → Value → Value → ℕ → ℕ → Option Value
mdict_scan at keys vals selector i zero = none
mdict_scan at keys vals selector i (suc n) =
    if at keys i == selector then some (at vals i) else mdict_scan at keys vals selector (i + 1) n

unfoldable pub mdict_lookup : Vm → Value → Value → Option Value
unfolding mdict_scan
mdict_lookup vm mdict selector =
    let at = λ (o : Value) (i : ℕ). slot vm.heap.mem (as_ptr o) i in
    let keys = at mdict mdict_keys in
    let vals = at mdict mdict_values in
    mdict_scan at keys vals selector 0 (num_slots vm.heap.mem (as_ptr keys))

-- The method dictionary of one class, if it has one, asked for the selector.
unfoldable pub class_lookup : Vm → Value → Value → Option Value
class_lookup vm cls selector =
    let mdict = slot vm.heap.mem (as_ptr cls) behavior_method_dictionary in
    if mdict == nil vm then none else mdict_lookup vm mdict selector

abbrev pub superclass : Vm → Value → Value
superclass vm cls = slot vm.heap.mem (as_ptr cls) behavior_superclass

-- The walk up the superclasses from `cls`, with the classes walked so far; `none` is a walk that has
-- not ended when the fuel runs out.
unfoldable pub lookup_from : ℕ → Vm → Value → Value → ℕ → Option (Option Value × ℕ)
lookup_from zero vm cls selector walked = none
lookup_from (suc fuel) vm cls selector walked =
    let above = lookup_from fuel vm (superclass vm cls) selector (walked + 1) in
    if cls == nil vm
    then some (none, walked)
    else (elim (class_lookup vm cls selector) [ some m ↦ some (some m, walked + 1) | none ↦ above ])

unfoldable pub lookup_method_counted : ℕ → Vm → ℕ → Value → Option (Option Value × ℕ)
lookup_method_counted fuel vm class_index selector =
    lookup_from fuel vm (class_table_at vm class_index) selector 0

unfoldable pub lookup_method : ℕ → Vm → ℕ → Value → Option (Option Value)
lookup_method fuel vm class_index selector = do
  (m, walked) ← lookup_method_counted fuel vm class_index selector
  some m

unfoldable pub lookup_method_above : ℕ → Vm → Value → Value → Option (Option Value)
lookup_method_above fuel vm static_class selector =
    let sup = superclass vm static_class in
    if sup == nil vm
    then some none
    else lookup_method fuel vm
        (as_unsigned u32_mod (as_int (slot vm.heap.mem (as_ptr sup) behavior_class_index))) selector

-- src/interp.rs: the slot of the global cache for a class and a selector.
unfoldable pub cache_slot : ℕ → Value → ℕ
cache_slot class_index selector =
    (class_index * 31 % u64_mod + selector / 2 ^ 3) % u64_mod % lookup_cache_size

abbrev pub put_entry : (ℕ → LookupEntry) → ℕ → LookupEntry → ℕ → LookupEntry
put_entry cache h e i = if i == h then e else cache i

-- A hit answers the cached method; a miss walks the dictionaries and, where it finds a method,
-- enters it.
unfoldable pub cache_miss : Vm → ℕ → Value → Option Value × ℕ → Option Value × Vm
cache_miss vm class_index selector (found, walked) =
    let c = vm.counters in
    let counted = record vm {
      counters = record c {
        global_cache_miss = c.global_cache_miss + 1;
        dict_walks = c.dict_walks + 1;
        dict_classes_walked = c.dict_classes_walked + walked;
      };
    } in
    elim found [
      | none ↦ (none, counted)
      | some m ↦ (
        some m,
        record counted {
          lookup_cache =
              put_entry vm.lookup_cache (cache_slot class_index selector)
                (record { class_index = class_index; selector = selector; method = m });
        },
      )
    ]

unfoldable pub lookup_cached : ℕ → Vm → ℕ → Value → Option (Option Value × Vm)
unfolding cache_miss
lookup_cached fuel vm class_index selector =
    let e = vm.lookup_cache (cache_slot class_index selector) in
    if (e.class_index == class_index) && (e.selector == selector)
    then some (some e.method, vm)
    else (do
      walk ← lookup_method_counted fuel vm class_index selector
      some (cache_miss vm class_index selector walk))

-- The next identity hash: the counter skips 0 when it wraps, so one more round always ends the loop.
unfoldable pub next_hash_counter : ℕ → ℕ
next_hash_counter c = bit_and ((c + 1) % u32_mod) (2 ^ hdr_hash_bits - 1)

unfoldable pub next_identity_hash : Vm → ℕ × Vm
unfolding next_hash_counter
next_identity_hash vm =
    let first = next_hash_counter vm.hash_counter in
    let c = if first == 0 then next_hash_counter first else first in
    (c, record vm { hash_counter = c })

unfoldable pub identity_hash_of : Vm → Value → ℤ × Vm
identity_hash_of vm v =
    if is_int v
    then (as_int v, vm)
    else (let addr = as_ptr v in
        let h = header vm.heap.mem addr in
        if Header.hash h == 0
        then (let (new, vm') = next_identity_hash vm in
            (
              pos new,
              (let heap = vm'.heap in
                  record vm' {
                    heap = record heap { mem = set_header heap.mem addr (Header.with_hash h new) };
                  }),
            ))
        else (pos (Header.hash h), vm))
