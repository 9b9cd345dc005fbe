-- ===== src/Vm/Tests.antt =====
-- Examples for src/vm.rs and the lookup cache of src/interp.rs.
use smallishtalk.Base.{
  ◌⊎◌, none, length, ◌++◌, ◌≤◌, ◌<◌, ◌^◌, false, ◌≡◌, refl, ◌==◌, if◌then◌else◌, some, [], ◌∷◌,
  arith,
}
use smallishtalk.Base.Int.{ℤ}
use smallishtalk.Space.{Memory}
use smallishtalk.Header
use smallishtalk.Value.{as_ptr, is_int}
use smallishtalk.Vm.IdentityHash.{IsAsked, identity_hash_of_lem}
use smallishtalk.Vm.{identity_hash_of}
use smallishtalk.Heap.{num_slots}
use smallishtalk.Heap.Alloc
use smallishtalk.Vm.{
  Vm, default_entry, class_table_at, class_lookup, mdict_lookup, lookup_method_counted,
  lookup_cached,
}
use smallishtalk.Vm.Lookup.{Chain, top, sub, first_method, lookup_method_counted-first_method}
use smallishtalk.Vm.Cache.{IsCoherent, lookup_cached-first_method}
use smallishtalk.Vm.Install.{install_method, register_class}
use smallishtalk.Vm.Install.Flushed.{install-IsCoherent}
use smallishtalk.Vm.MethodHeader.{pack_method_header}
use smallishtalk.Vm.MethodHeader.Packing.{Limits, Reads, pack_method_header_lem}

-- nil at 8; the class 7 at 1024 with superclass nil and a dictionary at 2048, whose one key 3000 (in
-- the array at 4096) has the method 5000 (in the array at 5120).
abbrev words : Memory
words a =
    if a == 1032
    then 8
    else if a == 1040
    then 2048
    else if a == 2056
    then 4096
    else if a == 2064
    then 5120
    else if a == 4096
    then 4398046515200
    else if a == 4104
    then 3000
    else if a == 5128
    then 5000
    else 0

abbrev machine : Vm
machine =
    let h = Alloc.new Alloc.default_config 65536 10000000 20000000 in
    record {
      heap = record h { mem = words };
      class_table = 0 ∷ 0 ∷ 0 ∷ 0 ∷ 0 ∷ 0 ∷ 0 ∷ 1024 ∷ [];
      specials = 8 ∷ [];
      active_process = 8;
      site_registry = [];
      lookup_cache = λ _. default_entry;
      hash_counter = 0;
      timer_requests = [];
      counters = record {
        global_cache_miss = 0;
        dict_walks = 0;
        dict_classes_walked = 0;
        method_installs = 0;
        cache_flushes = 0;
        process_switches = 0;
        semaphore_blocks = 0;
        unwind_runs = 0;
        ensure_interceptions = 0;
        nlrs = 0;
        inline_cache_miss = 0;
        dnu = 0;
        must_be_boolean = 0;
        sends_staged = 0;
        spec_fallthrough = λ _. 0;
        gc_bytes_copied = 0;
        gc_bytes_tenured = 0;
        gc_ssb_drained = 0;
        gc_ssb_drained_max = 0;
        gc_remembered_rebuilt = 0;
      };
      gc_epoch = 0;
      max_stack_bytes = 65536;
      stack_grow_count = 0;
      temp_roots = [];
      symbols = [];
      tenure_threshold = 3;
      scavenge_count = 0;
    }

machine-Chain : Chain machine (class_table_at machine 7) (1024 ∷ [])
unfolding as_ptr
machine-Chain = sub 1024 8 [] (λ e. ground (arith, e)) refl (top 8 refl)

machine-IsCoherent : IsCoherent 5 machine
machine-IsCoherent = record { entries = λ i ne. absurd (ne refl) }

machine_finds : first_method machine 3000 (1024 ∷ []) ≡ (some 5000, 1)
unfolding first_method class_lookup mdict_lookup num_slots as_ptr Header.num_slots_field
machine_finds = refl

lookup_method_counted-first_method_example :
    lookup_method_counted 2 machine 7 3000 ≡ some (first_method machine 3000 (1024 ∷ []))
lookup_method_counted-first_method_example =
    lookup_method_counted-first_method 2 7 3000 machine-Chain (omega arith)

lookup_cached-first_method_example :
    (vm' : Vm) × (lookup_cached 5 machine 7 3000
      ≡ some ((first_method machine 3000 (1024 ∷ [])).0, vm'))
    × IsCoherent 5 vm'
lookup_cached-first_method_example =
    lookup_cached-first_method 5 machine 7 3000 machine-IsCoherent (λ e. ground (arith, e))
      machine-Chain (omega arith)

pack_method_header_lem_example :
    ((pack_method_header 12 2 (some 40) 9 1 ≡ none) × ¬ Limits 12 2 (some 40) 9)
    ⊎ ((bits : ℤ) × (pack_method_header 12 2 (some 40) 9 1 ≡ some bits)
        × Limits 12 2 (some 40) 9
        × Reads bits 12 2 (some 40) 9 1)
pack_method_header_lem_example = pack_method_header_lem 12 2 9 1 (some 40) (omega arith)

is_int-4096 : is_int 4096 ≡ false
unfolding is_int
is_int-4096 = refl

identity_hash_of_lem_example : IsAsked machine 4096 (identity_hash_of machine 4096)
identity_hash_of_lem_example = identity_hash_of_lem machine 4096 is_int-4096 (omega arith)

install-IsCoherent_example :
    ((install_method machine 1024 3000 6000 ≡ none)
      ⊎ ((vm' : Vm) × (install_method machine 1024 3000 6000 ≡ some vm') × IsCoherent 5 vm'))
    × (((2 ^ 22 ≤ length machine.class_table) × (register_class machine 1024 ≡ none))
        ⊎ ((length machine.class_table < 2 ^ 22)
            × ((vm' : Vm) × (register_class machine 1024 ≡ some (length machine.class_table, vm'))
                × (vm'.class_table ≡ machine.class_table ++ 1024 ∷ [])
                × (class_table_at vm' (length machine.class_table) ≡ 1024)
                × IsCoherent 5 vm')))
install-IsCoherent_example = install-IsCoherent 5 machine 1024 3000 6000
