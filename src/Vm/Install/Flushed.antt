-- ===== src/Vm/Install/Flushed.antt =====
-- src/vm.rs: the lookup cache after a class or a method has changed.
use smallishtalk.Base.{
  Bool-cases, Option-cases, ◌⊎◌, inl, inr, ℕ, ◌^◌, ◌≤◌, ◌<◌, ◌≡◌, refl, none, some, List, [], ◌∷◌,
  ◌++◌, length, get_or, ltb, arith, true,
}
use smallishtalk.Base.Int.{pos}
use smallishtalk.Value.{Value, as_ptr, from_int}
use smallishtalk.Heap.{set_slot_raw}
use smallishtalk.Vm.{Vm, class_table_at}
use smallishtalk.Vm.Cache.{IsCoherent}
use smallishtalk.Vm.Install.{flush_caches, stamp_and_flush, install_method, register_class}

get_or-snoc : (xs : List Value) (v : Value) → get_or (xs ++ v ∷ []) (length xs) 0 ≡ v
get_or-snoc [] v = refl
get_or-snoc (x ∷ xs) v = get_or-snoc xs v

empty-IsCoherent :
    (fuel : ℕ) (vm : Vm) → ((i : ℕ) → (vm.lookup_cache i).class_index ≡ 0) → IsCoherent fuel vm
empty-IsCoherent fuel vm empty = record { entries = λ i ne. absurd (ne (empty i)) }

stamped-empty :
    (vm : Vm) (method selector class : Value) (i : ℕ)
    → ((stamp_and_flush vm method selector class).lookup_cache i).class_index ≡ 0
unfolding stamp_and_flush flush_caches
stamped-empty vm method selector class i = refl

-- The end of an installation, in place or with a grown dictionary.
installed-empty :
    (vm : Vm) (class selector method : Value) (vm' : Vm)
    → install_method vm class selector method ≡ some vm'
    → (i : ℕ) → (vm'.lookup_cache i).class_index ≡ 0
unfolding install_method stamp_and_flush flush_caches
installed-empty vm class selector method vm' e i = ground arith

unfoldable registered : Vm → Value → Vm
registered vm class =
    let h = vm.heap in
    let m = set_slot_raw h.mem (as_ptr class) 3 (from_int (pos (length vm.class_table))) in
    flush_caches
      (record vm { class_table = vm.class_table ++ class ∷ []; heap = record h { mem = m } })

registered-run :
    (vm : Vm) (class : Value)
    → length vm.class_table < 2 ^ 22
    → register_class vm class ≡ some (length vm.class_table, registered vm class)
unfolding register_class registered
registered-run vm class room =
    let test : ltb (length vm.class_table) (2 ^ 22) ≡ true = ground arith in rw test refl

-- Installing a method either finds no room for the grown dictionary or leaves the lookup cache
-- coherent, whatever it held before. Registering a class with 2^22 classes registered fails; with
-- fewer it gives the class the next index, puts it there and leaves the cache coherent too.
pub install-IsCoherent :
    (fuel : ℕ) (vm : Vm) (class selector method : Value)
    → ((install_method vm class selector method ≡ none)
        ⊎ ((vm' : Vm) × (install_method vm class selector method ≡ some vm') × IsCoherent fuel vm'))
      × (((2 ^ 22 ≤ length vm.class_table) × (register_class vm class ≡ none))
          ⊎ ((length vm.class_table < 2 ^ 22)
              × ((vm' : Vm) × (register_class vm class ≡ some (length vm.class_table, vm'))
                  × (vm'.class_table ≡ vm.class_table ++ class ∷ [])
                  × (class_table_at vm' (length vm.class_table) ≡ class)
                  × IsCoherent fuel vm')))
unfolding register_class registered flush_caches
install-IsCoherent fuel vm class selector method = (
  elim (Option-cases (install_method vm class selector method)) [
    | inl no_room ↦ inl no_room
    | inr (vm', e) ↦
        inr (vm', e, empty-IsCoherent fuel vm' (installed-empty vm class selector method vm' e))
  ],
  elim (Bool-cases (ltb (length vm.class_table) (2 ^ 22))) [
    | inr full ↦ inl (ground arith, ground arith)
    | inl fits ↦
        let room : length vm.class_table < 2 ^ 22 = ground arith in
        inr (
          room,
          (
            registered vm class,
            registered-run vm class room,
            refl,
            get_or-snoc vm.class_table class,
            empty-IsCoherent fuel _ (λ i. refl),
          ),
        )
  ],
)
