-- ===== src/Interp/Collect.antt =====
-- src/interp.rs: an allocation that collects garbage where there is no room. The collections, which
-- src/gc.rs does, are parameters.
use smallishtalk.Base.{
  ℕ, ◌-◌, List, [], ◌∷◌, length, get_or, Option, none, some, ◌==◌, if◌then◌else◌,
}
use smallishtalk.Treaty.Words.{fmt_fixed, fmt_ptrs}
use smallishtalk.Value.{Value}
use smallishtalk.Heap.{Heap}
use smallishtalk.Heap.Alloc.{alloc_fixed, alloc_ptrs, alloc_bytes}
use smallishtalk.Vm.{Vm, nil}
use smallishtalk.Interp.{Result, ok, err, out_of_memory, ◌>>=◌, Regs, save_regs, refresh_regs}

-- The attempt by format.
unfoldable pub attempt : Heap → (class format n : ℕ) → Value → Option (ℕ × Heap)
attempt h class format n nil =
    if format == fmt_fixed
    then alloc_fixed h class n nil
    else if format == fmt_ptrs
    then alloc_ptrs h class n nil
    else alloc_bytes h class n

abbrev pub drop_last : List Value → List Value
drop_last [] = []
drop_last (v ∷ vs) = elim vs [ [] ↦ [] | w ∷ ws ↦ v ∷ drop_last vs ]

-- temp_roots.pop().unwrap(): the last root, and the roots without it
unfoldable pub pop_root : Vm → Value × Vm
pop_root vm = (
  get_or vm.temp_roots (length vm.temp_roots - 1) 0,
  record vm { temp_roots = drop_last vm.temp_roots },
)

module _ (collect_young collect_old : Vm → Result Vm) where
  -- `nil` is the one of before the collections.
  --
  -- The last attempt, after both collections.
  unfoldable pub alloc_after_old :
      (nil : Value) → Vm → Regs → (class format n : ℕ) → Result (ℕ × Vm × Regs)
  unfolding attempt
  alloc_after_old nil vm regs class format n = collect_old (save_regs vm regs) >>= λ vm'.
      elim (attempt vm'.heap class format n nil) [
        | some (a, h) ↦ ok (a, record vm' { heap = h }, refresh_regs vm' regs)
        | none ↦ err out_of_memory
      ]

  unfoldable pub alloc_after_young :
      (nil : Value) → Vm → Regs → (class format n : ℕ) → Result (ℕ × Vm × Regs)
  unfolding attempt alloc_after_old
  alloc_after_young nil vm regs class format n = collect_young (save_regs vm regs) >>= λ vm'.
      (let regs' = refresh_regs vm' regs in
        elim (attempt vm'.heap class format n nil) [
          | some (a, h) ↦ ok (a, record vm' { heap = h }, regs')
          | none ↦ alloc_after_old nil vm' regs' class format n
        ])

  unfoldable pub alloc_gc : Vm → Regs → (class format n : ℕ) → Result (ℕ × Vm × Regs)
  unfolding attempt alloc_after_young
  alloc_gc vm regs class format n = elim (attempt vm.heap class format n (nil vm)) [
    | some (a, h) ↦ ok (a, record vm { heap = h }, regs)
    | none ↦ alloc_after_young (nil vm) vm regs class format n
  ]
