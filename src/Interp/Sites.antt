-- ===== src/Interp/Sites.antt =====
-- src/interp.rs: the inline caches of the send sites, and what filling one changes.
use smallishtalk.Base.{
  ℕ, ◌+◌, ◌^◌, ◌<◌, ◌≡◌, ◌≢◌, refl, sym, ap, ◌∙◌, inl, inr, arith, Bool, Bool-cases, true, false,
  ◌&&◌, Option, none, some, ◌==◌, if◌then◌else◌, if_true, if_false,
}
use mathlib.Core.Option.{some-injective}
use smallishtalk.Base.Int.{pos}
use smallishtalk.Space.{Memory, write}
use smallishtalk.Treaty.Layout.{site_cache_class, site_cache_method}
use smallishtalk.Header
use smallishtalk.Value.{Value, as_int, is_int, from_int}
use smallishtalk.Value.Tagging.{as_int-from_int}
use smallishtalk.Heap.{Heap, slot, slot_addr, set_slot_raw, in_old_space}
use smallishtalk.Heap.Barrier.{write_barrier, store_slot, remember, is_remembered, points_young}
use smallishtalk.SmallInt.{eq_ℤ}
use smallishtalk.Vm.{Vm, class_index_of, lookup_method}
use smallishtalk.Interp.{Regs}
use smallishtalk.Interp.Send.{refill_site, inline_hit}

-- The inline cache of the site in `vm'`, where it is for some class, has the method that the lookup
-- finds among the classes of `vm`. Class 0 is that of an empty cache.
pub record IsSound (fuel : ℕ) (vm vm' : Vm) (regs : Regs) (site : Option ℕ) (selector : Value)
    : Type 0 where
  pub entry :
      (c : ℕ) (m : Value)
      → c ≢ 0
      → inline_hit vm' regs site c ≡ some m
      → lookup_method fuel vm c selector ≡ some (some m)

-- A heap that differs in words and in the list of remembered objects alone.
abbrev pub IsMarked : Heap → Heap → Type 0
IsMarked h h' = h' ≡ record h { mem = h'.mem; ssb = h'.ssb }

-- What a send has changed before the method runs: entries of the two caches, which stay right for
-- the classes of before, no other word than the site's two and the header of the sites, the list of
-- remembered objects, and counters.
pub record IsSearched (fuel : ℕ) (vm vm' : Vm) (regs : Regs) (site : Option ℕ) (selector : Value)
    : Type 0 where
  pub sound : IsSound fuel vm vm' regs site selector
  pub cached :
      (i : ℕ)
      → let e = vm'.lookup_cache i in
        e.class_index ≢ 0 → lookup_method fuel vm e.class_index e.selector ≡ some (some e.method)
  pub memory :
      (a : ℕ)
      → a ≢ regs.sites
      → ((base : ℕ)
          → site ≡ some base
          → (a ≢ slot_addr regs.sites (base + site_cache_class))
            × (a ≢ slot_addr regs.sites (base + site_cache_method)))
      → vm'.heap.mem a ≡ vm.heap.mem a
  pub heap : IsMarked vm.heap vm'.heap
  pub rest :
      vm' ≡ record vm { heap = vm'.heap; lookup_cache = vm'.lookup_cache; counters = vm'.counters }

pub class_index_of-lt : (vm : Vm) (v : Value) → class_index_of vm v < 2 ^ 32
unfolding class_index_of Header.class_index
class_index_of-lt vm v = elim (Bool-cases (is_int v)) [
  | inl int ↦ rw int (omega arith)
  | inr ptr ↦ rw ptr (omega arith)
]

remember-other : (h : Heap) (obj a : ℕ) → a ≢ obj → (remember h obj).mem a ≡ h.mem a
unfolding remember
remember-other h obj a ne = ground (arith, ne)

if-IsMarked :
    (h : Heap) (b : Bool) (x y : Heap)
    → IsMarked h x
    → IsMarked h y
    → IsMarked h (if b then x else y)
if-IsMarked h true x y p q = p
if-IsMarked h false x y p q = q

store_slot-IsMarked : (h : Heap) (obj i : ℕ) (v : Value) → IsMarked h (store_slot h obj i v)
unfolding store_slot write_barrier remember
store_slot-IsMarked h obj i v =
    let stored = record h { mem = set_slot_raw h.mem obj i v } in
    let same : IsMarked h stored = refl in
    let noted : IsMarked h (remember stored obj) = refl in
    if-IsMarked h (points_young stored v && in_old_space stored obj) _ _
      (if-IsMarked h (is_remembered stored.mem obj) _ _ same noted) same

-- A barriered store changes its slot, and at most the header besides.
store_slot-other :
    (h : Heap) (obj i : ℕ) (v : Value) (a : ℕ)
    → a ≢ obj
    → (store_slot h obj i v).mem a ≡ write h.mem (slot_addr obj i) v a
unfolding store_slot write_barrier
store_slot-other h obj i v a ne =
    ground (arith, remember-other (record h { mem = set_slot_raw h.mem obj i v }) obj a ne)

no_answer : (w : Value) → none ≢ some w
no_answer w e = ground (arith, e)

module _ (vm : Vm) (regs : Regs) (base c : ℕ) (m : Value) where
  abbrev after : Memory
  after = (refill_site vm regs base c m).heap.mem

  refill_site-memory :
      (a : ℕ)
      → a ≢ regs.sites
      → after a
        ≡ write
            (write vm.heap.mem (slot_addr regs.sites (base + site_cache_class)) (from_int (pos c)))
            (slot_addr regs.sites (base + site_cache_method))
            m
            a
  unfolding refill_site
  refill_site-memory a ne =
      let h = vm.heap in
      let first = set_slot_raw h.mem regs.sites (base + site_cache_class) (from_int (pos c)) in
      store_slot-other (record h { mem = first }) regs.sites (base + site_cache_method) m a ne

  pub refill_site-other :
      (a : ℕ)
      → a ≢ regs.sites
      → a ≢ slot_addr regs.sites (base + site_cache_class)
      → a ≢ slot_addr regs.sites (base + site_cache_method)
      → after a ≡ vm.heap.mem a
  refill_site-other a ne p q = refill_site-memory a ne ∙ ground (arith, p, q)

  pub refill_site-IsMarked : IsMarked vm.heap (refill_site vm regs base c m).heap
  unfolding refill_site
  refill_site-IsMarked =
      let h = vm.heap in
      let first = set_slot_raw h.mem regs.sites (base + site_cache_class) (from_int (pos c)) in
      store_slot-IsMarked (record h { mem = first }) regs.sites (base + site_cache_method) m

  -- The two words of the site.
  class_word : slot after regs.sites (base + site_cache_class) ≡ from_int (pos c)
  class_word =
      refill_site-memory (slot_addr regs.sites (base + site_cache_class)) (λ e. omega (arith, e))
      ∙ ground arith

  method_word : slot after regs.sites (base + site_cache_method) ≡ m
  method_word =
      refill_site-memory (slot_addr regs.sites (base + site_cache_method)) (λ e. omega (arith, e))
      ∙ ground arith

  module _ (small : c < 2 ^ 32) where
    as_class : as_int (slot after regs.sites (base + site_cache_class)) ≡ pos c
    as_class = ap as_int class_word ∙ as_int-from_int (pos c) (ground (arith, small))

    hit_by :
        (k : ℕ)
        → inline_hit (refill_site vm regs base c m) regs (some base) k
          ≡ (if c == k then some m else none)
    unfolding inline_hit
    hit_by k =
        ap
          (λ z.
            if eq_ℤ z (pos k)
            then some (slot after regs.sites (base + site_cache_method))
            else none)
          as_class
        ∙ ap (λ w. if c == k then some w else none) method_word

    pub refill_site-hit : inline_hit (refill_site vm regs base c m) regs (some base) c ≡ some m
    refill_site-hit = hit_by c ∙ ground arith

    pub refill_site-only :
        (k : ℕ) (w : Value)
        → inline_hit (refill_site vm regs base c m) regs (some base) k ≡ some w
        → (c ≡ k) × (m ≡ w)
    refill_site-only k w e = elim (Bool-cases (c == k)) [
      | inl same ↦
          (ground (arith, same), some-injective m w (sym (if_true _ _ same) ∙ sym (hit_by k) ∙ e))
      | inr other ↦ absurd (no_answer w (sym (if_false _ _ other) ∙ sym (hit_by k) ∙ e))
    ]
