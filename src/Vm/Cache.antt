-- ===== src/Vm/Cache.antt =====
-- src/interp.rs: the global lookup cache in front of the walk.
use smallishtalk.Base.{
  ℕ, ◌<◌, ◌≡◌, ◌≢◌, refl, sym, ap, subst, Bool, true, if◌then◌else◌, ◌∙◌, Option, none, some, List,
  arith, false, ◌&&◌, Bool-cases, inl, inr, length, get_or, ◌==◌, ◌>>=◌,
}
use smallishtalk.Value.{Value}
use smallishtalk.Vm.{
  Vm, LookupEntry, class_table_at, lookup_method_counted, lookup_method, cache_slot, lookup_from,
  lookup_cached, cache_miss,
}
use smallishtalk.Vm.Lookup.{
  Chain, first_method, lookup_method_counted-first_method, lookup_from-frame,
}

-- Every entry of a class is what the walk from that class finds. Class 0 is invalid, and the class
-- of the empty entry.
pub record IsCoherent (fuel : ℕ) (vm : Vm) : Type 0 where
  pub entries :
      (i : ℕ)
      → let e = vm.lookup_cache i in
        e.class_index ≢ 0 → lookup_method fuel vm e.class_index e.selector ≡ some (some e.method)

-- `cls` is where a search for the class begins; a search over the chain has a known end.
module _ (fuel : ℕ) (vm : Vm) (c : ℕ) (s : Value) {cs : List Value}
    (ch : Chain vm (class_table_at vm c) cs) (h : length cs < fuel) where
  walk : lookup_method_counted fuel vm c s ≡ some (first_method vm s cs)
  walk = lookup_method_counted-first_method fuel c s ch h

  pub lookup_method-first_method : lookup_method fuel vm c s ≡ some (first_method vm s cs).0
  unfolding lookup_method
  lookup_method-first_method = rw walk

  hit :
      (vm.lookup_cache (cache_slot c s)).class_index ≡ c
      → (vm.lookup_cache (cache_slot c s)).selector ≡ s
      → lookup_cached fuel vm c s ≡ some (some (vm.lookup_cache (cache_slot c s)).method, vm)
  unfolding lookup_cached
  hit e f = ground arith

  miss :
      ((vm.lookup_cache (cache_slot c s)).class_index == c)
          && ((vm.lookup_cache (cache_slot c s)).selector == s)
        ≡ false
      → lookup_cached fuel vm c s ≡ some (cache_miss vm c s (first_method vm s cs))
  unfolding lookup_cached
  miss e = rw (e, walk)

pub lookup_method-frame :
    (fuel : ℕ) (vm vm' : Vm) (c : ℕ) (s : Value)
    → vm'.heap ≡ vm.heap
    → vm'.specials ≡ vm.specials
    → vm'.class_table ≡ vm.class_table
    → lookup_method fuel vm' c s ≡ lookup_method fuel vm c s
unfolding lookup_method lookup_method_counted
lookup_method-frame fuel vm vm' c s e f g =
    let start : class_table_at vm' c ≡ class_table_at vm c =
      ap (λ (t : List Value). get_or t c 0) g in
    ap (λ (o : Option (Option Value × ℕ)). o >>= (λ r. some r.0))
      (ap (λ (k : Value). lookup_from fuel vm' k s 0) start
        ∙ lookup_from-frame fuel vm vm' (class_table_at vm c) s 0 e f)

cache_miss-answer :
    (vm : Vm) (c : ℕ) (s : Value) (r : Option Value × ℕ) → (cache_miss vm c s r).0 ≡ r.0
unfolding cache_miss
cache_miss-answer vm c s (none, n) = refl
cache_miss-answer vm c s (some m, n) = refl

-- Entering what the walk found keeps the cache coherent.
cache_miss-IsCoherent :
    (fuel : ℕ) (vm : Vm) (c : ℕ) (s : Value) (r : Option Value × ℕ)
    → IsCoherent fuel vm
    → lookup_method fuel vm c s ≡ some r.0
    → IsCoherent fuel (cache_miss vm c s r).1
unfolding cache_miss
cache_miss-IsCoherent fuel vm c s (none, n) co e = record {
  entries = λ i ne. lookup_method-frame fuel vm _ _ _ refl refl refl ∙ co.entries i ne;
}
cache_miss-IsCoherent fuel vm c s (some m, n) co e = record {
  entries = λ i ne.
      lookup_method-frame fuel vm _ _ _ refl refl refl ∙ elim (Bool-cases (i == cache_slot c s)) [
        | inl here ↦ rw here e
        | inr other ↦ rw other (co.entries i (λ z. ne (rw other z)))
      ];
}

entry-method :
    (fuel : ℕ) (vm : Vm) (c : ℕ) (s : Value) (e : LookupEntry)
    → e.class_index ≡ c
    → e.selector ≡ s
    → lookup_method fuel vm e.class_index e.selector ≡ some (some e.method)
    → lookup_method fuel vm c s ≡ some (some e.method)
entry-method fuel vm c s e p q known =
    ap (λ (k : ℕ). lookup_method fuel vm k s) (sym p)
    ∙ ap (λ (t : Value). lookup_method fuel vm e.class_index t) (sym q)
    ∙ known

-- A lookup through a coherent cache ends and answers what the walk over the superclass chain finds,
-- whether or not it hits, and leaves the cache coherent.
pub lookup_cached-first_method :
    (fuel : ℕ) (vm : Vm) (c : ℕ) (s : Value) {cs : List Value}
    → IsCoherent fuel vm
    → c ≢ 0
    → Chain vm (class_table_at vm c) cs
    → length cs < fuel
    → (vm' : Vm) × (lookup_cached fuel vm c s ≡ some ((first_method vm s cs).0, vm'))
      × IsCoherent fuel vm'
lookup_cached-first_method fuel vm c s {cs} co ne ch h =
    let e = vm.lookup_cache (cache_slot c s) in
    let r = first_method vm s cs in
    let walk_ends = lookup_method-first_method fuel vm c s ch h in
    elim (Bool-cases ((e.class_index == c) && (e.selector == s))) [
      | inl here ↦
          let class_eq : e.class_index ≡ c = ground arith in
          let selector_eq : e.selector ≡ s = ground arith in
          let known =
            entry-method fuel vm c s e class_eq selector_eq
              (co.entries (cache_slot c s) (λ z. ne (sym class_eq ∙ z))) in
          (
            vm,
            hit fuel vm c s ch h class_eq selector_eq
                ∙ ap (λ (o : Option (Option Value)). o >>= (λ a. some (a, vm)))
                    (sym known ∙ walk_ends),
            co,
          )
      | inr other ↦ (
        (cache_miss vm c s r).1,
        miss fuel vm c s ch h other
            ∙ ap some (
                ap (λ (a : Option Value). (a, (cache_miss vm c s r).1))
                  (cache_miss-answer vm c s r)),
        cache_miss-IsCoherent fuel vm c s r co walk_ends,
      )
    ]

-- A lookup through the cache changes the cache and the counters alone.
abbrev pub IsKept : Vm → Vm → Type 0
IsKept vm vm' = vm' ≡ record vm { lookup_cache = vm'.lookup_cache; counters = vm'.counters }

abbrev AllKept : Vm → Option (Option Value × Vm) → Type 0
AllKept vm none = Unit
AllKept vm (some (o, vm')) = IsKept vm vm'

cache_miss-IsKept :
    (vm : Vm) (c : ℕ) (s : Value) (r : Option Value × ℕ) → IsKept vm (cache_miss vm c s r).1
unfolding cache_miss
cache_miss-IsKept vm c s (none, n) = refl
cache_miss-IsKept vm c s (some m, n) = refl

walked-AllKept :
    (vm : Vm) (c : ℕ) (s : Value) (o : Option (Option Value × ℕ))
    → AllKept vm (o >>= λ r. some (cache_miss vm c s r))
walked-AllKept vm c s none = tt
walked-AllKept vm c s (some r) = cache_miss-IsKept vm c s r

if-AllKept :
    (vm : Vm) (b : Bool) (x y : Option (Option Value × Vm))
    → AllKept vm x
    → AllKept vm y
    → AllKept vm (if b then x else y)
if-AllKept vm true x y p q = p
if-AllKept vm false x y p q = q

pub lookup_cached-IsKept :
    (fuel : ℕ) (vm vm' : Vm) (c : ℕ) (s : Value) (o : Option Value)
    → lookup_cached fuel vm c s ≡ some (o, vm')
    → IsKept vm vm'
unfolding lookup_cached
lookup_cached-IsKept fuel vm vm' c s o e =
    let same : IsKept vm vm = refl in
    let entry = vm.lookup_cache (cache_slot c s) in
    subst (AllKept vm) e (
      if-AllKept vm ((entry.class_index == c) && (entry.selector == s))
        (some (some entry.method, vm)) _ same
        (walked-AllKept vm c s (lookup_method_counted fuel vm c s)))
