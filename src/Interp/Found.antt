-- ===== src/Interp/Found.antt =====
-- src/interp.rs: the method that a send activates.
use smallishtalk.Base.{
  ℕ, ◌+◌, ◌<◌, ◌≡◌, ◌≢◌, ◌⊎◌, inl, inr, refl, sym, ap, arith, if◌then◌else◌, ◌∙◌, Option, none,
  some, Option-cases, List, [], ◌∷◌, length,
}
use mathlib.Core.Option.{some-injective}
use smallishtalk.Base.Int.{pos}
use smallishtalk.Treaty.Layout.{site_cache_class, site_cache_method}
use smallishtalk.Value.{Value, as_int}
use smallishtalk.Heap.{Heap, slot}
use smallishtalk.SmallInt.{eq_ℤ}
use smallishtalk.Vm.{
  Vm, LookupEntry, lookup_method, class_lookup, mdict_lookup, class_index_of, class_table_at,
}
use smallishtalk.Vm.Lookup.{Chain, top, sub, first_method}
use smallishtalk.Vm.Cache.{
  IsCoherent, lookup_method-frame, lookup_method-first_method, lookup_cached-first_method, IsKept,
  lookup_cached-IsKept,
}
use smallishtalk.Interp.{Regs, get}
use smallishtalk.Interp.Sites.{
  IsSound, IsSearched, IsMarked, refill_site-IsMarked, class_index_of-lt, refill_site-other,
  refill_site-hit, refill_site-only,
}
use smallishtalk.Interp.Send.{
  Env, count_miss, inline_hit, refill_site, look_up, refilled, activate, do_not_understand,
  send_found, after_search, after_inline, do_send,
}

-- A counted miss changes nothing that a search reads.
Chain-counted :
    (vm : Vm) (site : Option ℕ) (x : Value) (cs : List Value)
    → Chain vm x cs
    → Chain (count_miss vm site) x cs
Chain-counted vm none x cs ch = ch
Chain-counted vm (some base) x _ (top _ e) = top x e
Chain-counted vm (some base) x _ (sub _ up cs ne e ch) =
    sub x up cs ne e (Chain-counted vm (some base) up cs ch)

after_class : Option Value → Option Value × ℕ → Option Value × ℕ
after_class o rest = elim o [ some m ↦ (some m, 1) | none ↦ (rest.0, rest.1 + 1) ]

first_method-counted :
    (vm : Vm) (site : Option ℕ) (s : Value) (cs : List Value)
    → first_method (count_miss vm site) s cs ≡ first_method vm s cs
unfolding first_method class_lookup mdict_lookup after_class
first_method-counted vm none s cs = refl
first_method-counted vm (some base) s [] = refl
first_method-counted vm (some base) s (c ∷ cs) =
    ap (after_class (class_lookup vm c s)) (first_method-counted vm (some base) s cs)

IsCoherent-counted :
    (fuel : ℕ) (vm : Vm) (site : Option ℕ)
    → IsCoherent fuel vm
    → IsCoherent fuel (count_miss vm site)
IsCoherent-counted fuel vm none co = co
IsCoherent-counted fuel vm (some base) co = record {
  entries = λ i ne. lookup_method-frame fuel vm _ _ _ refl refl refl ∙ co.entries i ne;
}

module _ (env : Env) (vm : Vm) (regs : Regs) (dest r : ℕ) (selector : Value) (argc : ℕ)
    (site : Option ℕ) {cs : List Value} (coherent : IsCoherent env.fuel vm)
    (valid : class_index_of vm (get vm regs r) ≢ 0)
    (chain : Chain vm (class_table_at vm (class_index_of vm (get vm regs r))) cs)
    (enough : length cs < env.fuel) (sound : IsSound env.fuel vm vm regs site selector) where
  abbrev class : ℕ
  class = class_index_of vm (get vm regs r)

  -- The search behind the inline cache ends, with what the walk finds.
  searched :
      (vm' : Vm) × (look_up env.fuel (count_miss vm site) class selector none
        ≡ some ((first_method vm selector cs).0, vm'))
      × IsCoherent env.fuel vm'
      × IsKept (count_miss vm site) vm'
  unfolding look_up
  searched =
      let counted = count_miss vm site in
      let same : class_table_at counted class ≡ class_table_at vm class = same_table site in
      let (vm', found, co) =
        lookup_cached-first_method env.fuel counted class selector
          (IsCoherent-counted env.fuel vm site coherent) valid
          (Chain-counted' same (Chain-counted vm site (class_table_at vm class) cs chain)) enough in
      (
        vm',
        found
            ∙ ap (λ (f : Option Value × ℕ). some (f.0, vm'))
                (first_method-counted vm site selector cs),
        co,
        lookup_cached-IsKept env.fuel counted vm' class selector _ found,
      )
    where
      same_table : (o : Option ℕ) → class_table_at (count_miss vm o) class ≡ class_table_at vm class
      same_table none = refl
      same_table (some base) = refl

      Chain-counted' :
          class_table_at (count_miss vm site) class ≡ class_table_at vm class
          → Chain (count_miss vm site) (class_table_at vm class) cs
          → Chain (count_miss vm site) (class_table_at (count_miss vm site) class) cs
      Chain-counted' e ch = rw e ch

  lookup_finds : lookup_method env.fuel vm class selector ≡ some (first_method vm selector cs).0
  lookup_finds = lookup_method-first_method env.fuel vm class selector chain enough

  -- A machine that the search has left, and its site, filled or not.
  left-IsSearched :
      (vm0 : Vm)
      → IsCoherent env.fuel vm0
      → IsKept vm vm0
      → IsSearched env.fuel vm vm0 regs site selector
  unfolding inline_hit
  left-IsSearched vm0 co kept = record {
    sound = record { entry = λ c m ne hit. sound.entry c m ne (sym (same_hit site c) ∙ hit) };
    cached = λ i ne.
        sym (
          lookup_method-frame env.fuel vm vm0 _ _ (ap (λ v. v.heap) kept)
            (ap (λ v. v.specials) kept) (ap (λ v. v.class_table) kept))
        ∙ co.entries i ne;
    memory = λ a p q. ap (λ v. v.heap.mem a) kept;
    heap = same_heap vm0.heap (ap (λ v. v.heap) kept);
    rest =
        kept
        ∙ ap
            (λ (h : Heap). record vm {
              heap = h;
              lookup_cache = vm0.lookup_cache;
              counters = vm0.counters;
            })
            (sym (ap (λ v. v.heap) kept));
  }
    where
      same_hit : (o : Option ℕ) (c : ℕ) → inline_hit vm0 regs o c ≡ inline_hit vm regs o c
      same_hit none c = refl
      same_hit (some base) c =
          ap
            (λ (h : Heap).
              if eq_ℤ (as_int (slot h.mem regs.sites (base + site_cache_class))) (pos c)
              then some (slot h.mem regs.sites (base + site_cache_method))
              else none)
            (ap (λ v. v.heap) kept)

      same_heap : (h : Heap) → h ≡ vm.heap → IsMarked vm.heap h
      same_heap h e = e ∙ ap (λ (k : Heap). record (vm.heap) { mem = k.mem; ssb = k.ssb }) (sym e)

  -- The site is filled with what was found.
  filled-IsSearched :
      (vm0 : Vm) (o : Option ℕ) (m : Value)
      → IsSearched env.fuel vm vm0 regs o selector
      → (first_method vm selector cs).0 ≡ some m
      → IsSearched env.fuel vm (refilled vm0 regs o class m) regs o selector
  unfolding refill_site
  filled-IsSearched vm0 none m before e = before
  filled-IsSearched vm0 (some base) m before e =
      let small = class_index_of-lt vm (get vm regs r) in
      record {
        sound = record {
          entry = λ c w ne hit.
              let (same, method) = refill_site-only vm0 regs base class m small c w hit in
              ap (λ k. lookup_method env.fuel vm k selector) (sym same)
              ∙ lookup_finds
              ∙ ap some (e ∙ ap some method);
        };
        cached = same_cache before.cached;
        memory = λ a p q.
            let apart = q base refl in
            refill_site-other vm0 regs base class m a p apart.0 apart.1 ∙ before.memory a p q;
        heap =
            refill_site-IsMarked vm0 regs base class m
            ∙ ap (λ (h : Heap). record h { mem = filled.heap.mem; ssb = filled.heap.ssb })
                before.heap;
        rest = ap (λ (v : Vm). record v { heap = filled.heap }) before.rest;
      }
    where
      filled : Vm
      filled = refill_site vm0 regs base class m

      AreRight : (ℕ → LookupEntry) → Type 0
      AreRight t =
          (i : ℕ)
          → (t i).class_index ≢ 0
          → lookup_method env.fuel vm (t i).class_index (t i).selector ≡ some (some (t i).method)

      same_cache :
          AreRight vm0.lookup_cache → AreRight (refill_site vm0 regs base class m).lookup_cache
      same_cache h = h

  hit_after :
      (vm0 : Vm) (o : Option ℕ) (m : Value) (base : ℕ)
      → o ≡ some base
      → inline_hit (refilled vm0 regs o class m) regs o class ≡ some m
  hit_after vm0 none m base e = absurd (ground (arith, e))
  hit_after vm0 (some b) m base e =
      refill_site-hit vm0 regs b class m (class_index_of-lt vm (get vm regs r))

  before-IsKept : (vm0 : Vm) (o : Option ℕ) → IsKept (count_miss vm o) vm0 → IsKept vm vm0
  before-IsKept vm0 none kept = kept
  before-IsKept vm0 (some base) kept = kept

  -- A send through the inline cache and the global cache activates the method that the walk over
  -- the superclasses of the receiver's class finds first, and its site, where it has one, is then
  -- filled with that method for that class; or, where no class has the selector, the send ends in
  -- doesNotUnderstand:. Before the method runs, both caches are right again for the classes of
  -- before the send, and nothing else of the machine has changed than entries of the global cache,
  -- the site's two words, the header of the sites, the list of remembered objects and counters. Both
  -- caches have to be right before the send.
  pub do_send-first_method :
      (vm' : Vm) × IsSearched env.fuel vm vm' regs site selector
      × (((m : Value) × ((first_method vm selector cs).0 ≡ some m)
            × ((base : ℕ) → site ≡ some base → inline_hit vm' regs site class ≡ some m)
            × (do_send env vm regs dest r selector argc site none
                ≡ activate env vm' regs m r dest argc))
          ⊎ (((first_method vm selector cs).0 ≡ none)
              × (do_send env vm regs dest r selector argc site none
                  ≡ do_not_understand env vm' regs dest r selector argc)
              × IsCoherent env.fuel vm'))
  unfolding do_send after_inline after_search send_found
  do_send-first_method = elim (Option-cases (inline_hit vm regs site class)) [
    | inr (m, hit) ↦
        (let finds : (first_method vm selector cs).0 ≡ some m =
            some-injective _ _ (sym lookup_finds ∙ sound.entry class m valid hit) in
          (
            vm,
            left-IsSearched vm coherent refl,
            inl (
              m,
              finds,
              (λ base e. hit),
              ap (after_inline env vm regs dest r selector argc site none class) hit,
            ),
          ))
    | inl missed ↦
        (let (vm0, found, co, kept) = searched in
          let since = before-IsKept vm0 site kept in
          let left = left-IsSearched vm0 co since in
          let sent = ap (after_inline env vm regs dest r selector argc site none class) missed in
          let ended = λ (o : Option Value) (e : (first_method vm selector cs).0 ≡ o).
            sent
            ∙ ap (after_search env regs dest r selector argc site class)
                (found ∙ ap (λ t. some (t, vm0)) e) in
          elim (Option-cases (first_method vm selector cs).0) [
            | inr (m, e) ↦ (
              refilled vm0 regs site class m,
              filled-IsSearched vm0 site m left e,
              inl (m, e, hit_after vm0 site m, ended (some m) e),
            )
            | inl e ↦ (vm0, left, inr (e, ended none e, co))
          ])
  ]
