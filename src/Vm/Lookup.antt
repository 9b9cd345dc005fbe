-- ===== src/Vm/Lookup.antt =====
-- src/vm.rs: method lookup and the superclass chain.
use smallishtalk.Base.{
  ℕ, zero, suc, ◌+◌, ◌<◌, ◌≡◌, ◌≢◌, refl, ap, ◌∙◌, Option, none, some, List, [], ◌∷◌, arith, length,
}
use smallishtalk.Value.{Value}
use smallishtalk.Vm.{
  mdict_lookup, Vm, nil, class_table_at, superclass, class_lookup, lookup_from,
  lookup_method_counted,
}

-- The classes from one up to, and without, nil.
pub data Chain (vm : Vm) : Value → List Value → Type 0 where
  top : (c : Value) → c ≡ nil vm → Chain vm c []
  sub :
      (c up : Value) (cs : List Value)
      → c ≢ nil vm
      → superclass vm c ≡ up
      → Chain vm up cs
      → Chain vm c (c ∷ cs)

-- The first class of the list that has the selector gives the method; it is asked last.
unfoldable pub first_method : Vm → Value → List Value → Option Value × ℕ
first_method vm selector [] = (none, 0)
first_method vm selector (c ∷ cs) = elim (class_lookup vm c selector) [
  | some m ↦ (some m, 1)
  | none ↦ ((first_method vm selector cs).0, (first_method vm selector cs).1 + 1)
]

pub lookup_from-first_method :
    (fuel : ℕ) {vm : Vm} (selector : Value) {cls : Value} {cs : List Value} (walked : ℕ)
    → Chain vm cls cs
    → length cs < fuel
    → lookup_from fuel vm cls selector walked
      ≡ some ((first_method vm selector cs).0, walked + (first_method vm selector cs).1)
unfolding lookup_from first_method
lookup_from-first_method zero selector walked ch h = absurd (omega arith)
lookup_from-first_method (suc fuel) selector walked (top c e) h = ground arith
lookup_from-first_method (suc fuel) {vm} selector walked (sub c up cs ne e ch) h =
    ground (arith, lookup_from-first_method fuel selector {cls = up} (walked + 1) ch)

-- With a round for each class and one more, the lookup ends, and finds the method of the first class
-- of the superclass chain whose dictionary has the selector; the count is the classes visited.
pub lookup_method_counted-first_method :
    (fuel : ℕ) {vm : Vm} (class_index : ℕ) (selector : Value) {cs : List Value}
    → Chain vm (class_table_at vm class_index) cs
    → length cs < fuel
    → lookup_method_counted fuel vm class_index selector ≡ some (first_method vm selector cs)
unfolding lookup_method_counted
lookup_method_counted-first_method fuel {vm} class_index selector {cs} ch h =
    lookup_from-first_method fuel selector 0 ch h
    ∙ ap (λ (n : ℕ). some ((first_method vm selector cs).0, n)) (omega arith)

-- Machines with the same heap and specials look methods up alike.
class_lookup-frame :
    (vm vm' : Vm) (c s : Value)
    → vm'.heap ≡ vm.heap
    → vm'.specials ≡ vm.specials
    → class_lookup vm' c s ≡ class_lookup vm c s
unfolding class_lookup mdict_lookup
class_lookup-frame vm vm' c s e f = rw (e, f)

pub lookup_from-frame :
    (fuel : ℕ) (vm vm' : Vm) (c s : Value) (walked : ℕ)
    → vm'.heap ≡ vm.heap
    → vm'.specials ≡ vm.specials
    → lookup_from fuel vm' c s walked ≡ lookup_from fuel vm c s walked
unfolding lookup_from
lookup_from-frame zero vm vm' c s walked e f = refl
lookup_from-frame (suc fuel) vm vm' c s walked e f =
    let up : superclass vm' c ≡ superclass vm c = rw e refl in
    let empty : nil vm' ≡ nil vm = rw f refl in
    let here : class_lookup vm' c s ≡ class_lookup vm c s = class_lookup-frame vm vm' c s e f in
    let above = lookup_from-frame fuel vm vm' (superclass vm c) s (walked + 1) e f in
    ground (arith, up, empty, here, above)
