-- ===== src/Handlers/Search.antt =====
-- src/prims.rs: the search for a handler finds the nearest one, and ends.
use smallishtalk.Base.{
  ℕ, zero, suc, ◌+◌, ◌%◌, ◌<◌, ◌≤◌, ◌≡◌, refl, ap, sym, ◌∙◌, arith, Bool, true, false, not, ◌&&◌,
  ◌||◌, true≢false, Option, some, List, [], ◌∷◌, length, ◌==◌, if◌then◌else◌, if_true, if_false,
}
use smallishtalk.Base.Words.{u64_mod, as_unsigned}
use smallishtalk.Treaty.Frames.{frame_caller}
use smallishtalk.Treaty.Layout.{behavior_superclass}
use smallishtalk.Value.{Value, as_int, as_ptr, is_int, is_ptr}
use smallishtalk.Heap.{slot}
use smallishtalk.SmallInt.{value}
use smallishtalk.Vm.{Vm, nil}
use smallishtalk.Interp.{Regs, get, from_usize}
use smallishtalk.Handlers.{
  stops, class_handles, is_armed, stored_class, handles_here, search_by, search_handler,
  search_start, search_at, valued, prim_find_handler,
}

-- A class with the classes it inherits from, up to nil or what is no object.
pub data Ancestors (vm : Vm) : Value → List Value → Type 0 where
  top : (c : Value) → not (c == nil vm) && is_ptr c ≡ false → Ancestors vm c []
  sub :
      (c : Value) (cs : List Value)
      → not (c == nil vm) && is_ptr c ≡ true
      → Ancestors vm (slot vm.heap.mem (as_ptr c) behavior_superclass) cs
      → Ancestors vm c (c ∷ cs)

abbrev pub caller_word : Vm → Regs → ℕ → Value
caller_word vm regs off = slot vm.heap.mem regs.stack (off + frame_caller)

-- A frame with the frames it returns to, down to one whose caller stops the walk.
pub data Callers (vm : Vm) (regs : Regs) : ℕ → List ℕ → Type 0 where
  base : (off : ℕ) → stops (caller_word vm regs off) ≡ true → Callers vm regs off (off ∷ [])
  called :
      (off : ℕ) (offs : List ℕ)
      → stops (caller_word vm regs off) ≡ false
      → Callers vm regs (as_unsigned u64_mod (as_int (caller_word vm regs off))) offs
      → Callers vm regs off (off ∷ offs)

-- The frames to search: those from the current one, or those that the frame at `from` returns to.
pub data Searched (vm : Vm) (regs : Regs) (from : Value) : List ℕ → Type 0 where
  current :
      (offs : List ℕ)
      → is_int from ≡ false
      → Callers vm regs regs.frame offs
      → Searched vm regs from offs
  outermost :
      is_int from ≡ true
      → stops (caller_word vm regs (as_unsigned u64_mod (as_int from))) ≡ true
      → Searched vm regs from []
  outer :
      (off : ℕ) (offs : List ℕ)
      → is_int from ≡ true
      → stops (caller_word vm regs (as_unsigned u64_mod (as_int from))) ≡ false
      → off ≡ as_unsigned u64_mod (as_int (caller_word vm regs (as_unsigned u64_mod (as_int from))))
      → Callers vm regs off offs
      → Searched vm regs from offs

unfoldable pub has_class : Value → List Value → Bool
has_class c [] = false
has_class c (d ∷ ds) = (d == c) || has_class c ds

-- The first of the frames that is armed for one of the classes.
unfoldable pub nearest : Vm → Regs → (cs : List Value) → (offs : List ℕ) → Value
unfolding has_class is_armed
nearest vm regs cs [] = nil vm
nearest vm regs cs (off ∷ offs) =
    if is_armed vm regs off && has_class (stored_class vm regs off) cs
    then from_usize off
    else nearest vm regs cs offs

class_handles-has_class :
    (fuel : ℕ) (vm : Vm) (stored c : Value) (cs : List Value)
    → Ancestors vm c cs
    → length cs < fuel
    → class_handles fuel vm stored c ≡ some (has_class stored cs)
unfolding class_handles has_class
class_handles-has_class zero vm stored c cs anc lt = absurd (omega arith)
class_handles-has_class (suc fuel) vm stored c _ (top _ e) lt = if_false _ _ e
class_handles-has_class (suc fuel) vm stored c _ (sub _ cs e anc) lt =
    let rest =
      class_handles-has_class fuel vm stored (slot vm.heap.mem (as_ptr c) behavior_superclass) cs
        anc (omega arith) in
    if_true _ _ e ∙ ap (λ o. if c == stored then some true else o) rest ∙ merge (c == stored) _
  where
    merge : (b x : Bool) → (if b then some true else some x) ≡ some (b || x)
    merge true x = refl
    merge false x = refl

handles_here-nearest :
    (depth : ℕ) (vm : Vm) (regs : Regs) (exc off : ℕ) (cs : List Value)
    → Ancestors vm exc cs
    → length cs < depth
    → handles_here depth vm regs exc off
      ≡ some (is_armed vm regs off && has_class (stored_class vm regs off) cs)
unfolding handles_here
handles_here-nearest depth vm regs exc off cs anc lt =
    ap (λ o. if is_armed vm regs off then o else some false)
      (class_handles-has_class depth vm (stored_class vm regs off) exc cs anc lt)
    ∙ both (is_armed vm regs off) _
  where
    both : (a x : Bool) → (if a then some x else some false) ≡ some (a && x)
    both true x = refl
    both false x = refl

one_round :
    (here is_last : Bool) (off : ℕ) (nil v : Value) (rest : Option Value)
    → (is_last ≡ false → rest ≡ some v)
    → (is_last ≡ true → v ≡ nil)
    → search_by (some here) off is_last nil rest ≡ some (if here then from_usize off else v)
unfolding search_by
one_round true is_last off nil v rest f g = refl
one_round false true off nil v rest f g = ap some (sym (g refl))
one_round false false off nil v rest f g = f refl

search_handler-nearest :
    (depth fuel : ℕ) (vm : Vm) (regs : Regs) (exc off : ℕ) (cs : List Value) (offs : List ℕ)
    → Ancestors vm exc cs
    → length cs < depth
    → Callers vm regs off offs
    → length offs ≤ fuel
    → search_handler depth fuel vm regs exc off ≡ some (nearest vm regs cs offs)
unfolding search_handler nearest
search_handler-nearest depth zero vm regs exc off cs _ anc lt (base _ e) le = absurd (omega arith)
search_handler-nearest depth zero vm regs exc off cs _ anc lt (called _ offs e ch) le =
    absurd (omega arith)
search_handler-nearest depth (suc fuel) vm regs exc off cs _ anc lt (base _ e) le =
    let caller = caller_word vm regs off in
    let rest = search_handler depth fuel vm regs exc (as_unsigned u64_mod (as_int caller)) in
    ap (λ o. search_by o off (stops caller) (nil vm) rest)
      (handles_here-nearest depth vm regs exc off cs anc lt)
    ∙ one_round _ (stops caller) off (nil vm) (nil vm) rest (λ z. absurd (true≢false (sym e ∙ z)))
        (λ z. refl)
search_handler-nearest depth (suc fuel) vm regs exc off cs _ anc lt (called _ offs e ch) le =
    let caller = caller_word vm regs off in
    let next = as_unsigned u64_mod (as_int caller) in
    ap (λ o. search_by o off (stops caller) (nil vm) (search_handler depth fuel vm regs exc next))
      (handles_here-nearest depth vm regs exc off cs anc lt)
    ∙ one_round _ (stops caller) off (nil vm) (nearest vm regs cs offs)
        (search_handler depth fuel vm regs exc next)
        (λ z. search_handler-nearest depth fuel vm regs exc next cs offs anc lt ch (omega arith))
        (λ z. absurd (true≢false (sym z ∙ e)))

-- The search for a handler ends and changes no state. It answers the nearest frame that is an armed
-- handler frame whose class is the exception's class or one that it inherits from, and nil where
-- there is none: from the current frame, or from the caller of a frame that is named. The callers
-- end in a frame without one, and the superclasses in nil; a round for each frame, and one more than
-- for each class, are enough.
pub prim_find_handler-nearest :
    (depth fuel : ℕ) (vm : Vm) (regs : Regs) (r : ℕ) (cs : List Value) (offs : List ℕ)
    → Ancestors vm (get vm regs ((r + 1) % 256)) cs
    → length cs < depth
    → Searched vm regs (get vm regs ((r + 2) % 256)) offs
    → length offs ≤ fuel
    → prim_find_handler depth fuel vm regs r ≡ some (value (nearest vm regs cs offs))
unfolding prim_find_handler search_start nearest
prim_find_handler-nearest depth fuel vm regs r cs _ anc lt (current offs e ch) le =
    let exc = get vm regs ((r + 1) % 256) in
    ap (λ o. valued (search_at depth fuel vm regs exc o)) (if_false _ _ e)
    ∙ ap valued (search_handler-nearest depth fuel vm regs exc regs.frame cs offs anc lt ch le)
prim_find_handler-nearest depth fuel vm regs r cs _ anc lt (outermost e last) le =
    let exc = get vm regs ((r + 1) % 256) in
    ap (λ o. valued (search_at depth fuel vm regs exc o)) (if_true _ _ e ∙ if_true _ _ last)
prim_find_handler-nearest depth fuel vm regs r cs _ anc lt (outer off offs e more at ch) le =
    let exc = get vm regs ((r + 1) % 256) in
    ap (λ o. valued (search_at depth fuel vm regs exc o))
      (if_true _ _ e ∙ if_false _ _ more ∙ ap some (sym at))
    ∙ ap valued (search_handler-nearest depth fuel vm regs exc off cs offs anc lt ch le)
