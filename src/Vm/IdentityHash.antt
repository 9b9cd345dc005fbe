-- ===== src/Vm/IdentityHash.antt =====
-- src/vm.rs: identity hashes.
use smallishtalk.Base.{
  ℕ, ◌+◌, ◌%◌, ◌^◌, ◌<◌, ◌≡◌, ◌≢◌, refl, sym, ap, subst, ◌∙◌, arith, ◌==◌, Bool-cases, true, false,
  inl, inr,
}
use smallishtalk.Base.Bits.{land_mask}
use smallishtalk.Base.Int.{ℤ, pos}
use smallishtalk.Base.Words.{u32_mod, u64_mod}
use smallishtalk.Header
use smallishtalk.Header.Fields.{with_hash_fields}
use smallishtalk.Value.{Value, is_int, as_ptr}
use smallishtalk.Heap.{header, set_header}
use smallishtalk.Vm.{Vm, next_hash_counter, next_identity_hash, identity_hash_of}

next_hash_counter-eq : (c : ℕ) → next_hash_counter c ≡ (c + 1) % 2 ^ 22
unfolding next_hash_counter
next_hash_counter-eq c = land_mask 22 ((c + 1) % u32_mod) ∙ omega arith

-- The next identity hash is not 0 and below 2^22, and the counter moves to it.
pub next_identity_hash_lem :
    (vm : Vm)
    → let drawn = next_identity_hash vm in
      (drawn.0 ≢ 0) × (drawn.0 < 2 ^ 22) × (drawn.1 ≡ record vm { hash_counter = drawn.0 })
unfolding next_identity_hash
next_identity_hash_lem vm =
    let c = vm.hash_counter in
    let e = next_hash_counter-eq c in
    let f = next_hash_counter-eq (next_hash_counter c) in
    ((λ z. ground (arith, e, f, z)), ground (arith, e, f), refl)

-- A hash that is in the header, with the rest as it was, and that a second request answers again.
abbrev pub IsAsked : Vm → Value → ℤ × Vm → Type 0
IsAsked vm v (n, vm') =
    let m = vm.heap.mem in
    let m' = vm'.heap.mem in
    (n ≢ pos 0)
    × (identity_hash_of vm' v ≡ (n, vm'))
    × (n ≡ pos (Header.hash (header m' v)))
    × (Header.class_index (header m' v) ≡ Header.class_index (header m v))
    × ((a : ℕ) → a ≢ v → m' a ≡ m a)

module _ (vm : Vm) (v : Value) (i : is_int v ≡ false) where
  abbrev drawn : ℕ
  drawn = (next_identity_hash vm).0

  abbrev stamped : Vm
  stamped =
      let heap = vm.heap in
      record vm {
        hash_counter = drawn;
        heap = record heap {
          mem = set_header heap.mem v (Header.with_hash (header heap.mem v) drawn);
        };
      }

  hashed :
      (Header.hash (header vm.heap.mem v) == 0) ≡ false
      → identity_hash_of vm v ≡ (pos (Header.hash (header vm.heap.mem v)), vm)
  unfolding identity_hash_of as_ptr
  hashed e = rw (i, e) refl

  unhashed :
      (Header.hash (header vm.heap.mem v) == 0) ≡ true
      → identity_hash_of vm v ≡ (pos drawn, stamped)
  unfolding identity_hash_of as_ptr next_identity_hash
  unhashed e = rw (i, e) refl

-- A pointer's hash is not 0, is written into the object's header once, where the header has none,
-- and asking again answers the same hash and changes nothing. The header keeps its class, and no
-- other word changes.
pub identity_hash_of_lem :
    (vm : Vm) (v : Value)
    → is_int v ≡ false
    → vm.heap.mem v < u64_mod
    → IsAsked vm v (identity_hash_of vm v)
identity_hash_of_lem vm v i w = elim (Bool-cases (Header.hash (header vm.heap.mem v) == 0)) [
  | inr old ↦
      subst (IsAsked vm v) (sym (hashed vm v i old))
        ((λ z. ground (arith, old, z)), hashed vm v i old, refl, refl, λ a ne. refl)
  | inl new ↦
      let n = next_identity_hash_lem vm in
      let fields = with_hash_fields (vm.heap.mem v) (drawn vm v i) w n.1 in
      let m' = (stamped vm v i).heap.mem in
      let at_v : m' v ≡ Header.with_hash (vm.heap.mem v) (drawn vm v i) = ground arith in
      let read : Header.hash (m' v) ≡ drawn vm v i = ap Header.hash at_v ∙ fields.1 in
      let marked : (Header.hash (m' v) == 0) ≡ false = ground (arith, read, n.0) in
      subst (IsAsked vm v) (sym (unhashed vm v i new)) (
        (λ z. ground (arith, n.0, z)),
        hashed (stamped vm v i) v i marked ∙ ap (λ (k : ℕ). (pos k, stamped vm v i)) read,
        ap pos (sym read),
        ap Header.class_index at_v ∙ fields.2,
        λ a ne. ground (arith, ne),
      )
]
