-- ===== src/Header/Fields.antt =====
-- src/heap.rs: the fields of a header as quotients and remainders, and the setters on them.
use Prim.Native.Nat.{bit_and, bit_or}
use smallishtalk.Base.{ℕ, ◌+◌, ◌-◌, ◌*◌, ◌/◌, ◌%◌, ◌^◌, ◌<◌, ◌≡◌, arith, ap, ◌∙◌, ◌⊎◌}
use smallishtalk.Base.Bits.{land_mask, lor_fields, land_clear, lor_insert}
use smallishtalk.Base.Words.{u64_mod, shl, not64}
use smallishtalk.Header.{
  Header, mask, new, class_index, hash, with_hash, num_slots_field, format, gc_bits, with_gc_bits,
}

pub class_index_lem : (h : Header) → h < u64_mod → class_index h ≡ h / 2 ^ 42
unfolding class_index
class_index_lem h b = omega (arith, land_mask 22 (h / 2 ^ 42))

pub hash_lem : (h : Header) → hash h ≡ h / 2 ^ 20 % 2 ^ 22
unfolding hash
hash_lem h = omega (arith, land_mask 22 (h / 2 ^ 20))

pub num_slots_field_lem : (h : Header) → num_slots_field h ≡ h / 2 ^ 12 % 2 ^ 8
unfolding num_slots_field
num_slots_field_lem h = land_mask 8 (h / 2 ^ 12)

pub format_lem : (h : Header) → format h ≡ h / 2 ^ 8 % 2 ^ 4
unfolding format
format_lem h = land_mask 4 (h / 2 ^ 8)

pub gc_bits_lem : (h : Header) → gc_bits h ≡ h % 2 ^ 8
unfolding gc_bits
gc_bits_lem h = land_mask 8 (h / 2 ^ 0) ∙ omega arith

pub ruleset fields = (arith, hash_lem, num_slots_field_lem, format_lem, gc_bits_lem)

pub new_sum :
    (c f n : ℕ)
    → c < 2 ^ 22
    → f < 2 ^ 4
    → n < 2 ^ 8
    → new c f n ≡ c * 2 ^ 42 + n * 2 ^ 12 + f * 2 ^ 8
unfolding new
new_sum c f n hc hf hn =
    ap (λ (t : ℕ). bit_or (bit_or t (shl u64_mod n 12)) (shl u64_mod f 8)) e1
    ∙ ap (λ (t : ℕ). bit_or (bit_or (c * 2 ^ 42) t) (shl u64_mod f 8)) e2
    ∙ ap (λ (t : ℕ). bit_or t (shl u64_mod f 8)) (lor_fields 42 c (n * 2 ^ 12) (omega arith))
    ∙ ap (λ (t : ℕ). bit_or t (shl u64_mod f 8)) e4
    ∙ ap (λ (t : ℕ). bit_or ((c * 2 ^ 30 + n) * 2 ^ 12) t) e3
    ∙ lor_fields 12 (c * 2 ^ 30 + n) (f * 2 ^ 8) (omega arith)
    ∙ omega arith
  where
    e1 : shl u64_mod c 42 ≡ c * 2 ^ 42
    e1 = omega arith

    e2 : shl u64_mod n 12 ≡ n * 2 ^ 12
    e2 = omega arith

    e3 : shl u64_mod f 8 ≡ f * 2 ^ 8
    e3 = omega arith

    e4 : c * 2 ^ 42 + n * 2 ^ 12 ≡ (c * 2 ^ 30 + n) * 2 ^ 12
    e4 = omega arith

pub with_hash_sum :
    (h x : ℕ)
    → h < u64_mod
    → x < 2 ^ 22
    → with_hash h x ≡ h / 2 ^ 42 * 2 ^ 42 + x * 2 ^ 20 + h % 2 ^ 20
unfolding with_hash
with_hash_sum h x b hx =
    ap (λ (t : ℕ). bit_or (bit_and t (not64 (shl u64_mod (mask 22) 20))) (shl u64_mod x 20)) whole
    ∙ ap (λ (t : ℕ). bit_or t (shl u64_mod x 20))
        (land_clear 20 22 22 (h / 2 ^ 42) (h / 2 ^ 20 % 2 ^ 22) (h % 2 ^ 20) (omega arith)
          (omega arith) (omega arith))
    ∙ ap (λ (t : ℕ). bit_or ((h / 2 ^ 42 * 2 ^ 22 + 0) * 2 ^ 20 + h % 2 ^ 20) t) placed
    ∙ lor_insert 20 22 (h / 2 ^ 42) x (h % 2 ^ 20) hx (omega arith)
    ∙ omega arith
  where
    placed : shl u64_mod x 20 ≡ x * 2 ^ 20
    placed = omega arith

    whole : h ≡ (h / 2 ^ 42 * 2 ^ 22 + h / 2 ^ 20 % 2 ^ 22) * 2 ^ 20 + h % 2 ^ 20
    whole = omega arith

pub with_gc_bits_sum :
    (h x : ℕ) → h < u64_mod → x < 2 ^ 8 → with_gc_bits h x ≡ h / 2 ^ 8 * 2 ^ 8 + x
unfolding with_gc_bits
with_gc_bits_sum h x b hx =
    ap (λ (t : ℕ). bit_or (bit_and t (not64 (shl u64_mod (mask 8) 0))) (shl u64_mod x 0)) whole
    ∙ ap (λ (t : ℕ). bit_or t (shl u64_mod x 0))
        (land_clear 0 8 56 (h / 2 ^ 8) (h % 2 ^ 8) 0 (omega arith) (omega arith) (omega arith))
    ∙ ap (λ (t : ℕ). bit_or ((h / 2 ^ 8 * 2 ^ 8 + 0) * 2 ^ 0 + 0) t) placed
    ∙ lor_insert 0 8 (h / 2 ^ 8) x 0 hx (omega arith)
    ∙ omega arith
  where
    placed : shl u64_mod x 0 ≡ x * 2 ^ 0
    placed = omega arith

    whole : h ≡ (h / 2 ^ 8 * 2 ^ 8 + h % 2 ^ 8) * 2 ^ 0 + 0
    whole = omega arith

-- A header made from a class index, a format and a slot field in range is a 64-bit word that reads
-- back as these, with hash 0 and gc bits 0.
pub new_fields :
    (c f n : ℕ)
    → c < 2 ^ 22
    → f < 2 ^ 4
    → n < 2 ^ 8
    → (new c f n < u64_mod)
      × (class_index (new c f n) ≡ c)
      × (format (new c f n) ≡ f)
      × (num_slots_field (new c f n) ≡ n)
      × (hash (new c f n) ≡ 0)
      × (gc_bits (new c f n) ≡ 0)
new_fields c f n hc hf hn =
    let word : new c f n < u64_mod = rw (new_sum c f n hc hf hn) (omega arith) in
    (
      word,
      class_index_lem _ word ∙ rw (new_sum c f n hc hf hn) (omega arith),
      rw (new_sum c f n hc hf hn) (omega fields),
      rw (new_sum c f n hc hf hn) (omega fields),
      rw (new_sum c f n hc hf hn) (omega fields),
      rw (new_sum c f n hc hf hn) (omega fields),
    )

-- `with_hash` writes a hash in range and leaves the other four fields as they are.
pub with_hash_fields :
    (h x : ℕ)
    → h < u64_mod
    → x < 2 ^ 22
    → (with_hash h x < u64_mod)
      × (hash (with_hash h x) ≡ x)
      × (class_index (with_hash h x) ≡ class_index h)
      × (format (with_hash h x) ≡ format h)
      × (num_slots_field (with_hash h x) ≡ num_slots_field h)
      × (gc_bits (with_hash h x) ≡ gc_bits h)
with_hash_fields h x b hx =
    let word : with_hash h x < u64_mod = rw (with_hash_sum h x b hx) (omega arith) in
    (
      word,
      rw (with_hash_sum h x b hx) (omega fields),
      class_index_lem _ word ∙ rw (with_hash_sum h x b hx) (omega (arith, class_index_lem h b)),
      rw (with_hash_sum h x b hx) (omega fields),
      rw (with_hash_sum h x b hx) (omega fields),
      rw (with_hash_sum h x b hx) (omega fields),
    )

-- `with_gc_bits` writes gc bits in range and leaves the other four fields as they are.
pub with_gc_bits_fields :
    (h x : ℕ)
    → h < u64_mod
    → x < 2 ^ 8
    → (with_gc_bits h x < u64_mod)
      × (gc_bits (with_gc_bits h x) ≡ x)
      × (class_index (with_gc_bits h x) ≡ class_index h)
      × (format (with_gc_bits h x) ≡ format h)
      × (num_slots_field (with_gc_bits h x) ≡ num_slots_field h)
      × (hash (with_gc_bits h x) ≡ hash h)
with_gc_bits_fields h x b hx =
    let word : with_gc_bits h x < u64_mod = rw (with_gc_bits_sum h x b hx) (omega arith) in
    (
      word,
      rw (with_gc_bits_sum h x b hx) (omega fields),
      class_index_lem _ word ∙ rw (with_gc_bits_sum h x b hx) (omega (arith, class_index_lem h b)),
      rw (with_gc_bits_sum h x b hx) (omega fields),
      rw (with_gc_bits_sum h x b hx) (omega fields),
      rw (with_gc_bits_sum h x b hx) (omega fields),
    )
