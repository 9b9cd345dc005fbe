-- ===== src/Gc/Copy.antt =====
-- src/gc.rs: the header and the slots of a copy.
use Prim.Native.Nat.{bit_and, bit_or}
use smallishtalk.Base.{
  ℕ, ◌+◌, ◌-◌, ◌*◌, ◌%◌, ◌<◌, ◌≤◌, ◌≡◌, refl, ap, sym, subst, ◌∙◌, arith, true, leb, if◌then◌else◌,
}
use smallishtalk.Base.Words.{u64_mod}
use smallishtalk.Base.Bits.{all_below, all_below_sound}
use smallishtalk.Header.Fields.{gc_bits_lem, with_gc_bits_fields}
use smallishtalk.Header
use smallishtalk.Header.{Header}
use smallishtalk.Space.{Memory, write}
use smallishtalk.Heap.{slot, num_slots}
use smallishtalk.Gc.{copy_words, has_over, extra_words, words_of, new_age_of, aged_header}
use smallishtalk.Gc.Copied.{Apart, moved, moved-left, moved-header, moved-slot, moved-overflow}

-- What a copy of the object at `addr` has of it, and the forwarding word it leaves.
pub record IsCopy (m m' : Memory) (addr new_obj : ℕ) : Type 0 where
  pub slots : (i : ℕ) → i < num_slots m addr → slot m' new_obj i ≡ slot m addr i
  pub shape :
      (Header.class_index (m' new_obj) ≡ Header.class_index (m addr))
      × (Header.format (m' new_obj) ≡ Header.format (m addr))
      × (num_slots m' new_obj ≡ num_slots m addr)
      × (Header.hash (m' new_obj) ≡ Header.hash (m addr))
  pub left : m' addr ≡ bit_or new_obj 1

pub num_slots-words :
    (m : Memory) (addr : ℕ) → words_of m addr ≡ extra_words (m addr) + 1 + num_slots m addr
unfolding num_slots
num_slots-words m addr = refl

bits_table :
    all_below 256 (λ b. all_below 8 (λ a. leb (bit_or (bit_and b 132) (a * 8 % u64_mod)) 255))
    ≡ true
bits_table = refl

aged_bits : (b a : ℕ) → b < 256 → a < 8 → bit_or (bit_and b 132) (a * 8 % u64_mod) < 256
aged_bits b a hb ha =
    let row =
      all_below_sound 256
        (λ x. all_below 8 (λ y. leb (bit_or (bit_and x 132) (y * 8 % u64_mod)) 255)) b bits_table
        hb in
    let cell =
      all_below_sound 8 (λ y. leb (bit_or (bit_and b 132) (y * 8 % u64_mod)) 255) a row ha in
    ground arith

new_age_of-lt : (hd : Header) → new_age_of hd < 8
unfolding new_age_of
new_age_of-lt hd = ground arith

aged-fields :
    (hd : Header) (age : ℕ)
    → hd < u64_mod
    → age < 8
    → (Header.class_index (aged_header hd age) ≡ Header.class_index hd)
      × (Header.format (aged_header hd age) ≡ Header.format hd)
      × (Header.num_slots_field (aged_header hd age) ≡ Header.num_slots_field hd)
      × (Header.hash (aged_header hd age) ≡ Header.hash hd)
unfolding aged_header
aged-fields hd age h a =
    let bits = aged_bits (Header.gc_bits hd) age (omega (arith, gc_bits_lem hd)) a in
    let got =
      with_gc_bits_fields hd (bit_or (bit_and (Header.gc_bits hd) 132) (age * 8 % u64_mod)) h
        bits in
    (got.2, got.3, got.4, got.5)

-- The slot count is read from the header, or from the word before it.
num_slots-copied :
    (m m' : Memory) (addr new_obj : ℕ)
    → Header.num_slots_field (m' new_obj) ≡ Header.num_slots_field (m addr)
    → (has_over (m addr) ≡ true → m' (new_obj - 8) ≡ m (addr - 8))
    → num_slots m' new_obj ≡ num_slots m addr
unfolding num_slots
num_slots-copied m m' addr new_obj e f = ground (arith, e, f)

pub made-IsCopy :
    (m : Memory) (addr start : ℕ)
    → m addr < u64_mod
    → extra_words (m addr) * 8 ≤ addr
    → Apart (addr - extra_words (m addr) * 8) start (words_of m addr)
    → (let extra = extra_words (m addr) in
        let src = addr - extra * 8 in
        IsCopy m
          (write
            (write
              (copy_words m src start (words_of m addr))
              (start + extra * 8)
              (aged_header (m addr) (new_age_of (m addr))))
            addr
            (bit_or (start + extra * 8) 1))
          addr
          (start + extra * 8))
made-IsCopy m addr start word low apart =
    let extra = extra_words (m addr) in
    let src = addr - extra * 8 in
    let n = words_of m addr in
    let new_obj = start + extra * 8 in
    let hdr = aged_header (m addr) (new_age_of (m addr)) in
    let back : src + extra * 8 ≡ addr = omega arith in
    let bit : extra ≤ 1 = ground arith in
    let count = num_slots-words m addr in
    let aged = aged-fields (m addr) (new_age_of (m addr)) word (new_age_of-lt (m addr)) in
    let head = moved-header m src start n extra (num_slots m addr) hdr bit count apart in
    let m' = moved m src start n extra (num_slots m addr) hdr bit count apart in
    subst
      (λ t.
        IsCopy m (write (write (copy_words m src start n) new_obj hdr) t (bit_or new_obj 1)) t
          new_obj)
      back
      (record {
        slots = λ i lt.
            moved-slot m src start n extra (num_slots m addr) hdr bit count apart i
              (subst (λ t. i < num_slots m t) back lt);
        shape = (
          ap Header.class_index head ∙ aged.0 ∙ ap (λ t. Header.class_index (m t)) (sym back),
          ap Header.format head ∙ aged.1 ∙ ap (λ t. Header.format (m t)) (sym back),
          num_slots-copied m m' (src + extra * 8) new_obj
              (ap Header.num_slots_field head
                ∙ aged.2
                ∙ ap (λ t. Header.num_slots_field (m t)) (sym back))
              (λ over.
                moved-overflow m src start n extra (num_slots m addr) hdr bit count apart
                  (ap (λ b. if b then 1 else 0) (ap (λ t. has_over (m t)) (sym back) ∙ over))),
          ap Header.hash head ∙ aged.3 ∙ ap (λ t. Header.hash (m t)) (sym back),
        );
        left = moved-left m src start n extra (num_slots m addr) hdr bit count apart;
      })
