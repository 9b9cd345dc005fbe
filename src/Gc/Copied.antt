-- ===== src/Gc/Copied.antt =====
-- src/gc.rs: an object copied out of from-space.
use Prim.Native.Nat.{bit_and, bit_or}
use smallishtalk.Base.{
  ℕ, zero, suc, ◌+◌, ◌-◌, ◌*◌, ◌/◌, ◌%◌, ◌^◌, ◌<◌, ◌≤◌, ◌≡◌, ◌≢◌, ◌⊎◌, inl, inr, refl, ap, ◌∙◌,
  arith, Bool, Bool-cases, true, false, some, ltb, if_true, if_false, bind-some,
}
use smallishtalk.Base.Words.{u64_mod, not64}
use smallishtalk.Base.Bits.{land_mask, land_parts, lor_fields, land-zero}
use smallishtalk.Space.{Memory, write, limit, top, alloc_words}
use smallishtalk.Heap.Barrier.Remembered.{write-ne}
use smallishtalk.Heap.{Heap, slot}
use smallishtalk.Gc.{copy_words, to_young, place_copy, place_old}

-- Two ranges of words that do not meet.
abbrev pub Apart : (a b n : ℕ) → Type 0
Apart a b n = (a + n * 8 ≤ b) ⊎ (b + n * 8 ≤ a)

copy_words-outside :
    (m : Memory) (src dst n a : ℕ) → (a < dst) ⊎ (dst + n * 8 ≤ a) → copy_words m src dst n a ≡ m a
unfolding copy_words
copy_words-outside m src dst zero a h = refl
copy_words-outside m src dst (suc n) a h =
    copy_words-outside (write m dst (m src)) (src + 8) (dst + 8) n a (ground (arith, h))
    ∙ ground (arith, h)

copy_words-inside :
    (m : Memory) (src dst n k : ℕ)
    → Apart src dst n
    → k < n
    → copy_words m src dst n (dst + k * 8) ≡ m (src + k * 8)
unfolding copy_words
copy_words-inside m src dst zero k h lt = absurd (omega arith)
copy_words-inside m src dst (suc n) zero h lt =
    ap (copy_words (write m dst (m src)) (src + 8) (dst + 8) n) (omega arith)
    ∙ copy_words-outside (write m dst (m src)) (src + 8) (dst + 8) n dst (inl (omega arith))
    ∙ ground arith
copy_words-inside m src dst (suc n) (suc k) h lt =
    ap (copy_words (write m dst (m src)) (src + 8) (dst + 8) n) (omega arith)
    ∙ copy_words-inside (write m dst (m src)) (src + 8) (dst + 8) n k (ground (arith, h))
        (omega arith)
    ∙ write-ne m dst (m src) (src + 8 + k * 8) apart
    ∙ ap m (omega arith)
  where
    apart : dst ≢ src + 8 + k * 8
    apart e = omega (arith, h, e)

-- The forwarding word of an aligned address, read back.
pub forwarding_word :
    (a : ℕ)
    → a % 8 ≡ 0
    → a < u64_mod
    → (bit_and (bit_or a 1) 1 ≡ 1) × (bit_and (bit_or a 1) (not64 1) ≡ a)
forwarding_word a aligned h =
    let even : a ≡ a / 2 * 2 ^ 1 = omega arith in
    let sum : bit_or a 1 ≡ a / 2 * 2 ^ 1 + 1 =
      ap (λ t. bit_or t 1) even ∙ lor_fields 1 (a / 2) 1 (omega arith) in
    let mask : not64 1 ≡ (2 ^ 63 - 1) * 2 ^ 1 + 0 = refl in
    (
      ap (λ t. bit_and t 1) sum ∙ omega (arith, land_mask 1 (a / 2 * 2 ^ 1 + 1)),
      ap (λ t. bit_and t (not64 1)) sum
          ∙ omega (
            arith,
            land_parts 1 (a / 2) 1 (2 ^ 63 - 1) 0 (omega arith) (omega arith),
            land_mask 63 (a / 2),
            land-zero 1,
          ),
    )

-- The room taken for a copy lies at the top of old space or of to-space.
pub record IsPlace (h h' : Heap) (n start : ℕ) : Type 0 where
  pub mem : h'.mem ≡ h.mem
  pub from : h'.young_from ≡ h.young_from
  pub place :
      ((start ≡ top h.old) × (start + n * 8 ≤ limit h.old))
      ⊎ ((start ≡ top h.young_to) × (start + n * 8 ≤ limit h.young_to))

to_young-IsPlace :
    (h : Heap) (n : ℕ)
    → h.young_to.alloc + n ≤ h.young_to.words
    → (start : ℕ) × (h' : Heap) × (to_young h n ≡ some (start, false, h')) × IsPlace h h' n start
unfolding to_young alloc_words
to_young-IsPlace h n room =
    let fits : ltb h.young_to.words (h.young_to.alloc + n) ≡ false = ground arith in
    (
      top h.young_to,
      record h { young_to = record (h.young_to) { alloc = h.young_to.alloc + n } },
      bind-some (λ got. some (got.0, false, record h { young_to = got.1 })) (if_false _ _ fits),
      record { mem = refl; from = refl; place = inr (refl, omega arith) },
    )

pub place_copy-IsPlace :
    (h : Heap) (wants : Bool) (n : ℕ)
    → h.young_to.alloc + n ≤ h.young_to.words
    → (start : ℕ) × (is_old : Bool) × (h' : Heap) × (place_copy h wants n
        ≡ some (start, is_old, h'))
      × IsPlace h h' n start
unfolding place_copy alloc_words
place_copy-IsPlace h false n room =
    let (start, h', e, p) = to_young-IsPlace h n room in (start, false, h', e, p)
place_copy-IsPlace h true n room = elim (Bool-cases (ltb h.old.words (h.old.alloc + n))) [
  | inl full ↦
      (let (start, h', e, p) = to_young-IsPlace h n room in
        (start, false, h', ap (place_old h n) (if_true _ _ full) ∙ e, p))
  | inr fits ↦ (
    top h.old,
    true,
    record h { old = record (h.old) { alloc = h.old.alloc + n } },
    ap (place_old h n) (if_false _ _ fits),
    record { mem = refl; from = refl; place = inl (refl, ground arith) },
  )
]

write-eq' : (m : Memory) (a w : ℕ) → write m a w a ≡ w
write-eq' m a w = ground arith

-- The words of a copy: `extra` of them before the header, `slots` after it.
module _ (m : Memory) (src start n extra slots hdr : ℕ) (bit : extra ≤ 1)
    (count : n ≡ extra + 1 + slots) (apart : Apart src start n) where
  abbrev addr : ℕ
  addr = src + extra * 8

  abbrev new_obj : ℕ
  new_obj = start + extra * 8

  abbrev pub moved : Memory
  moved = write (write (copy_words m src start n) new_obj hdr) addr (bit_or new_obj 1)

  -- No word of the copy is the old header.
  ne_addr : (k : ℕ) → k < n → addr ≢ start + k * 8
  ne_addr k lt e = omega (arith, apart, e)

  pub moved-left : moved addr ≡ bit_or new_obj 1
  moved-left = write-eq' (write (copy_words m src start n) new_obj hdr) addr (bit_or new_obj 1)

  pub moved-header : moved new_obj ≡ hdr
  moved-header =
      write-ne (write (copy_words m src start n) new_obj hdr) addr (bit_or new_obj 1) new_obj
        (ne_addr extra (omega arith))
      ∙ write-eq' (copy_words m src start n) new_obj hdr

  moved-word : (k : ℕ) → k < n → k ≢ extra → moved (start + k * 8) ≡ m (src + k * 8)
  moved-word k lt ne =
      write-ne (write (copy_words m src start n) new_obj hdr) addr (bit_or new_obj 1)
        (start + k * 8) (ne_addr k lt)
      ∙ write-ne (copy_words m src start n) new_obj hdr (start + k * 8) (λ e. ne (omega (arith, e)))
      ∙ copy_words-inside m src start n k apart lt

  pub moved-slot : (i : ℕ) → i < slots → slot moved new_obj i ≡ slot m addr i
  moved-slot i lt =
      ap moved (omega arith)
      ∙ moved-word (extra + 1 + i) (omega arith) (λ e. omega (arith, e))
      ∙ ap m (omega arith)

  pub moved-overflow : extra ≡ 1 → moved (new_obj - 8) ≡ m (addr - 8)
  moved-overflow one =
      ap moved (omega (arith, one))
      ∙ moved-word 0 (omega arith) (λ e. omega (arith, one, e))
      ∙ ap m (omega (arith, one))
