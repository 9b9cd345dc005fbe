-- ===== src/Interp/Words.antt =====
-- src/interp.rs: the return information and the flags of a frame, packed into integers and read back.
use Prim.Native.Nat.{bit_and, bit_or}
use smallishtalk.Base.{
  ℕ, ◌+◌, ◌-◌, ◌*◌, ◌%◌, ◌^◌, ◌<◌, ◌≡◌, ap, ◌∙◌, arith, ◌&&◌, refl, true, false, leb, ◌==◌,
}
use smallishtalk.Base.Bits.{
  land_mask, land_parts, lor_fields', land-zero, all_below, all_below_sound,
}
use smallishtalk.Base.Int.{pos}
use smallishtalk.Base.Words.{u64_mod, shl, as_unsigned, as_signed}
use smallishtalk.Treaty.Frames.{flag_unwindcont, retinfo_dest_bits, retinfo_pc_shift}
use smallishtalk.Value.{as_int, sar}
use smallishtalk.Value.Tagging.{as_int-from_int}
use smallishtalk.Interp.{from_usize}
use smallishtalk.Interp.Frames.{next_serial}
use smallishtalk.Interp.Push.{from_word, frame_flag_bits, retinfo_word, flags_word}
use smallishtalk.Interp.Unwind.{has_flag}

pub as_int-from_word : (w : ℕ) → w < 2 ^ 62 → as_int (from_word w) ≡ pos w
as_int-from_word w h = rw (small) (as_int-from_int (pos w) (ground arith))
  where
    small : as_signed u64_mod w ≡ pos w
    small = ground arith

pub retinfo_word_sum :
    (dest pc : ℕ) → dest < 256 → pc < 2 ^ 54 → retinfo_word dest pc ≡ pc * 2 ^ 8 + dest
unfolding retinfo_word
retinfo_word_sum dest pc d p =
    let fits : shl u64_mod pc 8 ≡ pc * 2 ^ 8 = omega arith in rw fits (lor_fields' 8 pc dest d)

pub flags_word_sum : (f s : ℕ) → f < 2 ^ 32 → s < 2 ^ 30 → flags_word f s ≡ s * 2 ^ 32 + f
unfolding flags_word
flags_word_sum f s d p =
    let fits : shl u64_mod s 32 ≡ s * 2 ^ 32 = omega arith in rw fits (lor_fields' 32 s f d)

pub next_serial-lt : (cur : ℕ) → next_serial cur < 2 ^ 30
next_serial-lt cur = ground arith

or_table : all_below 8 (λ x. leb (bit_or x 1) 7 && leb (bit_or x 2) 7 && (bit_and x 8 == 0)) ≡ true
or_table = refl

or_small : (x : ℕ) → x < 8 → (bit_or x 1 < 8) × (bit_or x 2 < 8) × (bit_and x 8 ≡ 0)
or_small x h = ground (
  arith,
  all_below_sound 8 (λ x. leb (bit_or x 1) 7 && leb (bit_or x 2) 7 && (bit_and x 8 == 0)) x or_table
      h,
)

pub frame_flag_bits-lt : (mh extra : ℕ) → extra < 8 → frame_flag_bits mh extra < 8
unfolding frame_flag_bits
frame_flag_bits-lt mh extra h =
    let one = (or_small extra h).0 in
    let two = (or_small extra h).1 in let both = (or_small (bit_or extra 1) one).1 in ground arith

-- Bit 3 of the flags stays clear below a serial.
land_unwindcont : (f s : ℕ) → f < 8 → bit_and (s * 2 ^ 32 + f) 8 ≡ 0
land_unwindcont f s h =
    let split : s * 2 ^ 32 + f ≡ s * 2 ^ 28 * 2 ^ 4 + f = omega arith in
    rw split (
      omega (
        arith,
        land_parts 4 (s * 2 ^ 28) f 0 8 (omega arith) (omega arith),
        land-zero (s * 2 ^ 28),
        (or_small f h).2,
      ))

pub pushed_flags :
    (f s : ℕ)
    → f < 8
    → s < 2 ^ 30
    → has_flag (as_int (from_word (flags_word f s))) flag_unwindcont ≡ false
unfolding has_flag
pushed_flags f s h b =
    let w : as_int (from_word (flags_word f s)) ≡ pos (s * 2 ^ 32 + f) =
      ap (λ t. as_int (from_word t)) (flags_word_sum f s (omega arith) b)
      ∙ as_int-from_word (s * 2 ^ 32 + f) (omega arith) in
    let m : (s * 2 ^ 32 + f) % u64_mod ≡ s * 2 ^ 32 + f = omega arith in
    rw w (rw m (rw (land_unwindcont f s h) refl))

-- The return information of a frame, as a return reads it.
pub pushed_retinfo :
    (dest pc : ℕ)
    → dest < 256
    → pc < 2 ^ 54
    → (let ri = as_int (from_word (retinfo_word dest pc)) in
        (bit_and (as_unsigned u64_mod ri) (2 ^ retinfo_dest_bits - 1) % 256 ≡ dest)
        × (as_unsigned u64_mod (sar ri retinfo_pc_shift) ≡ pc))
pushed_retinfo dest pc d p =
    let w : as_int (from_word (retinfo_word dest pc)) ≡ pos (pc * 2 ^ 8 + dest) =
      ap (λ t. as_int (from_word t)) (retinfo_word_sum dest pc d p)
      ∙ as_int-from_word (pc * 2 ^ 8 + dest) (omega arith) in
    rw w (omega (arith, land_mask 8 ((pc * 2 ^ 8 + dest) % u64_mod)), omega arith)

pub pushed_caller : (frame : ℕ) → frame < 2 ^ 62 → as_int (from_usize frame) ≡ pos frame
pushed_caller frame h = as_int-from_word frame h
