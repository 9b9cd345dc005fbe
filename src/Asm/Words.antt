-- ===== src/Asm/Words.antt =====
-- src/asm.rs: the two word layouts, and how decoding takes them apart.
use Prim.Native.Nat.{bit_or}
use smallishtalk.Base.{ℕ, ◌+◌, ◌*◌, ◌/◌, ◌%◌, ◌^◌, ◌<◌, ◌≡◌, ap, ◌∙◌, arith}
use smallishtalk.Base.Bits.{land_mask, lor_fields'}
use smallishtalk.Base.Words.{u16_mod, u32_mod, shl}
use smallishtalk.Asm.{abc, ad, decode_op, decode}

pub abc_sum :
    (op a b c : ℕ)
    → op < 256
    → a < 256
    → b < 256
    → c < 256
    → abc op a b c ≡ op + a * 2 ^ 8 + b * 2 ^ 16 + c * 2 ^ 24
unfolding abc
abc_sum op a b c h ha hb hc =
    ap (λ (t : ℕ). bit_or (bit_or (bit_or op t) (shl u32_mod b 16)) (shl u32_mod c 24)) ea
    ∙ ap (λ (t : ℕ). bit_or (bit_or t (shl u32_mod b 16)) (shl u32_mod c 24)) (lor_fields' 8 a op h)
    ∙ ap (λ (t : ℕ). bit_or (bit_or (a * 2 ^ 8 + op) t) (shl u32_mod c 24)) eb
    ∙ ap (λ (t : ℕ). bit_or t (shl u32_mod c 24)) (lor_fields' 16 b (a * 2 ^ 8 + op) (omega arith))
    ∙ ap (λ (t : ℕ). bit_or (b * 2 ^ 16 + (a * 2 ^ 8 + op)) t) ec
    ∙ lor_fields' 24 c (b * 2 ^ 16 + (a * 2 ^ 8 + op)) (omega arith)
    ∙ omega arith
  where
    ea : shl u32_mod a 8 ≡ a * 2 ^ 8
    ea = omega arith

    eb : shl u32_mod b 16 ≡ b * 2 ^ 16
    eb = omega arith

    ec : shl u32_mod c 24 ≡ c * 2 ^ 24
    ec = omega arith

pub ad_sum :
    (op a d : ℕ) → op < 256 → a < 256 → d < u16_mod → ad op a d ≡ op + a * 2 ^ 8 + d * 2 ^ 16
unfolding ad
ad_sum op a d h ha hd =
    ap (λ (t : ℕ). bit_or (bit_or op t) (shl u32_mod d 16)) ea
    ∙ ap (λ (t : ℕ). bit_or t (shl u32_mod d 16)) (lor_fields' 8 a op h)
    ∙ ap (λ (t : ℕ). bit_or (a * 2 ^ 8 + op) t) ed
    ∙ lor_fields' 16 d (a * 2 ^ 8 + op) (omega arith)
    ∙ omega arith
  where
    ea : shl u32_mod a 8 ≡ a * 2 ^ 8
    ea = omega arith

    ed : shl u32_mod d 16 ≡ d * 2 ^ 16
    ed = omega arith

-- Decoding reads the five parts as remainders.
pub decode_parts :
    (w op a b c d : ℕ)
    → w % 256 ≡ op
    → w / 2 ^ 8 % 256 ≡ a
    → w / 2 ^ 16 % 256 ≡ b
    → w / 2 ^ 24 % 256 ≡ c
    → w / 2 ^ 16 % u16_mod ≡ d
    → decode w ≡ decode_op op a b c d
unfolding decode
decode_parts w op a b c d e1 e2 e3 e4 e5 =
    cc (land_mask 8 w, land_mask 8 (w / 2 ^ 8), land_mask 8 (w / 2 ^ 16), land_mask 8 (w / 2 ^ 24))

pub decode-abc :
    (op a b c : ℕ)
    → op < 256
    → a < 256
    → b < 256
    → c < 256
    → decode (abc op a b c) ≡ decode_op op a b c (b + c * 256)
decode-abc op a b c h ha hb hc =
    ap decode (abc_sum op a b c h ha hb hc)
    ∙ decode_parts (op + a * 2 ^ 8 + b * 2 ^ 16 + c * 2 ^ 24) op a b c (b + c * 256) (omega arith)
        (omega arith) (omega arith) (omega arith) (omega arith)

pub decode-ad :
    (op a d : ℕ)
    → op < 256
    → a < 256
    → d < u16_mod
    → decode (ad op a d) ≡ decode_op op a (d % 256) (d / 256) d
decode-ad op a d h ha hd =
    ap decode (ad_sum op a d h ha hd)
    ∙ decode_parts (op + a * 2 ^ 8 + d * 2 ^ 16) op a (d % 256) (d / 256) d (omega arith)
        (omega arith) (omega arith) (omega arith) (omega arith)
