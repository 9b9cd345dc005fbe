-- ===== src/Asm/Decoded.antt =====
-- src/asm.rs: what the disassembler answers.
use smallishtalk.Base.{ℕ, ◌/◌, ◌%◌, ◌<◌, ◌^◌, ◌≡◌, refl, sym, ◌∙◌, some, arith}
use smallishtalk.Base.Words.{u16_mod, as_signed-InRange_16}
use smallishtalk.Asm.{Insn, Fits, encode, decode_op, decode}
use smallishtalk.Asm.Words.{decode_parts}
use smallishtalk.Asm.RoundTrip.{decode-encode}

decode_op-Fits :
    (op a b c d : ℕ) (i : Insn)
    → a < 256
    → b < 256
    → c < 256
    → d < u16_mod
    → decode_op op a b c d ≡ some i
    → Fits i
unfolding decode_op
decode_op-Fits op a b c d i ha hb hc hd e = ground (arith, as_signed-InRange_16 d)

pub decode-Fits : (w : ℕ) (i : Insn) → decode w ≡ some i → Fits i
decode-Fits w i e =
    decode_op-Fits (w % 256) (w / 2 ^ 8 % 256) (w / 2 ^ 16 % 256) (w / 2 ^ 24 % 256)
      (w / 2 ^ 16 % u16_mod) i (omega arith) (omega arith) (omega arith) (omega arith)
      (sym (decode_parts w _ _ _ _ _ refl refl refl refl refl) ∙ e)

-- What the disassembler answers has its fields in range, so assembling it gives a word that
-- disassembles to it again: the two differ at most in the operand bits that the opcode ignores.
pub decode-encode-decode :
    (w : ℕ) (i : Insn) → decode w ≡ some i → Fits i × (decode (encode i) ≡ some i)
decode-encode-decode w i e = (decode-Fits w i e, decode-encode i (decode-Fits w i e))
