-- ===== src/Asm/Tests.antt =====
-- Examples for src/asm.rs.
use smallishtalk.Base.{◌≡◌, refl, some, List, [], ◌∷◌, All, arith}
use smallishtalk.Base.Int.{negsuc}
use smallishtalk.Asm.{
  Insn, load_int, load_nil, add, jump_true, ret, Fits, encode, decode, assemble, disassemble,
}
use smallishtalk.Asm.RoundTrip.{disassemble-assemble}
use smallishtalk.Asm.Decoded.{decode-encode-decode}

abbrev program : List Insn
program = load_int 3 (negsuc 6) ∷ add 1 3 3 ∷ jump_true 1 (negsuc 2) ∷ ret 1 ∷ []

program-Fits : All Fits program
program-Fits = omega arith

disassemble-assemble_example : disassemble (assemble program) ≡ some program
disassemble-assemble_example = disassemble-assemble program program-Fits

-- LOADNIL into register 2, with operand bits that it ignores.
decode_padded : decode 590355 ≡ some (load_nil 2)
unfolding decode
decode_padded = refl

decode-encode-decode_example :
    Fits (load_nil 2) × (decode (encode (load_nil 2)) ≡ some (load_nil 2))
decode-encode-decode_example = decode-encode-decode 590355 (load_nil 2) decode_padded
