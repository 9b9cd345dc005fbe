-- ===== src/Asm/RoundTrip.antt =====
-- src/asm.rs: the disassembler after the assembler.
use mathlib.Core.Option
use smallishtalk.Base.{◌≡◌, refl, ap, ◌∙◌, some, List, [], ◌∷◌, All, arith}
use smallishtalk.Base.Int.{ℤ}
use smallishtalk.Base.Words.{u16_mod, as_unsigned, as_signed-as_unsigned_16, as_unsigned-lt_16}
use smallishtalk.Treaty.Opcodes.{
  op_nop, op_break, op_move, op_loadk, op_loadint, op_loadnil, op_loadtrue, op_loadfalse,
  op_loadself, op_getivar, op_setivar, op_getbox, op_setbox, op_mkbox, op_send, op_sendsuper,
  op_ret, op_retself, op_nlr, op_prim, op_mkclosure, op_capture, op_jump, op_jumptrue, op_jumpfalse,
  op_add, op_sub, op_mul, op_div, op_mod, op_lt, op_gt, op_le, op_ge, op_eqnum, op_at, op_atput,
  op_size, op_classof, op_not, op_ideq,
}
use smallishtalk.Asm.{
  Insn, nop, break_insn, move, load_k, load_int, load_nil, load_true, load_false, load_self,
  get_ivar, set_ivar, get_box, set_box, mk_box, send, send_super, ret, ret_self, non_local_ret,
  prim, mk_closure, capture, jump, jump_true, jump_false, add, sub, mul, div, modulo, lt, gt, le,
  ge, eq_num, at, at_put, size_of, class_of, not_bool, id_eq, Fits, encode, decode_op, decode,
  assemble, disassemble,
}
use smallishtalk.Asm.Words.{decode-abc, decode-ad}

-- Decoding the word of an instruction whose fields are in range gives the instruction back.
pub decode-encode : (i : Insn) → Fits i → decode (encode i) ≡ some i
unfolding encode decode_op
decode-encode nop h =
    decode-abc op_nop 0 0 0 (omega arith) (omega arith) (omega arith) (omega arith)
decode-encode break_insn h =
    decode-abc op_break 0 0 0 (omega arith) (omega arith) (omega arith) (omega arith)
decode-encode (move d a) h =
    decode-abc op_move d a 0 (omega arith) (omega arith) (omega arith) (omega arith)
decode-encode (load_k d k) h = decode-ad op_loadk d k (omega arith) (omega arith) (omega arith)
decode-encode (load_int d imm) h =
    decode-ad op_loadint d (as_unsigned u16_mod imm) (omega arith) (omega arith)
      (as_unsigned-lt_16 imm)
    ∙ ap (λ (t : ℤ). some (load_int d t)) (as_signed-as_unsigned_16 imm h.1)
decode-encode (load_nil d) h = decode-ad op_loadnil d 0 (omega arith) (omega arith) (omega arith)
decode-encode (load_true d) h = decode-ad op_loadtrue d 0 (omega arith) (omega arith) (omega arith)
decode-encode (load_false d) h =
    decode-ad op_loadfalse d 0 (omega arith) (omega arith) (omega arith)
decode-encode (load_self d) h = decode-ad op_loadself d 0 (omega arith) (omega arith) (omega arith)
decode-encode (get_ivar d i) h =
    decode-abc op_getivar d i 0 (omega arith) (omega arith) (omega arith) (omega arith)
decode-encode (set_ivar i a) h =
    decode-abc op_setivar i a 0 (omega arith) (omega arith) (omega arith) (omega arith)
decode-encode (get_box d a) h =
    decode-abc op_getbox d a 0 (omega arith) (omega arith) (omega arith) (omega arith)
decode-encode (set_box a b) h =
    decode-abc op_setbox a b 0 (omega arith) (omega arith) (omega arith) (omega arith)
decode-encode (mk_box d a) h =
    decode-abc op_mkbox d a 0 (omega arith) (omega arith) (omega arith) (omega arith)
decode-encode (send d r site) h =
    decode-abc op_send d r site (omega arith) (omega arith) (omega arith) (omega arith)
decode-encode (send_super d r site) h =
    decode-abc op_sendsuper d r site (omega arith) (omega arith) (omega arith) (omega arith)
decode-encode (ret a) h = decode-ad op_ret a 0 (omega arith) (omega arith) (omega arith)
decode-encode ret_self h = decode-ad op_retself 0 0 (omega arith) (omega arith) (omega arith)
decode-encode (non_local_ret a) h = decode-ad op_nlr a 0 (omega arith) (omega arith) (omega arith)
decode-encode (prim n) h = decode-ad op_prim 0 n (omega arith) (omega arith) (omega arith)
decode-encode (mk_closure d b) h =
    decode-ad op_mkclosure d b (omega arith) (omega arith) (omega arith)
decode-encode (capture c a) h =
    decode-abc op_capture c a 0 (omega arith) (omega arith) (omega arith) (omega arith)
decode-encode (jump off) h =
    decode-ad op_jump 0 (as_unsigned u16_mod off) (omega arith) (omega arith)
      (as_unsigned-lt_16 off)
    ∙ ap (λ (t : ℤ). some (jump t)) (as_signed-as_unsigned_16 off h)
decode-encode (jump_true a off) h =
    decode-ad op_jumptrue a (as_unsigned u16_mod off) (omega arith) (omega arith)
      (as_unsigned-lt_16 off)
    ∙ ap (λ (t : ℤ). some (jump_true a t)) (as_signed-as_unsigned_16 off h.1)
decode-encode (jump_false a off) h =
    decode-ad op_jumpfalse a (as_unsigned u16_mod off) (omega arith) (omega arith)
      (as_unsigned-lt_16 off)
    ∙ ap (λ (t : ℤ). some (jump_false a t)) (as_signed-as_unsigned_16 off h.1)
decode-encode (add d a b) h =
    decode-abc op_add d a b (omega arith) (omega arith) (omega arith) (omega arith)
decode-encode (sub d a b) h =
    decode-abc op_sub d a b (omega arith) (omega arith) (omega arith) (omega arith)
decode-encode (mul d a b) h =
    decode-abc op_mul d a b (omega arith) (omega arith) (omega arith) (omega arith)
decode-encode (div d a b) h =
    decode-abc op_div d a b (omega arith) (omega arith) (omega arith) (omega arith)
decode-encode (modulo d a b) h =
    decode-abc op_mod d a b (omega arith) (omega arith) (omega arith) (omega arith)
decode-encode (lt d a b) h =
    decode-abc op_lt d a b (omega arith) (omega arith) (omega arith) (omega arith)
decode-encode (gt d a b) h =
    decode-abc op_gt d a b (omega arith) (omega arith) (omega arith) (omega arith)
decode-encode (le d a b) h =
    decode-abc op_le d a b (omega arith) (omega arith) (omega arith) (omega arith)
decode-encode (ge d a b) h =
    decode-abc op_ge d a b (omega arith) (omega arith) (omega arith) (omega arith)
decode-encode (eq_num d a b) h =
    decode-abc op_eqnum d a b (omega arith) (omega arith) (omega arith) (omega arith)
decode-encode (at d a b) h =
    decode-abc op_at d a b (omega arith) (omega arith) (omega arith) (omega arith)
decode-encode (at_put d a b) h =
    decode-abc op_atput d a b (omega arith) (omega arith) (omega arith) (omega arith)
decode-encode (size_of d a) h =
    decode-abc op_size d a 0 (omega arith) (omega arith) (omega arith) (omega arith)
decode-encode (class_of d a) h =
    decode-abc op_classof d a 0 (omega arith) (omega arith) (omega arith) (omega arith)
decode-encode (not_bool d a) h =
    decode-abc op_not d a 0 (omega arith) (omega arith) (omega arith) (omega arith)
decode-encode (id_eq d a b) h =
    decode-abc op_ideq d a b (omega arith) (omega arith) (omega arith) (omega arith)

-- Disassembling an assembled program gives the program back, whatever its length.
pub disassemble-assemble : (is : List Insn) → All Fits is → disassemble (assemble is) ≡ some is
unfolding assemble disassemble Option.bind
disassemble-assemble [] h = refl
disassemble-assemble (i ∷ is) h = rw (decode-encode i h.0) (rw (disassemble-assemble is h.1))
