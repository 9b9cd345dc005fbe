-- ===== src/Asm.antt =====
-- src/asm.rs: the 32-bit instructions, their assembler and their disassembler. A `u8` or `u16`
-- field is a number and an `i16` field an integer; `Fits` states the ranges of the field types.
-- The panic of `disassemble` on a word that is no instruction is `none`.
pub mod Words
pub mod RoundTrip
pub mod Decoded
mod Tests
use Prim.Native.Nat.{bit_and, bit_or}
use smallishtalk.Base.{
  ℕ, ◌*◌, ◌/◌, ◌%◌, ◌^◌, ◌<◌, Option, none, some, List, [], ◌∷◌, map, ◌==◌, if◌then◌else◌,
}
use mathlib.Core.Option
use smallishtalk.Base.Int.{ℤ}
use smallishtalk.Base.Words.{u16_mod, u32_mod, shl, shr, as_unsigned, as_signed, InRange}
use smallishtalk.Treaty.Opcodes.{
  op_nop, op_break, op_move, op_loadk, op_loadint, op_loadnil, op_loadtrue, op_loadfalse,
  op_loadself, op_getivar, op_setivar, op_getbox, op_setbox, op_mkbox, op_send, op_sendsuper,
  op_ret, op_retself, op_nlr, op_prim, op_mkclosure, op_capture, op_jump, op_jumptrue, op_jumpfalse,
  op_add, op_sub, op_mul, op_div, op_mod, op_lt, op_gt, op_le, op_ge, op_eqnum, op_at, op_atput,
  op_size, op_classof, op_not, op_ideq,
}

pub data Insn : Type 0 where
  nop : Insn
  break_insn : Insn
  move : ℕ → ℕ → Insn
  load_k : ℕ → ℕ → Insn
  load_int : ℕ → ℤ → Insn
  load_nil : ℕ → Insn
  load_true : ℕ → Insn
  load_false : ℕ → Insn
  load_self : ℕ → Insn
  get_ivar : ℕ → ℕ → Insn
  set_ivar : ℕ → ℕ → Insn
  get_box : ℕ → ℕ → Insn
  set_box : ℕ → ℕ → Insn
  mk_box : ℕ → ℕ → Insn
  send : ℕ → ℕ → ℕ → Insn
  send_super : ℕ → ℕ → ℕ → Insn
  ret : ℕ → Insn
  ret_self : Insn
  non_local_ret : ℕ → Insn
  prim : ℕ → Insn
  mk_closure : ℕ → ℕ → Insn
  capture : ℕ → ℕ → Insn
  jump : ℤ → Insn
  jump_true : ℕ → ℤ → Insn
  jump_false : ℕ → ℤ → Insn
  add : ℕ → ℕ → ℕ → Insn
  sub : ℕ → ℕ → ℕ → Insn
  mul : ℕ → ℕ → ℕ → Insn
  div : ℕ → ℕ → ℕ → Insn
  modulo : ℕ → ℕ → ℕ → Insn
  lt : ℕ → ℕ → ℕ → Insn
  gt : ℕ → ℕ → ℕ → Insn
  le : ℕ → ℕ → ℕ → Insn
  ge : ℕ → ℕ → ℕ → Insn
  eq_num : ℕ → ℕ → ℕ → Insn
  at : ℕ → ℕ → ℕ → Insn
  at_put : ℕ → ℕ → ℕ → Insn
  size_of : ℕ → ℕ → Insn
  class_of : ℕ → ℕ → Insn
  not_bool : ℕ → ℕ → Insn
  id_eq : ℕ → ℕ → ℕ → Insn

-- The ranges of the fields.
abbrev pub Fits : Insn → Type 0
Fits nop = Unit {0}
Fits break_insn = Unit {0}
Fits (move d a) = (d < 256) × (a < 256)
Fits (load_k d k) = (d < 256) × (k < u16_mod)
Fits (load_int d imm) = (d < 256) × InRange u16_mod imm
Fits (load_nil d) = d < 256
Fits (load_true d) = d < 256
Fits (load_false d) = d < 256
Fits (load_self d) = d < 256
Fits (get_ivar d i) = (d < 256) × (i < 256)
Fits (set_ivar i a) = (i < 256) × (a < 256)
Fits (get_box d a) = (d < 256) × (a < 256)
Fits (set_box a b) = (a < 256) × (b < 256)
Fits (mk_box d a) = (d < 256) × (a < 256)
Fits (send d r site) = (d < 256) × (r < 256) × (site < 256)
Fits (send_super d r site) = (d < 256) × (r < 256) × (site < 256)
Fits (ret a) = a < 256
Fits ret_self = Unit {0}
Fits (non_local_ret a) = a < 256
Fits (prim n) = n < u16_mod
Fits (mk_closure d b) = (d < 256) × (b < u16_mod)
Fits (capture c a) = (c < 256) × (a < 256)
Fits (jump off) = InRange u16_mod off
Fits (jump_true a off) = (a < 256) × InRange u16_mod off
Fits (jump_false a off) = (a < 256) × InRange u16_mod off
Fits (add d a b) = (d < 256) × (a < 256) × (b < 256)
Fits (sub d a b) = (d < 256) × (a < 256) × (b < 256)
Fits (mul d a b) = (d < 256) × (a < 256) × (b < 256)
Fits (div d a b) = (d < 256) × (a < 256) × (b < 256)
Fits (modulo d a b) = (d < 256) × (a < 256) × (b < 256)
Fits (lt d a b) = (d < 256) × (a < 256) × (b < 256)
Fits (gt d a b) = (d < 256) × (a < 256) × (b < 256)
Fits (le d a b) = (d < 256) × (a < 256) × (b < 256)
Fits (ge d a b) = (d < 256) × (a < 256) × (b < 256)
Fits (eq_num d a b) = (d < 256) × (a < 256) × (b < 256)
Fits (at d a b) = (d < 256) × (a < 256) × (b < 256)
Fits (at_put d a b) = (d < 256) × (a < 256) × (b < 256)
Fits (size_of d a) = (d < 256) × (a < 256)
Fits (class_of d a) = (d < 256) × (a < 256)
Fits (not_bool d a) = (d < 256) × (a < 256)
Fits (id_eq d a b) = (d < 256) × (a < 256) × (b < 256)

unfoldable pub abc : ℕ → ℕ → ℕ → ℕ → ℕ
abc op a b c = bit_or (bit_or (bit_or op (shl u32_mod a 8)) (shl u32_mod b 16)) (shl u32_mod c 24)

unfoldable pub ad : ℕ → ℕ → ℕ → ℕ
ad op a d = bit_or (bit_or op (shl u32_mod a 8)) (shl u32_mod d 16)

unfoldable pub encode : Insn → ℕ
encode nop = abc op_nop 0 0 0
encode break_insn = abc op_break 0 0 0
encode (move d a) = abc op_move d a 0
encode (load_k d k) = ad op_loadk d k
encode (load_int d imm) = ad op_loadint d (as_unsigned u16_mod imm)
encode (load_nil d) = ad op_loadnil d 0
encode (load_true d) = ad op_loadtrue d 0
encode (load_false d) = ad op_loadfalse d 0
encode (load_self d) = ad op_loadself d 0
encode (get_ivar d i) = abc op_getivar d i 0
encode (set_ivar i a) = abc op_setivar i a 0
encode (get_box d a) = abc op_getbox d a 0
encode (set_box a b) = abc op_setbox a b 0
encode (mk_box d a) = abc op_mkbox d a 0
encode (send d r site) = abc op_send d r site
encode (send_super d r site) = abc op_sendsuper d r site
encode (ret a) = ad op_ret a 0
encode ret_self = ad op_retself 0 0
encode (non_local_ret a) = ad op_nlr a 0
encode (prim n) = ad op_prim 0 n
encode (mk_closure d b) = ad op_mkclosure d b
encode (capture c a) = abc op_capture c a 0
encode (jump off) = ad op_jump 0 (as_unsigned u16_mod off)
encode (jump_true a off) = ad op_jumptrue a (as_unsigned u16_mod off)
encode (jump_false a off) = ad op_jumpfalse a (as_unsigned u16_mod off)
encode (add d a b) = abc op_add d a b
encode (sub d a b) = abc op_sub d a b
encode (mul d a b) = abc op_mul d a b
encode (div d a b) = abc op_div d a b
encode (modulo d a b) = abc op_mod d a b
encode (lt d a b) = abc op_lt d a b
encode (gt d a b) = abc op_gt d a b
encode (le d a b) = abc op_le d a b
encode (ge d a b) = abc op_ge d a b
encode (eq_num d a b) = abc op_eqnum d a b
encode (at d a b) = abc op_at d a b
encode (at_put d a b) = abc op_atput d a b
encode (size_of d a) = abc op_size d a 0
encode (class_of d a) = abc op_classof d a 0
encode (not_bool d a) = abc op_not d a 0
encode (id_eq d a b) = abc op_ideq d a b

-- The match of `decode`, over the five parts of the word.
unfoldable pub decode_op : ℕ → ℕ → ℕ → ℕ → ℕ → Option Insn
decode_op op a b c d16 =
    if op == op_nop
    then some nop
    else if op == op_break
    then some break_insn
    else if op == op_move
    then some (move a b)
    else if op == op_loadk
    then some (load_k a d16)
    else if op == op_loadint
    then some (load_int a (as_signed u16_mod d16))
    else if op == op_loadnil
    then some (load_nil a)
    else if op == op_loadtrue
    then some (load_true a)
    else if op == op_loadfalse
    then some (load_false a)
    else if op == op_loadself
    then some (load_self a)
    else if op == op_getivar
    then some (get_ivar a b)
    else if op == op_setivar
    then some (set_ivar a b)
    else if op == op_getbox
    then some (get_box a b)
    else if op == op_setbox
    then some (set_box a b)
    else if op == op_mkbox
    then some (mk_box a b)
    else if op == op_send
    then some (send a b c)
    else if op == op_sendsuper
    then some (send_super a b c)
    else if op == op_ret
    then some (ret a)
    else if op == op_retself
    then some ret_self
    else if op == op_nlr
    then some (non_local_ret a)
    else if op == op_prim
    then some (prim d16)
    else if op == op_mkclosure
    then some (mk_closure a d16)
    else if op == op_capture
    then some (capture a b)
    else if op == op_jump
    then some (jump (as_signed u16_mod d16))
    else if op == op_jumptrue
    then some (jump_true a (as_signed u16_mod d16))
    else if op == op_jumpfalse
    then some (jump_false a (as_signed u16_mod d16))
    else if op == op_add
    then some (add a b c)
    else if op == op_sub
    then some (sub a b c)
    else if op == op_mul
    then some (mul a b c)
    else if op == op_div
    then some (div a b c)
    else if op == op_mod
    then some (modulo a b c)
    else if op == op_lt
    then some (lt a b c)
    else if op == op_gt
    then some (gt a b c)
    else if op == op_le
    then some (le a b c)
    else if op == op_ge
    then some (ge a b c)
    else if op == op_eqnum
    then some (eq_num a b c)
    else if op == op_at
    then some (at a b c)
    else if op == op_atput
    then some (at_put a b c)
    else if op == op_size
    then some (size_of a b)
    else if op == op_classof
    then some (class_of a b)
    else if op == op_not
    then some (not_bool a b)
    else if op == op_ideq
    then some (id_eq a b c)
    else none

unfoldable pub decode : ℕ → Option Insn
unfolding decode_op
decode word =
    decode_op (bit_and word 0xff) (bit_and (shr word 8) 0xff) (bit_and (shr word 16) 0xff)
      (bit_and (shr word 24) 0xff) (shr word 16 % u16_mod)

unfoldable pub assemble : List Insn → List ℕ
unfolding encode
assemble insns = map encode insns

-- A panic at one word is a panic of the whole.
unfoldable pub disassemble : List ℕ → Option (List Insn)
unfolding decode
disassemble [] = some []
disassemble (w ∷ words) =
    Option.bind (decode w) (λ i. Option.map (λ rest. i ∷ rest) (disassemble words))
