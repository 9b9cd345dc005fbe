-- ===== src/Treaty/Opcodes.antt =====
-- src/treaty.rs: the opcode numbers.
use smallishtalk.Base.{ℕ}

-- Opcodes (A.2)
abbrev pub op_nop : ℕ
op_nop = 0x00

abbrev pub op_break : ℕ
op_break = 0x01

abbrev pub op_move : ℕ
op_move = 0x10

abbrev pub op_loadk : ℕ
op_loadk = 0x11

abbrev pub op_loadint : ℕ
op_loadint = 0x12

abbrev pub op_loadnil : ℕ
op_loadnil = 0x13

abbrev pub op_loadtrue : ℕ
op_loadtrue = 0x14

abbrev pub op_loadfalse : ℕ
op_loadfalse = 0x15

abbrev pub op_loadself : ℕ
op_loadself = 0x16

abbrev pub op_getivar : ℕ
op_getivar = 0x17

abbrev pub op_setivar : ℕ
op_setivar = 0x18

abbrev pub op_getbox : ℕ
op_getbox = 0x19

abbrev pub op_setbox : ℕ
op_setbox = 0x1A

abbrev pub op_mkbox : ℕ
op_mkbox = 0x1B

abbrev pub op_send : ℕ
op_send = 0x20

abbrev pub op_sendsuper : ℕ
op_sendsuper = 0x21

abbrev pub op_ret : ℕ
op_ret = 0x22

abbrev pub op_retself : ℕ
op_retself = 0x23

abbrev pub op_nlr : ℕ
op_nlr = 0x24

abbrev pub op_prim : ℕ
op_prim = 0x25

abbrev pub op_mkclosure : ℕ
op_mkclosure = 0x26

abbrev pub op_capture : ℕ
op_capture = 0x27

abbrev pub op_jump : ℕ
op_jump = 0x28

abbrev pub op_jumptrue : ℕ
op_jumptrue = 0x29

abbrev pub op_jumpfalse : ℕ
op_jumpfalse = 0x2A

abbrev pub op_add : ℕ
op_add = 0x30

abbrev pub op_sub : ℕ
op_sub = 0x31

abbrev pub op_mul : ℕ
op_mul = 0x32

abbrev pub op_div : ℕ
op_div = 0x33

abbrev pub op_mod : ℕ
op_mod = 0x34

abbrev pub op_lt : ℕ
op_lt = 0x35

abbrev pub op_gt : ℕ
op_gt = 0x36

abbrev pub op_le : ℕ
op_le = 0x37

abbrev pub op_ge : ℕ
op_ge = 0x38

abbrev pub op_eqnum : ℕ
op_eqnum = 0x39

abbrev pub op_at : ℕ
op_at = 0x40

abbrev pub op_atput : ℕ
op_atput = 0x41

abbrev pub op_size : ℕ
op_size = 0x42

abbrev pub op_classof : ℕ
op_classof = 0x43

abbrev pub op_not : ℕ
op_not = 0x44

abbrev pub op_ideq : ℕ
op_ideq = 0x45
