-- ===== src/Bytecode/Opcodes/Values.antt =====
-- The opcodes of shared/bytecode/opcodes.h for windows, data, logic, text and the stack.
use Prim.Native.Nat.{ℕ}

abbrev pub op_nav_last : ℕ
op_nav_last = 0x1C

abbrev pub op_fetch : ℕ
op_fetch = 0x1D

abbrev pub op_fetch_rq : ℕ
op_fetch_rq = 0x1E

abbrev pub op_open_window : ℕ
op_open_window = 0x1F

abbrev pub op_open_err_win : ℕ
op_open_err_win = 0x20

abbrev pub op_close_window : ℕ
op_close_window = 0x21

abbrev pub op_close_open_win : ℕ
op_close_open_win = 0x22

abbrev pub op_kill : ℕ
op_kill = 0x23

abbrev pub op_purge : ℕ
op_purge = 0x24

abbrev pub op_move : ℕ
op_move = 0x25

abbrev pub op_move_abs : ℕ
op_move_abs = 0x26

abbrev pub op_swap : ℕ
op_swap = 0x27

abbrev pub op_add : ℕ
op_add = 0x28

abbrev pub op_sub : ℕ
op_sub = 0x29

abbrev pub op_mul : ℕ
op_mul = 0x2A

abbrev pub op_div : ℕ
op_div = 0x2B

abbrev pub op_div_rem : ℕ
op_div_rem = 0x2C

abbrev pub op_fill : ℕ
op_fill = 0x2D

abbrev pub op_and : ℕ
op_and = 0x2E

abbrev pub op_or : ℕ
op_or = 0x2F

abbrev pub op_xor : ℕ
op_xor = 0x30

abbrev pub op_test : ℕ
op_test = 0x31

abbrev pub op_length : ℕ
op_length = 0x32

abbrev pub op_format : ℕ
op_format = 0x33

abbrev pub op_make_format : ℕ
op_make_format = 0x34

abbrev pub op_edit : ℕ
op_edit = 0x35

abbrev pub op_string : ℕ
op_string = 0x36

abbrev pub op_substr : ℕ
op_substr = 0x37

abbrev pub op_instr : ℕ
op_instr = 0x38

abbrev pub op_upper : ℕ
op_upper = 0x39

abbrev pub op_push : ℕ
op_push = 0x3A

abbrev pub op_pop : ℕ
op_pop = 0x3B

abbrev pub op_wait : ℕ
op_wait = 0x3F
