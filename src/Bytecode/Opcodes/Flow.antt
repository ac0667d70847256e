-- ===== src/Bytecode/Opcodes/Flow.antt =====
-- The opcodes of shared/bytecode/opcodes.h for control flow, fields, files, communication and
-- navigation.
use Prim.Native.Nat.{ℕ}

abbrev pub op_break : ℕ
op_break = 0x00

abbrev pub op_cjeq : ℕ
op_cjeq = 0x01

abbrev pub op_cjne : ℕ
op_cjne = 0x02

abbrev pub op_cjlt : ℕ
op_cjlt = 0x03

abbrev pub op_cjgt : ℕ
op_cjgt = 0x04

abbrev pub op_cjle : ℕ
op_cjle = 0x05

abbrev pub op_cjge : ℕ
op_cjge = 0x06

abbrev pub op_jump : ℕ
op_jump = 0x07

abbrev pub op_def_field : ℕ
op_def_field = 0x08

abbrev pub op_def_field_st : ℕ
op_def_field_st = 0x09

abbrev pub op_set_att : ℕ
op_set_att = 0x0A

abbrev pub op_open : ℕ
op_open = 0x0B

abbrev pub op_close_all : ℕ
op_close_all = 0x0C

abbrev pub op_close : ℕ
op_close = 0x0D

abbrev pub op_read : ℕ
op_read = 0x0E

abbrev pub op_read3 : ℕ
op_read3 = 0x0F

abbrev pub op_write : ℕ
op_write = 0x10

abbrev pub op_write3 : ℕ
op_write3 = 0x11

abbrev pub op_connect : ℕ
op_connect = 0x12

abbrev pub op_disconnect : ℕ
op_disconnect = 0x13

abbrev pub op_send : ℕ
op_send = 0x14

abbrev pub op_send_id : ℕ
op_send_id = 0x15

abbrev pub op_receive : ℕ
op_receive = 0x16

abbrev pub op_cancel : ℕ
op_cancel = 0x17

abbrev pub op_navigate : ℕ
op_navigate = 0x18

abbrev pub op_nav_next : ℕ
op_nav_next = 0x19

abbrev pub op_nav_back : ℕ
op_nav_back = 0x1A

abbrev pub op_nav_first : ℕ
op_nav_first = 0x1B
