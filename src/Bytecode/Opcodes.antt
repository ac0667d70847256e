-- ===== src/Bytecode/Opcodes.antt =====
-- `opcode_table` of shared/bytecode/decode.c with `lookup_opcode` and `mnemonic_str`. The sentinel is
-- the end of the list.
pub mod Flow
pub mod Values
pub mod System
pub mod Table
use Prim.Native.String.{String}
use tbol_toolchain.Base.{
  ℕ, Bool, true, false, Option, none, some, List, [], ◌∷◌, ◌==◌, if◌then◌else◌,
}
use mathlib.Core.Logic.{ite}
use tbol_toolchain.Bytecode.Mnemonic.{Mnemonic, Mnemonic-discrete}
use tbol_toolchain.Bytecode.Opcodes.Flow.{
  op_break, op_cjeq, op_cjne, op_cjlt, op_cjgt, op_cjle, op_cjge, op_jump, op_def_field,
  op_def_field_st, op_set_att, op_open, op_close_all, op_close, op_read, op_read3, op_write,
  op_write3, op_connect, op_disconnect, op_send, op_send_id, op_receive, op_cancel, op_navigate,
  op_nav_next, op_nav_back, op_nav_first,
}
use tbol_toolchain.Bytecode.Opcodes.Values.{
  op_nav_last, op_fetch, op_fetch_rq, op_open_window, op_open_err_win, op_close_window,
  op_close_open_win, op_kill, op_purge, op_move, op_move_abs, op_swap, op_add, op_sub, op_mul,
  op_div, op_div_rem, op_fill, op_and, op_or, op_xor, op_test, op_length, op_format, op_make_format,
  op_edit, op_string, op_substr, op_instr, op_upper, op_push, op_pop, op_wait,
}
use tbol_toolchain.Bytecode.Opcodes.System.{
  op_start, op_stop, op_set_key, op_set_key_pgm, op_set_func, op_set_func_pgm, op_call, op_link,
  op_return, op_transfer, op_exit, op_go_dep, op_error, op_save, op_save_range, op_restore,
  op_release, op_clear, op_clear_range, op_note, op_point, op_sound, op_sound_args, op_sort,
  op_lookup, op_trig_func, op_move_block, op_return_rc, op_exit_rc, op_refresh, op_erase,
  op_set_cursor, op_open_err_win2, op_set_func2, op_open_err_win3, op_delete,
}

-- `operand_count`: a count, -1 (a count byte in the code) or -2 (a decoder of its own).
pub data Arity : Type 0 where
  fixed : ℕ → Arity
  variable special : Arity

pub record OpcodeInfo : Type 0 where
  pub opcode : ℕ
  pub mnemonic : Mnemonic
  pub name : String
  pub operand_count : Arity
  pub has_offset : Bool

abbrev entry : ℕ → Mnemonic → String → Arity → Bool → OpcodeInfo
entry opcode mnemonic name operand_count has_offset = record {
  opcode = opcode;
  mnemonic = mnemonic;
  name = name;
  operand_count = operand_count;
  has_offset = has_offset;
}

abbrev pub opcode_table : List OpcodeInfo
opcode_table =
    entry op_break Mnemonic.break "BREAK" (fixed 0) false
    ∷ entry op_cjeq Mnemonic.cjeq "CJEQ" (fixed 2) true
    ∷ entry op_cjne Mnemonic.cjne "CJNE" (fixed 2) true
    ∷ entry op_cjlt Mnemonic.cjlt "CJLT" (fixed 2) true
    ∷ entry op_cjgt Mnemonic.cjgt "CJGT" (fixed 2) true
    ∷ entry op_cjle Mnemonic.cjle "CJLE" (fixed 2) true
    ∷ entry op_cjge Mnemonic.cjge "CJGE" (fixed 2) true
    ∷ entry op_jump Mnemonic.jump "JUMP" (fixed 0) true
    ∷ entry op_def_field Mnemonic.define_field "DEFINE_FIELD" special false
    ∷ entry op_def_field_st Mnemonic.define_field "DEFINE_FIELD" special false
    ∷ entry op_set_att Mnemonic.set_attribute "SET_ATTRIBUTE" special false
    ∷ entry op_move Mnemonic.move "MOVE" (fixed 2) false
    ∷ entry op_move_abs Mnemonic.move_abs "MOVE_ABS" (fixed 2) false
    ∷ entry op_swap Mnemonic.swap "SWAP" (fixed 2) false
    ∷ entry op_add Mnemonic.add "ADD" (fixed 2) false
    ∷ entry op_sub Mnemonic.sub "SUBTRACT" (fixed 2) false
    ∷ entry op_mul Mnemonic.mul "MULTIPLY" (fixed 2) false
    ∷ entry op_div Mnemonic.div "DIVIDE" (fixed 2) false
    ∷ entry op_div_rem Mnemonic.div "DIVIDE" (fixed 3) false
    ∷ entry op_fill Mnemonic.fill "FILL" (fixed 3) false
    ∷ entry op_length Mnemonic.length "LENGTH" (fixed 2) false
    ∷ entry op_format Mnemonic.unknown "FORMAT" (fixed 3) false
    ∷ entry op_string Mnemonic.string "STRING" variable false
    ∷ entry op_substr Mnemonic.substr "SUBSTR" (fixed 4) false
    ∷ entry op_instr Mnemonic.instr "INSTR" (fixed 3) false
    ∷ entry op_upper Mnemonic.uppercase "UPPERCASE" (fixed 1) false
    ∷ entry op_push Mnemonic.push "PUSH" (fixed 1) false
    ∷ entry op_pop Mnemonic.pop "POP" (fixed 1) false
    ∷ entry op_call Mnemonic.call "CALL" variable true
    ∷ entry op_link Mnemonic.link "LINK" variable false
    ∷ entry op_return Mnemonic.return "RETURN" (fixed 0) false
    ∷ entry op_return_rc Mnemonic.return "RETURN" (fixed 1) false
    ∷ entry op_transfer Mnemonic.transfer "TRANSFER" variable false
    ∷ entry op_exit Mnemonic.exit "EXIT" (fixed 0) false
    ∷ entry op_exit_rc Mnemonic.exit "EXIT" (fixed 1) false
    ∷ entry op_go_dep Mnemonic.goto_depending_on "GOTO_DEPENDING_ON" special false
    ∷ entry op_error Mnemonic.error "ERROR" (fixed 1) false
    ∷ entry op_save Mnemonic.save "SAVE" special false
    ∷ entry op_save_range Mnemonic.save_fields "SAVE" (fixed 3) false
    ∷ entry op_restore Mnemonic.restore "RESTORE" (fixed 2) false
    ∷ entry op_release Mnemonic.release "RELEASE" (fixed 1) false
    ∷ entry op_clear Mnemonic.clear "CLEAR" special false
    ∷ entry op_clear_range Mnemonic.clear_range "CLEAR" (fixed 2) false
    ∷ entry op_note Mnemonic.note "NOTE" (fixed 2) false
    ∷ entry op_point Mnemonic.point "POINT" (fixed 2) false
    ∷ entry op_sound Mnemonic.sound "SOUND" (fixed 0) false
    ∷ entry op_sound_args Mnemonic.set_sound "SOUND" (fixed 2) false
    ∷ entry op_sort Mnemonic.sort "SORT" (fixed 3) false
    ∷ entry op_lookup Mnemonic.lookup "LOOKUP" (fixed 5) false
    ∷ entry op_trig_func Mnemonic.trig_func "TRIGGER_FUNCTION" (fixed 1) false
    ∷ entry op_make_format Mnemonic.make_format "MAKE_FORMAT" special false
    ∷ entry op_navigate Mnemonic.navigate "NAVIGATE" (fixed 1) false
    ∷ entry op_nav_next Mnemonic.unknown "NAVIGATE NEXT" (fixed 0) false
    ∷ entry op_nav_back Mnemonic.unknown "NAVIGATE BACK" (fixed 0) false
    ∷ entry op_nav_first Mnemonic.unknown "NAVIGATE FIRST" (fixed 0) false
    ∷ entry op_nav_last Mnemonic.unknown "NAVIGATE LAST" (fixed 0) false
    ∷ entry op_fetch Mnemonic.unknown "FETCH" (fixed 1) false
    ∷ entry op_fetch_rq Mnemonic.unknown "FETCH" (fixed 2) false
    ∷ entry op_set_func Mnemonic.set_function "SET_FUNCTION" (fixed 2) false
    ∷ entry op_set_func_pgm Mnemonic.set_function "SET_FUNCTION" (fixed 3) false
    ∷ entry op_set_func2 Mnemonic.set_function "SET_FUNCTION" (fixed 4) false
    ∷ entry op_open_window Mnemonic.unknown "OPEN_WINDOW" (fixed 1) false
    ∷ entry op_open_err_win Mnemonic.unknown "OPEN_ERROR_WINDOW" (fixed 1) false
    ∷ entry op_close_window Mnemonic.unknown "CLOSE_WINDOW" (fixed 0) false
    ∷ entry op_close_open_win Mnemonic.unknown "CLOSE_WINDOW" (fixed 1) false
    ∷ entry op_kill Mnemonic.unknown "KILL" (fixed 1) false
    ∷ entry op_purge Mnemonic.unknown "PURGE_CACHE" (fixed 0) false
    ∷ entry op_and Mnemonic.unknown "AND" (fixed 2) false
    ∷ entry op_or Mnemonic.unknown "OR" (fixed 2) false
    ∷ entry op_xor Mnemonic.unknown "XOR" (fixed 2) false
    ∷ entry op_test Mnemonic.unknown "TEST" (fixed 2) false
    ∷ entry op_edit Mnemonic.unknown "EDIT" variable false
    ∷ entry op_start Mnemonic.unknown "START" (fixed 1) false
    ∷ entry op_stop Mnemonic.unknown "STOP" (fixed 1) false
    ∷ entry op_set_key Mnemonic.unknown "SET_KEY" (fixed 3) false
    ∷ entry op_set_key_pgm Mnemonic.unknown "SET_KEY" (fixed 5) false
    ∷ entry op_move_block Mnemonic.unknown "MOVE_BLOCK" special false
    ∷ entry op_set_cursor Mnemonic.unknown "SET_CURSOR" (fixed 1) false
    ∷ entry op_open_err_win2 Mnemonic.unknown "OPEN_ERROR_WINDOW" (fixed 1) false
    ∷ entry op_open_err_win3 Mnemonic.unknown "OPEN_ERROR_WINDOW" (fixed 2) false
    ∷ entry op_delete Mnemonic.unknown "DELETE" (fixed 1) false
    ∷ entry op_open Mnemonic.unknown "OPEN" (fixed 2) false
    ∷ entry op_close Mnemonic.unknown "CLOSE" (fixed 1) false
    ∷ entry op_close_all Mnemonic.unknown "CLOSE_ALL" (fixed 0) false
    ∷ entry op_read Mnemonic.unknown "READ" (fixed 2) false
    ∷ entry op_read3 Mnemonic.unknown "READ" (fixed 3) false
    ∷ entry op_write Mnemonic.unknown "WRITE" (fixed 2) false
    ∷ entry op_write3 Mnemonic.unknown "WRITE" (fixed 3) false
    ∷ entry op_connect Mnemonic.unknown "CONNECT" (fixed 1) false
    ∷ entry op_disconnect Mnemonic.unknown "DISCONNECT" (fixed 0) false
    ∷ entry op_send Mnemonic.send "SEND" special false
    ∷ entry op_send_id Mnemonic.send "SEND" special false
    ∷ entry op_receive Mnemonic.unknown "RECEIVE" (fixed 2) false
    ∷ entry op_cancel Mnemonic.unknown "CANCEL" (fixed 0) false
    ∷ entry op_refresh Mnemonic.unknown "REFRESH" (fixed 0) false
    ∷ entry op_erase Mnemonic.unknown "ERASE" (fixed 1) false
    ∷ entry op_wait Mnemonic.unknown "WAIT" (fixed 0) false
    ∷ []

unfoldable pub find_opcode : ℕ → List OpcodeInfo → Option OpcodeInfo
find_opcode opcode [] = none
find_opcode opcode (info ∷ table) =
    if info.opcode == opcode then some info else find_opcode opcode table

unfoldable pub lookup_opcode : ℕ → Option OpcodeInfo
unfolding find_opcode
lookup_opcode opcode = find_opcode opcode opcode_table

unfoldable pub find_mnemonic : Mnemonic → List OpcodeInfo → String
unfolding Mnemonic-discrete
find_mnemonic m [] = "UNKNOWN"
find_mnemonic m (info ∷ table) =
    ite (Mnemonic-discrete info.mnemonic m) info.name (find_mnemonic m table)

unfoldable pub mnemonic_str : Mnemonic → String
unfolding find_mnemonic
mnemonic_str m = find_mnemonic m opcode_table
