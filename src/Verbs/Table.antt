-- ===== src/Verbs/Table.antt =====
-- `verb_table` and `gen_verb` of compiler/codegen/codegen_verbs.c. The handler of a verb is named by
-- a constructor; `verb_code` is that of every verb but GOTO_DEPENDING_ON, whose handler also reads
-- and writes the state of the code generator.
use tbol_toolchain.Base.{ℕ, Option, none, some, List, [], ◌∷◌, if◌then◌else◌, codes}
use Prim.Native.String.{String}
use tbol_toolchain.Symtab.Names.{Name, same_name}
use tbol_toolchain.Symtab.{Symtab}
use tbol_toolchain.Codegen.Literal.{byte_code}
use tbol_toolchain.Codegen.Instruction.{emit_instruction, emit_var_instruction}
use tbol_toolchain.Bytecode.Opcodes.Flow.{
  op_break, op_open, op_connect, op_disconnect, op_receive, op_cancel, op_navigate, op_nav_next,
  op_nav_back, op_nav_first,
}
use tbol_toolchain.Bytecode.Opcodes.Values.{
  op_nav_last, op_open_window, op_kill, op_purge, op_move_abs, op_swap, op_add, op_sub, op_mul,
  op_fill, op_and, op_or, op_xor, op_test, op_length, op_format, op_edit, op_string, op_substr,
  op_instr, op_upper, op_push, op_pop, op_wait,
}
use tbol_toolchain.Bytecode.Opcodes.System.{
  op_stop, op_link, op_transfer, op_error, op_restore, op_release, op_note, op_point, op_sort,
  op_lookup, op_trig_func, op_refresh, op_erase, op_set_cursor, op_delete,
}
use tbol_toolchain.Verbs.{VerbStmt, emit_fixed}
use tbol_toolchain.Verbs.Simple.{
  handle_divide, handle_exit, handle_return, handle_fetch, handle_close, handle_close_window,
  handle_open_error_window, handle_sound, handle_set_key, handle_read, handle_write, handle_send,
}
use tbol_toolchain.Verbs.Structure.{handle_move, handle_clear, handle_save}
use tbol_toolchain.Verbs.SetFunction.{gen_set_function}
use tbol_toolchain.Verbs.SetAttribute.{gen_set_attribute}
use tbol_toolchain.Verbs.MakeFormat.{gen_make_format}
use tbol_toolchain.Verbs.DefineField.{gen_define_field}

pub data Handler : Type 0 where
  move divide clear save send exit return close close_window fetch open_error_window : Handler
  sound set_key set_function set_attribute make_format define_field goto_depending_on : Handler
  read write : Handler

-- What a row of the table does: an opcode alone, an opcode with a number of operands, with a count
-- byte, or with the operands that there are, or a handler.
pub data Dispatch : Type 0 where
  opcode_only : ℕ → Dispatch
  fixed_operands : ℕ → ℕ → Dispatch
  counted_operands : ℕ → Dispatch
  all_operands : ℕ → Dispatch
  handled_by : Handler → Dispatch

pub record VerbEntry : Type 0 where
  pub name : Name
  pub dispatch : Dispatch

abbrev verb : String → Dispatch → VerbEntry
verb name dispatch = record { name = codes name; dispatch = dispatch }

abbrev pub verb_table : List VerbEntry
verb_table =
    verb "MOVE_ABS" (fixed_operands op_move_abs 2)
    ∷ verb "ADD" (fixed_operands op_add 2)
    ∷ verb "SUBTRACT" (fixed_operands op_sub 2)
    ∷ verb "MULTIPLY" (fixed_operands op_mul 2)
    ∷ verb "AND" (fixed_operands op_and 2)
    ∷ verb "OR" (fixed_operands op_or 2)
    ∷ verb "XOR" (fixed_operands op_xor 2)
    ∷ verb "TEST" (fixed_operands op_test 2)
    ∷ verb "SWAP" (fixed_operands op_swap 2)
    ∷ verb "FILL" (fixed_operands op_fill 3)
    ∷ verb "PUSH" (fixed_operands op_push 1)
    ∷ verb "POP" (fixed_operands op_pop 1)
    ∷ verb "SUBSTR" (fixed_operands op_substr 4)
    ∷ verb "INSTR" (fixed_operands op_instr 3)
    ∷ verb "UPPERCASE" (fixed_operands op_upper 1)
    ∷ verb "LENGTH" (fixed_operands op_length 2)
    ∷ verb "FORMAT" (fixed_operands op_format 3)
    ∷ verb "OPEN_WINDOW" (fixed_operands op_open_window 1)
    ∷ verb "KILL" (all_operands op_kill)
    ∷ verb "OPEN" (fixed_operands op_open 2)
    ∷ verb "NOTE" (fixed_operands op_note 2)
    ∷ verb "POINT" (fixed_operands op_point 2)
    ∷ verb "DELETE" (fixed_operands op_delete 1)
    ∷ verb "CONNECT" (fixed_operands op_connect 1)
    ∷ verb "RECEIVE" (fixed_operands op_receive 2)
    ∷ verb "CANCEL" (all_operands op_cancel)
    ∷ verb "RESTORE" (fixed_operands op_restore 2)
    ∷ verb "RELEASE" (fixed_operands op_release 1)
    ∷ verb "ERASE" (all_operands op_erase)
    ∷ verb "SET_CURSOR" (all_operands op_set_cursor)
    ∷ verb "STOP" (all_operands op_stop)
    ∷ verb "ERROR" (fixed_operands op_error 1)
    ∷ verb "TRIGGER_FUNCTION" (fixed_operands op_trig_func 1)
    ∷ verb "SORT" (fixed_operands op_sort 3)
    ∷ verb "LOOKUP" (fixed_operands op_lookup 5)
    ∷ verb "STRING" (counted_operands op_string)
    ∷ verb "EDIT" (counted_operands op_edit)
    ∷ verb "LINK" (counted_operands op_link)
    ∷ verb "TRANSFER" (counted_operands op_transfer)
    ∷ verb "NAVIGATE" (all_operands op_navigate)
    ∷ verb "NAVIGATE_FIRST" (opcode_only op_nav_first)
    ∷ verb "NAVIGATE_NEXT" (opcode_only op_nav_next)
    ∷ verb "NAVIGATE_BACK" (opcode_only op_nav_back)
    ∷ verb "NAVIGATE_LAST" (opcode_only op_nav_last)
    ∷ verb "PURGE_CACHE" (opcode_only op_purge)
    ∷ verb "REFRESH" (opcode_only op_refresh)
    ∷ verb "WAIT" (opcode_only op_wait)
    ∷ verb "DISCONNECT" (opcode_only op_disconnect)
    ∷ verb "MOVE" (handled_by Handler.move)
    ∷ verb "DIVIDE" (handled_by Handler.divide)
    ∷ verb "CLEAR" (handled_by Handler.clear)
    ∷ verb "SAVE" (handled_by Handler.save)
    ∷ verb "SEND" (handled_by Handler.send)
    ∷ verb "EXIT" (handled_by Handler.exit)
    ∷ verb "RETURN" (handled_by Handler.return)
    ∷ verb "CLOSE" (handled_by Handler.close)
    ∷ verb "CLOSE_WINDOW" (handled_by Handler.close_window)
    ∷ verb "FETCH" (handled_by Handler.fetch)
    ∷ verb "OPEN_ERROR_WINDOW" (handled_by Handler.open_error_window)
    ∷ verb "SOUND" (handled_by Handler.sound)
    ∷ verb "SET_KEY" (handled_by Handler.set_key)
    ∷ verb "SET_FUNCTION" (handled_by Handler.set_function)
    ∷ verb "SET_ATTRIBUTE" (handled_by Handler.set_attribute)
    ∷ verb "MAKE_FORMAT" (handled_by Handler.make_format)
    ∷ verb "DEFINE_FIELD" (handled_by Handler.define_field)
    ∷ verb "GOTO_DEPENDING_ON" (handled_by Handler.goto_depending_on)
    ∷ verb "READ" (handled_by Handler.read)
    ∷ verb "WRITE" (handled_by Handler.write)
    ∷ []

unfoldable pub find_verb : Name → List VerbEntry → Option Dispatch
find_verb name [] = none
find_verb name (entry ∷ table) =
    if same_name name entry.name then some entry.dispatch else find_verb name table

unfoldable pub lookup_verb : Name → Option Dispatch
unfolding find_verb
lookup_verb name = find_verb name verb_table

-- The code of a handler that leaves labels alone.
unfoldable pub handler_code : Symtab → Handler → VerbStmt → Option (List ℕ)
handler_code st Handler.move node = some (handle_move st node.operands)
handler_code st Handler.divide node = handle_divide st node.operands
handler_code st Handler.clear node = some (handle_clear st node.operands)
handler_code st Handler.save node = some (handle_save st node.operands)
handler_code st Handler.send node = handle_send st node
handler_code st Handler.exit node = handle_exit st node.operands
handler_code st Handler.return node = handle_return st node.operands
handler_code st Handler.close node = handle_close st node.operands
handler_code st Handler.close_window node = handle_close_window st node.operands
handler_code st Handler.fetch node = handle_fetch st node.operands
handler_code st Handler.open_error_window node = handle_open_error_window st node.operands
handler_code st Handler.sound node = handle_sound st node.operands
handler_code st Handler.set_key node = handle_set_key st node.operands
handler_code st Handler.set_function node = gen_set_function st node.operands
handler_code st Handler.set_attribute node = some (gen_set_attribute st node.operands)
handler_code st Handler.make_format node = gen_make_format st node.operands
handler_code st Handler.define_field node = some (gen_define_field st node.operands)
handler_code st Handler.goto_depending_on node = some []
handler_code st Handler.read node = some (handle_read st node.operands)
handler_code st Handler.write node = some (handle_write st node.operands)

unfoldable pub dispatch_code : Symtab → Dispatch → VerbStmt → Option (List ℕ)
unfolding handler_code
dispatch_code st (opcode_only opcode) node = some (byte_code opcode)
dispatch_code st (fixed_operands opcode count) node = emit_fixed st opcode count node.operands
dispatch_code st (counted_operands opcode) node =
    some (emit_var_instruction st opcode node.operands)
dispatch_code st (all_operands opcode) node = some (emit_instruction st opcode node.operands)
dispatch_code st (handled_by handler) node = handler_code st handler node

-- An unknown verb is OP_BREAK.
unfoldable pub found_code : Symtab → Option Dispatch → VerbStmt → Option (List ℕ)
unfolding dispatch_code
found_code st none node = some (byte_code op_break)
found_code st (some dispatch) node = dispatch_code st dispatch node

unfoldable pub verb_code : Symtab → VerbStmt → Option (List ℕ)
unfolding found_code lookup_verb
verb_code st node = found_code st (lookup_verb node.name) node
