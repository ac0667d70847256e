-- ===== src/Verbs/Simple.antt =====
-- The handlers of compiler/codegen/codegen_verbs.c that choose an opcode by the number of operands,
-- and `handle_send`.
use tbol_toolchain.Base.{
  ℕ, ◌/◌, Option, some, List, [], ◌∷◌, ◌++◌, length, ◌==◌, if◌then◌else◌, u8, ◌>>=◌,
}
use tbol_toolchain.Ast.{AstNode}
use tbol_toolchain.Symtab.{Symtab}
use tbol_toolchain.Codegen.Literal.{byte_code}
use tbol_toolchain.Codegen.Instruction.{
  check_complex_mode, compute_mode_byte, emit_operands, opcode_code, emit_instruction,
}
use tbol_toolchain.Bytecode.Opcodes.Flow.{
  op_send, op_send_id, op_close, op_close_all, op_read, op_read3, op_write, op_write3,
}
use tbol_toolchain.Bytecode.Opcodes.Values.{
  op_div, op_div_rem, op_fetch, op_fetch_rq, op_close_window, op_close_open_win,
}
use tbol_toolchain.Bytecode.Opcodes.System.{
  op_exit, op_exit_rc, op_return, op_return_rc, op_open_err_win2, op_open_err_win3, op_sound,
  op_sound_args, op_set_key, op_set_key_pgm,
}
use tbol_toolchain.Verbs.{VerbStmt, first_operands, emit_fixed}

unfoldable pub handle_divide : Symtab → List AstNode → Option (List ℕ)
handle_divide st ops =
    if length ops == 2 then emit_fixed st op_div 2 ops else emit_fixed st op_div_rem 3 ops

unfoldable pub handle_exit : Symtab → List AstNode → Option (List ℕ)
handle_exit st ops =
    if length ops == 0 then some (byte_code op_exit) else emit_fixed st op_exit_rc 1 ops

unfoldable pub handle_return : Symtab → List AstNode → Option (List ℕ)
handle_return st ops =
    if length ops == 0 then some (byte_code op_return) else emit_fixed st op_return_rc 1 ops

unfoldable pub handle_fetch : Symtab → List AstNode → Option (List ℕ)
handle_fetch st ops =
    if length ops == 1 then emit_fixed st op_fetch 1 ops else emit_fixed st op_fetch_rq 2 ops

unfoldable pub handle_close : Symtab → List AstNode → Option (List ℕ)
handle_close st ops =
    if length ops == 0 then some (byte_code op_close_all) else emit_fixed st op_close 1 ops

unfoldable pub handle_close_window : Symtab → List AstNode → Option (List ℕ)
handle_close_window st ops =
    if length ops == 0
    then some (byte_code op_close_window)
    else emit_fixed st op_close_open_win 1 ops

unfoldable pub handle_open_error_window : Symtab → List AstNode → Option (List ℕ)
handle_open_error_window st ops =
    if length ops == 0
    then some (byte_code op_open_err_win2)
    else if length ops == 1
    then emit_fixed st op_open_err_win2 1 ops
    else emit_fixed st op_open_err_win3 2 ops

unfoldable pub handle_sound : Symtab → List AstNode → Option (List ℕ)
handle_sound st ops =
    if length ops == 0 then some (byte_code op_sound) else emit_fixed st op_sound_args 2 ops

unfoldable pub handle_set_key : Symtab → List AstNode → Option (List ℕ)
handle_set_key st ops =
    if length ops == 3 then emit_fixed st op_set_key 3 ops else emit_fixed st op_set_key_pgm 5 ops

unfoldable pub handle_read : Symtab → List AstNode → List ℕ
handle_read st ops = emit_instruction st (if length ops == 3 then op_read3 else op_read) ops

unfoldable pub handle_write : Symtab → List AstNode → List ℕ
handle_write st ops = emit_instruction st (if length ops == 3 then op_write3 else op_write) ops

-- The timeout, little-endian, and the flags.
unfoldable pub send_trailer : ℕ → ℕ → List ℕ
send_trailer timeout flags = u8 timeout ∷ u8 (timeout / 256) ∷ u8 flags ∷ []

-- The opcode, the mode byte and the operands of a SEND.
unfoldable pub send_head : Symtab → ℕ → List AstNode → List ℕ
send_head st opcode ops =
    opcode_code opcode (check_complex_mode st ops) (compute_mode_byte st ops ∷ [])
    ++ emit_operands st ops

unfoldable pub handle_send : Symtab → VerbStmt → Option (List ℕ)
unfolding send_head send_trailer
handle_send st node = do
  let one = length node.operands == 1
  few ← first_operands (if one then 1 else 2) node.operands
  some (
      send_head st (if one then op_send else op_send_id) few
      ++ send_trailer node.send_timeout node.send_flags)
