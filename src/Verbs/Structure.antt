-- ===== src/Verbs/Structure.antt =====
-- MOVE, CLEAR and SAVE of compiler/codegen/codegen_verbs.c, which look up arrays and structures.
use tbol_toolchain.Base.{ℕ, Option, none, some, List, [], ◌∷◌, ◌++◌, ltb, if◌then◌else◌, u8}
use tbol_toolchain.Ast.{AstNode, ident}
use tbol_toolchain.Symtab.{
  Symtab, VarSymbol, StructureGroup, lookup_var, lookup_structure, var_slot,
}
use tbol_toolchain.Codegen.Instruction.{
  check_complex_mode, compute_mode_byte, emit_operands, opcode_code, emit_instruction,
  emit_var_instruction, emit_struct_clear_save, emit_range_instruction,
}
use tbol_toolchain.Bytecode.Opcodes.Values.{op_move}
use tbol_toolchain.Bytecode.Opcodes.System.{
  op_move_block, op_clear, op_clear_range, op_save, op_save_range,
}

-- The opcode, the mode byte, a count and two operands: MOVE_BLOCK of an array and SAVE.
unfoldable pub emit_counted : Symtab → ℕ → ℕ → List AstNode → List ℕ
emit_counted st opcode count ops =
    opcode_code opcode (check_complex_mode st ops) (compute_mode_byte st ops ∷ [])
    ++ (u8 count ∷ emit_operands st ops)

-- The size of an array, and 0 for what is none.
array_size_of : Option VarSymbol → ℕ
array_size_of (some sym) = sym.array_size
array_size_of none = 0

moved_size : Symtab → AstNode → AstNode → ℕ
unfolding array_size_of
moved_size st (ident src) (ident dst) = array_size_of (lookup_var src st)
moved_size st _ _ = 0

unfoldable pub handle_move : Symtab → List AstNode → List ℕ
unfolding moved_size emit_counted
handle_move st (src ∷ dst ∷ []) =
    if ltb 0 (moved_size st src dst)
    then emit_counted st op_move_block (moved_size st src dst) (src ∷ dst ∷ [])
    else emit_instruction st op_move (src ∷ dst ∷ [])
handle_move st (a ∷ b ∷ c ∷ []) = emit_instruction st op_move_block (a ∷ b ∷ c ∷ [])
handle_move st _ = []

-- A name of several slots: the first of them and their number. A structure goes before an array.
unfoldable pub extent_of : Option StructureGroup → Option VarSymbol → Option (ℕ × ℕ)
extent_of (some sg) sym = some (sg.start_slot, sg.count)
extent_of none (some sym) =
    if ltb 0 sym.array_size then some (var_slot sym, sym.array_size) else none
extent_of none none = none

unfoldable pub named_extent : Symtab → AstNode → Option (ℕ × ℕ)
unfolding extent_of
named_extent st (ident name) = extent_of (lookup_structure name st) (lookup_var name st)
named_extent st _ = none

-- CLEAR and SAVE of one operand.
emit_whole : Symtab → ℕ → AstNode → List ℕ
unfolding named_extent
emit_whole st opcode op = elim (named_extent st op) [
  | some extent ↦ emit_struct_clear_save opcode extent.0 extent.1
  | none ↦ emit_var_instruction st opcode (op ∷ [])
]

unfoldable pub handle_clear : Symtab → List AstNode → List ℕ
unfolding emit_whole
handle_clear st (op ∷ []) = emit_whole st op_clear op
handle_clear st (first ∷ last ∷ []) = emit_range_instruction st op_clear_range (first ∷ []) last
handle_clear st ops = emit_var_instruction st op_clear ops

-- The count byte of SAVE with a key: the extent of what is saved, 1 for a plain variable.
unfoldable pub saved_count : Symtab → AstNode → ℕ
unfolding named_extent
saved_count st op = elim (named_extent st op) [ some extent ↦ extent.1 | none ↦ 1 ]

unfoldable pub handle_save : Symtab → List AstNode → List ℕ
unfolding emit_whole emit_counted saved_count
handle_save st (op ∷ []) = emit_whole st op_save op
handle_save st (key ∷ slot ∷ []) = emit_counted st op_save (saved_count st slot) (key ∷ slot ∷ [])
handle_save st (key ∷ start ∷ last ∷ []) =
    emit_range_instruction st op_save_range (key ∷ start ∷ []) last
handle_save st ops = emit_var_instruction st op_save ops
