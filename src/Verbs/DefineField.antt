-- ===== src/Verbs/DefineField.antt =====
-- DEFINE_FIELD of compiler/codegen/codegen_verbs.c.
use tbol_toolchain.Base.{ℕ, List, [], ◌∷◌, ◌++◌}
use tbol_toolchain.Ast.{AstNode}
use tbol_toolchain.Symtab.{Symtab}
use tbol_toolchain.Codegen.Instruction.{emit_operands, emit_instruction}
use tbol_toolchain.Bytecode.Opcodes.Flow.{op_def_field, op_def_field_st}

-- Name, column, width and height go by the mode byte; the object, a state and a flag follow.
unfoldable pub gen_define_field : Symtab → List AstNode → List ℕ
gen_define_field st (name ∷ row ∷ col ∷ width ∷ height ∷ object_id ∷ []) =
    emit_instruction st op_def_field (name ∷ col ∷ width ∷ height ∷ [])
    ++ (emit_operands st (object_id ∷ []) ++ (0x01 ∷ []))
gen_define_field st (name ∷ row ∷ col ∷ width ∷ height ∷ object_id ∷ state ∷ ops) =
    emit_instruction st op_def_field_st (name ∷ col ∷ width ∷ height ∷ [])
    ++ (emit_operands st (object_id ∷ state ∷ []) ++ (0x01 ∷ []))
gen_define_field st ops = []
