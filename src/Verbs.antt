-- ===== src/Verbs.antt =====
-- compiler/codegen/codegen_verbs.c: the code of the verbs. What a verb emits is a list of bytes, as
-- in Codegen; GOTO_DEPENDING_ON and calls, which refer to labels and procedures, have modules of
-- their own. A read past the operands of a verb is `none`.
pub mod Simple
pub mod Structure
pub mod SetFunction
pub mod SetAttribute
pub mod MakeFormat
pub mod DefineField
pub mod Table
use tbol_toolchain.Base.{ℕ, zero, suc, Option, none, some, List, [], ◌∷◌, ◌>>=◌}
use tbol_toolchain.Ast.{AstNode}
use tbol_toolchain.Symtab.{Symtab}
use tbol_toolchain.Symtab.Names.{Name}
use tbol_toolchain.Codegen.Instruction.{emit_instruction}

-- An AST_VERB_STMT: the name, the children, and the data of SEND, of which the timeout is the bit
-- pattern of an `int16_t`.
pub record VerbStmt : Type 0 where
  pub name : Name
  pub operands : List AstNode
  pub send_timeout : ℕ
  pub send_flags : ℕ

-- The first `count` places of an array of operands.
unfoldable pub first_operands : ℕ → List AstNode → Option (List AstNode)
first_operands zero ops = some []
first_operands (suc n) [] = none
first_operands (suc n) (op ∷ ops) = do rest ← first_operands n ops; some (op ∷ rest)

-- `emit_instruction(opcode, operands, count)` where `count` is not the number of the operands.
unfoldable pub emit_fixed : Symtab → ℕ → ℕ → List AstNode → Option (List ℕ)
unfolding first_operands
emit_fixed st opcode count ops = do
  few ← first_operands count ops
  some (emit_instruction st opcode few)
