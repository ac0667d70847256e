-- ===== src/Tests/RoundTripTests.antt =====
-- Tests of the operand codec: code generator against decoder.
use tbol_toolchain.Base.{ℕ, ◌++◌, codes, ◌≡◌, false, inl, inr, some, List, [], ◌∷◌, arith, length}
use tbol_toolchain.Symtab.{init}
use tbol_toolchain.Ast.{AstNode, literal_num, reg_i, gev, indexed}
use tbol_toolchain.Codegen.Operand.{constant_index}
use tbol_toolchain.Codegen.Literal.{hex_code, skip_0x}
use tbol_toolchain.Bytecode.Ir.{operand_new_str}
use tbol_toolchain.Bytecode.Operand.{read_operand}
use tbol_toolchain.RoundTrip.Meaning.{meaning}
use tbol_toolchain.RoundTrip.Place.{ReadsBack}
use tbol_toolchain.RoundTrip.Literal.{bytes_value, read_operand-hex_code}
use tbol_toolchain.RoundTrip.Operand.{emit_operand-ReadsBack}

-- 0x12a, two bytes, with a byte behind it.
abbrev literal : List ℕ
literal = codes "0x12a"

read_operand-hex_code_example :
    (bytes : List ℕ) × (read_operand (hex_code literal ++ (7 ∷ [])) false
      ≡ (some (operand_new_str bytes), 7 ∷ []))
    × (length bytes ≡ 2)
    × (bytes_value 0 bytes ≡ 0x12a)
unfolding skip_0x
read_operand-hex_code_example = read_operand-hex_code literal (7 ∷ []) false (omega arith) (
  inl (omega arith, omega arith),
  (inl (omega arith, omega arith), (inr (inr (omega arith, omega arith)), tt)),
)

-- The literal 3.
abbrev three : AstNode
three = literal_num (51 ∷ [])

emit_operand-ReadsBack_example :
    ReadsBack init (indexed (gev 300) (reg_i 2)) (meaning init (indexed (gev 300) (reg_i 2)))
unfolding constant_index
emit_operand-ReadsBack_example =
    emit_operand-ReadsBack init (indexed (gev 300) (reg_i 2))
      ((omega arith, omega arith), (omega arith, omega arith))
