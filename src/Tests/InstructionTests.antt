-- ===== src/Tests/InstructionTests.antt =====
-- Tests of the instruction codec: code generator against decoder.
use tbol_toolchain.Base.{length, ◌<◌, ◌<◌, ℕ, ◌≡◌, refl, false, some, List, [], ◌∷◌, ◌++◌, arith}
use tbol_toolchain.Symtab.{init}
use tbol_toolchain.Ast.{AstNode, literal_str, gev}
use tbol_toolchain.Codegen.Instruction.{
  emit_instruction, emit_var_instruction, check_complex_mode, emit_operands,
}
use tbol_toolchain.Codegen.Operand.{needs_extended_encoding, emit_operand}
use tbol_toolchain.Codegen.Literal.{string_code}
use tbol_toolchain.Bytecode.Mnemonic.{Mnemonic}
use tbol_toolchain.Bytecode.Opcodes.{OpcodeInfo, fixed, variable, lookup_opcode, find_opcode}
use tbol_toolchain.Bytecode.Opcodes.Values.{op_add, op_string}
use tbol_toolchain.Bytecode.Opcodes.Table.{lookup_opcode-small}
use tbol_toolchain.Bytecode.Instruction.{Instruction}
use tbol_toolchain.Bytecode.Decode.{decode_instruction, decode_program}
use tbol_toolchain.RoundTrip.Instruction.{IsInstruction, emit_instruction-IsInstruction}
use tbol_toolchain.RoundTrip.Variable.{emit_var_instruction-IsInstruction}
use tbol_toolchain.Bytecode.Opcodes.System.{op_clear}
use tbol_toolchain.Codegen.Instruction.{emit_struct_clear_save}
use tbol_toolchain.RoundTrip.Clear.{IsClear, emit_struct_clear_save-IsClear}
use tbol_toolchain.RoundTrip.Program.{
  Call, IsPlain, emit_calls, AreInstructions, decode_program-emit_calls,
}

abbrev add_info : OpcodeInfo
add_info = record {
  opcode = op_add;
  mnemonic = Mnemonic.add;
  name = "ADD";
  operand_count = fixed 2;
  has_offset = false;
}

add_listed : lookup_opcode op_add ≡ some add_info
unfolding lookup_opcode find_opcode
add_listed = refl

-- The string "7" and #300, which needs the complex form.
abbrev two_operands : List AstNode
two_operands = literal_str (55 ∷ []) ∷ gev 300 ∷ []

emit_instruction-IsInstruction_example :
    (instr : Instruction) × (decode_instruction
        (λ (a b : ℕ). 0)
        9
        (emit_instruction init op_add two_operands ++ (1 ∷ []))
      ≡ some (instr, 1 ∷ []))
    × IsInstruction init op_add add_info two_operands instr
emit_instruction-IsInstruction_example =
    emit_instruction-IsInstruction init op_add add_info two_operands (1 ∷ []) (λ (a b : ℕ). 0) 9
      add_listed refl refl (omega arith) (omega arith, ((omega arith, omega arith), tt))

abbrev add_call : Call
add_call = record { opcode = op_add; info = add_info; operands = two_operands }

add_call-IsPlain : IsPlain init add_call
add_call-IsPlain = record {
  listed = add_listed;
  arity = refl;
  no_jump = refl;
  few = omega arith;
  encodable = (omega arith, ((omega arith, omega arith), tt));
}

calls_small : length (emit_calls init (add_call ∷ add_call ∷ [])) < 65536
unfolding emit_instruction check_complex_mode needs_extended_encoding emit_operands emit_operand
    string_code
calls_small = omega arith

decode_program-emit_calls_example :
    (instrs : List Instruction) × (decode_program
        (λ (a b : ℕ). 0)
        (emit_calls init (add_call ∷ add_call ∷ []))
      ≡ some instrs)
    × AreInstructions init (add_call ∷ add_call ∷ []) instrs
decode_program-emit_calls_example =
    decode_program-emit_calls init (add_call ∷ add_call ∷ []) (λ (a b : ℕ). 0) calls_small
      (add_call-IsPlain, (add_call-IsPlain, tt))

abbrev string_info : OpcodeInfo
string_info = record {
  opcode = op_string;
  mnemonic = Mnemonic.string;
  name = "STRING";
  operand_count = variable;
  has_offset = false;
}

string_listed : lookup_opcode op_string ≡ some string_info
unfolding lookup_opcode find_opcode
string_listed = refl

emit_var_instruction-IsInstruction_example :
    (instr : Instruction) × (decode_instruction
        (λ (a b : ℕ). 0)
        9
        (emit_var_instruction init op_string two_operands ++ (1 ∷ []))
      ≡ some (instr, 1 ∷ []))
    × IsInstruction init op_string string_info two_operands instr
    × (instr.var_count ≡ 2)
emit_var_instruction-IsInstruction_example =
    emit_var_instruction-IsInstruction init op_string string_info two_operands (1 ∷ [])
      (λ (a b : ℕ). 0) 9 string_listed refl refl (omega arith)
      (omega arith, ((omega arith, omega arith), tt))

lookup_opcode-small_example : (add_info.opcode ≡ op_add) × (op_add < 128)
lookup_opcode-small_example = lookup_opcode-small op_add add_info add_listed

emit_struct_clear_save-IsClear_example :
    (instr : Instruction) × (decode_instruction
        (λ (a b : ℕ). 0)
        9
        (emit_struct_clear_save op_clear 200 3 ++ (1 ∷ []))
      ≡ some (instr, 1 ∷ []))
    × IsClear 200 3 instr
emit_struct_clear_save-IsClear_example =
    emit_struct_clear_save-IsClear 200 3 (1 ∷ []) (λ (a b : ℕ). 0) 9 (omega arith) (omega arith)
