-- ===== src/RoundTrip/Clear.antt =====
-- `emit_struct_clear_save` of compiler/codegen/codegen.c for CLEAR, against `decode_instruction` of
-- shared/bytecode/decode.c.
use tbol_toolchain.Base.{
  ℕ, ◌+◌, ◌-◌, ◌≤◌, ◌≡◌, refl, sym, ◌∙◌, true, false, some, List, [], ◌∷◌, ◌++◌, length, arith,
  Bool-cases, inl, inr, ltb, if◌then◌else◌,
}
use tbol_toolchain.Ast.{AstNode, rda_slot}
use tbol_toolchain.Symtab.{init}
use tbol_toolchain.Codegen.Operand.{
  needs_extended_encoding, emit_operand, compute_operand_value, rda_value,
}
use tbol_toolchain.Codegen.Instruction.{
  mode_group, emit_operands, emit_struct_clear_save, check_complex_mode,
}
use tbol_toolchain.Bytecode.Ir.{OperandKind, operand_new}
use tbol_toolchain.Bytecode.Opcodes.{OpcodeInfo, special, lookup_opcode, find_opcode}
use tbol_toolchain.Bytecode.Opcodes.System.{op_clear}
use tbol_toolchain.Bytecode.Mnemonic.{Mnemonic}
use tbol_toolchain.Bytecode.Instruction.{Instruction, instruction_new, read_count}
use tbol_toolchain.Bytecode.Decode.{
  decode_arity, decode_special, decode_known, opcode_byte, finish, decode_instruction,
  read_mode_byte,
}
use tbol_toolchain.RoundTrip.Modes.{simple-ModesFit, complex-ModesFit}
use tbol_toolchain.RoundTrip.Operands.{add_operands, decode_operands-emit_operands}

-- The slot as an operand of the source.
abbrev slot_operand : ℕ → List AstNode
slot_operand slot = rda_slot slot ∷ []

abbrev clear_info : OpcodeInfo
clear_info = record {
  opcode = op_clear;
  mnemonic = Mnemonic.clear;
  name = "CLEAR";
  operand_count = special;
  has_offset = false;
}

clear_listed : lookup_opcode op_clear ≡ some clear_info
unfolding lookup_opcode find_opcode
clear_listed = refl

slot_code :
    (slot count : ℕ) (rest : List ℕ)
    → slot ≤ 221
    → count ≤ 255
    → emit_struct_clear_save op_clear slot count ++ rest ≡ (
        if ltb 157 slot
        then (op_clear + 0x80)
          ∷ mode_group init 8 (slot_operand slot)
          ∷ count
          ∷ (emit_operands init (slot_operand slot) ++ rest)
        else op_clear ∷ count ∷ (emit_operands init (slot_operand slot) ++ rest))
unfolding emit_struct_clear_save emit_operands mode_group emit_operand needs_extended_encoding
    compute_operand_value rda_value
slot_code slot count rest h c = elim (Bool-cases (ltb 157 slot)) [
  | inl e ↦ rw e (ground arith)
  | inr e ↦ rw e (ground arith)
]

needs_slot : (slot : ℕ) → slot ≤ 221 → check_complex_mode init (slot_operand slot) ≡ ltb 157 slot
unfolding check_complex_mode needs_extended_encoding compute_operand_value rda_value
needs_slot slot h = ground arith

-- A CLEAR of count slots from the slot on, complex for the slots that the short form has no byte for.
pub record IsClear (slot count : ℕ) (instr : Instruction) : Type 0 where
  pub opcode : instr.opcode ≡ op_clear
  pub is_complex : instr.is_complex ≡ ltb 157 slot
  pub mnemonic : instr.mnemonic ≡ Mnemonic.clear
  pub var_count : instr.var_count ≡ count
  pub operands : instr.operands ≡ operand_new OperandKind.rda slot ∷ []

module _ (slot count : ℕ) (rest : List ℕ) (stale : ℕ → ℕ → ℕ) (size : ℕ) (h : slot ≤ 221) where
  abbrev Clears : List ℕ → Type 0
  Clears bytes =
      (instr : Instruction) × (decode_instruction stale size bytes ≡ some (instr, rest))
      × IsClear slot count instr

  -- The instruction once opcode, mode byte and count are read.
  abbrev opened : ℕ → Instruction → Instruction
  opened m instr = record instr {
    mnemonic = Mnemonic.clear;
    mnem_str = "CLEAR";
    has_jump = false;
    mode_byte = m;
    var_count = count;
  }

  simple-Clears :
      ltb 157 slot ≡ false
      → Clears (op_clear ∷ count ∷ (emit_operands init (slot_operand slot) ++ rest))
  unfolding decode_instruction decode_known decode_arity decode_special read_mode_byte read_count
      lookup_opcode find_opcode instruction_new
  simple-Clears short =
      let bytes = op_clear ∷ count ∷ (emit_operands init (slot_operand slot) ++ rest) in
      let instr = opcode_byte (size - length bytes) op_clear in
      let e =
        decode_operands-emit_operands init (slot_operand slot) size 0 false (opened 0 instr) rest
          refl (omega arith) (h, tt)
          (simple-ModesFit init (slot_operand slot) (0 ∷ []) 0 (needs_slot slot h ∙ short)) in
      (
        (finish bytes
            (add_operands (opened 0 instr) (operand_new OperandKind.rda slot ∷ []), rest)).0,
        rw e refl,
        record {
          opcode = refl;
          is_complex = sym short;
          mnemonic = refl;
          var_count = refl;
          operands = refl;
        },
      )

  complex-Clears :
      ltb 157 slot ≡ true
      → Clears (
          (op_clear + 0x80)
          ∷ mode_group init 8 (slot_operand slot)
          ∷ count
          ∷ (emit_operands init (slot_operand slot) ++ rest))
  unfolding decode_instruction decode_known decode_arity decode_special read_mode_byte read_count
      lookup_opcode find_opcode instruction_new
  complex-Clears long =
      let m = mode_group init 8 (slot_operand slot) in
      let bytes =
        (op_clear + 0x80) ∷ m ∷ count ∷ (emit_operands init (slot_operand slot) ++ rest) in
      let instr = opcode_byte (size - length bytes) (op_clear + 0x80) in
      let e =
        decode_operands-emit_operands init (slot_operand slot) size m false (opened m instr) rest
          refl (omega arith) (h, tt) (complex-ModesFit init (slot_operand slot) [] (omega arith)) in
      (
        (finish bytes
            (add_operands (opened m instr) (operand_new OperandKind.rda slot ∷ []), rest)).0,
        rw e refl,
        record {
          opcode = refl;
          is_complex = sym long;
          mnemonic = refl;
          var_count = refl;
          operands = refl;
        },
      )

-- CLEAR of at most 255 slots, from a slot that exists on, is decoded as itself, in the short form up
-- to slot 157 and in the complex form above: a CLEAR whose count is that of the slots and whose one
-- operand is the first of them, and exactly the bytes that follow are left.
pub emit_struct_clear_save-IsClear :
    (slot count : ℕ) (rest : List ℕ) (stale : ℕ → ℕ → ℕ) (size : ℕ)
    → slot ≤ 221
    → count ≤ 255
    → (instr : Instruction) × (decode_instruction stale size
          (emit_struct_clear_save op_clear slot count ++ rest)
        ≡ some (instr, rest))
      × IsClear slot count instr
emit_struct_clear_save-IsClear slot count rest stale size h c = elim (Bool-cases (ltb 157 slot)) [
  | inl long ↦
      rw (slot_code slot count rest h c)
        (rw long (complex-Clears slot count rest stale size h long))
  | inr short ↦
      rw (slot_code slot count rest h c)
        (rw short (simple-Clears slot count rest stale size h short))
]
