-- ===== src/Bytecode/Decode.antt =====
-- `decode_instruction` and `decode_program` of shared/bytecode/decode.c. The loop of
-- `decode_program` takes fuel; `none` is that the fuel ran out.
pub mod Advance
pub mod Tiling
use tbol_toolchain.Base.{
  ℕ, zero, suc, ◌+◌, ◌-◌, ◌*◌, ◌/◌, ◌%◌, Bool, true, false, ◌&&◌, Option, none, some, List, [], ◌∷◌,
  length, take, ltb, ◌==◌, ◌||◌, if◌then◌else◌, u16,
}
use tbol_toolchain.Bytecode.Opcodes.Flow.{
  op_def_field, op_def_field_st, op_set_att, op_send, op_send_id,
}
use tbol_toolchain.Bytecode.Opcodes.Values.{op_make_format}
use tbol_toolchain.Bytecode.Opcodes.System.{op_go_dep, op_save, op_clear, op_move_block}
use tbol_toolchain.Bytecode.Mnemonic.{Mnemonic}
use tbol_toolchain.Bytecode.Opcodes.{Arity, fixed, variable, special, OpcodeInfo, lookup_opcode}
use tbol_toolchain.Bytecode.Operand.{read_offset}
use tbol_toolchain.Bytecode.Instruction.{
  Instruction, instruction_new, test_bit, read_mode_bytes, read_operands, read_count,
}
use tbol_toolchain.Bytecode.Special.{
  decode_goto_dep, decode_make_format, decode_define_field, decode_set_attribute, decode_send,
}

-- The jump offset, if two bytes are left; its target counts from the byte after it, modulo 2 ^ 16.
unfoldable pub read_jump : ℕ → Bool → Instruction → List ℕ → Instruction × List ℕ
read_jump size has_offset instr rest =
    let (offset, rest') = read_offset rest in
    if has_offset && ltb 1 (length rest)
    then (
      record instr { jump_offset = offset; jump_target = u16 (size - length rest' + offset) },
      rest',
    )
    else (instr, rest)

-- From "Read additional mode bytes" on: the operands, then the jump offset.
unfoldable pub decode_operands : ℕ → Bool → ℕ → ℕ → Instruction → List ℕ → Instruction × List ℕ
unfolding read_jump
decode_operands size has_offset mode_byte op_count instr rest =
    let extra = if instr.is_complex && ltb 8 op_count then (op_count - 8 + 7) / 8 else 0 in
    let (modes, rest₁) = read_mode_bytes extra rest in
    let (instr', rest₂) = read_operands op_count 0 (mode_byte ∷ modes) instr rest₁ in
    read_jump size has_offset instr' rest₂

-- `op_count == -2`: the decoder of the opcode.
unfoldable pub decode_special : (ℕ → ℕ) → ℕ → Bool → ℕ → Instruction → List ℕ → Instruction × List ℕ
decode_special stale size has_offset mode_byte instr rest =
    let opcode = instr.opcode in
    let (counted, rest') = read_count instr rest in
    if opcode == op_clear
    then decode_operands size has_offset mode_byte 1 counted rest'
    else if opcode == op_go_dep
    then decode_goto_dep stale size mode_byte instr rest
    else if opcode == op_make_format
    then decode_make_format mode_byte instr rest
    else if opcode == op_def_field || opcode == op_def_field_st
    then decode_define_field mode_byte instr rest
    else if opcode == op_set_att
    then decode_set_attribute mode_byte instr rest
    else if opcode == op_save
    then decode_operands size has_offset mode_byte 2 counted rest'
    else if opcode == op_move_block
    then decode_operands size has_offset mode_byte 2 counted rest'
    else if opcode == op_send || opcode == op_send_id
    then decode_send mode_byte instr rest
    else decode_operands size has_offset mode_byte 0 instr rest

-- "Determine operand count and decode operands"; with no count byte left, an instruction of the
-- variable form ends.
unfoldable pub decode_arity :
    (ℕ → ℕ) → ℕ → Bool → ℕ → Arity → Instruction → List ℕ → Instruction × List ℕ
unfolding decode_special
decode_arity stale size has_offset mode_byte (fixed n) instr rest =
    decode_operands size has_offset mode_byte n instr rest
decode_arity stale size has_offset mode_byte variable instr [] = (instr, [])
decode_arity stale size has_offset mode_byte variable instr (n ∷ rest) =
    decode_operands size has_offset mode_byte n (record instr { var_count = n }) rest
decode_arity stale size has_offset mode_byte special instr rest =
    decode_special stale size has_offset mode_byte instr rest

-- "Read mode byte if complex"
unfoldable pub read_mode_byte : Instruction → List ℕ → Instruction × List ℕ
read_mode_byte instr [] = (instr, [])
read_mode_byte instr (b ∷ rest) =
    if instr.is_complex then (record instr { mode_byte = b }, rest) else (instr, b ∷ rest)

-- The instruction of a known opcode after its opcode byte, and of an unknown one.
unfoldable pub decode_known :
    (ℕ → ℕ) → ℕ → Option OpcodeInfo → Instruction → List ℕ → Instruction × List ℕ
unfolding decode_arity read_mode_byte
decode_known stale size none instr rest =
    (record instr { mnemonic = Mnemonic.unknown; mnem_str = "???" }, rest)
decode_known stale size (some info) instr rest =
    let instr₁ : Instruction = record instr {
      mnemonic = info.mnemonic;
      mnem_str = info.name;
      has_jump = info.has_offset;
    } in
    let (instr₂, rest₂) = read_mode_byte instr₁ rest in
    decode_arity stale size info.has_offset instr₂.mode_byte info.operand_count instr₂ rest₂

-- The opcode byte: bit 7 is the flag of the complex form.
abbrev pub opcode_byte : ℕ → ℕ → Instruction
opcode_byte start_pos b = record (instruction_new start_pos) {
  raw_opcode = b;
  is_complex = test_bit b 7;
  opcode = b % 0x80;
}

-- The length is set on every path out, as a 16-bit number.
abbrev pub finish : List ℕ → Instruction × List ℕ → Instruction × List ℕ
finish start (instr, rest) = (record instr { length = u16 (length start - length rest) }, rest)

-- NULL at the end of the code.
unfoldable pub decode_instruction : (ℕ → ℕ → ℕ) → ℕ → List ℕ → Option (Instruction × List ℕ)
unfolding decode_known
decode_instruction stale size [] = none
decode_instruction stale size (b ∷ rest) =
    let start_pos = size - length (b ∷ rest) in
    let instr = opcode_byte start_pos b in
    some (
      finish (b ∷ rest)
        (decode_known (stale start_pos) size (lookup_opcode instr.opcode) instr rest))

-- The loop, on the bytes that are left. It breaks off where no instruction is decoded.
unfoldable pub decode_loop : (ℕ → ℕ → ℕ) → ℕ → ℕ → List ℕ → Option (List Instruction)
decode_loop stale size fuel [] = some []
decode_loop stale size zero (b ∷ rest) = none
decode_loop stale size (suc fuel) (b ∷ rest) = elim (decode_instruction stale size (b ∷ rest)) [
  | none ↦ some []
  | some (instr, rest') ↦ elim (decode_loop stale size fuel rest') [
    | none ↦ none
    | some instrs ↦ some (instr ∷ instrs)
  ]
]

-- `prog->code` as far as `prog->code_size` says, a uint16_t.
unfoldable pub sized_code : List ℕ → List ℕ
sized_code code = take (u16 (length code)) code

-- The loop on the code of the program; every instruction takes a byte at least.
unfoldable pub decode_sized : (ℕ → ℕ → ℕ) → List ℕ → Option (List Instruction)
unfolding decode_loop
decode_sized stale code = decode_loop stale (length code) (length code) code

-- `prog->instructions` for a program of this code.
unfoldable pub decode_program : (ℕ → ℕ → ℕ) → List ℕ → Option (List Instruction)
unfolding decode_sized sized_code
decode_program stale code = decode_sized stale (sized_code code)
