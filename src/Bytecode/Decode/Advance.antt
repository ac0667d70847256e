-- ===== src/Bytecode/Decode/Advance.antt =====
-- `decode_instruction` of shared/bytecode/decode.c moves forward, whatever the opcode.
use tbol_toolchain.Base.{
  ℕ, ◌+◌, ◌-◌, ◌≤◌, ◌<◌, ◌≡◌, refl, ◌∙◌, Bool, Option, none, some, List, [], ◌∷◌, length, arith,
  ◌==◌, ◌||◌,
}
use tbol_toolchain.Bytecode.Opcodes.Flow.{op_send, op_send_id}
use tbol_toolchain.Bytecode.Opcodes.System.{op_save, op_move_block}
use tbol_toolchain.Bytecode.Operand.{read_offset}
use tbol_toolchain.Bytecode.Instruction.{Instruction, instruction_new, read_count}
use tbol_toolchain.Bytecode.Instruction.Progress.{
  Advances, stays, Advances-trans, Advances-skip, length-read_mode_bytes, read_operands-Advances,
  read_count-Advances,
}
use tbol_toolchain.Bytecode.Special.Progress.{
  if-Advances, decode_goto_dep-Advances, decode_make_format-Advances, decode_define_field-Advances,
  decode_set_attribute-Advances, decode_send-Advances,
}
use tbol_toolchain.Bytecode.Opcodes.{lookup_opcode, Arity, fixed, variable, special, OpcodeInfo}
use tbol_toolchain.Bytecode.Decode.{
  read_jump, decode_operands, decode_special, decode_arity, read_mode_byte, decode_known,
  decode_instruction, finish, opcode_byte,
}

read_jump-Advances :
    (size : ℕ) (has_offset : Bool) (instr : Instruction) (rest : List ℕ)
    → Advances instr rest (read_jump size has_offset instr rest)
unfolding read_jump read_offset
read_jump-Advances size has_offset instr [] = ground arith
read_jump-Advances size has_offset instr (a ∷ []) = ground arith
read_jump-Advances size has_offset instr (a ∷ b ∷ rest) = ground arith

decode_operands-Advances :
    (size : ℕ) (has_offset : Bool) (mode_byte n : ℕ) (instr : Instruction) (rest : List ℕ)
    → Advances instr rest (decode_operands size has_offset mode_byte n instr rest)
unfolding decode_operands
decode_operands-Advances size has_offset mode_byte n instr rest =
    Advances-skip (length-read_mode_bytes _ rest) (
      Advances-trans (read_operands-Advances n 0 _ instr _)
        (read_jump-Advances size has_offset _ _))

decode_special-Advances :
    (stale : ℕ → ℕ) (size : ℕ) (has_offset : Bool) (mode_byte : ℕ) (instr : Instruction)
    (rest : List ℕ)
    → Advances instr rest (decode_special stale size has_offset mode_byte instr rest)
unfolding decode_special
decode_special-Advances stale size has_offset mode_byte instr rest =
    let opcode = instr.opcode in
    if-Advances _ _ _ _ _ (counted 1) (
      if-Advances _ _ _ _ _ (decode_goto_dep-Advances stale size mode_byte instr rest) (
        if-Advances _ _ _ _ _ (decode_make_format-Advances mode_byte instr rest) (
          if-Advances _ _ _ _ _ (decode_define_field-Advances mode_byte instr rest) (
            if-Advances _ _ _ _ _ (decode_set_attribute-Advances mode_byte instr rest) (
              if-Advances (opcode == op_save) _ _ _ _ (counted 2) (
                if-Advances (opcode == op_move_block) _ _ _ _ (counted 2) (
                  if-Advances (opcode == op_send || opcode == op_send_id) _ _ _ _
                    (decode_send-Advances mode_byte instr rest)
                    (decode_operands-Advances size has_offset mode_byte 0 instr rest))))))))
  where
    counted :
        (n : ℕ)
        → Advances instr rest (
            decode_operands size has_offset mode_byte n
              (read_count instr rest).0
              (read_count instr rest).1)
    counted n =
        Advances-trans (read_count-Advances instr rest)
          (decode_operands-Advances size has_offset mode_byte n _ _)

decode_arity-Advances :
    (stale : ℕ → ℕ) (size : ℕ) (has_offset : Bool) (mode_byte : ℕ) (arity : Arity)
    (instr : Instruction) (rest : List ℕ)
    → Advances instr rest (decode_arity stale size has_offset mode_byte arity instr rest)
unfolding decode_arity
decode_arity-Advances stale size has_offset mode_byte (fixed n) instr rest =
    decode_operands-Advances size has_offset mode_byte n instr rest
decode_arity-Advances stale size has_offset mode_byte variable instr [] = stays instr []
decode_arity-Advances stale size has_offset mode_byte variable instr (n ∷ rest) =
    let instr' : Instruction = record instr { var_count = n } in
    Advances-trans {r = (instr', rest)} (record { address = refl; shorter = omega arith })
      (decode_operands-Advances size has_offset mode_byte n instr' rest)
decode_arity-Advances stale size has_offset mode_byte special instr rest =
    decode_special-Advances stale size has_offset mode_byte instr rest

read_mode_byte-Advances :
    (instr : Instruction) (rest : List ℕ) → Advances instr rest (read_mode_byte instr rest)
unfolding read_mode_byte
read_mode_byte-Advances instr [] = stays instr []
read_mode_byte-Advances instr (b ∷ rest) = ground arith

decode_known-Advances :
    (stale : ℕ → ℕ) (size : ℕ) (info : Option OpcodeInfo) (instr : Instruction) (rest : List ℕ)
    → Advances instr rest (decode_known stale size info instr rest)
unfolding decode_known
decode_known-Advances stale size none instr rest = record { address = refl; shorter = omega arith }
decode_known-Advances stale size (some info) instr rest =
    let instr₁ : Instruction = record instr {
      mnemonic = info.mnemonic;
      mnem_str = info.name;
      has_jump = info.has_offset;
    } in
    Advances-trans {r = (instr₁, rest)} (record { address = refl; shorter = omega arith })
      (Advances-trans (read_mode_byte-Advances instr₁ rest)
        (decode_arity-Advances stale size info.has_offset _ info.operand_count _ _))

-- Where code is left, in a program of less than 64 KiB, an instruction is decoded: it is labelled with
-- its position, it takes a byte at least and no more than are left, and its length is what it takes.
pub decode_instruction-advances :
    (stale : ℕ → ℕ → ℕ) (size b : ℕ) (rest : List ℕ)
    → size < 65536
    → length (b ∷ rest) ≤ size
    → (instr : Instruction) × (rest' : List ℕ) × (decode_instruction stale size (b ∷ rest)
        ≡ some (instr, rest'))
      × (instr.address ≡ size - length (b ∷ rest))
      × (instr.length + length rest' ≡ length (b ∷ rest))
      × (1 ≤ instr.length)
unfolding decode_instruction instruction_new
decode_instruction-advances stale size b rest small fits =
    let start_pos = size - length (b ∷ rest) in
    let instr = opcode_byte start_pos b in
    let a = decode_known-Advances (stale start_pos) size (lookup_opcode instr.opcode) instr rest in
    (
      (finish (b ∷ rest)
          (decode_known (stale start_pos) size (lookup_opcode instr.opcode) instr rest)).0,
      (decode_known (stale start_pos) size (lookup_opcode instr.opcode) instr rest).1,
      refl,
      a.address ∙ omega arith,
      omega (arith, a.shorter),
      omega (arith, a.shorter),
    )
