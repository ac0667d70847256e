-- ===== src/RoundTrip/Variable.antt =====
-- `emit_var_instruction` of compiler/codegen/codegen.c against `decode_instruction` of
-- shared/bytecode/decode.c: opcodes with a count byte, at most eight operands.
use tbol_toolchain.Base.{
  ℕ, ◌+◌, ◌-◌, ◌/◌, ◌%◌, ◌≤◌, ◌<◌, ◌≡◌, refl, sym, ◌∙◌, true, false, some, List, [], ◌∷◌, ◌++◌,
  length, map, All, arith, Bool-cases, inl, inr, u8,
}
use tbol_toolchain.Ast.{AstNode}
use tbol_toolchain.Symtab.{Symtab}
use tbol_toolchain.Codegen.Instruction.{
  check_complex_mode, mode_group, mode_groups, emit_operands, emit_var_instruction,
}
use tbol_toolchain.Bytecode.Opcodes.{variable, OpcodeInfo, lookup_opcode}
use tbol_toolchain.Bytecode.Opcodes.Table.{lookup_opcode-small}
use tbol_toolchain.Bytecode.Instruction.{Instruction, instruction_new}
use tbol_toolchain.Bytecode.Decode.{
  decode_arity, decode_known, opcode_byte, finish, decode_instruction,
}
use tbol_toolchain.RoundTrip.Meaning.{meaning, IsEncodable}
use tbol_toolchain.RoundTrip.Modes.{simple-ModesFit, complex-ModesFit}
use tbol_toolchain.RoundTrip.Operands.{add_operands, decode_operands-emit_operands}
use tbol_toolchain.RoundTrip.Instruction.{
  known, IsInstruction, read_mode_byte_simple, read_mode_byte_complex, simple_form, complex_form,
}

-- The count byte, on top of what the table fills in.
abbrev counted : OpcodeInfo → ℕ → Instruction → Instruction
counted info n instr = record (known info instr) { var_count = n }

module _ (st : Symtab) (info : OpcodeInfo) (ops : List AstNode) (rest : List ℕ)
    (arity : info.operand_count ≡ variable) (no_jump : info.has_offset ≡ false)
    (few : length ops ≤ 8) (enc : All (IsEncodable st) ops) (stale : ℕ → ℕ) (size : ℕ) where
  decode_known_simple :
      (instr : Instruction)
      → instr.is_complex ≡ false
      → check_complex_mode st ops ≡ false
      → decode_known stale size (some info) instr (length ops ∷ (emit_operands st ops ++ rest))
        ≡ (add_operands (counted info (length ops) instr) (map (meaning st) ops), rest)
  unfolding decode_known decode_arity
  decode_known_simple instr simple none_long =
      rw
        (read_mode_byte_simple (known info instr) (length ops ∷ (emit_operands st ops ++ rest))
          simple)
        (rw arity (
          decode_operands-emit_operands st ops size instr.mode_byte info.has_offset
            (counted info (length ops) instr) rest no_jump few enc
            (rw simple (simple-ModesFit st ops (instr.mode_byte ∷ []) 0 none_long))))

  decode_known_complex :
      (instr : Instruction)
      → instr.is_complex ≡ true
      → decode_known stale size
          (some info)
          instr
          (mode_group st 8 ops ∷ length ops ∷ (emit_operands st ops ++ rest))
        ≡ (
          add_operands
              (record (counted info (length ops) instr) { mode_byte = mode_group st 8 ops })
              (map (meaning st) ops),
          rest,
        )
  unfolding decode_known decode_arity
  decode_known_complex instr complex =
      rw
        (read_mode_byte_complex (known info instr) (mode_group st 8 ops)
          (length ops ∷ (emit_operands st ops ++ rest)) complex)
        (rw arity (
          decode_operands-emit_operands st ops size (mode_group st 8 ops) info.has_offset
            (record (counted info (length ops) instr) { mode_byte = mode_group st 8 ops }) rest
            no_jump few enc (rw complex (complex-ModesFit st ops [] few))))

module _ (st : Symtab) (opcode : ℕ) (info : OpcodeInfo) (ops : List AstNode) (rest : List ℕ)
    (stale : ℕ → ℕ → ℕ) (size : ℕ) (small : opcode < 128)
    (listed : lookup_opcode opcode ≡ some info) (arity : info.operand_count ≡ variable)
    (no_jump : info.has_offset ≡ false) (few : length ops ≤ 8)
    (enc : All (IsEncodable st) ops) where
  -- The count that is decoded is that of the operands.
  abbrev Decodes : List ℕ → Type 0
  Decodes bytes =
      (instr : Instruction) × (decode_instruction stale size bytes ≡ some (instr, rest))
      × IsInstruction st opcode info ops instr
      × (instr.var_count ≡ length ops)

  simple-Decodes :
      check_complex_mode st ops ≡ false
      → Decodes (opcode ∷ length ops ∷ (emit_operands st ops ++ rest))
  unfolding decode_instruction instruction_new
  simple-Decodes c =
      let (bit, code) = simple_form opcode small in
      let bytes = opcode ∷ length ops ∷ (emit_operands st ops ++ rest) in
      let instr = opcode_byte (size - length bytes) opcode in
      let found : lookup_opcode (opcode % 0x80) ≡ some info = rw code listed in
      let e =
        decode_known_simple st info ops rest arity no_jump few enc (stale (size - length bytes))
          size instr bit c in
      (
        (finish bytes
            (add_operands (counted info (length ops) instr) (map (meaning st) ops), rest)).0,
        rw found (rw e refl),
        record { opcode = code; mnemonic = refl; is_complex = bit ∙ sym c; operands = refl },
        refl,
      )

  complex-Decodes :
      check_complex_mode st ops ≡ true
      → Decodes
          ((opcode + 0x80) ∷ mode_group st 8 ops ∷ length ops ∷ (emit_operands st ops ++ rest))
  unfolding decode_instruction instruction_new
  complex-Decodes c =
      let (bit, code) = complex_form opcode small in
      let m = mode_group st 8 ops in
      let bytes = (opcode + 0x80) ∷ m ∷ length ops ∷ (emit_operands st ops ++ rest) in
      let instr = opcode_byte (size - length bytes) (opcode + 0x80) in
      let found : lookup_opcode ((opcode + 0x80) % 0x80) ≡ some info = rw code listed in
      let e =
        decode_known_complex st info ops rest arity no_jump few enc (stale (size - length bytes))
          size instr bit in
      (
        (finish bytes (
          add_operands (record (counted info (length ops) instr) { mode_byte = m })
              (map (meaning st) ops),
          rest,
        )).0,
        rw found (rw e refl),
        record { opcode = code; mnemonic = refl; is_complex = bit ∙ sym c; operands = refl },
        refl,
      )

-- Up to eight operands have one mode byte.
mode_groups_one :
    (st : Symtab) (ops : List AstNode)
    → check_complex_mode st ops ≡ true
    → length ops ≤ 8
    → mode_groups st ((length ops + 7) / 8) ops ≡ mode_group st 8 ops ∷ []
unfolding mode_groups check_complex_mode
mode_groups_one st [] c few = cc
mode_groups_one st (op ∷ ops) c few =
    let one : (length (op ∷ ops) + 7) / 8 ≡ 1 = omega arith in rw one refl

-- An instruction with a count byte, of at most eight encodable operands, whose opcode the decoder's
-- table lists as such and without a jump offset, is decoded as itself: the opcode with its mnemonic,
-- the form that the code generator chose, the count, and the operands as what they mean, and exactly
-- the bytes that follow are left.
pub emit_var_instruction-IsInstruction :
    (st : Symtab) (opcode : ℕ) (info : OpcodeInfo) (ops : List AstNode) (rest : List ℕ)
    (stale : ℕ → ℕ → ℕ) (size : ℕ)
    → lookup_opcode opcode ≡ some info
    → info.operand_count ≡ variable
    → info.has_offset ≡ false
    → length ops ≤ 8
    → All (IsEncodable st) ops
    → (instr : Instruction) × (decode_instruction stale size
          (emit_var_instruction st opcode ops ++ rest)
        ≡ some (instr, rest))
      × IsInstruction st opcode info ops instr
      × (instr.var_count ≡ length ops)
unfolding emit_var_instruction
emit_var_instruction-IsInstruction st opcode info ops rest stale size listed arity no_jump few enc =
    let count : u8 (length ops) ≡ length ops = omega arith in
    elim (Bool-cases (check_complex_mode st ops)) [
      | inl c ↦
          rw (c, count)
            (rw (mode_groups_one st ops c few) (
              complex-Decodes st opcode info ops rest stale size
                (lookup_opcode-small opcode info listed).1 listed arity no_jump few enc c))
      | inr c ↦
          rw (c, count)
            (simple-Decodes st opcode info ops rest stale size
              (lookup_opcode-small opcode info listed).1 listed arity no_jump few enc c)
    ]
