-- ===== src/RoundTrip/Instruction.antt =====
-- `emit_instruction` of compiler/codegen/codegen.c against `decode_instruction` of
-- shared/bytecode/decode.c, for opcodes with a fixed number of operands and no jump offset.
use tbol_toolchain.Base.{
  ℕ, ◌+◌, ◌-◌, ◌%◌, ◌≤◌, ◌<◌, ◌≡◌, refl, sym, ap, ◌∙◌, Bool, true, false, some, List, [], ◌∷◌, ◌++◌,
  length, map, All, arith, if◌then◌else◌, Bool-cases, inl, inr,
}
use tbol_toolchain.Ast.{AstNode}
use tbol_toolchain.Symtab.{Symtab}
use tbol_toolchain.Codegen.Instruction.{
  check_complex_mode, mode_group, compute_mode_byte, emit_operands, emit_instruction,
}
use tbol_toolchain.Bytecode.Opcodes.{fixed, OpcodeInfo, lookup_opcode}
use tbol_toolchain.Bytecode.Opcodes.Table.{lookup_opcode-small}
use tbol_toolchain.Bytecode.Instruction.{Instruction, instruction_new, test_bit}
use tbol_toolchain.Bytecode.Decode.{
  decode_arity, read_mode_byte, decode_known, opcode_byte, finish, decode_instruction,
}
use tbol_toolchain.RoundTrip.Meaning.{meaning, IsEncodable}
use tbol_toolchain.RoundTrip.Modes.{simple-ModesFit, complex-ModesFit}
use tbol_toolchain.RoundTrip.Operands.{add_operands, decode_operands-emit_operands}

pub simple_form :
    (opcode : ℕ) → opcode < 128 → (test_bit opcode 7 ≡ false) × (opcode % 0x80 ≡ opcode)
simple_form opcode small = (ground arith, omega arith)

pub complex_form :
    (opcode : ℕ)
    → opcode < 128
    → (test_bit (opcode + 0x80) 7 ≡ true) × ((opcode + 0x80) % 0x80 ≡ opcode)
complex_form opcode small = (ground arith, omega arith)

pub read_mode_byte_simple :
    (instr : Instruction) (rest : List ℕ)
    → instr.is_complex ≡ false
    → read_mode_byte instr rest ≡ (instr, rest)
unfolding read_mode_byte
read_mode_byte_simple instr [] e = refl
read_mode_byte_simple instr (b ∷ rest) e = rw e refl

pub read_mode_byte_complex :
    (instr : Instruction) (b : ℕ) (rest : List ℕ)
    → instr.is_complex ≡ true
    → read_mode_byte instr (b ∷ rest) ≡ (record instr { mode_byte = b }, rest)
unfolding read_mode_byte
read_mode_byte_complex instr b rest e =
    ap (λ (c : Bool). if c then (record instr { mode_byte = b }, rest) else (instr, b ∷ rest)) e

-- The instruction that a decoder makes of an opcode and operands of the source.
pub record IsInstruction (st : Symtab) (code : ℕ) (info : OpcodeInfo) (ops : List AstNode)
    (instr : Instruction) : Type 0 where
  pub opcode : instr.opcode ≡ code
  pub mnemonic : instr.mnemonic ≡ info.mnemonic
  pub is_complex : instr.is_complex ≡ check_complex_mode st ops
  pub operands : instr.operands ≡ map (meaning st) ops

-- What `decode_known` fills in from the table.
abbrev pub known : OpcodeInfo → Instruction → Instruction
known info instr = record instr {
  mnemonic = info.mnemonic;
  mnem_str = info.name;
  has_jump = info.has_offset;
}

module _ (st : Symtab) (info : OpcodeInfo) (ops : List AstNode) (rest : List ℕ)
    (arity : info.operand_count ≡ fixed (length ops)) (no_jump : info.has_offset ≡ false)
    (few : length ops ≤ 8) (enc : All (IsEncodable st) ops) (stale : ℕ → ℕ) (size : ℕ) where
  decode_known_simple :
      (instr : Instruction)
      → instr.is_complex ≡ false
      → check_complex_mode st ops ≡ false
      → decode_known stale size (some info) instr (emit_operands st ops ++ rest)
        ≡ (add_operands (known info instr) (map (meaning st) ops), rest)
  unfolding decode_known decode_arity
  decode_known_simple instr simple none_long =
      rw (read_mode_byte_simple (known info instr) (emit_operands st ops ++ rest) simple) (
        rw arity (
          decode_operands-emit_operands st ops size instr.mode_byte info.has_offset
            (known info instr) rest no_jump few enc
            (rw simple (simple-ModesFit st ops (instr.mode_byte ∷ []) 0 none_long))))

  decode_known_complex :
      (instr : Instruction)
      → instr.is_complex ≡ true
      → decode_known stale size
          (some info)
          instr
          (mode_group st 8 ops ∷ emit_operands st ops ++ rest)
        ≡ (
          add_operands
              (record (known info instr) { mode_byte = mode_group st 8 ops })
              (map (meaning st) ops),
          rest,
        )
  unfolding decode_known decode_arity
  decode_known_complex instr complex =
      rw
        (read_mode_byte_complex (known info instr) (mode_group st 8 ops)
          (emit_operands st ops ++ rest) complex)
        (rw arity (
          decode_operands-emit_operands st ops size (mode_group st 8 ops) info.has_offset
            (record (known info instr) { mode_byte = mode_group st 8 ops }) rest no_jump few enc
            (rw complex (complex-ModesFit st ops [] few))))

-- A simple and a complex instruction, from the opcode byte on.
module _ (st : Symtab) (opcode : ℕ) (info : OpcodeInfo) (ops : List AstNode) (rest : List ℕ)
    (stale : ℕ → ℕ → ℕ) (size : ℕ) (small : opcode < 128)
    (listed : lookup_opcode opcode ≡ some info) (arity : info.operand_count ≡ fixed (length ops))
    (no_jump : info.has_offset ≡ false) (few : length ops ≤ 8)
    (enc : All (IsEncodable st) ops) where
  abbrev Decodes : List ℕ → Type 0
  Decodes bytes =
      (instr : Instruction) × (decode_instruction stale size bytes ≡ some (instr, rest))
      × IsInstruction st opcode info ops instr

  simple-Decodes :
      check_complex_mode st ops ≡ false → Decodes (opcode ∷ (emit_operands st ops ++ rest))
  unfolding decode_instruction instruction_new
  simple-Decodes c =
      let (bit, code) = simple_form opcode small in
      let bytes = opcode ∷ (emit_operands st ops ++ rest) in
      let instr = opcode_byte (size - length bytes) opcode in
      let found : lookup_opcode (opcode % 0x80) ≡ some info = rw code listed in
      let e =
        decode_known_simple st info ops rest arity no_jump few enc (stale (size - length bytes))
          size instr bit c in
      (
        (finish bytes (add_operands (known info instr) (map (meaning st) ops), rest)).0,
        rw found (rw e refl),
        record { opcode = code; mnemonic = refl; is_complex = bit ∙ sym c; operands = refl },
      )

  complex-Decodes :
      check_complex_mode st ops ≡ true
      → Decodes ((opcode + 0x80) ∷ mode_group st 8 ops ∷ (emit_operands st ops ++ rest))
  unfolding decode_instruction instruction_new
  complex-Decodes c =
      let (bit, code) = complex_form opcode small in
      let m = mode_group st 8 ops in
      let bytes = (opcode + 0x80) ∷ m ∷ (emit_operands st ops ++ rest) in
      let instr = opcode_byte (size - length bytes) (opcode + 0x80) in
      let found : lookup_opcode ((opcode + 0x80) % 0x80) ≡ some info = rw code listed in
      let e =
        decode_known_complex st info ops rest arity no_jump few enc (stale (size - length bytes))
          size instr bit in
      (
        (finish bytes (
          add_operands (record (known info instr) { mode_byte = m }) (map (meaning st) ops),
          rest,
        )).0,
        rw found (rw e refl),
        record { opcode = code; mnemonic = refl; is_complex = bit ∙ sym c; operands = refl },
      )

-- An instruction of at most eight encodable operands, whose opcode the decoder's table lists with
-- that many operands and without a jump offset, is decoded as itself: the decoder returns the opcode
-- with its mnemonic, in the simple or the complex form that the code generator chose, and the
-- operands as what they mean, and leaves exactly the bytes that follow.
pub emit_instruction-IsInstruction :
    (st : Symtab) (opcode : ℕ) (info : OpcodeInfo) (ops : List AstNode) (rest : List ℕ)
    (stale : ℕ → ℕ → ℕ) (size : ℕ)
    → lookup_opcode opcode ≡ some info
    → info.operand_count ≡ fixed (length ops)
    → info.has_offset ≡ false
    → length ops ≤ 8
    → All (IsEncodable st) ops
    → (instr : Instruction) × (decode_instruction stale size
          (emit_instruction st opcode ops ++ rest)
        ≡ some (instr, rest))
      × IsInstruction st opcode info ops instr
unfolding emit_instruction compute_mode_byte
emit_instruction-IsInstruction st opcode info ops rest stale size listed arity no_jump few enc =
    elim (Bool-cases (check_complex_mode st ops)) [
      | inl c ↦ rw c (
          complex-Decodes st opcode info ops rest stale size
            (lookup_opcode-small opcode info listed).1 listed arity no_jump few enc c)
      | inr c ↦ rw c (
          simple-Decodes st opcode info ops rest stale size
            (lookup_opcode-small opcode info listed).1 listed arity no_jump few enc c)
    ]
