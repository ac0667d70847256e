-- ===== src/Codegen/Instruction.antt =====
-- The instruction emitters of compiler/codegen/codegen.c: the bytes that they append. An opcode is a
-- byte below 0x80, so `opcode | OP_COMPLEX` is a sum; the bits of a mode byte are distinct, so `|=` is
-- a sum too.
use tbol_toolchain.Base.{
  ℕ, zero, suc, ◌+◌, ◌-◌, ◌/◌, ◌^◌, Bool, true, false, ◌||◌, List, [], ◌∷◌, ◌++◌, length, drop, ltb,
  leb, if◌then◌else◌, u8,
}
use tbol_toolchain.Ast.{AstNode, indexed}
use tbol_toolchain.Symtab.{Symtab}
use tbol_toolchain.Codegen.Literal.{byte_code, word_code}
use tbol_toolchain.Codegen.Operand.{needs_extended_encoding, emit_operand, compute_range_end_value}

abbrev pub op_complex : ℕ
op_complex = 0x80

unfoldable pub check_complex_mode : Symtab → List AstNode → Bool
check_complex_mode st [] = false
check_complex_mode st (op ∷ ops) = needs_extended_encoding st op || check_complex_mode st ops

-- The k lowest bits of a mode byte, for the first k of the operands: the highest for the first.
unfoldable pub mode_group : Symtab → ℕ → List AstNode → ℕ
mode_group st zero ops = 0
mode_group st (suc k) [] = 0
mode_group st (suc k) (op ∷ ops) =
    (if needs_extended_encoding st op then 2 ^ k else 0) + mode_group st k ops

unfoldable pub compute_mode_byte : Symtab → List AstNode → ℕ
unfolding mode_group
compute_mode_byte st ops = mode_group st 8 ops

-- `for (i = 0; i < count; i++) emit_operand(operands[i], needs_extended_encoding(operands[i]));`
unfoldable pub emit_operands : Symtab → List AstNode → List ℕ
emit_operands st [] = []
emit_operands st (op ∷ ops) =
    emit_operand st op (needs_extended_encoding st op) ++ emit_operands st ops

-- The opcode and, in the complex form, the mode bytes.
abbrev pub opcode_code : ℕ → Bool → List ℕ → List ℕ
opcode_code opcode complex modes = if complex then (opcode + op_complex) ∷ modes else opcode ∷ []

unfoldable pub emit_instruction : Symtab → ℕ → List AstNode → List ℕ
emit_instruction st opcode ops =
    opcode_code opcode (check_complex_mode st ops) (compute_mode_byte st ops ∷ [])
    ++ emit_operands st ops

-- A mode byte for each eight operands.
unfoldable pub mode_groups : Symtab → ℕ → List AstNode → List ℕ
mode_groups st zero ops = []
mode_groups st (suc n) ops = mode_group st 8 ops ∷ mode_groups st n (drop 8 ops)

-- The mode bytes stand before the count.
unfoldable pub emit_var_instruction : Symtab → ℕ → List AstNode → List ℕ
unfolding mode_groups
emit_var_instruction st opcode ops =
    opcode_code opcode (check_complex_mode st ops) (mode_groups st ((length ops + 7) / 8) ops)
    ++ (u8 (length ops) ∷ emit_operands st ops)

-- CLEAR and SAVE of a structure or an array: a count and the RDA slot that it begins at.
unfoldable pub emit_struct_clear_save : ℕ → ℕ → ℕ → List ℕ
emit_struct_clear_save opcode start_slot count =
    let extended = ltb 157 start_slot in
    opcode_code opcode extended (0x80 ∷ [])
    ++ (u8 count
        ∷ (if extended
            then word_code (256 + (start_slot - 158))
            else byte_code (0x22 + start_slot)))

-- `emit_range_instruction` once the operands before the last are split off. `last_is_indexed` operands
-- are encoded as others are; another last operand is the end of a range.
range_mode : Symtab → ℕ → List AstNode → Bool → ℕ
range_mode st zero before end_bit = 0
range_mode st (suc k) [] end_bit = if end_bit then 2 ^ k else 0
range_mode st (suc k) (op ∷ before) end_bit =
    (if needs_extended_encoding st op then 2 ^ k else 0) + range_mode st k before end_bit

abbrev is_indexed : AstNode → Bool
is_indexed (indexed base index) = true
is_indexed _ = false

-- `check_complex_mode` sees the last operand itself too.
unfoldable pub emit_range_instruction : Symtab → ℕ → List AstNode → AstNode → List ℕ
unfolding range_mode
emit_range_instruction st opcode before last =
    let end_val = compute_range_end_value st last in
    let end_bit = if is_indexed last then needs_extended_encoding st last else leb 256 end_val in
    let complex = check_complex_mode st before || (needs_extended_encoding st last || end_bit) in
    let end_code =
      if is_indexed last
      then emit_operand st last (needs_extended_encoding st last)
      else if leb 256 end_val
      then word_code end_val
      else byte_code end_val in
    opcode_code opcode complex (range_mode st 8 before end_bit ∷ [])
    ++ (emit_operands st before ++ end_code)
