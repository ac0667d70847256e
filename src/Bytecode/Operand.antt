-- ===== src/Bytecode/Operand.antt =====
-- The operand readers of shared/bytecode/decode.c. The pair (code + *pos, size - *pos) is the list
-- of the bytes that are left, and a reader returns what it read and the bytes after it; NULL is
-- `none`. Every byte is below 256.
use tbol_toolchain.Base.{
  ℕ, ◌+◌, ◌-◌, ◌*◌, ◌/◌, ◌%◌, Bool, true, false, Option, none, some, List, [], ◌∷◌, length, take,
  drop, leb, ltb, ◌==◌, ◌&&◌, if◌then◌else◌,
}
use tbol_toolchain.Bytecode.Ir.{
  Operand, OperandKind, IndexOperand, operand_new, operand_new_str, operand_new_indexed,
}

-- lo <= value && value <= hi
abbrev pub in_range : ℕ → ℕ → ℕ → Bool
in_range lo hi value = leb lo value && leb value hi

decode_extended : ℕ → Operand
decode_extended value =
    if in_range 0x0100 0x013F value
    then operand_new OperandKind.rda (158 + (value - 0x0100))
    else if in_range 0x0140 0x01FF value
    then operand_new OperandKind.pev (65 + (value - 0x0140))
    else if in_range 0x0200 0x7EFF value
    then operand_new OperandKind.gev (value - 0x0200 + 1)
    else operand_new OperandKind.literal_num value

decode_simple : ℕ → Operand
decode_simple value =
    if in_range 0x01 0x08 value
    then operand_new OperandKind.literal_num value
    else if in_range 0x09 0x10 value
    then operand_new OperandKind.reg_i (value - 0x08)
    else if in_range 0x11 0x18 value
    then operand_new OperandKind.reg_d (value - 0x10)
    else if in_range 0x19 0x21 value
    then operand_new OperandKind.reg_p (value - 0x19)
    else if in_range 0x22 0xBF value
    then operand_new OperandKind.rda (value - 0x22)
    else if in_range 0xC0 0xFF value
    then operand_new OperandKind.pev (value - 0xC0 + 1)
    else operand_new OperandKind.literal_num value

unfoldable pub decode_operand_value : ℕ → Bool → Operand
unfolding decode_extended decode_simple
decode_operand_value value is_extended =
    if is_extended then decode_extended value else decode_simple value

-- The index byte of an indexed operand: 34 + slot, on one byte, for every slot.
unfoldable pub decode_index : ℕ → IndexOperand
decode_index idx_byte =
    if leb 34 idx_byte
    then record { kind = OperandKind.rda; value = idx_byte - 34 }
    else if in_range 0x09 0x10 idx_byte
    then record { kind = OperandKind.reg_i; value = idx_byte - 0x08 }
    else if in_range 0x11 0x18 idx_byte
    then record { kind = OperandKind.reg_d; value = idx_byte - 0x10 }
    else if in_range 0x19 0x21 idx_byte
    then record { kind = OperandKind.reg_p; value = idx_byte - 0x19 }
    else record { kind = OperandKind.literal_num; value = idx_byte }

read_string : List ℕ → Option Operand × List ℕ
read_string [] = (none, [])
read_string (len ∷ rest) =
    if ltb (length rest) len
    then (none, rest)
    else (some (operand_new_str (take len rest)), drop len rest)

read_indexed : ℕ → List ℕ → Option Operand × List ℕ
read_indexed base_value [] = (some (decode_operand_value base_value true), [])
read_indexed base_value (idx_byte ∷ rest) =
    let base_is_extended = ltb 0xFF base_value in
    let base =
      decode_operand_value (if base_is_extended then base_value else base_value % 256)
        base_is_extended in
    (some (operand_new_indexed base (decode_index idx_byte)), rest)

-- `value & 0x8000` is bit 15 of a 16-bit value, and `value & 0x7FFF` the bits below it.
read_extended : ℕ → List ℕ → Option Operand × List ℕ
unfolding read_indexed
read_extended b [] = (some (operand_new OperandKind.literal_num b), [])
read_extended b (b2 ∷ rest) =
    let value = b * 256 + b2 in
    if value / 0x8000 % 2 == 1
    then read_indexed (value % 0x8000) rest
    else (some (decode_operand_value value true), rest)

unfoldable pub read_operand : List ℕ → Bool → Option Operand × List ℕ
unfolding read_string read_extended
read_operand [] is_complex_op = (none, [])
read_operand (b ∷ rest) is_complex_op =
    if b == 0x00
    then read_string rest
    else if is_complex_op
    then read_extended b rest
    else (some (decode_operand_value b false), rest)

-- The bit pattern of the `int16_t` that `read_offset` returns: 0 if two bytes are not left.
unfoldable pub read_offset : List ℕ → ℕ × List ℕ
read_offset [] = (0, [])
read_offset (b ∷ []) = (0, b ∷ [])
read_offset (b ∷ b2 ∷ rest) = (b * 256 + b2, rest)
