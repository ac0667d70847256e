-- ===== src/Bytecode/Special.antt =====
-- The decoders of shared/bytecode/decode.c for the opcodes with a layout of their own. `size` is that
-- of the whole code, so that `*pos` is `size - length rest`. `stale address i` is what the array
-- `raw_offsets` of `decode_goto_dep` holds at i before it is written: C leaves it open.
pub mod Progress
use tbol_toolchain.Base.{
  ℕ, zero, suc, ◌+◌, ◌-◌, ◌*◌, ◌/◌, ◌%◌, ◌^◌, Bool, true, false, ◌&&◌, Option, none, some, List, [],
  ◌∷◌, ◌++◌, length, take, drop, get_or, ltb, leb, ◌==◌, if◌then◌else◌, u16,
}
use tbol_toolchain.Bytecode.Ir.{Operand, OperandKind, operand_new}
use tbol_toolchain.Bytecode.Opcodes.Flow.{op_def_field_st, op_send}
use tbol_toolchain.Bytecode.Operand.{read_operand}
use tbol_toolchain.Bytecode.Instruction.{
  Instruction, add_operand, test_bit, read_into, read_mode_bytes, read_operands, read_count,
}

-- What the array holds at index i and the n - 1 places after it.
stale_values : (ℕ → ℕ) → ℕ → ℕ → List ℕ
stale_values stale zero i = []
stale_values stale (suc n) i = u16 (stale i) ∷ stale_values stale n (i + 1)

-- The n entries of `raw_offsets` from index i: those that two bytes are left for are read.
read_offsets : (ℕ → ℕ) → ℕ → ℕ → List ℕ → List ℕ × List ℕ
unfolding stale_values
read_offsets stale zero i rest = ([], rest)
read_offsets stale (suc n) i [] = (stale_values stale (suc n) i, [])
read_offsets stale (suc n) i (a ∷ []) = (stale_values stale (suc n) i, a ∷ [])
read_offsets stale (suc n) i (a ∷ b ∷ rest) =
    let (offsets, rest') = read_offsets stale n (i + 1) rest in ((a * 256 + b) ∷ offsets, rest')

-- The second loop: a negative offset counts from the end of the instruction, another from the
-- position after itself.
unfoldable pub resolve_offsets : ℕ → ℕ → List ℕ → Instruction → Instruction
resolve_offsets instr_end p [] instr = instr
resolve_offsets instr_end p (raw ∷ offsets) instr =
    let base = if leb 0x8000 raw then instr_end else u16 (p + 2) in
    resolve_offsets instr_end (p + 2) offsets
      (add_operand instr (some (operand_new OperandKind.literal_num (u16 (base + raw)))))

goto_dep_labels : (ℕ → ℕ) → ℕ → Instruction → List ℕ → Instruction × List ℕ
unfolding read_offsets resolve_offsets
goto_dep_labels stale size instr [] = (instr, [])
goto_dep_labels stale size instr (label_count ∷ rest) =
    let (offsets, rest') = read_offsets stale label_count 0 rest in
    (
      resolve_offsets (u16 (size - length rest')) (size - length rest) offsets
          (record instr { var_count = label_count }),
      rest',
    )

unfoldable pub decode_goto_dep : (ℕ → ℕ) → ℕ → ℕ → Instruction → List ℕ → Instruction × List ℕ
unfolding goto_dep_labels
decode_goto_dep stale size mode_byte instr rest =
    let (instr', rest') = read_into instr rest (instr.is_complex && test_bit mode_byte 7) in
    goto_dep_labels stale size instr' rest'

unfoldable pub decode_make_format : ℕ → Instruction → List ℕ → Instruction × List ℕ
decode_make_format mode_byte instr [] = (instr, [])
decode_make_format mode_byte instr (spec_count ∷ rest) =
    let total_operands = spec_count * 3 + 1 in
    let extra =
      if instr.is_complex && ltb 8 total_operands then (total_operands - 8 + 7) / 8 else 0 in
    let (modes, rest') = read_mode_bytes extra rest in
    read_operands total_operands 0 (mode_byte ∷ modes) (record instr { var_count = spec_count })
      rest'

-- `if (has_state && *pos < size)`; a read at the end of the code gives NULL and moves nothing.
read_state : Bool → List ℕ → Option Operand × List ℕ
read_state has_state rest = if has_state then read_operand rest false else (none, rest)

unfoldable pub decode_define_field : ℕ → Instruction → List ℕ → Instruction × List ℕ
unfolding read_state
decode_define_field mode_byte instr rest =
    let has_state = instr.opcode == op_def_field_st in
    let (name, rest₁) = read_operand rest (instr.is_complex && test_bit mode_byte 7) in
    let (col, rest₂) = read_operand rest₁ (instr.is_complex && test_bit mode_byte 6) in
    let (width, rest₃) = read_operand rest₂ (instr.is_complex && test_bit mode_byte 5) in
    let (height, rest₄) = read_operand rest₃ (instr.is_complex && test_bit mode_byte 4) in
    let (object_id, rest₅) = read_operand rest₄ false in
    let (state, rest₆) = read_state has_state rest₅ in
    (
      add_operand
          (add_operand
            (add_operand (add_operand (add_operand (add_operand instr name) col) width) height)
            object_id)
          state,
      drop 1 rest₆,
    )

-- The attribute bytes that are left, at most n, each also an operand.
read_attributes : ℕ → Instruction → List ℕ → Instruction × List ℕ
read_attributes zero instr rest = (instr, rest)
read_attributes (suc n) instr [] = (instr, [])
read_attributes (suc n) instr (b ∷ rest) =
    read_attributes n (add_operand instr (some (operand_new OperandKind.literal_num b))) rest

-- The form string: its operand has a `str_value`, while its `str_len` stays 0.
form_operand : List ℕ → Operand
form_operand form = record {
  kind = OperandKind.literal_str;
  value = 0;
  str_value = form;
  str_len = 0;
  index = none;
}

read_form : Instruction → List ℕ → Instruction × List ℕ
unfolding form_operand
read_form instr [] = (instr, [])
read_form instr (form_len ∷ rest) =
    if ltb (length rest) form_len
    then (instr, rest)
    else (add_operand instr (some (form_operand (take form_len rest))), drop form_len rest)

-- The bytes of the attributes are the first four after the field; byte 1 has the FORM flag 0x20.
unfoldable pub decode_set_attribute : ℕ → Instruction → List ℕ → Instruction × List ℕ
unfolding read_attributes read_form
decode_set_attribute mode_byte instr rest =
    let (instr₁, rest₁) = read_into instr rest (instr.is_complex && test_bit mode_byte 7) in
    let (instr₂, rest₂) = read_attributes 4 instr₁ rest₁ in
    if test_bit (get_or rest₁ 1 0) 5 then read_form instr₂ rest₂ else (instr₂, rest₂)

-- Timeout, little-endian, and flags.
read_trailer : Instruction → List ℕ → Instruction × List ℕ
read_trailer instr (lo ∷ hi ∷ flags ∷ rest) =
    (record instr { send_timeout = hi * 256 + lo; send_flags = flags }, rest)
read_trailer instr rest = (instr, rest)

unfoldable pub decode_send : ℕ → Instruction → List ℕ → Instruction × List ℕ
unfolding read_trailer
decode_send mode_byte instr rest =
    let send_op_count : ℕ = if instr.opcode == op_send then 1 else 2 in
    let (instr', rest') = read_operands send_op_count 0 (mode_byte ∷ []) instr rest in
    read_trailer instr' rest'
