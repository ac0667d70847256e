-- ===== src/Bytecode/Special/Progress.antt =====
-- The decoders of shared/bytecode/decode.c for single opcodes move forward and keep the address.
use tbol_toolchain.Base.{
  ℕ, zero, suc, ◌+◌, ◌-◌, ◌*◌, ◌≤◌, ◌≡◌, refl, ◌∙◌, Bool, true, false, ◌&&◌, some, List, [], ◌∷◌,
  length, take, length-drop, arith, if◌then◌else◌, u16,
}
use tbol_toolchain.Bytecode.Ir.{OperandKind, operand_new}
use tbol_toolchain.Bytecode.Instruction.{Instruction, add_operand, test_bit}
use tbol_toolchain.Bytecode.Instruction.Progress.{
  Advances, stays, Advances-trans, Advances-skip, length-read_operand, address-add_operand,
  read_into-Advances, length-read_mode_bytes, read_operands-Advances,
}
use tbol_toolchain.Bytecode.Special.{
  read_offsets, resolve_offsets, goto_dep_labels, decode_goto_dep, decode_make_format, read_state,
  decode_define_field, read_attributes, form_operand, read_form, decode_set_attribute, read_trailer,
  decode_send,
}

length-read_offsets :
    (stale : ℕ → ℕ) (n i : ℕ) (rest : List ℕ) → length (read_offsets stale n i rest).1 ≤ length rest
unfolding read_offsets
length-read_offsets stale zero i rest = omega arith
length-read_offsets stale (suc n) i [] = omega arith
length-read_offsets stale (suc n) i (a ∷ []) = omega arith
length-read_offsets stale (suc n) i (a ∷ b ∷ rest) =
    omega (arith, length-read_offsets stale n (i + 1) rest)

address-resolve_offsets :
    (instr_end p : ℕ) (offsets : List ℕ) (instr : Instruction)
    → (resolve_offsets instr_end p offsets instr).address ≡ instr.address
unfolding resolve_offsets
address-resolve_offsets instr_end p [] instr = refl
address-resolve_offsets instr_end p (raw ∷ offsets) instr =
    address-resolve_offsets instr_end (p + 2) offsets _ ∙ address-add_operand instr _

goto_dep_labels-Advances :
    (stale : ℕ → ℕ) (size : ℕ) (instr : Instruction) (rest : List ℕ)
    → Advances instr rest (goto_dep_labels stale size instr rest)
unfolding goto_dep_labels
goto_dep_labels-Advances stale size instr [] = stays instr []
goto_dep_labels-Advances stale size instr (n ∷ rest) =
    let instr' : Instruction = record instr { var_count = n } in
    let (offsets, rest') = read_offsets stale n 0 rest in
    record {
      address =
          address-resolve_offsets (u16 (size - length rest')) (size - length rest) offsets instr';
      shorter = omega (arith, length-read_offsets stale n 0 rest);
    }

pub decode_goto_dep-Advances :
    (stale : ℕ → ℕ) (size mode_byte : ℕ) (instr : Instruction) (rest : List ℕ)
    → Advances instr rest (decode_goto_dep stale size mode_byte instr rest)
unfolding decode_goto_dep
decode_goto_dep-Advances stale size mode_byte instr rest =
    Advances-trans (read_into-Advances instr rest (instr.is_complex && test_bit mode_byte 7))
      (goto_dep_labels-Advances stale size _ _)

pub decode_make_format-Advances :
    (mode_byte : ℕ) (instr : Instruction) (rest : List ℕ)
    → Advances instr rest (decode_make_format mode_byte instr rest)
unfolding decode_make_format
decode_make_format-Advances mode_byte instr [] = stays instr []
decode_make_format-Advances mode_byte instr (n ∷ rest) =
    let instr' : Instruction = record instr { var_count = n } in
    Advances-trans {r = (instr', rest)} (record { address = refl; shorter = omega arith })
      (Advances-skip (length-read_mode_bytes _ rest)
        (read_operands-Advances (n * 3 + 1) 0 _ instr' _))

length-read_state :
    (has_state : Bool) (rest : List ℕ) → length (read_state has_state rest).1 ≤ length rest
unfolding read_state
length-read_state true rest = length-read_operand rest false
length-read_state false rest = omega arith

-- Six operands, one after the other, and the flag byte.
pub decode_define_field-Advances :
    (mode_byte : ℕ) (instr : Instruction) (rest : List ℕ)
    → Advances instr rest (decode_define_field mode_byte instr rest)
unfolding decode_define_field
decode_define_field-Advances mode_byte instr rest = record {
  address = simp address-add_operand;
  shorter = omega (arith, length-read_operand, length-read_state, length-drop {0} {A = ℕ} 1);
}

read_attributes-Advances :
    (n : ℕ) (instr : Instruction) (rest : List ℕ)
    → Advances instr rest (read_attributes n instr rest)
unfolding read_attributes
read_attributes-Advances zero instr rest = stays instr rest
read_attributes-Advances (suc n) instr [] = stays instr []
read_attributes-Advances (suc n) instr (b ∷ rest) =
    let instr' = add_operand instr (some (operand_new OperandKind.literal_num b)) in
    Advances-trans {r = (instr', rest)}
      (record { address = address-add_operand instr _; shorter = omega arith })
      (read_attributes-Advances n instr' rest)

read_form-Advances :
    (instr : Instruction) (rest : List ℕ) → Advances instr rest (read_form instr rest)
unfolding read_form
read_form-Advances instr [] = stays instr []
read_form-Advances instr (n ∷ rest) =
    ground
      (arith, length-drop n rest, address-add_operand instr (some (form_operand (take n rest))))

pub if-Advances :
    (b : Bool) (instr : Instruction) (rest : List ℕ) (r s : Instruction × List ℕ)
    → Advances instr rest r
    → Advances instr rest s
    → Advances instr rest (if b then r else s)
if-Advances true instr rest r s hr hs = hr
if-Advances false instr rest r s hr hs = hs

pub decode_set_attribute-Advances :
    (mode_byte : ℕ) (instr : Instruction) (rest : List ℕ)
    → Advances instr rest (decode_set_attribute mode_byte instr rest)
unfolding decode_set_attribute
decode_set_attribute-Advances mode_byte instr rest =
    Advances-trans (read_into-Advances instr rest (instr.is_complex && test_bit mode_byte 7)) (
      Advances-trans (read_attributes-Advances 4 _ _)
        (if-Advances _ _ _ _ _ (read_form-Advances _ _) (stays _ _)))

read_trailer-Advances :
    (instr : Instruction) (rest : List ℕ) → Advances instr rest (read_trailer instr rest)
unfolding read_trailer
read_trailer-Advances instr (a ∷ b ∷ c ∷ rest) = record { address = refl; shorter = omega arith }
read_trailer-Advances instr rest = stays instr rest

pub decode_send-Advances :
    (mode_byte : ℕ) (instr : Instruction) (rest : List ℕ)
    → Advances instr rest (decode_send mode_byte instr rest)
unfolding decode_send
decode_send-Advances mode_byte instr rest =
    Advances-trans (read_operands-Advances _ 0 _ instr rest) (read_trailer-Advances _ _)
