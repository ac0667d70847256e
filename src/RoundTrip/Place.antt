-- ===== src/RoundTrip/Place.antt =====
-- The operands that are one value, in `emit_operand` of compiler/codegen/codegen_operand.c and in
-- `read_operand` of shared/bytecode/decode.c.
use tbol_toolchain.Base.{
  ℕ, ◌≤◌, ◌<◌, ◌≡◌, ap, ◌∙◌, Option, none, some, List, ◌++◌, ltb, arith, Bool-cases, inl, inr,
}
use tbol_toolchain.Ast.{AstNode, ident, reg_i, reg_d, reg_p, pev, gev, rda_slot}
use tbol_toolchain.Symtab.{
  Symtab, VarSymbol, StructureGroup, lookup_var, lookup_structure, var_slot,
}
use tbol_toolchain.Bytecode.Ir.{Operand, OperandKind, IndexOperand, operand_new}
use tbol_toolchain.Bytecode.Operand.{decode_operand_value, read_operand}
use tbol_toolchain.Codegen.Operand.{
  rda_value, ident_value, compute_operand_value, needs_extended_encoding, emit_operand, value_code,
}
use tbol_toolchain.RoundTrip.Meaning.{slot_of, place, IsPlace}

-- A value below 0x8000 that is not 0 is read back in the form that it is written in.
read_operand-value_code :
    (v : ℕ) (rest : List ℕ)
    → 1 ≤ v
    → v < 0x8000
    → read_operand (value_code v (ltb 255 v) ++ rest) (ltb 255 v)
      ≡ (some (decode_operand_value v (ltb 255 v)), rest)
unfolding read_operand
read_operand-value_code v rest lo hi = elim (Bool-cases (ltb 255 v)) [
  | inl e ↦ rw e (ground arith)
  | inr e ↦ rw e (ground arith)
]

-- The value that a place is written as, and what the decoder takes that value for.
abbrev pub Decodes : ℕ → IndexOperand → Type 0
Decodes v p =
    (1 ≤ v) × (v < 0x8000) × (decode_operand_value v (ltb 255 v) ≡ operand_new p.kind p.value)

rda_value-Decodes :
    (n : ℕ) → n ≤ 221 → Decodes (rda_value n) (record { kind = OperandKind.rda; value = n })
unfolding rda_value decode_operand_value
rda_value-Decodes n h = (ground arith, ground arith, ground arith)

ident_value-Decodes :
    (v : Option VarSymbol) (sg : Option StructureGroup)
    → slot_of v sg ≤ 221
    → Decodes (ident_value v sg) (record { kind = OperandKind.rda; value = slot_of v sg })
unfolding ident_value
ident_value-Decodes (some v) sg h = rda_value-Decodes (var_slot v) h
ident_value-Decodes none (some sg) h = rda_value-Decodes sg.start_slot h
ident_value-Decodes none none h = absurd (omega arith)

pub place-Decodes :
    (st : Symtab) (node : AstNode)
    → IsPlace st node
    → Decodes (compute_operand_value st node) (place st node)
unfolding compute_operand_value decode_operand_value
place-Decodes st (reg_i n) h = (omega arith, omega arith, ground arith)
place-Decodes st (reg_d n) h = (omega arith, omega arith, ground arith)
place-Decodes st (reg_p n) h = (omega arith, omega arith, ground arith)
place-Decodes st (pev n) h = (ground arith, ground arith, ground arith)
place-Decodes st (gev n) h = (omega arith, omega arith, ground arith)
place-Decodes st (rda_slot n) h = rda_value-Decodes n h
place-Decodes st (ident name) h =
    ident_value-Decodes (lookup_var name st) (lookup_structure name st) h
place-Decodes st _ h = absurd h

-- The round trip of one operand, with the mode bit that the code generator computes for it.
abbrev pub ReadsBack : Symtab → AstNode → Operand → Type 0
ReadsBack st node op =
    (rest : List ℕ)
    → read_operand (emit_operand st node (needs_extended_encoding st node) ++ rest)
        (needs_extended_encoding st node)
      ≡ (some op, rest)

value-ReadsBack :
    (v : ℕ) (p : IndexOperand) (rest : List ℕ)
    → Decodes v p
    → read_operand (value_code v (ltb 255 v) ++ rest) (ltb 255 v)
      ≡ (some (operand_new p.kind p.value), rest)
value-ReadsBack v p rest (lo, hi, e) =
    read_operand-value_code v rest lo hi ∙ ap (λ (op : Operand). (some op, rest)) e

pub place-ReadsBack :
    (st : Symtab) (node : AstNode)
    → IsPlace st node
    → ReadsBack st node (operand_new (place st node).kind (place st node).value)
unfolding emit_operand needs_extended_encoding
place-ReadsBack st (reg_i n) h rest = value-ReadsBack _ _ rest (place-Decodes st (reg_i n) h)
place-ReadsBack st (reg_d n) h rest = value-ReadsBack _ _ rest (place-Decodes st (reg_d n) h)
place-ReadsBack st (reg_p n) h rest = value-ReadsBack _ _ rest (place-Decodes st (reg_p n) h)
place-ReadsBack st (pev n) h rest = value-ReadsBack _ _ rest (place-Decodes st (pev n) h)
place-ReadsBack st (gev n) h rest = value-ReadsBack _ _ rest (place-Decodes st (gev n) h)
place-ReadsBack st (rda_slot n) h rest = value-ReadsBack _ _ rest (place-Decodes st (rda_slot n) h)
place-ReadsBack st (ident name) h rest = value-ReadsBack _ _ rest (place-Decodes st (ident name) h)
place-ReadsBack st _ h rest = absurd h
