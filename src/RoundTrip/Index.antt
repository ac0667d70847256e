-- ===== src/RoundTrip/Index.antt =====
-- Indexed operands with a dynamic index, written by compiler/codegen/codegen_operand.c and read by
-- shared/bytecode/decode.c.
use tbol_toolchain.Base.{
  ℕ, ◌+◌, ◌*◌, ◌/◌, ◌%◌, ◌≤◌, ◌<◌, ◌≡◌, refl, ap₂, ◌∙◌, true, false, some, List, ◌++◌, ltb, ◌==◌,
  u8, arith, Bool-cases, inl, inr, Option-cases,
}
use tbol_toolchain.Ast.{AstNode, ident, reg_i, reg_d, reg_p, rda_slot}
use tbol_toolchain.Symtab.{Symtab, lookup_var, lookup_structure, var_slot}
use tbol_toolchain.Bytecode.Ir.{
  Operand, OperandKind, IndexOperand, operand_new, operand_new_indexed,
}
use tbol_toolchain.Bytecode.Operand.{decode_operand_value, decode_index, read_operand}
use tbol_toolchain.Codegen.Literal.{byte_code, word_code}
use tbol_toolchain.Codegen.Operand.{
  rda_value, compute_operand_value, dynamic_code, index_value, set_bit_15,
}
use tbol_toolchain.RoundTrip.Meaning.{place, IsPlace, IndexFits}
use tbol_toolchain.RoundTrip.Place.{place-Decodes}

-- The two bytes of a base value with bit 15 set, as the decoder joins them.
joined :
    (v : ℕ)
    → v < 0x8000
    → let a = u8 (set_bit_15 v / 256) in
      let b = u8 (set_bit_15 v) in ((a == 0) ≡ false) × (a * 256 + b ≡ v + 0x8000)
joined v h = (ground arith, ground arith)

read_operand-indexed :
    (v w : ℕ) (rest : List ℕ)
    → v < 0x8000
    → w < 256
    → read_operand ((word_code (set_bit_15 v) ++ byte_code w) ++ rest) true
      ≡ (some (operand_new_indexed (decode_operand_value v (ltb 255 v)) (decode_index w)), rest)
unfolding read_operand
read_operand-indexed v w rest hv hw =
    let (a, b) = joined v hv in
    let top : ((v + 0x8000) / 0x8000 % 2) ≡ 1 = omega arith in
    let low : (v + 0x8000) % 0x8000 ≡ v = omega arith in
    let byte : w % 256 ≡ w = omega arith in
    rw (a, b, top, low, byte)
      (elim (Bool-cases (ltb 255 v)) [
        | inl e ↦ rw e refl
        | inr e ↦ let small : v % 256 ≡ v = ground arith in rw (e, small) refl
      ])

module _ (st : Symtab) where
  rda_index :
      (n : ℕ)
      → n ≤ 157
      → (rda_value n < 256)
        × (decode_index (rda_value n) ≡ record { kind = OperandKind.rda; value = n })
  unfolding rda_value decode_index
  rda_index n h = (ground arith, ground arith)

  index_value-Decodes :
      (index : AstNode)
      → IndexFits st index
      → (index_value st index < 256) × (decode_index (index_value st index) ≡ place st index)
  unfolding index_value compute_operand_value decode_index
  index_value-Decodes (reg_i n) h = (omega arith, ground arith)
  index_value-Decodes (reg_d n) h = (omega arith, ground arith)
  index_value-Decodes (reg_p n) h = (omega arith, ground arith)
  index_value-Decodes (rda_slot n) h = rda_index n h
  index_value-Decodes (ident name) h = elim (Option-cases (lookup_var name st)) [
    | inr (v, x) ↦ rw x (let h' : var_slot v ≤ 221 = rw x at h in (omega arith, ground arith))
    | inl x ↦ elim (Option-cases (lookup_structure name st)) [
      | inl y ↦ absurd (rw (x, y) at h)
      | inr (sg, y) ↦ rw (x, y) (rda_index sg.start_slot (rw (x, y) at h))
    ]
  ]
  index_value-Decodes _ h = absurd h

  pub dynamic-ReadsBack :
      (base index : AstNode) (rest : List ℕ)
      → IsPlace st base
      → IndexFits st index
      → read_operand (dynamic_code st base index ++ rest) true ≡ (
        some (
            operand_new_indexed
              (operand_new (place st base).kind (place st base).value)
              (place st index)),
        rest,
      )
  unfolding dynamic_code
  dynamic-ReadsBack base index rest hb hi =
      let (lo, below, dec) = place-Decodes st base hb in
      let (fits, idx) = index_value-Decodes index hi in
      read_operand-indexed _ _ rest below fits
      ∙ ap₂ (λ (b : Operand) (x : IndexOperand). (some (operand_new_indexed b x), rest)) dec idx
