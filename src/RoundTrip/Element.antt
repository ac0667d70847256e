-- ===== src/RoundTrip/Element.antt =====
-- Indexed operands with a constant index, in compiler/codegen/codegen_operand.c.
use tbol_toolchain.Base.{
  ℕ, ◌+◌, ◌-◌, ◌≤◌, ◌≡◌, Bool, some, ltb, pos, ltb_ℤ, arith, inl, inr, Option-cases,
}
use tbol_toolchain.Ast.{AstNode, ident, reg_i, reg_d, reg_p, pev, gev, rda_slot, indexed}
use tbol_toolchain.Symtab.{Symtab, lookup_var, var_slot}
use tbol_toolchain.Codegen.Operand.{
  rda_value, compute_operand_value, constant_index, needs_extended_encoding, emit_operand,
  value_code, rda_slot_code, pev_code, resolved,
}
use tbol_toolchain.RoundTrip.Meaning.{IsPlace, encoded_element}

module _ (st : Symtab) where
  rda_slot_code-element :
      (n i : ℕ)
      → 1 ≤ i
      → n + i - 1 ≤ 221
      → rda_slot_code (resolved n (pos i))
        ≡ value_code (rda_value (n + i - 1)) (ltb 255 (rda_value (n + i - 1)))
  unfolding rda_slot_code rda_value
  rda_slot_code-element n i lo hi = ground arith

  rda_needs-element :
      (n i : ℕ) → 1 ≤ i → ltb_ℤ (pos 157) (resolved n (pos i)) ≡ ltb 255 (rda_value (n + i - 1))
  unfolding rda_value
  rda_needs-element n i lo = ground arith

  pev_code-element :
      (n i : ℕ)
      → 1 ≤ i
      → n + i - 1 ≤ 256
      → let v = compute_operand_value st (pev (n + i - 1)) in
        pev_code (resolved n (pos i)) ≡ value_code v (ltb 255 v)
  unfolding pev_code compute_operand_value
  pev_code-element n i lo hi = ground arith

  -- `base(i)` is encoded byte for byte as the operand that the encoding selects, in the same mode.
  pub emit_operand-encoded_element :
      (base index : AstNode) (i : ℕ) (ext : Bool)
      → constant_index index ≡ some (pos i)
      → 1 ≤ i
      → IsPlace st (encoded_element st base i)
      → (needs_extended_encoding st (indexed base index)
          ≡ needs_extended_encoding st (encoded_element st base i))
        × (emit_operand st (indexed base index) ext
            ≡ emit_operand st
                (encoded_element st base i)
                (needs_extended_encoding st (encoded_element st base i)))
  unfolding needs_extended_encoding emit_operand compute_operand_value
  emit_operand-encoded_element (reg_i n) index i ext e lo h = rw e (ground arith, ground arith)
  emit_operand-encoded_element (reg_d n) index i ext e lo h = rw e (ground arith, ground arith)
  emit_operand-encoded_element (reg_p n) index i ext e lo h = rw e (ground arith, ground arith)
  emit_operand-encoded_element (pev n) index i ext e lo h =
      rw e (ground arith, pev_code-element n i lo h.1)
  emit_operand-encoded_element (gev n) index i ext e lo h = rw e (ground arith, ground arith)
  emit_operand-encoded_element (rda_slot n) index i ext e lo h =
      rw e (rda_needs-element n i lo, rda_slot_code-element n i lo h)
  emit_operand-encoded_element (ident name) index i ext e lo h =
      elim (Option-cases (lookup_var name st)) [
        | inl x ↦ absurd (rw x at h)
        | inr (v, x) ↦
            rw (e, x)
              (
                rda_needs-element (var_slot v) i lo,
                rda_slot_code-element (var_slot v) i lo (rw x at h),
              )
      ]
  emit_operand-encoded_element _ index i ext e lo h = absurd h

  -- A register is the first of its kind.
  abbrev pub IsFirst : AstNode → Type 0
  IsFirst (reg_i n) = n ≡ 1
  IsFirst (reg_d n) = n ≡ 1
  IsFirst (reg_p n) = n ≡ 1
  IsFirst _ = Unit
