-- ===== src/Tests/ControlTests.antt =====
-- Tests of the code for conditions.
use tbol_toolchain.Base.{ℕ, ◌≡◌, not, take}
use tbol_toolchain.Ast.{CmpOp, reg_i}
use tbol_toolchain.Control.{
  Condition, compare, logic_and, logic_or, get_inverse_cmp_opcode, get_direct_cmp_opcode,
  collect_or_terms,
}
use tbol_toolchain.Control.Terms.{
  holds, or_terms, get_inverse_cmp_opcode-complement, collect_or_terms-take,
}

get_inverse_cmp_opcode-complement_example :
    (op' : CmpOp) × (get_inverse_cmp_opcode CmpOp.lt ≡ get_direct_cmp_opcode op')
    × ((a b : ℕ) → holds op' a b ≡ not (holds CmpOp.lt a b))
get_inverse_cmp_opcode-complement_example = get_inverse_cmp_opcode-complement CmpOp.lt

abbrev comparison : CmpOp → Condition
comparison op = compare op (reg_i 1) (reg_i 2)

-- I1 = I2 OR (I1 < I2 OR I1 > I2 AND I1 <> I2)
abbrev chain : Condition
chain =
    logic_or (comparison CmpOp.eq)
      (logic_or (comparison CmpOp.lt) (logic_and (comparison CmpOp.gt) (comparison CmpOp.ne)))

collect_or_terms-take_example : collect_or_terms chain 32 ≡ take 32 (or_terms chain)
collect_or_terms-take_example = collect_or_terms-take chain 32
