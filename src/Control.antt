-- ===== src/Control.antt =====
-- Conditions in compiler/codegen/codegen_control.c: the opcodes of comparisons, and the terms of a
-- chain of ORs.
pub mod Terms
use tbol_toolchain.Base.{ℕ, zero, suc, ◌-◌, List, [], ◌∷◌, ◌++◌, length}
use tbol_toolchain.Ast.{AstNode, CmpOp}
use tbol_toolchain.Bytecode.Opcodes.Flow.{op_cjeq, op_cjne, op_cjlt, op_cjgt, op_cjle, op_cjge}

-- AST_COMPARE, AST_LOGIC_AND and AST_LOGIC_OR, and every other kind of node.
pub data Condition : Type 0 where
  compare : CmpOp → AstNode → AstNode → Condition
  logic_and logic_or : Condition → Condition → Condition
  no_condition : Condition

unfoldable pub get_inverse_cmp_opcode : CmpOp → ℕ
get_inverse_cmp_opcode CmpOp.eq = op_cjne
get_inverse_cmp_opcode CmpOp.ne = op_cjeq
get_inverse_cmp_opcode CmpOp.lt = op_cjge
get_inverse_cmp_opcode CmpOp.gt = op_cjle
get_inverse_cmp_opcode CmpOp.le = op_cjgt
get_inverse_cmp_opcode CmpOp.ge = op_cjlt

unfoldable pub get_direct_cmp_opcode : CmpOp → ℕ
get_direct_cmp_opcode CmpOp.eq = op_cjeq
get_direct_cmp_opcode CmpOp.ne = op_cjne
get_direct_cmp_opcode CmpOp.lt = op_cjlt
get_direct_cmp_opcode CmpOp.gt = op_cjgt
get_direct_cmp_opcode CmpOp.le = op_cjle
get_direct_cmp_opcode CmpOp.ge = op_cjge

-- The terms written to the array, at most `max_terms` of them.
unfoldable pub collect_or_terms : Condition → ℕ → List Condition
collect_or_terms node zero = []
collect_or_terms (logic_or a b) (suc n) =
    let left = collect_or_terms a (suc n) in left ++ collect_or_terms b (suc n - length left)
collect_or_terms (compare op l r) (suc n) = compare op l r ∷ []
collect_or_terms (logic_and a b) (suc n) = logic_and a b ∷ []
collect_or_terms no_condition (suc n) = no_condition ∷ []
