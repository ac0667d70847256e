-- ===== src/Ast.antt =====
-- The operand nodes of shared/ast.h, as the code generator reads them. A text is its bytes without
-- the final NUL; a numeric or hexadecimal literal keeps the text that the lexer saw.
use tbol_toolchain.Base.{ℕ, ℤ, List}
use tbol_toolchain.Symtab.Names.{Name}

-- AstNode, by AstNodeKind. A `format_spec` has a field and the lengths `fix_len` and `imbed_len`, of
-- which one that is not given is -1. `other` stands for each kind that is no operand, for which the code
-- generator's switches have one default.
pub data AstNode : Type 0 where
  literal_str : List ℕ → AstNode
  literal_num : List ℕ → AstNode
  literal_hex : List ℕ → AstNode
  ident : Name → AstNode
  reg_i : ℕ → AstNode
  reg_d : ℕ → AstNode
  reg_p : ℕ → AstNode
  pev : ℕ → AstNode
  gev : ℕ → AstNode
  rda_slot : ℕ → AstNode
  indexed : AstNode → AstNode → AstNode
  format_spec : AstNode → ℤ → ℤ → AstNode
  other : AstNode

-- CmpOp
pub data CmpOp : Type 0 where
  eq ne lt gt le ge : CmpOp
