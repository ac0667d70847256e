-- ===== src/Bytecode/Ir.antt =====
-- The decoded operands of shared/bytecode/ir.h and the constructors of ir.c. `indexed` is that
-- `index` is there; an index is made by `operand_new` alone, so it has a kind and a value. `is_hex`,
-- which only the decompiler's printer sets, is left out.
use tbol_toolchain.Base.{ℕ, Option, none, some, List, [], length}

pub data OperandKind : Type 0 where
  nothing reg_i reg_d reg_p rda pev gev literal_num literal_str literal_bin : OperandKind

pub record IndexOperand : Type 0 where
  pub kind : OperandKind
  pub value : ℕ

pub record Operand : Type 0 where
  pub kind : OperandKind
  pub value : ℕ
  pub str_value : List ℕ
  pub str_len : ℕ
  pub index : Option IndexOperand

abbrev pub operand_new : OperandKind → ℕ → Operand
operand_new kind value = record {
  kind = kind;
  value = value;
  str_value = [];
  str_len = 0;
  index = none;
}

abbrev pub operand_new_str : List ℕ → Operand
operand_new_str str = record {
  kind = OperandKind.literal_str;
  value = 0;
  str_value = str;
  str_len = length str;
  index = none;
}

abbrev pub operand_new_indexed : Operand → IndexOperand → Operand
operand_new_indexed base idx = record base { index = some idx }
