-- ===== src/RoundTrip/Meaning.antt =====
-- What an operand of the source means: the decoded operand that it becomes, stated without its bytes,
-- and which operands the encoding is made for. For a register with a constant index that is what the
-- code generator takes it for, which `element` is not.
use tbol_toolchain.Base.{ℕ, ◌+◌, ◌-◌, ◌≤◌, Option, none, some, length, ℤ, pos, negsuc}
use tbol_toolchain.Ast.{
  AstNode, literal_str, literal_num, literal_hex, ident, reg_i, reg_d, reg_p, pev, gev, rda_slot,
  indexed, other,
}
use tbol_toolchain.Symtab.{
  Symtab, VarSymbol, StructureGroup, lookup_var, lookup_structure, var_slot,
}
use tbol_toolchain.Bytecode.Ir.{
  Operand, OperandKind, IndexOperand, operand_new, operand_new_str, operand_new_indexed,
}
use tbol_toolchain.Codegen.Literal.{hex_bytes, skip_0x}
use tbol_toolchain.Codegen.Operand.{constant_index}

-- The RDA slot that a name stands for, or 222, which is none.
abbrev pub slot_of : Option VarSymbol → Option StructureGroup → ℕ
slot_of (some sym) sg = var_slot sym
slot_of none (some sg) = sg.start_slot
slot_of none none = 222

-- An operand that is neither a literal nor indexed: its kind and number.
abbrev pub place : Symtab → AstNode → IndexOperand
place st (reg_i n) = record { kind = OperandKind.reg_i; value = n }
place st (reg_d n) = record { kind = OperandKind.reg_d; value = n }
place st (reg_p n) = record { kind = OperandKind.reg_p; value = n }
place st (pev n) = record { kind = OperandKind.pev; value = n }
place st (gev n) = record { kind = OperandKind.gev; value = n }
place st (rda_slot n) = record { kind = OperandKind.rda; value = n }
place st (ident name) = record {
  kind = OperandKind.rda;
  value = slot_of (lookup_var name st) (lookup_structure name st);
}
place st _ = record { kind = OperandKind.nothing; value = 0 }

-- The numbers that each kind has: I1-I8, D1-D8, P0-P8, &1-&256, #1-#32000, RDA0-RDA221.
abbrev pub InRange : OperandKind → ℕ → Type 0
InRange OperandKind.reg_i v = (1 ≤ v) × (v ≤ 8)
InRange OperandKind.reg_d v = (1 ≤ v) × (v ≤ 8)
InRange OperandKind.reg_p v = v ≤ 8
InRange OperandKind.rda v = v ≤ 221
InRange OperandKind.pev v = (1 ≤ v) × (v ≤ 256)
InRange OperandKind.gev v = (1 ≤ v) × (v ≤ 32000)
InRange _ v = ⊥

abbrev pub IsPlace : Symtab → AstNode → Type 0
IsPlace st node = InRange (place st node).kind (place st node).value

abbrev var_element : Option VarSymbol → ℕ → AstNode
var_element (some sym) i = rda_slot (var_slot sym + i - 1)
var_element none i = other

-- The operand that a constant index selects: element i of an array, the register or the variable
-- i - 1 places after the one that is indexed.
abbrev pub element : Symtab → AstNode → ℕ → AstNode
element st (reg_i n) i = reg_i (n + i - 1)
element st (reg_d n) i = reg_d (n + i - 1)
element st (reg_p n) i = reg_p (n + i - 1)
element st (pev n) i = pev (n + i - 1)
element st (gev n) i = gev (n + i - 1)
element st (ident name) i = var_element (lookup_var name st) i
element st (rda_slot n) i = rda_slot (n + i - 1)
element st _ i = other

-- The operand that the encoding selects, which for a register is register i whatever the register
-- that is indexed: for another than the first that is not the element.
abbrev pub encoded_element : Symtab → AstNode → ℕ → AstNode
encoded_element st (reg_i n) i = reg_i i
encoded_element st (reg_d n) i = reg_d i
encoded_element st (reg_p n) i = reg_p i
encoded_element st (pev n) i = pev (n + i - 1)
encoded_element st (gev n) i = gev (n + i - 1)
encoded_element st (ident name) i = var_element (lookup_var name st) i
encoded_element st (rda_slot n) i = rda_slot (n + i - 1)
encoded_element st _ i = other

abbrev place_operand : IndexOperand → Operand
place_operand p = operand_new p.kind p.value

abbrev pub indexed_meaning : Symtab → AstNode → AstNode → Option ℤ → Operand
indexed_meaning st base index (some (pos i)) = place_operand (place st (encoded_element st base i))
indexed_meaning st base index (some (negsuc i)) = operand_new OperandKind.nothing 0
indexed_meaning st base index none =
    operand_new_indexed (place_operand (place st base)) (place st index)

-- The decoded operand of a node.
abbrev pub meaning : Symtab → AstNode → Operand
meaning st (literal_str str) = operand_new_str str
meaning st (literal_num text) = operand_new_str text
meaning st (literal_hex text) = operand_new_str (hex_bytes (skip_0x text))
meaning st (indexed base index) = indexed_meaning st base index (constant_index index)
meaning st node = place_operand (place st node)

-- What fits the one byte of a dynamic index.
abbrev IdentFits : Option VarSymbol → Option StructureGroup → Type 0
IdentFits (some sym) sg = var_slot sym ≤ 221
IdentFits none (some sg) = sg.start_slot ≤ 157
IdentFits none none = ⊥

abbrev pub IndexFits : Symtab → AstNode → Type 0
IndexFits st (reg_i n) = (1 ≤ n) × (n ≤ 8)
IndexFits st (reg_d n) = (1 ≤ n) × (n ≤ 8)
IndexFits st (reg_p n) = n ≤ 8
IndexFits st (ident name) = IdentFits (lookup_var name st) (lookup_structure name st)
IndexFits st (rda_slot n) = n ≤ 157
IndexFits st _ = ⊥

abbrev pub IndexedFits : Symtab → AstNode → AstNode → Option ℤ → Type 0
IndexedFits st base index (some (pos i)) = (1 ≤ i) × IsPlace st (encoded_element st base i)
IndexedFits st base index (some (negsuc i)) = ⊥
IndexedFits st base index none = IsPlace st base × IndexFits st index

-- The operands that the encoding is made for: literals of at most 255 bytes, places whose number
-- exists, and indexed places whose index is constant or fits its byte.
abbrev pub IsEncodable : Symtab → AstNode → Type 0
IsEncodable st (literal_str str) = length str ≤ 255
IsEncodable st (literal_num text) = length text ≤ 255
IsEncodable st (literal_hex text) = length (skip_0x text) ≤ 510
IsEncodable st (indexed base index) = IndexedFits st base index (constant_index index)
IsEncodable st node = IsPlace st node
