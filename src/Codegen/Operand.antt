-- ===== src/Codegen/Operand.antt =====
-- compiler/codegen/codegen_operand.c. The emitters of compiler/codegen/emit.c append to one buffer;
-- here a function that emits returns the bytes that it appends, in order.
use tbol_toolchain.Base.{
  ℕ, ◌+◌, ◌-◌, ◌/◌, ◌%◌, Bool, true, false, Option, none, some, List, [], ◌∷◌, ◌++◌, leb, ltb, ◌==◌,
  ◌||◌, if◌then◌else◌, ℤ, pos, ◌+ℤ◌, ◌-ℤ◌, ltb_ℤ, wrap_ℤ,
}
use tbol_toolchain.Codegen.Literal.{byte_code, word_code, string_code, atoi, hex_code}
use tbol_toolchain.Ast.{
  AstNode, literal_str, literal_num, literal_hex, ident, reg_i, reg_d, reg_p, pev, gev, rda_slot,
  indexed,
}
use tbol_toolchain.Symtab.{
  Symtab, VarSymbol, StructureGroup, lookup_var, lookup_structure, var_slot,
}

-- The encoding of an RDA slot that `compute_operand_value` repeats.
unfoldable pub rda_value : ℕ → ℕ
rda_value slot = if leb slot 157 then 34 + slot else 256 + (slot - 158)

-- `case AST_IDENT`: a variable, else a structure group, else 0.
unfoldable pub ident_value : Option VarSymbol → Option StructureGroup → ℕ
unfolding rda_value
ident_value (some sym) sg = rda_value (var_slot sym)
ident_value none (some sg) = rda_value sg.start_slot
ident_value none none = 0

unfoldable pub compute_operand_value : Symtab → AstNode → ℕ
unfolding ident_value
compute_operand_value st (reg_i number) = 8 + number
compute_operand_value st (reg_d number) = 16 + number
compute_operand_value st (reg_p number) = 25 + number
compute_operand_value st (ident name) = ident_value (lookup_var name st) (lookup_structure name st)
compute_operand_value st (pev num) = if leb num 64 then 191 + num else 255 + num
compute_operand_value st (gev num) = 0x200 + num - 1
compute_operand_value st (rda_slot slot) = rda_value slot
compute_operand_value st _ = 0

-- The index of an indexed node, if it is constant (`index->kind == AST_LITERAL_NUM`).
unfoldable pub constant_index : AstNode → Option ℤ
constant_index (literal_num text) = some (atoi text)
constant_index _ = none

-- base + idx - 1
abbrev pub resolved : ℕ → ℤ → ℤ
resolved base idx = pos base +ℤ idx -ℤ pos 1

-- The resolved slot lies above 157.
var_needs_extended : Option VarSymbol → ℤ → Bool
var_needs_extended (some sym) idx = ltb_ℤ (pos 157) (resolved (var_slot sym) idx)
var_needs_extended none idx = false

resolved_needs_extended : Symtab → AstNode → ℤ → Bool
unfolding var_needs_extended
resolved_needs_extended st (pev num) idx = ltb_ℤ (pos 64) (resolved num idx)
resolved_needs_extended st (gev num) idx = true
resolved_needs_extended st (ident name) idx = var_needs_extended (lookup_var name st) idx
resolved_needs_extended st (rda_slot slot) idx = ltb_ℤ (pos 157) (resolved slot idx)
resolved_needs_extended st _ idx = false

-- A dynamic index always needs complex mode.
indexed_needs_extended : Symtab → AstNode → Option ℤ → Bool
unfolding resolved_needs_extended
indexed_needs_extended st base (some idx) = resolved_needs_extended st base idx
indexed_needs_extended st base none = true

unfoldable pub needs_extended_encoding : Symtab → AstNode → Bool
unfolding indexed_needs_extended constant_index compute_operand_value
needs_extended_encoding st (indexed base index) =
    indexed_needs_extended st base (constant_index index)
needs_extended_encoding st node = ltb 255 (compute_operand_value st node)

-- `emit_rda_slot_operand`
unfoldable pub rda_slot_code : ℤ → List ℕ
rda_slot_code slot =
    if ltb_ℤ (pos 157) slot
    then word_code (wrap_ℤ 65536 (pos 256 +ℤ slot -ℤ pos 158))
    else wrap_ℤ 256 (pos 34 +ℤ slot) ∷ []

unfoldable pub pev_code : ℤ → List ℕ
pev_code num =
    if ltb_ℤ (pos 64) num
    then word_code (wrap_ℤ 65536 (pos 255 +ℤ num))
    else wrap_ℤ 256 (pos 191 +ℤ num) ∷ []

var_code : Option VarSymbol → ℤ → List ℕ
unfolding rda_slot_code
var_code (some sym) idx = rda_slot_code (resolved (var_slot sym) idx)
var_code none idx = []

-- A constant index, resolved at compile time; `none` where the switch breaks off.
resolved_code : Symtab → AstNode → ℤ → Option (List ℕ)
unfolding var_code pev_code
resolved_code st (reg_i number) idx = some (wrap_ℤ 256 (pos 8 +ℤ idx) ∷ [])
resolved_code st (reg_d number) idx = some (wrap_ℤ 256 (pos 16 +ℤ idx) ∷ [])
resolved_code st (reg_p number) idx = some (wrap_ℤ 256 (pos 25 +ℤ idx) ∷ [])
resolved_code st (pev num) idx = some (pev_code (resolved num idx))
resolved_code st (gev num) idx =
    some (word_code (wrap_ℤ 65536 (pos 0x200 +ℤ resolved num idx -ℤ pos 1)))
resolved_code st (ident name) idx = some (var_code (lookup_var name st) idx)
resolved_code st (rda_slot slot) idx = some (rda_slot_code (resolved slot idx))
resolved_code st _ idx = none

-- `base_val | 0x8000`
abbrev pub set_bit_15 : ℕ → ℕ
set_bit_15 v = if v / 0x8000 % 2 == 1 then v else v + 0x8000

-- A variable's slot is 34 + slot on one byte, also from slot 158 on.
var_index_value : Option VarSymbol → ℕ → ℕ
var_index_value (some sym) value = 34 + var_slot sym
var_index_value none value = value

unfoldable pub index_value : Symtab → AstNode → ℕ
unfolding var_index_value
index_value st (ident name) =
    var_index_value (lookup_var name st) (compute_operand_value st (ident name))
index_value st index = compute_operand_value st index

unfoldable pub dynamic_code : Symtab → AstNode → AstNode → List ℕ
unfolding index_value
dynamic_code st base index =
    word_code (set_bit_15 (compute_operand_value st base)) ++ byte_code (index_value st index)

indexed_code : Symtab → AstNode → AstNode → Option ℤ → List ℕ
unfolding resolved_code dynamic_code
indexed_code st base index none = dynamic_code st base index
indexed_code st base index (some idx) = elim (resolved_code st base idx) [
  | some code ↦ code
  | none ↦ dynamic_code st base index
]

-- The tail of `emit_operand`, for an operand that is one value.
abbrev pub value_code : ℕ → Bool → List ℕ
value_code value use_extended =
    if use_extended || ltb 255 value then word_code value else byte_code value

unfoldable pub emit_operand : Symtab → AstNode → Bool → List ℕ
unfolding indexed_code constant_index compute_operand_value
emit_operand st (literal_str value) use_extended = string_code value
emit_operand st (literal_num text) use_extended = string_code text
emit_operand st (literal_hex text) use_extended = hex_code text
emit_operand st (indexed base index) use_extended =
    indexed_code st base index (constant_index index)
emit_operand st node use_extended = value_code (compute_operand_value st node) use_extended

-- The end operand of SAVE_RANGE and CLEAR_RANGE: the last element of an array or of a structure.
range_end_of_group : Option StructureGroup → ℕ → ℕ
unfolding rda_value
range_end_of_group (some sg) value = rda_value (sg.start_slot + sg.count - 1)
range_end_of_group none value = value

range_end_of : Option VarSymbol → Option StructureGroup → ℕ → ℕ
unfolding range_end_of_group
range_end_of (some sym) sg value =
    if ltb 0 sym.array_size
    then rda_value (var_slot sym + sym.array_size - 1)
    else range_end_of_group sg value
range_end_of none sg value = range_end_of_group sg value

unfoldable pub compute_range_end_value : Symtab → AstNode → ℕ
unfolding range_end_of
compute_range_end_value st (ident name) =
    range_end_of (lookup_var name st) (lookup_structure name st)
      (compute_operand_value st (ident name))
compute_range_end_value st node = compute_operand_value st node
