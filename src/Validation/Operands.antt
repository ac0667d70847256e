-- ===== src/Validation/Operands.antt =====
-- `validate_expr` and `validate_verb` of compiler/sema/sema.c: the errors of operands.
use tbol_toolchain.Base.{
  ℕ, zero, suc, ◌+◌, Bool, true, false, not, ◌&&◌, ◌||◌, Option, none, some, List, [], ◌∷◌, length,
  ltb, ◌==◌, if◌then◌else◌, codes,
}
use tbol_toolchain.Ast.{AstNode, literal_str, literal_num, literal_hex, ident, indexed}
use tbol_toolchain.Symtab.Names.{same_name}
use tbol_toolchain.Symtab.{Symtab, VarSymbol, is_some, lookup_var, var_exists, lookup_structure}
use tbol_toolchain.Control.{Condition, compare, logic_and, logic_or, no_condition}
use tbol_toolchain.Verbs.{VerbStmt}
use tbol_toolchain.Validation.VerbSpecs.{OpFlags, VerbSpec, find_verb_spec}

abbrev pub max_literal_len : ℕ
max_literal_len = 97

-- One error if the test holds.
abbrev pub error_if : Bool → ℕ
error_if b = if b then 1 else 0

-- The literal's length is that of its text.
unfoldable pub validate_expr : Symtab → AstNode → ℕ
validate_expr st (literal_str value) = error_if (ltb max_literal_len (length value))
validate_expr st (literal_hex text) = error_if (ltb max_literal_len (length text))
validate_expr st (ident name) =
    error_if (not (var_exists name st) && not (is_some (lookup_structure name st)))
validate_expr st (indexed base index) = validate_expr st base + validate_expr st index
validate_expr st _ = 0

-- `validate_expr` on the nodes of conditions.
unfoldable pub validate_condition : Symtab → Condition → ℕ
unfolding validate_expr
validate_condition st (compare op left right) = validate_expr st left + validate_expr st right
validate_condition st (logic_and a b) = validate_condition st a + validate_condition st b
validate_condition st (logic_or a b) = validate_condition st a + validate_condition st b
validate_condition st no_condition = 0

unfoldable pub is_literal : AstNode → Bool
is_literal (literal_str value) = true
is_literal (literal_num text) = true
is_literal (literal_hex text) = true
is_literal _ = false

restricted : OpFlags → Bool
restricted OpFlags.must_be_var = true
restricted _ = false

-- The first n operands by the flags of their positions; the table leaves the others at 0.
unfoldable pub validate_operands : Symtab → ℕ → List OpFlags → List AstNode → ℕ
unfolding validate_expr is_literal restricted
validate_operands st zero flags ops = 0
validate_operands st (suc n) flags [] = 0
validate_operands st (suc n) [] (op ∷ ops) = validate_expr st op + validate_operands st n [] ops
validate_operands st (suc n) (flag ∷ flags) (op ∷ ops) =
    validate_expr st op
    + error_if (restricted flag && is_literal op)
    + validate_operands st n flags ops

-- The array size of a variable, and 0 for a scalar or no variable.
unfoldable pub size_of_var : Option VarSymbol → ℕ
size_of_var (some sym) = sym.array_size
size_of_var none = 0

unfoldable pub validate_move : Symtab → List AstNode → ℕ
unfolding size_of_var
validate_move st (ident src ∷ ident dst ∷ []) =
    let ssize = size_of_var (lookup_var src st) in
    let dsize = size_of_var (lookup_var dst st) in
    if ltb 0 ssize && ltb 0 dsize && not (ssize == dsize)
    then 1
    else if ltb 0 ssize && not (ltb 0 dsize) || not (ltb 0 ssize) && ltb 0 dsize
    then 1
    else 0
validate_move st _ = 0

unfoldable pub is_array : Symtab → AstNode → Bool
unfolding size_of_var
is_array st (ident name) = ltb 0 (size_of_var (lookup_var name st))
is_array st _ = false

-- One error for both operands.
unfoldable pub validate_swap : Symtab → List AstNode → ℕ
unfolding is_array
validate_swap st (a ∷ b ∷ []) = error_if (is_array st a || is_array st b)
validate_swap st _ = 0

-- `spec->max_ops >= 0 && op_count > spec->max_ops`
unfoldable pub too_many : Option ℕ → ℕ → Bool
too_many none op_count = false
too_many (some max_ops) op_count = ltb max_ops op_count

unfoldable pub validate_all : Symtab → List AstNode → ℕ
unfolding validate_expr
validate_all st [] = 0
validate_all st (op ∷ ops) = validate_expr st op + validate_all st ops

-- The checks of a verb with a specification: its count first, and alone if it is wrong.
unfoldable pub validate_spec : Symtab → VerbStmt → VerbSpec → ℕ
unfolding too_many validate_operands validate_move validate_swap
validate_spec st node spec =
    let op_count = length node.operands in
    if ltb op_count spec.min_ops
    then 1
    else if too_many spec.max_ops op_count
    then 1
    else validate_operands st 8 spec.flags node.operands
      + (if same_name node.name (codes "MOVE") then validate_move st node.operands else 0)
      + (if same_name node.name (codes "SWAP") then validate_swap st node.operands else 0)

-- An unknown verb has its operands validated, all of them.
unfoldable pub validate_found : Symtab → VerbStmt → Option VerbSpec → ℕ
unfolding validate_spec validate_all
validate_found st node (some spec) = validate_spec st node spec
validate_found st node none = validate_all st node.operands

unfoldable pub validate_verb : Symtab → VerbStmt → ℕ
unfolding validate_found find_verb_spec
validate_verb st node = validate_found st node (find_verb_spec node.name)
