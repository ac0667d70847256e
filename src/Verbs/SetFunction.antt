-- ===== src/Verbs/SetFunction.antt =====
-- SET_FUNCTION of compiler/codegen/codegen_verbs.c. A code that is not found, -1 in the source, is
-- `none`.
use tbol_toolchain.Base.{
  ℕ, zero, suc, ◌+◌, ◌^◌, Bool, false, ◌||◌, Option, none, some, List, [], ◌∷◌, ◌++◌, length, ltb,
  ◌==◌, if◌then◌else◌, codes, decimal,
}
use tbol_toolchain.Ast.{AstNode, ident}
use tbol_toolchain.Symtab.Names.{Name, same_name}
use tbol_toolchain.Symtab.{Symtab}
use tbol_toolchain.Codegen.Literal.{string_code}
use tbol_toolchain.Codegen.Operand.{needs_extended_encoding, emit_operand}
use tbol_toolchain.Codegen.Instruction.{opcode_code}
use tbol_toolchain.Bytecode.Opcodes.System.{op_set_func, op_set_func_pgm, op_set_func2}

-- The names are their codes in order, from 0 to 49.
abbrev pub function_names : List Name
function_names =
    codes "NO_EVENT"
    ∷ codes "ADD_TEXT"
    ∷ codes "ADD_TEXT_AND_FIELD_END"
    ∷ codes "BACKSPACE"
    ∷ codes "DELETE_TEXT"
    ∷ codes "TOGGLE_INSERT"
    ∷ codes "HELP"
    ∷ codes "INSERT_TEXT"
    ∷ codes "FIELD_HELP"
    ∷ codes "PAGE_HELP"
    ∷ codes "NAVIGATION"
    ∷ codes "INTERFIELD_CURSOR"
    ∷ codes "NEXT"
    ∷ codes "BACK"
    ∷ codes "PATH"
    ∷ codes "JUMP"
    ∷ codes "ACTION"
    ∷ codes "FIELD_END"
    ∷ codes "ELEMENT_END"
    ∷ codes "PAGE_END"
    ∷ codes "BYE"
    ∷ codes "LOGON"
    ∷ codes "VIEWPATH"
    ∷ codes "KEYWORD"
    ∷ codes "GUIDE"
    ∷ codes "RECALL"
    ∷ codes "UNDO"
    ∷ codes "WHERE"
    ∷ codes "SRNPRT"
    ∷ codes "SMFILE"
    ∷ codes "SCAN"
    ∷ codes "TOOLS"
    ∷ codes "DIRECTORY"
    ∷ codes "INDEX"
    ∷ codes "FIND"
    ∷ codes "LEAVE"
    ∷ codes "ZIP"
    ∷ codes "NEW_LINE"
    ∷ codes "SCROLL_UP"
    ∷ codes "SCROLL_DOWN"
    ∷ codes "SET_CLOSE_WINDOW"
    ∷ codes "SET_OPEN_WINDOW"
    ∷ codes "CURSOR"
    ∷ codes "LOGOFF"
    ∷ codes "LOOK"
    ∷ codes "TRAVEL"
    ∷ codes "FIRST_PAGE"
    ∷ codes "LAST_PAGE"
    ∷ codes "PREVIOUS_MENU"
    ∷ codes "LOGICAL_FUNCTIONS"
    ∷ []

abbrev pub action_names : List (Name × ℕ)
action_names =
    (codes "NORMAL", 0)
    ∷ (codes "DISABLE", 16)
    ∷ (codes "FILTER", 32)
    ∷ (codes "FILTER_ON", 64)
    ∷ []

function_code_from : ℕ → Name → List Name → Option ℕ
function_code_from code name [] = none
function_code_from code name (known ∷ names) =
    if same_name name known then some code else function_code_from (suc code) name names

unfoldable pub lookup_function_name : Name → Option ℕ
unfolding function_code_from
lookup_function_name name = function_code_from 0 name function_names

action_code_from : Name → List (Name × ℕ) → Option ℕ
action_code_from name [] = none
action_code_from name ((known, code) ∷ names) =
    if same_name name known then some code else action_code_from name names

unfoldable pub lookup_action_name : Name → Option ℕ
unfolding action_code_from
lookup_action_name name = action_code_from name action_names

unfoldable pub function_code : AstNode → Option ℕ
function_code (ident name) = lookup_function_name name
function_code _ = none

unfoldable pub action_code : AstNode → Option ℕ
action_code (ident name) = lookup_action_name name
action_code _ = none

-- An operand with the code that it is converted to.
pub record SetOperand : Type 0 where
  pub code : Option ℕ
  pub node : AstNode

unfoldable pub unconverted : List AstNode → List SetOperand
unconverted [] = []
unconverted (op ∷ ops) = record { code = none; node = op } ∷ unconverted ops

unfoldable pub set_operands : List AstNode → List SetOperand
unfolding unconverted
set_operands (func ∷ action ∷ ops) =
    record { code = function_code func; node = func }
    ∷ record { code = action_code action; node = action }
    ∷ unconverted ops
set_operands ops = unconverted ops

-- A converted operand is a plain string.
unfoldable pub set_needs_extended : Symtab → SetOperand → Bool
set_needs_extended st op = elim op.code [
  | some code ↦ false
  | none ↦ needs_extended_encoding st op.node
]

unfoldable pub set_check_complex : Symtab → List SetOperand → Bool
unfolding set_needs_extended
set_check_complex st [] = false
set_check_complex st (op ∷ ops) = set_needs_extended st op || set_check_complex st ops

-- `for (i = 0; i < count; i++) ... mode |= (1 << (7 - i));` with k bits left.
unfoldable pub set_mode : Symtab → ℕ → List SetOperand → ℕ
unfolding set_needs_extended
set_mode st zero ops = 0
set_mode st (suc k) [] = 0
set_mode st (suc k) (op ∷ ops) = (if set_needs_extended st op then 2 ^ k else 0) + set_mode st k ops

unfoldable pub set_operand_code : Symtab → SetOperand → List ℕ
unfolding decimal
set_operand_code st op = elim op.code [
  | some code ↦ string_code (decimal code)
  | none ↦ emit_operand st op.node (needs_extended_encoding st op.node)
]

unfoldable pub set_operands_code : Symtab → List SetOperand → List ℕ
unfolding set_operand_code
set_operands_code st [] = []
set_operands_code st (op ∷ ops) = set_operand_code st op ++ set_operands_code st ops

unfoldable pub set_function_opcode : ℕ → ℕ
set_function_opcode count =
    if count == 2 then op_set_func else if count == 3 then op_set_func_pgm else op_set_func2

-- More than four operands are read and written past the ends of `operands` and `check_ops`.
unfoldable pub gen_set_function : Symtab → List AstNode → Option (List ℕ)
unfolding set_operands set_check_complex set_mode set_operands_code set_function_opcode
gen_set_function st ops =
    let sets = set_operands ops in
    if ltb (length ops) 2
    then some []
    else if ltb 4 (length ops)
    then none
    else some (
        opcode_code (set_function_opcode (length ops)) (set_check_complex st sets)
          (set_mode st 8 sets ∷ [])
        ++ set_operands_code st sets)
