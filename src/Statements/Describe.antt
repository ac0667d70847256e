-- ===== src/Statements/Describe.antt =====
-- What statements jump to, what labels they have and whether their verbs have code, described over
-- the statements of shared/ast.h and without the code generator's state.
use tbol_toolchain.Base.{
  Bool, false, ◌||◌, ◌≡◌, ℕ, Option, none, some, List, [], ◌∷◌, if◌then◌else◌,
}
use tbol_toolchain.Ast.{AstNode}
use tbol_toolchain.Symtab.Names.{Name, same_name}
use tbol_toolchain.Symtab.{Symtab}
use tbol_toolchain.Verbs.{VerbStmt}
use tbol_toolchain.Verbs.Table.{lookup_verb, verb_code}
use tbol_toolchain.Statements.{
  Statement, Statements, label, verb_stmt, proc_call, goto, goto_depending_on, if_stmt, if_else,
  while_stmt, if_only, while_only, do_block, no_code, done, next,
}
use tbol_toolchain.Statements.Depending.{label_name}
use tbol_toolchain.Statements.Generate.{is_depending}

-- The name is that of an operand, as a label.
abbrev pub is_label : Name → Option Name → Bool
is_label name (some target) = same_name target name
is_label name none = false

unfoldable pub names_any : Name → List AstNode → Bool
unfolding label_name
names_any name [] = false
names_any name (node ∷ nodes) = is_label name (label_name node) || names_any name nodes

-- The labels of a GOTO_DEPENDING_ON are its operands but the first.
abbrev pub depends_on : Name → List AstNode → Bool
depends_on name [] = false
depends_on name (index_op ∷ nodes) = names_any name nodes

-- The statement has a GOTO or a GOTO_DEPENDING_ON to the name.
unfoldable mutual
  unfolding is_depending

  pub goes_to : Name → Statement → Bool
  goes_to name (label l) = false
  goes_to name (verb_stmt node) =
      if is_depending (lookup_verb node.name) then depends_on name node.operands else false
  goes_to name (proc_call callee args) = false
  goes_to name (goto target) = same_name target name
  goes_to name (goto_depending_on nodes) = depends_on name nodes
  goes_to name (if_stmt cond then_stmt) = goes_to name then_stmt
  goes_to name (if_else cond then_stmt else_stmt) = goes_to name then_stmt || goes_to name else_stmt
  goes_to name (while_stmt cond body) = goes_to name body
  goes_to name (if_only cond) = false
  goes_to name (while_only cond) = false
  goes_to name (do_block body) = any_goes_to name body
  goes_to name no_code = false

  pub any_goes_to : Name → Statements → Bool
  any_goes_to name done = false
  any_goes_to name (next first rest) = goes_to name first || any_goes_to name rest

-- The statement has the label.
unfoldable mutual
  pub has_label : Name → Statement → Bool
  has_label name (label l) = same_name l name
  has_label name (verb_stmt node) = false
  has_label name (proc_call callee args) = false
  has_label name (goto target) = false
  has_label name (goto_depending_on nodes) = false
  has_label name (if_stmt cond then_stmt) = has_label name then_stmt
  has_label name (if_else cond then_stmt else_stmt) =
      has_label name then_stmt || has_label name else_stmt
  has_label name (while_stmt cond body) = has_label name body
  has_label name (if_only cond) = false
  has_label name (while_only cond) = false
  has_label name (do_block body) = any_has_label name body
  has_label name no_code = false

  pub any_has_label : Name → Statements → Bool
  any_has_label name done = false
  any_has_label name (next first rest) = has_label name first || any_has_label name rest

-- No verb reads past its operands.
abbrev pub IsCoded : Symtab → VerbStmt → Type 0
IsCoded st node = (code : List ℕ) × (verb_code st node ≡ some code)

-- No verb reads past its operands, and no IF or WHILE past its children.
unfoldable mutual
  pub IsSafe : Symtab → Statement → Type 0
  IsSafe st (label l) = Unit
  IsSafe st (verb_stmt node) = IsCoded st node
  IsSafe st (proc_call callee args) = Unit
  IsSafe st (goto target) = Unit
  IsSafe st (goto_depending_on nodes) = Unit
  IsSafe st (if_stmt cond then_stmt) = IsSafe st then_stmt
  IsSafe st (if_else cond then_stmt else_stmt) = IsSafe st then_stmt × IsSafe st else_stmt
  IsSafe st (while_stmt cond body) = IsSafe st body
  IsSafe st (if_only cond) = ⊥
  IsSafe st (while_only cond) = ⊥
  IsSafe st (do_block body) = AreSafe st body
  IsSafe st no_code = Unit

  pub AreSafe : Symtab → Statements → Type 0
  AreSafe st done = Unit
  AreSafe st (next first rest) = IsSafe st first × AreSafe st rest
