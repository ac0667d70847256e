-- ===== src/Validation/References.antt =====
-- `validate_statement` of compiler/sema/sema.c with its parts, inside a procedure, and the checks of
-- `AST_PROC` in both passes.
use tbol_toolchain.Base.{ℕ, ◌+◌, not, Option, none, some, List, [], ◌∷◌, leb}
use tbol_toolchain.Ast.{AstNode}
use tbol_toolchain.Symtab.Names.{Name}
use tbol_toolchain.Symtab.{Symtab, ProcSymbol, lookup_proc}
use tbol_toolchain.Statements.{
  Statement, Statements, ProcNode, label, verb_stmt, proc_call, goto, goto_depending_on, if_stmt,
  if_else, while_stmt, if_only, while_only, do_block, no_code, done, next,
}
use tbol_toolchain.Statements.Depending.{label_name}
use tbol_toolchain.Validation.Operands.{
  error_if, validate_expr, validate_condition, validate_all, validate_verb,
}
use tbol_toolchain.Validation.Labels.{LabelScope, label_exists, collect_all_labels}

unfoldable pub validate_goto : List Name → Name → ℕ
unfolding label_exists
validate_goto labels target = error_if (not (label_exists labels target))

-- A child that is no identifier is passed over.
unfoldable pub validate_label_node : List Name → Option Name → ℕ
unfolding validate_goto
validate_label_node labels none = 0
validate_label_node labels (some target) = validate_goto labels target

unfoldable pub validate_label_nodes : List Name → List AstNode → ℕ
unfolding validate_label_node label_name
validate_label_nodes labels [] = 0
validate_label_nodes labels (node ∷ nodes) =
    validate_label_node labels (label_name node) + validate_label_nodes labels nodes

unfoldable pub validate_goto_depending_on : Symtab → List Name → List AstNode → ℕ
unfolding validate_expr validate_label_nodes
validate_goto_depending_on st labels [] = 0
validate_goto_depending_on st labels (index_op ∷ nodes) =
    validate_expr st index_op + validate_label_nodes labels nodes

-- A call of a procedure that stands before its end; one that is not defined has a warning only.
unfoldable pub validate_order : Option ProcSymbol → ℕ → ℕ
validate_order none order = 0
validate_order (some target) order = error_if (leb target.order order)

unfoldable pub validate_proc_call : Symtab → ℕ → Name → List AstNode → ℕ
unfolding validate_order validate_all
validate_proc_call st order name args =
    validate_order (lookup_proc name st) order + validate_all st args

-- `labels` and `order` are those of `current_proc`.
unfoldable mutual
  unfolding validate_goto validate_goto_depending_on validate_proc_call validate_condition
      validate_verb

  pub validate_statement : Symtab → List Name → ℕ → Statement → ℕ
  validate_statement st labels order (label name) = 0
  validate_statement st labels order (verb_stmt node) = validate_verb st node
  validate_statement st labels order (proc_call name args) = validate_proc_call st order name args
  validate_statement st labels order (goto target) = validate_goto labels target
  validate_statement st labels order (goto_depending_on nodes) =
      validate_goto_depending_on st labels nodes
  validate_statement st labels order (if_stmt cond then_stmt) =
      validate_condition st cond + validate_statement st labels order then_stmt
  validate_statement st labels order (if_else cond then_stmt else_stmt) =
      validate_condition st cond
      + (validate_statement st labels order then_stmt
          + validate_statement st labels order else_stmt)
  validate_statement st labels order (while_stmt cond body) =
      validate_condition st cond + validate_statement st labels order body
  validate_statement st labels order (if_only cond) = validate_condition st cond
  validate_statement st labels order (while_only cond) = validate_condition st cond
  validate_statement st labels order (do_block body) = validate_statements st labels order body
  validate_statement st labels order no_code = 0

  pub validate_statements : Symtab → List Name → ℕ → Statements → ℕ
  validate_statements st labels order done = 0
  validate_statements st labels order (next first rest) =
      validate_statement st labels order first + validate_statements st labels order rest

-- The labels of a procedure, from none.
unfoldable pub proc_labels : ProcNode → LabelScope
unfolding collect_all_labels
proc_labels node = collect_all_labels node.body (record { labels = []; errors = 0 })

-- The errors of a procedure that is defined with that order: duplicate labels and references.
unfoldable pub validate_proc : Symtab → ℕ → ProcNode → ℕ
unfolding proc_labels validate_statements
validate_proc st order node =
    (proc_labels node).errors + validate_statements st (proc_labels node).labels order node.body
