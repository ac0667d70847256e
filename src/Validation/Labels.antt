-- ===== src/Validation/Labels.antt =====
-- `collect_labels_recursive` of compiler/sema/sema.c, with `symtab_define_label` and
-- `symtab_lookup_label` of symtab.c: the labels of one procedure, newest first.
use tbol_toolchain.Base.{ℕ, ◌+◌, Bool, true, false, List, [], ◌∷◌, if◌then◌else◌}
use tbol_toolchain.Symtab.Names.{Name, same_name}
use tbol_toolchain.Statements.{
  Statement, Statements, label, verb_stmt, proc_call, goto, goto_depending_on, if_stmt, if_else,
  while_stmt, if_only, while_only, do_block, no_code, done, next,
}

-- `symtab_label_exists`
unfoldable pub label_exists : List Name → Name → Bool
label_exists [] name = false
label_exists (l ∷ labels) name = if same_name l name then true else label_exists labels name

-- The labels so far, and the duplicates.
pub record LabelScope : Type 0 where
  pub labels : List Name
  pub errors : ℕ

unfoldable pub collect_label : Name → LabelScope → LabelScope
unfolding label_exists
collect_label name scope =
    if label_exists scope.labels name
    then record scope { errors = scope.errors + 1 }
    else record scope { labels = name ∷ scope.labels }

unfoldable mutual
  unfolding collect_label

  pub collect_labels : Statement → LabelScope → LabelScope
  collect_labels (label name) scope = collect_label name scope
  collect_labels (verb_stmt node) scope = scope
  collect_labels (proc_call name args) scope = scope
  collect_labels (goto target) scope = scope
  collect_labels (goto_depending_on nodes) scope = scope
  collect_labels (if_stmt cond then_stmt) scope = collect_labels then_stmt scope
  collect_labels (if_else cond then_stmt else_stmt) scope =
      collect_labels else_stmt (collect_labels then_stmt scope)
  collect_labels (while_stmt cond body) scope = collect_labels body scope
  collect_labels (if_only cond) scope = scope
  collect_labels (while_only cond) scope = scope
  collect_labels (do_block body) scope = collect_all_labels body scope
  collect_labels no_code scope = scope

  pub collect_all_labels : Statements → LabelScope → LabelScope
  collect_all_labels done scope = scope
  collect_all_labels (next first rest) scope = collect_all_labels rest (collect_labels first scope)
