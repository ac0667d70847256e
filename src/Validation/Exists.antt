-- ===== src/Validation/Exists.antt =====
-- `collect_labels_recursive` of compiler/sema/sema.c collects exactly the labels of the statements.
use tbol_toolchain.Base.{◌≡◌, refl, sym, true, ◌||◌, List, [], ◌∷◌, arith, Bool-cases, inl, inr}
use tbol_toolchain.Symtab.Names.{Name, same_name}
use tbol_toolchain.Statements.{
  Statement, Statements, label, verb_stmt, proc_call, goto, goto_depending_on, if_stmt, if_else,
  while_stmt, if_only, while_only, do_block, no_code, done, next,
}
use tbol_toolchain.Statements.Waiting.{same_name-right}
use tbol_toolchain.Statements.Describe.{has_label, any_has_label}
use tbol_toolchain.Validation.Labels.{
  LabelScope, label_exists, collect_label, collect_labels, collect_all_labels,
}

pub label_exists-same_name :
    (labels : List Name) (a b : Name)
    → same_name a b ≡ true
    → label_exists labels a ≡ label_exists labels b
unfolding label_exists
label_exists-same_name [] a b e = refl
label_exists-same_name (l ∷ labels) a b e =
    rw (same_name-right l a b e, label_exists-same_name labels a b e) refl

module _ (name : Name) where
  collect_label_exists :
      (l : Name) (scope : LabelScope)
      → label_exists (collect_label l scope).labels name
        ≡ (label_exists scope.labels name || same_name l name)
  unfolding collect_label label_exists
  collect_label_exists l scope = elim (Bool-cases (label_exists scope.labels l)) [
    | inl old ↦ elim (Bool-cases (same_name l name)) [
      | inl same ↦
          rw (old, same) (rw (sym (label_exists-same_name scope.labels l name same), old) refl)
      | inr diff ↦ rw (old, diff) (ground arith)
    ]
    | inr new ↦ elim (Bool-cases (same_name l name)) [
      | inl same ↦ rw (new, same) (ground arith)
      | inr diff ↦ rw (new, diff) (ground arith)
    ]
  ]

mutual
  unfolding collect_labels has_label

  -- The labels that are collected are those that the statement has.
  collect_labels_exists :
      (name : Name) (stmt : Statement) (scope : LabelScope)
      → label_exists (collect_labels stmt scope).labels name
        ≡ (label_exists scope.labels name || has_label name stmt)
  collect_labels_exists name (label l) scope = collect_label_exists name l scope
  collect_labels_exists name (verb_stmt node) scope = ground arith
  collect_labels_exists name (proc_call callee args) scope = ground arith
  collect_labels_exists name (goto target) scope = ground arith
  collect_labels_exists name (goto_depending_on nodes) scope = ground arith
  collect_labels_exists name (if_stmt cond a) scope = collect_labels_exists name a scope
  collect_labels_exists name (if_else cond a b) scope =
      rw (collect_labels_exists name b (collect_labels a scope), collect_labels_exists name a scope)
        (ground arith)
  collect_labels_exists name (while_stmt cond body) scope = collect_labels_exists name body scope
  collect_labels_exists name (if_only cond) scope = ground arith
  collect_labels_exists name (while_only cond) scope = ground arith
  collect_labels_exists name (do_block body) scope = collect_all_labels_exists name body scope
  collect_labels_exists name no_code scope = ground arith

  pub collect_all_labels_exists :
      (name : Name) (body : Statements) (scope : LabelScope)
      → label_exists (collect_all_labels body scope).labels name
        ≡ (label_exists scope.labels name || any_has_label name body)
  collect_all_labels_exists name done scope = ground arith
  collect_all_labels_exists name (next first rest) scope =
      rw
        (
          collect_all_labels_exists name rest (collect_labels first scope),
          collect_labels_exists name first scope,
        )
        (ground arith)
