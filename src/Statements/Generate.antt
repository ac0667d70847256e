-- ===== src/Statements/Generate.antt =====
-- `gen_statement` of compiler/codegen/codegen.c with `gen_if`, `gen_while` and the others of
-- codegen_control.c, and `gen_verb` of codegen_verbs.c on the state. Line marks are left out.
use tbol_toolchain.Base.{
  ℕ, ◌+◌, Bool, true, false, Option, none, some, ◌++◌, if◌then◌else◌, ◌>>=◌, codes, decimal,
}
use tbol_toolchain.Symtab.Names.{Name}
use tbol_toolchain.Symtab.{Symtab}
use tbol_toolchain.Control.{Condition, compare, get_direct_cmp_opcode}
use tbol_toolchain.Codegen.Labels.{Generator, emit_cond_jump}
use tbol_toolchain.Verbs.{VerbStmt}
use tbol_toolchain.Verbs.Table.{Dispatch, Handler, handled_by, lookup_verb, verb_code}
use tbol_toolchain.Statements.{
  Statement, Statements, label, verb_stmt, proc_call, goto, goto_depending_on, if_stmt, if_else,
  while_stmt, if_only, while_only, do_block, no_code, done, next,
}
use tbol_toolchain.Statements.State.{
  CodeState, on_generator, emit_code, jump_to, put_label, gen_proc_call,
}
use tbol_toolchain.Statements.Depending.{gen_goto_depending_on}
use tbol_toolchain.Statements.Conditions.{gen_condition_false_jump}

-- "__else_%d", "__endif_%d", "__while_%d" and "__endwhile_%d"
unfoldable pub else_label : ℕ → Name
else_label my_id = codes "__else_" ++ decimal my_id

unfoldable pub endif_label : ℕ → Name
endif_label my_id = codes "__endif_" ++ decimal my_id

unfoldable pub while_label : ℕ → Name
while_label my_id = codes "__while_" ++ decimal my_id

unfoldable pub endwhile_label : ℕ → Name
endwhile_label my_id = codes "__endwhile_" ++ decimal my_id

unfoldable pub emit_verb : Symtab → VerbStmt → Generator → Option Generator
emit_verb st node g = do code ← verb_code st node; emit_code code g

-- GOTO_DEPENDING_ON is the one handler that uses the state.
unfoldable pub is_depending : Option Dispatch → Bool
is_depending (some (handled_by Handler.goto_depending_on)) = true
is_depending _ = false

unfoldable pub gen_verb : Symtab → VerbStmt → Generator → Option Generator
unfolding is_depending emit_verb
gen_verb st node g =
    if is_depending (lookup_verb node.name)
    then gen_goto_depending_on st node.operands g
    else emit_verb st node g

unfoldable pub goto_target : Statement → Option Name
goto_target (goto target) = some target
goto_target _ = none

unfoldable pub get_simple_goto_target : Statement → Option Name
unfolding goto_target
get_simple_goto_target (goto target) = some target
get_simple_goto_target (do_block (next child done)) = goto_target child
get_simple_goto_target _ = none

-- The test of "IF cond THEN GOTO target" in `gen_if`, where there is no ELSE.
unfoldable pub goto_shortcut : Bool → Condition → Statement → Option Name
unfolding get_simple_goto_target
goto_shortcut false cond then_stmt = none
goto_shortcut true (compare op left right) then_stmt = get_simple_goto_target then_stmt
goto_shortcut true _ then_stmt = none

-- The direct jump of that case, on the comparison.
unfoldable pub gen_shortcut : Symtab → Condition → Name → CodeState → Option CodeState
gen_shortcut st (compare op left right) target s =
    on_generator (emit_cond_jump st (get_direct_cmp_opcode op) left right target) s
gen_shortcut st _ target s = some s

-- The direct jump if there is a target for it, and else the standard code.
unfoldable pub shortcut_or :
    Symtab → Condition → Option Name → CodeState → Option CodeState → Option CodeState
unfolding gen_shortcut
shortcut_or st cond (some target) s standard = gen_shortcut st cond target s
shortcut_or st cond none s standard = standard

-- `if_goto_opt` is the option of that name. `gen_if` and `gen_while` read the second child without a
-- look at their number; none stands for that read past the end, as it does in the verbs.
unfoldable mutual
  unfolding gen_verb goto_shortcut shortcut_or else_label endif_label while_label endwhile_label

  pub gen_statement : (st : Symtab) (if_goto_opt : Bool) → Statement → CodeState → Option CodeState
  gen_statement st if_goto_opt (label name) s = some (put_label name s)
  gen_statement st if_goto_opt (verb_stmt node) s = on_generator (gen_verb st node) s
  gen_statement st if_goto_opt (proc_call name args) s = gen_proc_call st name args s
  gen_statement st if_goto_opt (goto target) s = jump_to target s
  gen_statement st if_goto_opt (goto_depending_on nodes) s =
      on_generator (gen_goto_depending_on st nodes) s
  gen_statement st if_goto_opt (if_stmt cond then_stmt) s =
      let my_id = s.if_counter in
      let counted = record s { if_counter = my_id + 1 } in
      let standard = (do
        s₁ ← gen_condition_false_jump st cond (endif_label my_id) counted
        s₂ ← gen_statement st if_goto_opt then_stmt s₁
        some (put_label (endif_label my_id) s₂)) in
      shortcut_or st cond (goto_shortcut if_goto_opt cond then_stmt) counted standard
  gen_statement st if_goto_opt (if_else cond then_stmt else_stmt) s = do
    let my_id = s.if_counter
    s₁ ← gen_condition_false_jump st cond (else_label my_id) (record s { if_counter = my_id + 1 })
    s₂ ← gen_statement st if_goto_opt then_stmt s₁
    s₃ ← jump_to (endif_label my_id) s₂
    s₄ ← gen_statement st if_goto_opt else_stmt (put_label (else_label my_id) s₃)
    some (put_label (endif_label my_id) s₄)
  gen_statement st if_goto_opt (while_stmt cond body) s = do
    let my_id = s.while_counter
    let top = put_label (while_label my_id) (record s { while_counter = my_id + 1 })
    s₁ ← gen_condition_false_jump st cond (endwhile_label my_id) top
    s₂ ← gen_statement st if_goto_opt body s₁
    s₃ ← jump_to (while_label my_id) s₂
    some (put_label (endwhile_label my_id) s₃)
  gen_statement st if_goto_opt (if_only cond) s = none
  gen_statement st if_goto_opt (while_only cond) s = none
  gen_statement st if_goto_opt (do_block body) s = gen_do_block st if_goto_opt body s
  gen_statement st if_goto_opt no_code s = some s

  pub gen_do_block : (st : Symtab) (if_goto_opt : Bool) → Statements → CodeState → Option CodeState
  gen_do_block st if_goto_opt done s = some s
  gen_do_block st if_goto_opt (next first rest) s = do
    s₁ ← gen_statement st if_goto_opt first s
    gen_do_block st if_goto_opt rest s₁
