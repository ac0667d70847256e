-- ===== src/Validation/Targets.antt =====
-- What validation in compiler/sema/sema.c settles for the code generator in compiler/codegen/: every
-- target of a jump is a label, and every verb has its code.
use tbol_toolchain.Base.{
  ℕ, ◌<◌, ◌≡◌, sym, ap, ◌∙◌, Bool, true, Option, none, some, List, [], ◌∷◌, length, leb, arith,
  Bool-cases, Option-cases, inl, inr,
}
use tbol_toolchain.Ast.{AstNode}
use tbol_toolchain.Symtab.Names.{Name, same_name}
use tbol_toolchain.Symtab.{Symtab, is_some}
use tbol_toolchain.Codegen.Labels.{max_labels}
use tbol_toolchain.Emit.Growth.{IsWellFormed}
use tbol_toolchain.Verbs.{VerbStmt}
use tbol_toolchain.Verbs.Table.{lookup_verb}
use tbol_toolchain.Statements.{
  Statement, Statements, ProcNode, label, verb_stmt, proc_call, goto, goto_depending_on, if_stmt,
  if_else, while_stmt, if_only, while_only, do_block, no_code, done, next,
}
use tbol_toolchain.Statements.State.{CodeState}
use tbol_toolchain.Statements.Depending.{label_name}
use tbol_toolchain.Statements.Generate.{gen_do_block}
use tbol_toolchain.Statements.Program.{enter_proc, gen_proc}
use tbol_toolchain.Statements.Describe.{
  is_label, names_any, depends_on, goes_to, any_goes_to, IsCoded, IsSafe, AreSafe,
}
use tbol_toolchain.Statements.Procedure.{NoneWaits, gen_proc-NoneWaits}
use tbol_toolchain.Validation.VerbSpecs.{find_verb_spec}
use tbol_toolchain.Validation.Operands.{validate_verb}
use tbol_toolchain.Validation.Labels.{label_exists}
use tbol_toolchain.Validation.References.{
  validate_goto, validate_label_node, validate_label_nodes, validate_goto_depending_on,
  validate_statement, validate_statements, proc_labels, validate_proc,
}
use tbol_toolchain.Validation.Reads.{verb_reads, verb_code_exists}
use tbol_toolchain.Validation.Counts.{validate_verb-IsCoded}
use tbol_toolchain.Validation.Exists.{label_exists-same_name, collect_all_labels_exists}
use tbol_toolchain.Validation.Supported.{is_supported_verb, is_supported, are_supported}

validate_goto_target :
    (labels : List Name) (name target : Name)
    → validate_goto labels target ≡ 0
    → same_name target name ≡ true
    → label_exists labels name ≡ true
unfolding validate_goto
validate_goto_target labels name target ok goes =
    sym (label_exists-same_name labels target name goes) ∙ ground arith

validate_label_nodes_target :
    (labels : List Name) (name : Name) (nodes : List AstNode)
    → validate_label_nodes labels nodes ≡ 0
    → names_any name nodes ≡ true
    → label_exists labels name ≡ true
unfolding validate_label_nodes validate_label_node validate_goto names_any
validate_label_nodes_target labels name [] ok goes = absurd (cc)
validate_label_nodes_target labels name (node ∷ nodes) ok goes =
    elim (Bool-cases (names_any name nodes)) [
      | inl later ↦ validate_label_nodes_target labels name nodes (omega arith) later
      | inr here ↦ named (label_name node) (omega arith) (ground arith)
    ]
  where
    named :
        (l : Option Name)
        → validate_label_node labels l ≡ 0
        → is_label name l ≡ true
        → label_exists labels name ≡ true
    named none ok' goes' = absurd (cc)
    named (some target) ok' goes' = validate_goto_target labels name target ok' goes'

validate_goto_depending_on_target :
    (st : Symtab) (labels : List Name) (name : Name) (nodes : List AstNode)
    → validate_goto_depending_on st labels nodes ≡ 0
    → depends_on name nodes ≡ true
    → label_exists labels name ≡ true
unfolding validate_goto_depending_on
validate_goto_depending_on_target st labels name [] ok goes = absurd (cc)
validate_goto_depending_on_target st labels name (index_op ∷ nodes) ok goes =
    validate_label_nodes_target labels name nodes (omega arith) goes

verb-IsCoded :
    (st : Symtab) (node : VerbStmt)
    → validate_verb st node ≡ 0
    → is_supported_verb node ≡ true
    → IsCoded st node
verb-IsCoded st node ok supported =
    let bound : leb (length node.operands) 259 ≡ true = ground arith in
    elim (Option-cases (find_verb_spec node.name)) [
      | inl missing ↦
          let reads : verb_reads (lookup_verb node.name) (length node.operands) ≡ true =
            ground (arith, ap is_some missing) in
          verb_code_exists st node reads
      | inr (spec, found) ↦
          validate_verb-IsCoded st node spec found ok (ground arith) (ground arith)
    ]

module _ (st : Symtab) (labels : List Name) (order : ℕ) where
  mutual
    unfolding validate_statement is_supported goes_to IsSafe

    -- In a statement without errors each target of a jump is a label of the procedure.
    statement_target :
        (name : Name) (stmt : Statement)
        → validate_statement st labels order stmt ≡ 0
        → is_supported stmt ≡ true
        → goes_to name stmt ≡ true
        → label_exists labels name ≡ true
    statement_target name (label l) ok supported goes = absurd (cc)
    statement_target name (verb_stmt node) ok supported goes = absurd (ground arith)
    statement_target name (proc_call callee args) ok supported goes = absurd (cc)
    statement_target name (goto target) ok supported goes =
        validate_goto_target labels name target ok goes
    statement_target name (goto_depending_on nodes) ok supported goes =
        validate_goto_depending_on_target st labels name nodes ok goes
    statement_target name (if_stmt cond a) ok supported goes =
        statement_target name a (omega arith) supported goes
    statement_target name (if_else cond a b) ok supported goes =
        elim (Bool-cases (goes_to name a)) [
          | inl here ↦ statement_target name a (omega arith) (ground arith) here
          | inr there ↦ statement_target name b (omega arith) (ground arith) (ground arith)
        ]
    statement_target name (while_stmt cond body) ok supported goes =
        statement_target name body (omega arith) supported goes
    statement_target name (if_only cond) ok supported goes = absurd (cc)
    statement_target name (while_only cond) ok supported goes = absurd (cc)
    statement_target name (do_block body) ok supported goes =
        statements_target name body ok supported goes
    statement_target name no_code ok supported goes = absurd (cc)

    statements_target :
        (name : Name) (body : Statements)
        → validate_statements st labels order body ≡ 0
        → are_supported body ≡ true
        → any_goes_to name body ≡ true
        → label_exists labels name ≡ true
    statements_target name done ok supported goes = absurd (cc)
    statements_target name (next first rest) ok supported goes =
        elim (Bool-cases (goes_to name first)) [
          | inl here ↦ statement_target name first (omega arith) (ground arith) here
          | inr there ↦ statements_target name rest (omega arith) (ground arith) (ground arith)
        ]

    statement-IsSafe :
        (stmt : Statement)
        → validate_statement st labels order stmt ≡ 0
        → is_supported stmt ≡ true
        → IsSafe st stmt
    statement-IsSafe (label l) ok supported = tt
    statement-IsSafe (verb_stmt node) ok supported = verb-IsCoded st node ok supported
    statement-IsSafe (proc_call callee args) ok supported = tt
    statement-IsSafe (goto target) ok supported = tt
    statement-IsSafe (goto_depending_on nodes) ok supported = tt
    statement-IsSafe (if_stmt cond a) ok supported = statement-IsSafe a (omega arith) supported
    statement-IsSafe (if_else cond a b) ok supported = (
      statement-IsSafe a (omega arith) (ground arith),
      statement-IsSafe b (omega arith) (ground arith),
    )
    statement-IsSafe (while_stmt cond body) ok supported =
        statement-IsSafe body (omega arith) supported
    statement-IsSafe (if_only cond) ok supported = absurd (cc)
    statement-IsSafe (while_only cond) ok supported = absurd (cc)
    statement-IsSafe (do_block body) ok supported = statements-AreSafe body ok supported
    statement-IsSafe no_code ok supported = tt

    pub statements-AreSafe :
        (body : Statements)
        → validate_statements st labels order body ≡ 0
        → are_supported body ≡ true
        → AreSafe st body
    statements-AreSafe done ok supported = tt
    statements-AreSafe (next first rest) ok supported = (
      statement-IsSafe first (omega arith) (ground arith),
      statements-AreSafe rest (omega arith) (ground arith),
    )

-- A procedure in which validation finds no error has its code, and no jump in it is left without a
-- target: generating it ends, and no reference of the procedure waits for any name. It does so where
-- each IF and WHILE has a body, the verbs have at most 259 operands, SOUND has not one, a verb without
-- a specification has the operands that it reads, GOTO_DEPENDING_ON is no verb statement, the buffer
-- is well formed, the label table is not full at the end of the statements, and no reference of a
-- procedure of that name waits before.
pub validate_proc-NoneWaits :
    (st : Symtab) (if_goto_opt : Bool) (order : ℕ) (node : ProcNode) (s s₁ : CodeState)
    → validate_proc st order node ≡ 0
    → are_supported node.body ≡ true
    → IsWellFormed s.generator.buffer
    → NoneWaits node.name s
    → gen_do_block st if_goto_opt node.body (enter_proc node.name s) ≡ some s₁
    → length s₁.generator.labels < max_labels
    → (s' : CodeState) × (gen_proc st if_goto_opt node s ≡ some s') × NoneWaits node.name s'
unfolding validate_proc proc_labels label_exists
validate_proc-NoneWaits st if_goto_opt order node s s₁ ok supported wf none_waits run room =
    let labels = (proc_labels node).labels in
    let valid : validate_statements st labels order node.body ≡ 0 = omega arith in
    gen_proc-NoneWaits st if_goto_opt node s s₁ wf
      (statements-AreSafe st labels order node.body valid supported) none_waits
      (λ name goes.
        sym (collect_all_labels_exists name node.body (record { labels = []; errors = 0 }))
        ∙ statements_target st labels order name node.body valid supported goes)
      run room
