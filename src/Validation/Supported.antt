-- ===== src/Validation/Supported.antt =====
-- What the code generator in compiler/codegen/ relies on and validation in compiler/sema/sema.c does
-- not check. The grammar of compiler/parser/tbol.y gives some of it, but neither the bound on the
-- operands nor a body for each IF and WHILE.
use tbol_toolchain.Base.{Bool, true, false, not, ◌&&◌, ◌||◌, length, leb, ◌==◌, codes}
use tbol_toolchain.Symtab.Names.{same_name}
use tbol_toolchain.Symtab.{is_some}
use tbol_toolchain.Verbs.{VerbStmt}
use tbol_toolchain.Verbs.Table.{lookup_verb}
use tbol_toolchain.Statements.{
  Statement, Statements, label, verb_stmt, proc_call, goto, goto_depending_on, if_stmt, if_else,
  while_stmt, if_only, while_only, do_block, no_code, done, next,
}
use tbol_toolchain.Statements.Generate.{is_depending}
use tbol_toolchain.Validation.VerbSpecs.{find_verb_spec}
use tbol_toolchain.Validation.Reads.{verb_reads}

-- A GOTO_DEPENDING_ON is a statement of its own, a verb without a specification has the operands that
-- it reads, SOUND has not one, and none has more than 259.
abbrev pub is_supported_verb : VerbStmt → Bool
is_supported_verb node =
    not (is_depending (lookup_verb node.name))
    && (is_some (find_verb_spec node.name)
        || verb_reads (lookup_verb node.name) (length node.operands))
    && not (length node.operands == 1 && same_name (codes "SOUND") node.name)
    && leb (length node.operands) 259

-- Each verb is so, and each IF and WHILE has a body.
unfoldable mutual
  unfolding is_depending

  pub is_supported : Statement → Bool
  is_supported (label l) = true
  is_supported (verb_stmt node) = is_supported_verb node
  is_supported (proc_call callee args) = true
  is_supported (goto target) = true
  is_supported (goto_depending_on nodes) = true
  is_supported (if_stmt cond then_stmt) = is_supported then_stmt
  is_supported (if_else cond then_stmt else_stmt) = is_supported then_stmt && is_supported else_stmt
  is_supported (while_stmt cond body) = is_supported body
  is_supported (if_only cond) = false
  is_supported (while_only cond) = false
  is_supported (do_block body) = are_supported body
  is_supported no_code = true

  pub are_supported : Statements → Bool
  are_supported done = true
  are_supported (next first rest) = is_supported first && are_supported rest
