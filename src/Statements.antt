-- ===== src/Statements.antt =====
-- Statements, procedures and programs of shared/ast.h with the code generation of
-- compiler/codegen/codegen.c, codegen_control.c and codegen_verbs.c that composes the emitters of
-- Codegen and Verbs.
pub mod State
pub mod Depending
pub mod Conditions
pub mod Generate
pub mod Program
pub mod Describe
pub mod Waiting
pub mod Follows
pub mod Ends
pub mod Procedure
pub mod Generation
use tbol_toolchain.Base.{List}
use tbol_toolchain.Ast.{AstNode}
use tbol_toolchain.Symtab.Names.{Name}
use tbol_toolchain.Control.{Condition}
use tbol_toolchain.Verbs.{VerbStmt}

-- The statements, by AstNodeKind: `if_else` is an AST_IF_STMT with a third child, and `no_code` each
-- kind that `gen_statement` emits nothing for. `if_only` and `while_only` have the condition as their
-- only child: the grammar builds them of a body that is an empty statement, which is a NULL that
-- `ast_add_child` passes over. An IF whose body before ELSE is empty is so an `if_stmt` of the other.
mutual
  pub data Statement : Type 0 where
    label : Name → Statement
    verb_stmt : VerbStmt → Statement
    proc_call : Name → List AstNode → Statement
    goto : Name → Statement
    goto_depending_on : List AstNode → Statement
    if_stmt : Condition → Statement → Statement
    if_else : Condition → Statement → Statement → Statement
    while_stmt : Condition → Statement → Statement
    if_only while_only : Condition → Statement
    do_block : Statements → Statement
    no_code : Statement

  -- The children of a block or a procedure.
  pub data Statements : Type 0 where
    done : Statements
    next : Statement → Statements → Statements

-- AST_PROC
pub record ProcNode : Type 0 where
  pub name : Name
  pub body : Statements
