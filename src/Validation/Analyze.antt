-- ===== src/Validation/Analyze.antt =====
-- `collect_declarations` on programs and procedures, `validate_references` and `sema_analyze` of
-- compiler/sema/sema.c. The symbol of a procedure holds its labels; here the scopes of the procedures
-- that are defined stand beside the symbol table, in the order of their definition.
use tbol_toolchain.Base.{
  ℕ, ◌+◌, not, Option, none, some, List, [], ◌∷◌, ◌++◌, length, ltb, if◌then◌else◌, codes,
}
use tbol_toolchain.Symtab.Names.{Name, same_name}
use tbol_toolchain.Symtab.{Symtab, init, define_proc, proc_exists}
use tbol_toolchain.Symtab.Collect.{DataSection, collect_data_section}
use tbol_toolchain.Statements.{ProcNode}
use tbol_toolchain.Validation.Operands.{error_if}
use tbol_toolchain.Validation.References.{proc_labels, validate_statements}

-- The children of an AST_PROGRAM.
pub data Declaration : Type 0 where
  data_section : DataSection → Declaration
  proc : ProcNode → Declaration

pub record ProgramNode : Type 0 where
  pub name : Name
  pub children : List Declaration

abbrev pub max_program_name_len : ℕ
max_program_name_len = 8

-- The symbol of a procedure, as `current_proc` is used.
pub record ProcScope : Type 0 where
  pub name : Name
  pub labels : List Name
  pub order : ℕ

pub record Analysis : Type 0 where
  pub symtab : Symtab
  pub scopes : List ProcScope
  pub errors : ℕ

-- `case AST_PROC`: a duplicate is an error and defines nothing.
unfoldable pub collect_proc : ProcNode → Analysis → Analysis
collect_proc node a =
    if proc_exists node.name a.symtab then record a { errors = a.errors + 1 } else record {
      symtab = define_proc node.name a.symtab;
      scopes =
          a.scopes
          ++ (record {
            name = node.name;
            labels = (proc_labels node).labels;
            order = a.symtab.proc_order_counter;
          }
              ∷ []);
      errors = a.errors + (proc_labels node).errors;
    }

unfoldable pub collect_declaration : Declaration → Analysis → Analysis
unfolding collect_proc
collect_declaration (data_section s) a = record a { symtab = collect_data_section s a.symtab }
collect_declaration (proc node) a = collect_proc node a

unfoldable pub collect_declarations : List Declaration → Analysis → Analysis
unfolding collect_declaration
collect_declarations [] a = a
collect_declarations (child ∷ children) a =
    collect_declarations children (collect_declaration child a)

-- The first procedure must be `main`.
unfoldable pub validate_first_proc : List Declaration → ℕ
validate_first_proc [] = 0
validate_first_proc (data_section s ∷ children) = validate_first_proc children
validate_first_proc (proc node ∷ children) = error_if (not (same_name node.name (codes "main")))

-- `case AST_PROGRAM`
unfoldable pub collect_program : ProgramNode → Analysis
unfolding collect_declarations validate_first_proc
collect_program node = collect_declarations node.children (record {
  symtab = init;
  scopes = [];
  errors =
      error_if (ltb max_program_name_len (length node.name)) + validate_first_proc node.children;
})

unfoldable pub find_scope : Name → List ProcScope → Option ProcScope
find_scope name [] = none
find_scope name (scope ∷ scopes) =
    if same_name scope.name name then some scope else find_scope name scopes

-- A procedure without a symbol, for which C reports each GOTO, does not occur after pass 1.
unfoldable pub validate_in : Symtab → ProcNode → Option ProcScope → ℕ
validate_in st node none = 0
validate_in st node (some scope) = validate_statements st scope.labels scope.order node.body

unfoldable pub validate_references : Symtab → List ProcScope → List Declaration → ℕ
unfolding validate_in find_scope
validate_references st scopes [] = 0
validate_references st scopes (data_section s ∷ children) = validate_references st scopes children
validate_references st scopes (proc node ∷ children) =
    validate_in st node (find_scope node.name scopes) + validate_references st scopes children

-- `error_count` at the end of `sema_analyze`, which returns whether it is positive.
unfoldable pub sema_errors : ProgramNode → ℕ
unfolding collect_program validate_references
sema_errors node =
    let a = collect_program node in a.errors + validate_references a.symtab a.scopes node.children

-- The procedures, which the code generator goes through.
unfoldable pub procedures : List Declaration → List ProcNode
procedures [] = []
procedures (data_section s ∷ children) = procedures children
procedures (proc node ∷ children) = node ∷ procedures children
