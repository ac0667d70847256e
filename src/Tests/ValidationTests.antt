-- ===== src/Tests/ValidationTests.antt =====
-- A verb, a procedure and a program that validation accepts.
use tbol_toolchain.Base.{ℕ, ◌≡◌, refl, true, some, List, [], ◌∷◌, codes, All, arith}
use tbol_toolchain.Symtab.Names.{same_name, to_lower, hash_name, hash_loop, upper_case}
use tbol_toolchain.Symtab.{
  init, proc_exists, lookup_proc, find_proc, lookup_var, find_var, var_exists, define_var,
  define_proc, define_structure,
}
use tbol_toolchain.Symtab.Collect.{collect_data_section, collect_var}
use tbol_toolchain.Emit.Growth.{emit_init-IsWellFormed}
use tbol_toolchain.Verbs.Table.{lookup_verb}
use tbol_toolchain.Statements.{ProcNode}
use tbol_toolchain.Statements.State.{CodeState}
use tbol_toolchain.Statements.Program.{gen_proc, codegen_generate}
use tbol_toolchain.Statements.Describe.{IsCoded}
use tbol_toolchain.Statements.Procedure.{NoneWaits}
use tbol_toolchain.Validation.VerbSpecs.{OpFlags, VerbSpec, find_verb_spec}
use tbol_toolchain.Validation.Operands.{validate_verb}
use tbol_toolchain.Validation.References.{proc_labels, validate_statements, validate_proc}
use tbol_toolchain.Validation.Counts.{validate_verb-IsCoded}
use tbol_toolchain.Validation.Supported.{are_supported}
use tbol_toolchain.Validation.Targets.{validate_proc-NoneWaits}
use tbol_toolchain.Validation.Analyze.{
  ProgramNode, data_section, proc, collect_program, sema_errors, procedures,
}
use tbol_toolchain.Validation.Compile.{sema_errors-codegen_generate}
use tbol_toolchain.Tests.StatementTests.{
  add_one, main_proc, start, none_waits, body_end, body_runs, body_fits,
}

abbrev add_spec : VerbSpec
add_spec = record {
  name = codes "ADD";
  min_ops = 2;
  max_ops = some 2;
  flags = OpFlags.literal_ok ∷ OpFlags.must_be_var ∷ [];
}

add_listed : find_verb_spec add_one.name ≡ some add_spec
unfolding find_verb_spec same_name to_lower
add_listed = refl

add_valid : validate_verb init add_one ≡ 0
unfolding validate_verb same_name to_lower
add_valid = refl

validate_verb-IsCoded_example : IsCoded init add_one
validate_verb-IsCoded_example =
    validate_verb-IsCoded init add_one add_spec add_listed add_valid refl (omega arith)

main_valid : validate_proc init 0 main_proc ≡ 0
unfolding validate_proc same_name to_lower
main_valid = refl

main_supported : are_supported main_proc.body ≡ true
unfolding are_supported lookup_verb find_verb_spec same_name to_lower
main_supported = refl

validate_proc-NoneWaits_example :
    (s' : CodeState) × (gen_proc init true main_proc start ≡ some s') × NoneWaits (codes "main") s'
validate_proc-NoneWaits_example =
    validate_proc-NoneWaits init true 0 main_proc start body_end main_valid main_supported
      emit_init-IsWellFormed none_waits body_runs body_fits

abbrev demo : ProgramNode
demo = record {
  name = codes "demo";
  children =
      data_section (record {
        name = some (codes "totals");
        vars = record { name = codes "sum"; array_size = 3 } ∷ [];
      })
      ∷ proc main_proc
      ∷ [];
}

demo_valid : sema_errors demo ≡ 0
unfolding sema_errors same_name to_lower init proc_exists lookup_proc find_proc lookup_var find_var
    var_exists define_var define_proc collect_data_section collect_var hash_name hash_loop
    upper_case define_structure proc_labels validate_statements
demo_valid = refl

demo_supported : All (λ (p : ProcNode). are_supported p.body ≡ true) (procedures demo.children)
unfolding procedures
demo_supported = (main_supported, tt)

sema_errors-codegen_generate_example :
    (object : List ℕ) × (codegen_generate
        (collect_program demo).symtab
        true
        (codes "01/02/90 03:04")
        (codes "demo")
        (procedures demo.children)
      ≡ some object)
sema_errors-codegen_generate_example =
    sema_errors-codegen_generate demo true (codes "01/02/90 03:04") demo_valid demo_supported
