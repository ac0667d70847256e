-- ===== src/Tests/StatementTests.antt =====
-- A procedure with a loop, a branch and a jump out of it, for the theorems about procedures and
-- programs.
use tbol_toolchain.Base.{
  length, ◌<◌, ℕ, ◌≡◌, refl, true, Option, none, some, [], ◌∷◌, codes, decimal, arith,
}
use tbol_toolchain.Ast.{CmpOp, literal_num, reg_i}
use tbol_toolchain.Symtab.Names.{same_name, to_lower}
use tbol_toolchain.Symtab.{init}
use tbol_toolchain.Control.{Condition, compare, logic_or}
use tbol_toolchain.Control.{collect_or_terms, get_inverse_cmp_opcode}
use tbol_toolchain.Codegen.Labels.{
  max_labels, define_label, fix_refs, refers, names_label, same_scope, lookup_label, find_label,
  emit_jump, emit_target, link_at, emit_cond_jump, emit_each,
}
use tbol_toolchain.Emit.{
  emit_word_be, ensure_capacity, grow, emit_patch_word_be, emit_add_forward_ref, emit_get_offset,
}
use tbol_toolchain.Statements.State.{define_proc}
use tbol_toolchain.Statements.Conditions.{gen_condition_false_jump}
use tbol_toolchain.Emit.{emit_byte, emit_init}
use tbol_toolchain.Codegen.Literal.{string_code}
use tbol_toolchain.Codegen.Operand.{needs_extended_encoding, compute_operand_value, emit_operand}
use tbol_toolchain.Codegen.Instruction.{check_complex_mode, emit_operands, emit_instruction}
use tbol_toolchain.Verbs.{VerbStmt, first_operands, emit_fixed}
use tbol_toolchain.Verbs.Table.{verb_code}
use tbol_toolchain.Statements.{
  ProcNode, label, verb_stmt, goto, if_stmt, while_stmt, do_block, done, next,
}
use tbol_toolchain.Statements.State.{CodeState}
use tbol_toolchain.Statements.Generate.{gen_do_block}
use tbol_toolchain.Statements.Program.{start_state, enter_proc}
use tbol_toolchain.Statements.Waiting.{waits}
use tbol_toolchain.Statements.Procedure.{NoneWaits}

abbrev pub add_one : VerbStmt
add_one = record {
  name = codes "add";
  operands = literal_num (codes "1") ∷ reg_i 1 ∷ [];
  send_timeout = 0;
  send_flags = 0;
}

abbrev reached : ℕ → Condition
reached n = compare CmpOp.eq (reg_i n) (literal_num (codes "3"))

abbrev pub main_proc : ProcNode
main_proc = record {
  name = codes "main";
  body =
      next
        (while_stmt (compare CmpOp.lt (reg_i 1) (literal_num (codes "5"))) (
          do_block (
            next (verb_stmt add_one)
              (next (if_stmt (logic_or (reached 1) (reached 2)) (goto (codes "out"))) done))))
        (next (label (codes "out")) done);
}

abbrev pub start : CodeState
start = start_state emit_init

pub none_waits : NoneWaits (codes "main") start
unfolding waits emit_init
none_waits name = refl

-- The state at the end of the statements.
abbrev end_of : Option CodeState → CodeState
end_of none = start
end_of (some s) = s

abbrev pub body_end : CodeState
body_end = end_of (gen_do_block init true main_proc.body (enter_proc (codes "main") start))

pub body_runs :
    gen_do_block init true main_proc.body (enter_proc (codes "main") start) ≡ some body_end
unfolding gen_do_block enter_proc emit_init init define_proc gen_condition_false_jump verb_code
    define_label fix_refs refers names_label same_scope lookup_label find_label same_name to_lower
    emit_jump emit_target link_at emit_cond_jump emit_each emit_byte emit_word_be ensure_capacity
    grow emit_patch_word_be emit_add_forward_ref emit_get_offset needs_extended_encoding
    emit_operand check_complex_mode compute_operand_value string_code decimal collect_or_terms
    get_inverse_cmp_opcode first_operands emit_fixed emit_instruction emit_operands
body_runs = refl

pub body_fits : length body_end.generator.labels < max_labels
unfolding gen_do_block enter_proc emit_init init define_proc gen_condition_false_jump verb_code
    define_label fix_refs refers names_label same_scope lookup_label find_label same_name to_lower
    emit_jump emit_target link_at emit_cond_jump emit_each emit_byte emit_word_be ensure_capacity
    grow emit_patch_word_be emit_add_forward_ref emit_get_offset needs_extended_encoding
    emit_operand check_complex_mode compute_operand_value string_code decimal collect_or_terms
    get_inverse_cmp_opcode first_operands emit_fixed emit_instruction emit_operands
body_fits = omega arith
