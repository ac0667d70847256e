-- ===== src/Statements/Depending.antt =====
-- `gen_goto_depending_on` of compiler/codegen/codegen_verbs.c.
use tbol_toolchain.Base.{
  ℕ, zero, suc, ◌+◌, Option, none, some, List, [], ◌∷◌, ◌++◌, length, ltb, if◌then◌else◌, u8, pos,
  ◌-ℤ◌, wrap_ℤ, ◌>>=◌,
}
use tbol_toolchain.Ast.{AstNode, ident}
use tbol_toolchain.Symtab.Names.{Name}
use tbol_toolchain.Symtab.{Symtab}
use tbol_toolchain.Bytecode.Opcodes.System.{op_go_dep}
use tbol_toolchain.Codegen.Instruction.{emit_instruction}
use tbol_toolchain.Codegen.Labels.{Generator, lookup_label}
use tbol_toolchain.Emit.{
  Buffer, emit_get_offset, emit_word_be, emit_patch_word_be, emit_add_forward_ref,
}
use tbol_toolchain.Statements.State.{emit_code}

unfoldable pub label_name : AstNode → Option Name
label_name (ident name) = some name
label_name _ = none

-- A placeholder for each label.
unfoldable pub emit_placeholders : ℕ → Buffer → Option Buffer
emit_placeholders zero buf = some buf
emit_placeholders (suc n) buf = do buf' ← emit_word_be 0 buf; emit_placeholders n buf'

-- A label behind counts from the end of the instruction, another from the position after its offset.
unfoldable pub depending_offset : ℕ → ℕ → ℕ → ℕ
depending_offset instr_end target_offset patch_pos =
    let pos_after = patch_pos + 2 in
    let base = if ltb target_offset pos_after then instr_end else pos_after in
    wrap_ℤ 65536 (pos target_offset -ℤ pos base)

unfoldable pub link_depending : ℕ → Option ℕ → Name → ℕ → Generator → Generator
unfolding depending_offset
link_depending instr_end (some target_offset) name patch_pos g = record g {
  buffer =
      emit_patch_word_be patch_pos (depending_offset instr_end target_offset patch_pos) g.buffer;
}
link_depending instr_end none name patch_pos g = record g {
  buffer = emit_add_forward_ref patch_pos (some name) g.current_proc_name g.buffer;
}

-- A child that is no identifier is skipped; its placeholder stays.
unfoldable pub link_name : ℕ → Option Name → ℕ → Generator → Generator
unfolding link_depending
link_name instr_end (some name) patch_pos g =
    link_depending instr_end (lookup_label name g) name patch_pos g
link_name instr_end none patch_pos g = g

unfoldable pub link_labels : ℕ → ℕ → List AstNode → Generator → Generator
unfolding link_name label_name
link_labels instr_end patch_pos [] g = g
link_labels instr_end patch_pos (node ∷ nodes) g =
    link_labels instr_end (patch_pos + 2) nodes (link_name instr_end (label_name node) patch_pos g)

unfoldable pub gen_goto_depending_on : Symtab → List AstNode → Generator → Option Generator
unfolding emit_placeholders link_labels
gen_goto_depending_on st (index_op ∷ node ∷ nodes) g = do
  let label_nodes = node ∷ nodes
  opened ←
      emit_code (emit_instruction st op_go_dep (index_op ∷ []) ++ (u8 (length label_nodes) ∷ [])) g
  buf ← emit_placeholders (length label_nodes) opened.buffer
  some (
      link_labels (emit_get_offset buf) (emit_get_offset opened.buffer) label_nodes
        (record opened { buffer = buf }))
gen_goto_depending_on st nodes g = some g
