-- ===== src/Statements/State.antt =====
-- The static state of the code generator: that of jumps, the procedure table of
-- compiler/codegen/codegen.c and the counters of codegen_control.c; and the emitters of bytes on it.
use tbol_toolchain.Base.{
  ℕ, Option, none, some, List, [], ◌∷◌, ◌++◌, length, leb, if◌then◌else◌, ◌>>=◌,
}
use tbol_toolchain.Ast.{AstNode}
use tbol_toolchain.Symtab.Names.{Name, same_name}
use tbol_toolchain.Symtab.{Symtab}
use tbol_toolchain.Bytecode.Opcodes.System.{op_call}
use tbol_toolchain.Codegen.Instruction.{emit_var_instruction}
use tbol_toolchain.Codegen.Labels.{Generator, emit_each, emit_jump, define_label, jump_offset_to}
use tbol_toolchain.Emit.{emit_get_offset, emit_word_be, emit_patch_word_be, emit_add_forward_ref}

pub record ProcDef : Type 0 where
  pub name : Name
  pub offset : ℕ

abbrev pub max_procs : ℕ
max_procs = 128

pub record CodeState : Type 0 where
  pub generator : Generator
  pub procs : List ProcDef
  pub or_counter : ℕ
  pub if_counter : ℕ
  pub while_counter : ℕ

-- A procedure too many is reported and not recorded.
unfoldable pub define_proc : Name → CodeState → CodeState
define_proc name s = record s {
  procs =
      if leb max_procs (length s.procs)
      then s.procs
      else s.procs ++ (record { name = name; offset = emit_get_offset s.generator.buffer } ∷ []);
}

unfoldable pub find_proc_offset : Name → List ProcDef → Option ℕ
find_proc_offset name [] = none
find_proc_offset name (p ∷ procs) =
    if same_name p.name name then some p.offset else find_proc_offset name procs

unfoldable pub lookup_proc : Name → CodeState → Option ℕ
unfolding find_proc_offset
lookup_proc name s = find_proc_offset name s.procs

-- A step of the generator alone.
abbrev pub on_generator : (Generator → Option Generator) → CodeState → Option CodeState
on_generator step s = do g ← step s.generator; some (record s { generator = g })

abbrev pub emit_code : List ℕ → Generator → Option Generator
emit_code code g = do buf ← emit_each code g.buffer; some (record g { buffer = buf })

abbrev pub jump_to : Name → CodeState → Option CodeState
jump_to target = on_generator (emit_jump target)

abbrev pub put_label : Name → CodeState → CodeState
put_label name s = record s { generator = define_label name s.generator }

-- The end of a call: its offset is patched, or waits under the name, outside every procedure.
unfoldable pub link_call : Option ℕ → Name → ℕ → Generator → Generator
link_call (some proc_offset) name patch_pos g = record g {
  buffer = emit_patch_word_be patch_pos (jump_offset_to proc_offset patch_pos) g.buffer;
}
link_call none name patch_pos g = record g {
  buffer = emit_add_forward_ref patch_pos (some name) none g.buffer;
}

-- Opcode, mode bytes, count and arguments are those of `emit_var_instruction`.
unfoldable pub gen_proc_call : Symtab → Name → List AstNode → CodeState → Option CodeState
unfolding link_call
gen_proc_call st name args s = do
  g ← emit_code (emit_var_instruction st op_call args) s.generator
  let patch_pos = emit_get_offset g.buffer
  buf ← emit_word_be 0 g.buffer
  some (record s {
    generator = link_call (lookup_proc name s) name patch_pos (record g { buffer = buf });
  })
