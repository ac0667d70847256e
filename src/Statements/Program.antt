-- ===== src/Statements/Program.antt =====
-- `gen_proc`, `emit_header` and `codegen_generate` of compiler/codegen/codegen.c, up to the bytes that
-- are written to the file. `date_str`, the local time of the run, is a parameter. Line marks and the
-- .sdb file are left out.
use tbol_toolchain.Base.{
  ℕ, ◌+◌, ◌/◌, Bool, Option, none, some, List, [], ◌∷◌, length, if◌then◌else◌, ◌>>=◌, codes,
}
use tbol_toolchain.Symtab.Names.{Name, same_name}
use tbol_toolchain.Symtab.{Symtab}
use tbol_toolchain.Bytecode.Opcodes.System.{op_return}
use tbol_toolchain.Codegen.Labels.{LabelDef, find_label, jump_offset_to}
use tbol_toolchain.Emit.{
  Buffer, ForwardRef, emit_init, emit_get_offset, emit_byte, emit_word_be, emit_bytes,
  emit_patch_byte, emit_patch_word_be,
}
use tbol_toolchain.Statements.{ProcNode}
use tbol_toolchain.Statements.State.{ProcDef, CodeState, define_proc, find_proc_offset}
use tbol_toolchain.Statements.Generate.{gen_do_block}

-- Where a reference of the procedure leads: `none` for one that is resolved, belongs to another
-- procedure or has no label.
unfoldable pub label_target : Name → List LabelDef → Option Name → Option Name → Option ℕ
label_target name labels (some label) (some proc) =
    if same_name proc name then find_label label labels else none
label_target name labels _ _ = none

unfoldable pub local_target : Name → List LabelDef → ForwardRef → Option ℕ
unfolding label_target
local_target name labels ref = label_target name labels ref.label ref.proc

-- A call waits outside every procedure.
unfoldable pub call_target_of : List ProcDef → Option Name → Option Name → Option ℕ
call_target_of procs (some label) none = find_proc_offset label procs
call_target_of procs _ _ = none

unfoldable pub call_target : List ProcDef → ForwardRef → Option ℕ
unfolding call_target_of
call_target procs ref = call_target_of procs ref.label ref.proc

-- The loops over the forward references, which patch and clear nothing.
unfoldable pub fix_targets : (ForwardRef → Option ℕ) → List ForwardRef → Buffer → Buffer
fix_targets target [] buf = buf
fix_targets target (ref ∷ refs) buf = elim (target ref) [
  | some offset ↦
      fix_targets target refs
        (emit_patch_word_be ref.patch_offset (jump_offset_to offset ref.patch_offset) buf)
  | none ↦ fix_targets target refs buf
]

-- The state in which the statements of a procedure are generated.
unfoldable pub enter_proc : Name → CodeState → CodeState
enter_proc name s =
    let s' = define_proc name s in
    record s' { generator = record s'.generator { labels = []; current_proc_name = some name } }

-- The end of a procedure: RETURN, the fixup loop, and no current procedure.
unfoldable pub leave_proc : Name → CodeState → Option CodeState
unfolding fix_targets local_target
leave_proc name s = do
  buf ← emit_byte op_return s.generator.buffer
  let fixed = fix_targets (local_target name s.generator.labels) buf.forward_refs buf
  some (record s { generator = record s.generator { buffer = fixed; current_proc_name = none } })

unfoldable pub gen_proc : Symtab → Bool → ProcNode → CodeState → Option CodeState
unfolding enter_proc leave_proc gen_do_block
gen_proc st if_goto_opt node s = do
  s₁ ← gen_do_block st if_goto_opt node.body (enter_proc node.name s)
  leave_proc node.name s₁

unfoldable pub gen_procs : Symtab → Bool → List ProcNode → CodeState → Option CodeState
unfolding gen_proc
gen_procs st if_goto_opt [] s = some s
gen_procs st if_goto_opt (node ∷ nodes) s = do
  s₁ ← gen_proc st if_goto_opt node s
  gen_procs st if_goto_opt nodes s₁

abbrev pub version : List ℕ
version = codes "04.21"

unfoldable pub emit_header : List ℕ → Name → Buffer → Option Buffer
emit_header date_str program_name buf = do
  b₁ ← emit_word_be 0x0000 buf
  b₂ ← emit_word_be (6 + length program_name + length date_str + 5 + 1) b₁
  b₃ ← emit_word_be (length program_name) b₂
  b₄ ← emit_bytes program_name b₃
  b₅ ← emit_bytes date_str b₄
  b₆ ← emit_bytes version b₅
  emit_byte 0x30 b₆

-- The header stands at the beginning of the buffer.
unfoldable pub fixup_header_file_size : ℕ → Buffer → Buffer
fixup_header_file_size file_size buf =
    emit_patch_byte 1 file_size (emit_patch_byte 0 (file_size / 256) buf)

abbrev pub start_state : Buffer → CodeState
start_state buf = record {
  generator = record { buffer = buf; labels = []; current_proc_name = none };
  procs = [];
  or_counter = 0;
  if_counter = 0;
  while_counter = 0;
}

-- The end of code generation: the fixup of the calls that wait and of the file size.
unfoldable pub finish_object : CodeState → Buffer
unfolding fixup_header_file_size call_target fix_targets
finish_object s =
    let out = s.generator.buffer in
    let fixed = fix_targets (call_target s.procs) out.forward_refs out in
    fixup_header_file_size (emit_get_offset fixed) fixed

-- The bytes of the object file.
unfoldable pub codegen_generate : Symtab → Bool → List ℕ → Name → List ProcNode → Option (List ℕ)
unfolding emit_header finish_object gen_procs emit_init
codegen_generate st if_goto_opt date_str program_name nodes = do
  buf ← emit_header date_str program_name emit_init
  s ← gen_procs st if_goto_opt nodes (start_state buf)
  some (finish_object s).bytes
