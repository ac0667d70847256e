-- ===== src/Statements/Generation.antt =====
-- `codegen_generate` of compiler/codegen/codegen.c ends.
use tbol_toolchain.Base.{
  ℕ, ◌+◌, ◌≡◌, refl, ◌∙◌, Bool, none, some, List, [], ◌∷◌, ◌++◌, length, All, append_assoc,
}
use tbol_toolchain.Symtab.Names.{Name}
use tbol_toolchain.Symtab.{Symtab}
use tbol_toolchain.Bytecode.Opcodes.System.{op_return}
use tbol_toolchain.Codegen.Literal.{byte_code, word_code}
use tbol_toolchain.Emit.{Buffer, emit_init}
use tbol_toolchain.Emit.Growth.{
  IsWellFormed, Appends, emit_init-IsWellFormed, emit_byte-Appends, emit_word_be-Appends,
  emit_bytes-Appends,
}
use tbol_toolchain.Statements.{ProcNode}
use tbol_toolchain.Statements.State.{CodeState}
use tbol_toolchain.Statements.Program.{
  version, local_target, fix_targets, enter_proc, leave_proc, gen_proc, gen_procs, emit_header,
  start_state, finish_object, codegen_generate,
}
use tbol_toolchain.Statements.Describe.{AreSafe}
use tbol_toolchain.Statements.Ends.Statement.{gen_do_block-StateEnds}
use tbol_toolchain.Statements.Procedure.{fix_targets-refs, enter_proc-IsInside}

-- The bytes of the header, before the file size is written over the first two.
abbrev pub header_code : List ℕ → Name → List ℕ
header_code date_str program_name =
    word_code 0
    ++ (word_code (6 + length program_name + length date_str + 5 + 1)
        ++ (word_code (length program_name)
            ++ (program_name ++ (date_str ++ (version ++ byte_code 0x30)))))

pub emit_header-Appends :
    (date_str : List ℕ) (program_name : Name) (buf : Buffer)
    → IsWellFormed buf
    → Appends (header_code date_str program_name) buf (emit_header date_str program_name buf)
unfolding emit_header
emit_header-Appends date_str program_name buf wf =
    let (b₁, e₁, s₁, r₁, w₁) = emit_word_be-Appends 0 buf wf in
    let code_start = 6 + length program_name + length date_str + 5 + 1 in
    let (b₂, e₂, s₂, r₂, w₂) = emit_word_be-Appends code_start b₁ w₁ in
    let (b₃, e₃, s₃, r₃, w₃) = emit_word_be-Appends (length program_name) b₂ w₂ in
    let (b₄, e₄, s₄, r₄, w₄) = emit_bytes-Appends program_name b₃ w₃ in
    let (b₅, e₅, s₅, r₅, w₅) = emit_bytes-Appends date_str b₄ w₄ in
    let (b₆, e₆, s₆, r₆, w₆) = emit_bytes-Appends version b₅ w₅ in
    let (b₇, e₇, s₇, r₇, w₇) = emit_byte-Appends 0x30 b₆ w₆ in
    (
      b₇,
      rw (e₁, e₂, e₃, e₄, e₅, e₆) e₇,
      rw (s₇, s₆, s₅, s₄, s₃, s₂, s₁) simp append_assoc,
      r₇ ∙ r₆ ∙ r₅ ∙ r₄ ∙ r₃ ∙ r₂ ∙ r₁,
      w₇,
    )

gen_proc-ends :
    (st : Symtab) (if_goto_opt : Bool) (node : ProcNode) (s : CodeState)
    → IsWellFormed s.generator.buffer
    → AreSafe st node.body
    → (s' : CodeState) × (gen_proc st if_goto_opt node s ≡ some s')
      × IsWellFormed s'.generator.buffer
unfolding gen_proc leave_proc
gen_proc-ends st if_goto_opt node s wf safe =
    let in_s = enter_proc-IsInside node.name s wf in
    let (s₁, e₁, f) =
      gen_do_block-StateEnds node.name node.name st if_goto_opt node.body (enter_proc node.name s)
        in_s safe in
    let (buf, e₂, added, same, w) =
      emit_byte-Appends op_return s₁.generator.buffer (f.fits in_s.well_formed) in
    let target = local_target node.name s₁.generator.labels in
    (
      record s₁ {
        generator = record s₁.generator {
          buffer = fix_targets target buf.forward_refs buf;
          current_proc_name = none;
        };
      },
      rw (e₁, e₂) refl,
      (fix_targets-refs target buf.forward_refs buf).1 w,
    )

gen_procs-ends :
    (st : Symtab) (if_goto_opt : Bool) (nodes : List ProcNode) (s : CodeState)
    → IsWellFormed s.generator.buffer
    → All (λ (node : ProcNode). AreSafe st node.body) nodes
    → (s' : CodeState) × (gen_procs st if_goto_opt nodes s ≡ some s')
unfolding gen_procs
gen_procs-ends st if_goto_opt [] s wf safe = (s, refl)
gen_procs-ends st if_goto_opt (node ∷ nodes) s wf (safe, safes) =
    let (s₁, e₁, wf₁) = gen_proc-ends st if_goto_opt node s wf safe in
    let (s₂, e₂) = gen_procs-ends st if_goto_opt nodes s₁ wf₁ safes in (s₂, rw e₁ e₂)

pub codegen_generate-ends :
    (st : Symtab) (if_goto_opt : Bool) (date_str : List ℕ) (program_name : Name)
    (nodes : List ProcNode)
    → All (λ (node : ProcNode). AreSafe st node.body) nodes
    → (object : List ℕ) × (codegen_generate st if_goto_opt date_str program_name nodes
        ≡ some object)
unfolding codegen_generate
codegen_generate-ends st if_goto_opt date_str program_name nodes safe =
    let (buf, e₁, added, same, wf) =
      emit_header-Appends date_str program_name emit_init emit_init-IsWellFormed in
    let (s, e₂) = gen_procs-ends st if_goto_opt nodes (start_state buf) wf safe in
    ((finish_object s).bytes, rw (e₁, e₂) refl)
