-- ===== src/Statements/Ends/Links.antt =====
-- GOTO_DEPENDING_ON and calls of compiler/codegen/codegen_verbs.c end, and what they do to a name.
use tbol_toolchain.Base.{
  ℕ, zero, suc, ◌+◌, ◌≡◌, refl, false, Option, none, some, List, [], ◌∷◌, ◌++◌, length, u8,
}
use tbol_toolchain.Ast.{AstNode}
use tbol_toolchain.Symtab.Names.{Name, same_name}
use tbol_toolchain.Symtab.{Symtab}
use tbol_toolchain.Bytecode.Opcodes.System.{op_go_dep, op_call}
use tbol_toolchain.Codegen.Instruction.{emit_instruction, emit_var_instruction}
use tbol_toolchain.Codegen.Labels.{Generator, lookup_label, jump_offset_to}
use tbol_toolchain.Emit.{Buffer, emit_get_offset}
use tbol_toolchain.Emit.Growth.{IsWellFormed, emit_word_be-Appends}
use tbol_toolchain.Statements.State.{CodeState, lookup_proc, link_call, gen_proc_call}
use tbol_toolchain.Statements.Depending.{
  label_name, emit_placeholders, depending_offset, link_depending, link_name, link_labels,
  gen_goto_depending_on,
}
use tbol_toolchain.Statements.Describe.{is_label, names_any, depends_on}
use tbol_toolchain.Statements.Follows.{
  Follows, Follows-refl, Follows-trans, Follows-weaken, waits-Follows, call-Follows,
}
use tbol_toolchain.Statements.Ends.{
  IsInside, Follows-IsInside, Ends, StateEnds, emit_code-Ends, word-Ends, patch-Follows,
}

module _ (name : Name) where
  link_depending-Follows :
      (instr_end : ℕ) (o : Option ℕ) (target : Name) (patch : ℕ) (g : Generator)
      → lookup_label target g ≡ o
      → Follows name (same_name target name) false g (link_depending instr_end o target patch g)
  unfolding link_depending
  link_depending-Follows instr_end (some o) target patch g e =
      Follows-weaken name g _ (λ f. absurd (cc)) (λ m. m)
        (patch-Follows name g patch (depending_offset instr_end o patch))
  link_depending-Follows instr_end none target patch g e = waits-Follows name g patch target e

  link_name-Follows :
      (instr_end : ℕ) (label : Option Name) (patch : ℕ) (g : Generator)
      → Follows name (is_label name label) false g (link_name instr_end label patch g)
  unfolding link_name
  link_name-Follows instr_end (some target) patch g =
      link_depending-Follows instr_end (lookup_label target g) target patch g refl
  link_name-Follows instr_end none patch g = Follows-refl name g

  link_labels-Follows :
      (instr_end patch : ℕ) (nodes : List AstNode) (g : Generator)
      → Follows name (names_any name nodes) false g (link_labels instr_end patch nodes g)
  unfolding link_labels names_any
  link_labels-Follows instr_end patch [] g = Follows-refl name g
  link_labels-Follows instr_end patch (node ∷ nodes) g =
      let h = link_name instr_end (label_name node) patch g in
      Follows-trans name g h _ (link_name-Follows instr_end (label_name node) patch g)
        (link_labels-Follows instr_end (patch + 2) nodes h)

  emit_placeholders-Follows :
      (n : ℕ) (g : Generator)
      → IsWellFormed g.buffer
      → (buf : Buffer) × (emit_placeholders n g.buffer ≡ some buf)
        × Follows name false false g (record g { buffer = buf })
  unfolding emit_placeholders
  emit_placeholders-Follows zero g wf = (g.buffer, refl, Follows-refl name g)
  emit_placeholders-Follows (suc n) g wf =
      let (buf, e, added, same, wf') = emit_word_be-Appends 0 g.buffer wf in
      let h : Generator = record g { buffer = buf } in
      let (buf', e', f) = emit_placeholders-Follows n h wf' in
      (
        buf',
        rw e e',
        Follows-trans name g h (record g { buffer = buf' }) (word-Ends name g buf same wf') f,
      )

  pub gen_goto_depending_on-Ends :
      (st : Symtab) (nodes : List AstNode) (g : Generator)
      → IsWellFormed g.buffer
      → Ends name (depends_on name nodes) false g (gen_goto_depending_on st nodes g)
  unfolding gen_goto_depending_on names_any
  gen_goto_depending_on-Ends st [] g wf = (g, refl, Follows-refl name g)
  gen_goto_depending_on-Ends st (index_op ∷ []) g wf = (g, refl, Follows-refl name g)
  gen_goto_depending_on-Ends st (index_op ∷ node ∷ nodes) g wf =
      let code =
        emit_instruction st op_go_dep (index_op ∷ []) ++ (u8 (length (node ∷ nodes)) ∷ []) in
      let (h, e₁, f₁) = emit_code-Ends name code g wf in
      let (buf, e₂, f₂) = emit_placeholders-Follows (length (node ∷ nodes)) h (f₁.fits wf) in
      let k : Generator = record h { buffer = buf } in
      (
        link_labels (emit_get_offset buf) (emit_get_offset h.buffer) (node ∷ nodes) k,
        rw (e₁, e₂) refl,
        Follows-trans name g h _ f₁ (
            Follows-trans name h k _ f₂ (
              link_labels-Follows (emit_get_offset buf) (emit_get_offset h.buffer) (node ∷ nodes)
                k)),
      )

  link_call-Follows :
      (o : Option ℕ) (callee proc : Name) (patch : ℕ) (g : Generator)
      → IsInside proc g
      → Follows name false false g (link_call o callee patch g)
  unfolding link_call
  link_call-Follows (some o) callee proc patch g in_g =
      patch-Follows name g patch (jump_offset_to o patch)
  link_call-Follows none callee proc patch g in_g =
      call-Follows name g patch callee proc in_g.inside

  pub gen_proc_call-StateEnds :
      (st : Symtab) (callee proc : Name) (args : List AstNode) (s : CodeState)
      → IsInside proc s.generator
      → StateEnds name false false s (gen_proc_call st callee args s)
  unfolding gen_proc_call
  gen_proc_call-StateEnds st callee proc args s in_s =
      let g = s.generator in
      let (h, e₁, f₁) =
        emit_code-Ends name (emit_var_instruction st op_call args) g in_s.well_formed in
      let (buf, e₂, added, same, wf) = emit_word_be-Appends 0 h.buffer (f₁.fits in_s.well_formed) in
      let k : Generator = record h { buffer = buf } in
      let f₂ = Follows-trans name g h k f₁ (word-Ends name h buf same wf) in
      let linked = link_call (lookup_proc callee s) callee (emit_get_offset h.buffer) k in
      (
        record s { generator = linked },
        rw (e₁, e₂) refl,
        Follows-trans name g k linked f₂ (
            link_call-Follows (lookup_proc callee s) callee proc (emit_get_offset h.buffer) k
              (Follows-IsInside name proc g k in_s f₂)),
      )
