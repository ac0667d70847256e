-- ===== src/Statements/Ends.antt =====
-- The emitters of jumps of compiler/codegen/ end, and what they do to a name.
pub mod Conditions
pub mod Links
pub mod Statement
use tbol_toolchain.Base.{
  ℕ, zero, suc, ◌+◌, ◌≡◌, refl, sym, ap, ◌∙◌, Bool, true, false, not, ◌&&◌, ◌||◌, Option, none,
  some, List, [], ◌∷◌, ◌++◌, length, arith,
}
use tbol_toolchain.Ast.{AstNode}
use tbol_toolchain.Symtab.Names.{Name, same_name}
use tbol_toolchain.Symtab.{Symtab}
use tbol_toolchain.Bytecode.Opcodes.Flow.{op_jump}
use tbol_toolchain.Codegen.Operand.{needs_extended_encoding, emit_operand}
use tbol_toolchain.Codegen.Instruction.{check_complex_mode, compute_mode_byte, opcode_code}
use tbol_toolchain.Codegen.Labels.{
  Generator, find_label, lookup_label, jump_offset_to, link_at, emit_target, emit_jump,
  emit_cond_jump, define_label,
}
use tbol_toolchain.Emit.{Buffer, emit_get_offset, emit_patch_word_be}
use tbol_toolchain.Emit.Growth.{IsWellFormed, emit_byte-Appends, emit_word_be-Appends}
use tbol_toolchain.RoundTrip.Condition.{emit_each-Appends}
use tbol_toolchain.RoundTrip.Target.{patch-IsWellFormed}
use tbol_toolchain.Statements.State.{CodeState, on_generator, emit_code, jump_to, put_label}
use tbol_toolchain.Statements.Waiting.{defined, find_label-same_name}
use tbol_toolchain.Statements.Follows.{
  Follows, Follows-refl, Follows-trans, Follows-weaken, bytes-Follows, waits-Follows,
}

-- The generator is inside a procedure.
pub record IsInside (proc : Name) (g : Generator) : Type 0 where
  pub well_formed : IsWellFormed g.buffer
  pub inside : g.current_proc_name ≡ some proc

pub Follows-IsInside :
    (name : Name) {t m : Bool} (proc : Name) (g h : Generator)
    → IsInside proc g
    → Follows name t m g h
    → IsInside proc h
Follows-IsInside name proc g h i f = record {
  well_formed = f.fits i.well_formed;
  inside = f.current ∙ i.inside;
}

-- A run ends, and follows in what it does to the name.
abbrev pub Ends : Name → Bool → Bool → Generator → Option Generator → Type 0
Ends name t m g r = (g' : Generator) × (r ≡ some g') × Follows name t m g g'

abbrev pub StateEnds : Name → Bool → Bool → CodeState → Option CodeState → Type 0
StateEnds name t m s r =
    (s' : CodeState) × (r ≡ some s') × Follows name t m s.generator s'.generator

pub on_generator-StateEnds :
    (name : Name) {t m : Bool} (step : Generator → Option Generator) (s : CodeState)
    → Ends name t m s.generator (step s.generator)
    → StateEnds name t m s (on_generator step s)
on_generator-StateEnds name step s (g', e, f) = (record s { generator = g' }, rw e refl, f)

pub patch-Follows :
    (name : Name) (g : Generator) (q v : ℕ)
    → Follows name false false g (record g { buffer = emit_patch_word_be q v g.buffer })
patch-Follows name g q v =
    bytes-Follows name g (emit_patch_word_be q v g.buffer) (unfold emit_patch_word_be in refl)
      (patch-IsWellFormed q v g.buffer)

module _ (name : Name) where
  pub emit_code-Ends :
      (code : List ℕ) (g : Generator)
      → IsWellFormed g.buffer
      → Ends name false false g (emit_code code g)
  emit_code-Ends code g wf =
      let (buf, e, added, same, wf') = emit_each-Appends code g.buffer wf in
      (record g { buffer = buf }, rw e refl, bytes-Follows name g buf same (λ w. wf'))

  pub word-Ends :
      (g : Generator) (buf : Buffer)
      → buf.forward_refs ≡ g.buffer.forward_refs
      → IsWellFormed buf
      → Follows name false false g (record g { buffer = buf })
  word-Ends g buf same wf = bytes-Follows name g buf same (λ w. wf)

  -- Only a label that is not defined is waited for.
  abbrev jumps : Name → Generator → Bool
  jumps target g = same_name target name && not (defined name g)

  link_at-Follows :
      (o : Option ℕ) (target : Name) (patch : ℕ) (g : Generator)
      → lookup_label target g ≡ o
      → Follows name (jumps target g) false g (link_at o target patch g)
  unfolding link_at defined lookup_label
  link_at-Follows (some o) target patch g e =
      Follows-weaken name g _ (λ f. absurd (cc)) (λ m. m)
        (patch-Follows name g patch (jump_offset_to o patch))
  link_at-Follows none target patch g e =
      Follows-weaken name g _
        (λ same.
          let missing : find_label name g.labels ≡ none =
            sym (find_label-same_name target name g.labels same) ∙ e in
          rw (same, missing) refl)
        (λ m. m) (waits-Follows name g patch target e)

  emit_target-jumps :
      (target : Name) (g : Generator)
      → IsWellFormed g.buffer
      → Ends name (jumps target g) false g (emit_target target g)
  unfolding emit_target lookup_label defined
  emit_target-jumps target g wf =
      let (buf, e, added, same, wf') = emit_word_be-Appends 0 g.buffer wf in
      let h : Generator = record g { buffer = buf } in
      (
        link_at (lookup_label target g) target (emit_get_offset g.buffer) h,
        rw e refl,
        Follows-trans name g h _ (word-Ends g buf same wf')
            (link_at-Follows (lookup_label target h) target (emit_get_offset g.buffer) h refl),
      )

  emit_jump-jumps :
      (target : Name) (g : Generator)
      → IsWellFormed g.buffer
      → Ends name (jumps target g) false g (emit_jump target g)
  unfolding emit_jump lookup_label defined
  emit_jump-jumps target g wf =
      let (buf, e, added, same, wf') = emit_byte-Appends op_jump g.buffer wf in
      let h : Generator = record g { buffer = buf } in
      let (g', e', f) = emit_target-jumps target h wf' in
      (g', rw e e', Follows-trans name g h g' (word-Ends g buf same wf') f)

  emit_target-Ends :
      (target : Name) (g : Generator)
      → IsWellFormed g.buffer
      → Ends name (same_name target name) false g (emit_target target g)
  emit_target-Ends target g wf =
      let (g', e, f) = emit_target-jumps target g wf in
      (g', e, Follows-weaken name g g' (λ t. ground arith) (λ m. m) f)

  pub emit_cond_jump-Ends :
      (st : Symtab) (opcode : ℕ) (left right : AstNode) (target : Name) (g : Generator)
      → IsWellFormed g.buffer
      → Ends name (same_name target name) false g (emit_cond_jump st opcode left right target g)
  unfolding emit_cond_jump
  emit_cond_jump-Ends st opcode left right target g wf =
      let ops = left ∷ right ∷ [] in
      let (b₁, e₁, s₁, r₁, wf₁) =
        emit_each-Appends
          (opcode_code opcode (check_complex_mode st ops) (compute_mode_byte st ops ∷ [])) g.buffer
          wf in
      let (b₂, e₂, s₂, r₂, wf₂) =
        emit_each-Appends (emit_operand st left (needs_extended_encoding st left)) b₁ wf₁ in
      let (b₃, e₃, s₃, r₃, wf₃) =
        emit_each-Appends (emit_operand st right (needs_extended_encoding st right)) b₂ wf₂ in
      let h : Generator = record g { buffer = b₃ } in
      let (g', e', f) = emit_target-Ends target h wf₃ in
      (g', rw (e₁, e₂, e₃) e', Follows-trans name g h g' (word-Ends g b₃ (r₃ ∙ r₂ ∙ r₁) wf₃) f)

  -- A jump to the label waits for it unless it is defined.
  pub jump_to-jumps :
      (target : Name) (s : CodeState)
      → IsWellFormed s.generator.buffer
      → StateEnds name (jumps target s.generator) false s (jump_to target s)
  jump_to-jumps target s wf =
      on_generator-StateEnds name (emit_jump target) s (emit_jump-jumps target s.generator wf)

  pub jump_to-StateEnds :
      (target : Name) (s : CodeState)
      → IsWellFormed s.generator.buffer
      → StateEnds name (same_name target name) false s (jump_to target s)
  jump_to-StateEnds target s wf =
      let (s', e, f) = jump_to-jumps target s wf in
      (s', e, Follows-weaken name s.generator s'.generator (λ t. ground arith) (λ m. m) f)
