-- ===== src/RoundTrip/Condition.antt =====
-- `emit_cond_jump` of compiler/codegen/codegen.c: the code of a comparison, and where it jumps.
use tbol_toolchain.Base.{
  ℕ, ◌+◌, ◌<◌, ◌≡◌, refl, sym, ◌∙◌, some, List, [], ◌∷◌, ◌++◌, length, take, map, length-append,
  append-nil, append_assoc, u8,
}
use tbol_toolchain.Symtab.Names.{Name}
use tbol_toolchain.Symtab.{Symtab}
use tbol_toolchain.Ast.{AstNode}
use tbol_toolchain.Codegen.Literal.{byte_code}
use tbol_toolchain.Codegen.Operand.{needs_extended_encoding, emit_operand}
use tbol_toolchain.Codegen.Instruction.{check_complex_mode, compute_mode_byte, opcode_code}
use tbol_toolchain.Codegen.Labels.{Generator, find_label, lookup_label, emit_each, emit_cond_jump}
use tbol_toolchain.Emit.{Buffer}
use tbol_toolchain.Emit.Growth.{IsWellFormed, Appends, emit_byte-Appends}
use tbol_toolchain.RoundTrip.Ready.{IsReady, IsLinked}
use tbol_toolchain.RoundTrip.Target.{emit_target-IsLinked, after_code-IsReady, IsLinked-before}

pub emit_each-Appends :
    (code : List ℕ) (buf : Buffer)
    → IsWellFormed buf
    → Appends (map u8 code) buf (emit_each code buf)
unfolding emit_each
emit_each-Appends [] buf wf = (buf, refl, sym (append-nil buf.bytes), refl, wf)
emit_each-Appends (b ∷ code) buf wf =
    let (buf₁, e₁, s₁, r₁, wf₁) = emit_byte-Appends b buf wf in
    let (buf₂, e₂, s₂, r₂, wf₂) = emit_each-Appends code buf₁ wf₁ in
    (buf₂, rw e₁ e₂, rw (s₂, s₁) (append_assoc buf.bytes (byte_code b) (map u8 code)), r₂ ∙ r₁, wf₂)

-- The bytes of a conditional jump before its offset.
abbrev pub comparison_code : Symtab → ℕ → AstNode → AstNode → List ℕ
comparison_code st opcode left right =
    let ops = left ∷ right ∷ [] in
    map u8 (opcode_code opcode (check_complex_mode st ops) (compute_mode_byte st ops ∷ []))
    ++ (map u8 (emit_operand st left (needs_extended_encoding st left))
        ++ map u8 (emit_operand st right (needs_extended_encoding st right)))

-- Emitting a conditional jump into code of less than 64 KiB always ends. It keeps the code before
-- it, adds the bytes of the opcode, the mode and both operands and two bytes of offset, and keeps the
-- state ready for the next instruction. If the label is defined, the decoder takes the offset to lead
-- to exactly where it is; if not, a forward reference to the offset is added behind the others.
pub emit_cond_jump-IsLinked :
    (start : ℕ) (st : Symtab) (opcode : ℕ) (left right : AstNode) (target : Name) (g : Generator)
    → IsReady start g
    → length g.buffer.bytes + length (comparison_code st opcode left right) < start + 65536
    → let n = length (comparison_code st opcode left right) in
      (g' : Generator) × (emit_cond_jump st opcode left right target g ≡ some g')
      × IsReady start g'
      × (take (length g.buffer.bytes + n) g'.buffer.bytes
          ≡ g.buffer.bytes ++ comparison_code st opcode left right)
      × (length g'.buffer.bytes ≡ length g.buffer.bytes + n + 2)
      × IsLinked (lookup_label target g) target start (length g.buffer.bytes + n) g g'
unfolding emit_cond_jump lookup_label
emit_cond_jump-IsLinked start st opcode left right target g ready near =
    let ops = left ∷ right ∷ [] in
    let (b₁, e₁, s₁, r₁, wf₁) =
      emit_each-Appends
        (opcode_code opcode (check_complex_mode st ops) (compute_mode_byte st ops ∷ [])) g.buffer
        ready.well_formed in
    let (b₂, e₂, s₂, r₂, wf₂) =
      emit_each-Appends (emit_operand st left (needs_extended_encoding st left)) b₁ wf₁ in
    let (b₃, e₃, s₃, r₃, wf₃) =
      emit_each-Appends (emit_operand st right (needs_extended_encoding st right)) b₂ wf₂ in
    let code : b₃.bytes ≡ g.buffer.bytes ++ comparison_code st opcode left right =
      rw (s₃, s₂, s₁) simp append_assoc in
    let same : b₃.forward_refs ≡ g.buffer.forward_refs = r₃ ∙ r₂ ∙ r₁ in
    let h : Generator = record g { buffer = b₃ } in
    let len : length b₃.bytes
        ≡ length g.buffer.bytes + length (comparison_code st opcode left right) =
      rw code (length-append g.buffer.bytes (comparison_code st opcode left right)) in
    let (g', e', longer, linked) =
      emit_target-IsLinked start target h
        (after_code-IsReady start g b₃ (comparison_code st opcode left right) ready code same wf₃)
        (rw len near) in
    (
      g',
      rw (e₁, e₂, e₃) e',
      longer.ready,
      rw len at longer.kept ∙ code,
      rw len at longer.longer,
      IsLinked-before (find_label target g.labels) target start
          (length g.buffer.bytes + length (comparison_code st opcode left right)) g h g' same refl
          (rw len at linked),
    )
