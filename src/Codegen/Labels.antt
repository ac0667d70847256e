-- ===== src/Codegen/Labels.antt =====
-- Labels and jumps of compiler/codegen/codegen.c: the label table of the current procedure, the fixup
-- of forward references, and the emitters of jumps. Offsets are positions in the buffer, never
-- negative, so the -1 of `lookup_label` is `none`. Line marks for the debugger are left out.
use tbol_toolchain.Base.{
  ℕ, ◌+◌, Bool, true, false, ◌&&◌, Option, none, some, List, [], ◌∷◌, ◌++◌, length, leb,
  if◌then◌else◌, pos, ◌-ℤ◌, wrap_ℤ, ◌>>=◌,
}
use tbol_toolchain.Ast.{AstNode}
use tbol_toolchain.Symtab.{Symtab}
use tbol_toolchain.Symtab.Names.{Name, same_name}
use tbol_toolchain.Bytecode.Opcodes.Flow.{op_jump}
use tbol_toolchain.Codegen.Operand.{needs_extended_encoding, emit_operand}
use tbol_toolchain.Codegen.Instruction.{check_complex_mode, compute_mode_byte, opcode_code}
use tbol_toolchain.Emit.{
  Buffer, ForwardRef, emit_get_offset, emit_byte, emit_word_be, emit_patch_word_be,
  emit_add_forward_ref,
}

pub record LabelDef : Type 0 where
  pub name : Name
  pub offset : ℕ

abbrev pub max_labels : ℕ
max_labels = 256

-- The static state of the code generator that jumps read and write.
pub record Generator : Type 0 where
  pub buffer : Buffer
  pub labels : List LabelDef
  pub current_proc_name : Option Name

unfoldable pub find_label : Name → List LabelDef → Option ℕ
find_label name [] = none
find_label name (l ∷ labels) =
    if same_name l.name name then some l.offset else find_label name labels

unfoldable pub lookup_label : Name → Generator → Option ℕ
unfolding find_label
lookup_label name g = find_label name g.labels

-- `(int16_t)(target - (patch_pos + 2))`, as a bit pattern.
abbrev pub jump_offset_to : ℕ → ℕ → ℕ
jump_offset_to target patch_pos = wrap_ℤ 65536 (pos target -ℤ pos (patch_pos + 2))

unfoldable pub same_scope : Option Name → Option Name → Bool
same_scope none none = true
same_scope none (some b) = false
same_scope (some a) none = false
same_scope (some a) (some b) = same_name a b

unfoldable pub names_label : Name → Option Name → Bool
names_label name none = false
names_label name (some label) = same_name label name

-- The tests of `define_label` on a reference.
unfoldable pub refers : Name → Option Name → ForwardRef → Bool
unfolding same_scope names_label
refers name current ref = names_label name ref.label && same_scope ref.proc current

-- The loop of `define_label`: it patches the references and clears their labels.
unfoldable pub fix_refs :
    ℕ → Name → Option Name → List ForwardRef → Buffer → List ForwardRef × Buffer
fix_refs offset name current [] buf = ([], buf)
fix_refs offset name current (ref ∷ refs) buf =
    let hit = refers name current ref in
    let patched =
      emit_patch_word_be ref.patch_offset (jump_offset_to offset ref.patch_offset) buf in
    let (refs', buf') = fix_refs offset name current refs (if hit then patched else buf) in
    ((if hit then record ref { label = none } else ref) ∷ refs', buf')

-- A label too many is reported and not defined.
unfoldable pub define_label : Name → Generator → Generator
define_label name g =
    let offset = emit_get_offset g.buffer in
    let (refs, buf) = fix_refs offset name g.current_proc_name g.buffer.forward_refs g.buffer in
    if leb max_labels (length g.labels) then g else record g {
      labels = g.labels ++ (record { name = name; offset = offset } ∷ []);
      buffer = record buf { forward_refs = refs };
    }

-- "Check if label is already defined", with the placeholder at `patch_pos`.
unfoldable pub link_at : Option ℕ → Name → ℕ → Generator → Generator
link_at (some target_offset) target patch_pos g = record g {
  buffer = emit_patch_word_be patch_pos (jump_offset_to target_offset patch_pos) g.buffer;
}
link_at none target patch_pos g = record g {
  buffer = emit_add_forward_ref patch_pos (some target) g.current_proc_name g.buffer;
}

-- The end of both jump emitters: the placeholder, and its fixup or forward reference.
unfoldable pub emit_target : Name → Generator → Option Generator
unfolding link_at
emit_target target g = do
  let patch_pos = emit_get_offset g.buffer
  buf ← emit_word_be 0 g.buffer
  some (link_at (lookup_label target g) target patch_pos (record g { buffer = buf }))

unfoldable pub emit_jump : Name → Generator → Option Generator
emit_jump target g = do
  buf ← emit_byte op_jump g.buffer
  emit_target target (record g { buffer = buf })

-- The bytes of an operand or an opcode, emitted one by one.
unfoldable pub emit_each : List ℕ → Buffer → Option Buffer
emit_each [] buf = some buf
emit_each (b ∷ code) buf = do buf' ← emit_byte b buf; emit_each code buf'

unfoldable pub emit_cond_jump : Symtab → ℕ → AstNode → AstNode → Name → Generator → Option Generator
emit_cond_jump st opcode left right target g = do
  let ops = left ∷ right ∷ []
  let complex = check_complex_mode st ops
  opened ← emit_each (opcode_code opcode complex (compute_mode_byte st ops ∷ [])) g.buffer
  first ← emit_each (emit_operand st left (needs_extended_encoding st left)) opened
  second ← emit_each (emit_operand st right (needs_extended_encoding st right)) first
  emit_target target (record g { buffer = second })
