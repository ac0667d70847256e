-- ===== src/RoundTrip/Jump.antt =====
-- Labels and jumps of compiler/codegen/codegen.c: where the decoder takes the jumps to.
use tbol_toolchain.Base.{
  ℕ, zero, suc, ◌+◌, ◌-◌, ◌≤◌, ◌<◌, ◌≡◌, refl, ◌∙◌, Bool, true, false, Option, some, List, [], ◌∷◌,
  length, get_elem?, arith, leb, u16, inl, if◌then◌else◌, subst,
}
use tbol_toolchain.Symtab.Names.{Name}
use tbol_toolchain.Codegen.Labels.{
  Generator, max_labels, jump_offset_to, refers, fix_refs, define_label,
}
use tbol_toolchain.Bytecode.Ir.{OperandKind, operand_new}
use tbol_toolchain.Bytecode.Instruction.{Instruction, add_operand}
use tbol_toolchain.Bytecode.Special.{resolve_offsets}
use tbol_toolchain.Emit.{Buffer, ForwardRef, emit_get_offset, emit_patch_word_be}
use tbol_toolchain.RoundTrip.Word.{
  word_at, Reaches, patch-word_at, patch-length, patch-word_at_self, word_at-Reaches,
}

-- The places that references patch are two bytes each, in ascending order, from lo to hi.
abbrev pub Ascending : ℕ → List ForwardRef → ℕ → Type 0
Ascending lo [] hi = lo ≤ hi
Ascending lo (ref ∷ refs) hi = (lo ≤ ref.patch_offset) × Ascending (ref.patch_offset + 2) refs hi

pub Ascending-le : (lo : ℕ) (refs : List ForwardRef) (hi : ℕ) → Ascending lo refs hi → lo ≤ hi
Ascending-le lo [] hi h = h
Ascending-le lo (ref ∷ refs) hi (le, h) =
    omega (arith, Ascending-le (ref.patch_offset + 2) refs hi h)

-- One round of the fixup loop.
abbrev pub patch_if : Bool → ℕ → ForwardRef → Buffer → Buffer
patch_if hit offset ref buf =
    if hit
    then emit_patch_word_be ref.patch_offset (jump_offset_to offset ref.patch_offset) buf
    else buf

patch_if-length :
    (hit : Bool) (offset : ℕ) (ref : ForwardRef) (buf : Buffer)
    → length (patch_if hit offset ref buf).bytes ≡ length buf.bytes
patch_if-length true offset ref buf = patch-length ref.patch_offset _ buf
patch_if-length false offset ref buf = refl

patch_if-word_at :
    (hit : Bool) (offset p : ℕ) (ref : ForwardRef) (buf : Buffer)
    → p + 2 ≤ ref.patch_offset
    → word_at (patch_if hit offset ref buf).bytes p ≡ word_at buf.bytes p
patch_if-word_at true offset p ref buf h = patch-word_at p ref.patch_offset _ buf (inl h)
patch_if-word_at false offset p ref buf h = refl

module _ (offset : ℕ) (name : Name) (current : Option Name) where
  pub fix_refs-length :
      (refs : List ForwardRef) (buf : Buffer)
      → length (fix_refs offset name current refs buf).1.bytes ≡ length buf.bytes
  unfolding fix_refs
  fix_refs-length [] buf = refl
  fix_refs-length (ref ∷ refs) buf =
      fix_refs-length refs (patch_if (refers name current ref) offset ref buf)
      ∙ patch_if-length (refers name current ref) offset ref buf

  fix_refs-word_at :
      (refs : List ForwardRef) (buf : Buffer) (p lo hi : ℕ)
      → p + 2 ≤ lo
      → Ascending lo refs hi
      → word_at (fix_refs offset name current refs buf).1.bytes p ≡ word_at buf.bytes p
  unfolding fix_refs
  fix_refs-word_at [] buf p lo hi below asc = refl
  fix_refs-word_at (ref ∷ refs) buf p lo hi below (le, asc) =
      fix_refs-word_at refs (patch_if (refers name current ref) offset ref buf) p
        (ref.patch_offset + 2) hi (omega arith) asc
      ∙ patch_if-word_at (refers name current ref) offset p ref buf (omega arith)

  -- A reference among `refs` is patched with the way to the label.
  abbrev IsResolved : List ForwardRef → Buffer → ℕ → ForwardRef → Type 0
  IsResolved refs buf lo ref =
      (word_at (fix_refs offset name current refs buf).1.bytes ref.patch_offset
        ≡ u16 (jump_offset_to offset ref.patch_offset))
      × (lo ≤ ref.patch_offset)
      × (suc ref.patch_offset < length buf.bytes)

  fix_refs-resolves_first :
      (ref : ForwardRef) (refs : List ForwardRef) (buf : Buffer) (lo : ℕ)
      → Ascending lo (ref ∷ refs) (length buf.bytes)
      → refers name current ref ≡ true
      → IsResolved (ref ∷ refs) buf lo ref
  unfolding fix_refs
  fix_refs-resolves_first ref refs buf lo (le, asc) hit =
      let inside : suc ref.patch_offset < length buf.bytes =
        omega (arith, Ascending-le (ref.patch_offset + 2) refs (length buf.bytes) asc) in
      (
        rw hit (
            fix_refs-word_at refs (patch_if true offset ref buf) ref.patch_offset
              (ref.patch_offset + 2) (length buf.bytes) (omega arith) asc
            ∙ patch-word_at_self ref.patch_offset _ buf inside),
        le,
        inside,
      )

  fix_refs-resolves :
      (refs : List ForwardRef) (buf : Buffer) (lo i : ℕ) (ref : ForwardRef)
      → Ascending lo refs (length buf.bytes)
      → get_elem? refs i ≡ some ref
      → refers name current ref ≡ true
      → IsResolved refs buf lo ref
  unfolding fix_refs
  fix_refs-resolves [] buf lo i ref asc at hit = cc
  fix_refs-resolves (r ∷ refs) buf lo zero ref asc at hit =
      let same : r ≡ ref = cc in
      subst (λ (x : ForwardRef). refers name current x ≡ true → IsResolved (r ∷ refs) buf lo x) same
        (fix_refs-resolves_first r refs buf lo asc) hit
  fix_refs-resolves (r ∷ refs) buf lo (suc i) ref (le, asc) at hit =
      let buf' = patch_if (refers name current r) offset r buf in
      let len = patch_if-length (refers name current r) offset r buf in
      let (word, above, inside) =
        fix_refs-resolves refs buf' (r.patch_offset + 2) i ref (rw len asc) at hit in
      (word, omega arith, omega arith)

-- A reference to the label is resolved when it is defined.
define_label-word :
    (name : Name) (g : Generator) (start i : ℕ) (ref : ForwardRef)
    → length g.labels < max_labels
    → Ascending start g.buffer.forward_refs (length g.buffer.bytes)
    → get_elem? g.buffer.forward_refs i ≡ some ref
    → refers name g.current_proc_name ref ≡ true
    → (word_at (define_label name g).buffer.bytes ref.patch_offset
        ≡ u16 (jump_offset_to (length g.buffer.bytes) ref.patch_offset))
      × (length (define_label name g).buffer.bytes ≡ length g.buffer.bytes)
      × (start ≤ ref.patch_offset)
      × (suc ref.patch_offset < length g.buffer.bytes)
unfolding define_label emit_get_offset
define_label-word name g start i ref room asc at hit =
    let len =
      fix_refs-length (length g.buffer.bytes) name g.current_proc_name g.buffer.forward_refs
        g.buffer in
    let (word, above, inside) =
      fix_refs-resolves (length g.buffer.bytes) name g.current_proc_name g.buffer.forward_refs
        g.buffer start i ref asc at hit in
    let free : leb max_labels (length g.labels) ≡ false = ground arith in
    rw free (word, len, above, inside)

-- When a label is defined, the decoder takes each jump that waits for it to exactly where it is
-- defined: the offset of a jump or of a conditional jump at each forward reference with the label's
-- name (case aside) in the current procedure, as long as the procedure has fewer than 256 labels, the
-- references lie in the code and do not overlap, and the code so far is shorter than 64 KiB. The
-- entries of a GOTO_DEPENDING_ON, which are read in another way, are not meant.
pub define_label-Reaches :
    (name : Name) (g : Generator) (start i : ℕ) (ref : ForwardRef)
    → length g.labels < max_labels
    → Ascending start g.buffer.forward_refs (length g.buffer.bytes)
    → get_elem? g.buffer.forward_refs i ≡ some ref
    → refers name g.current_proc_name ref ≡ true
    → length g.buffer.bytes < start + 65536
    → Reaches start (define_label name g).buffer.bytes ref.patch_offset (length g.buffer.bytes)
define_label-Reaches name g start i ref room asc at hit near =
    let (word, len, above, inside) = define_label-word name g start i ref room asc at hit in
    word_at-Reaches start (define_label name g).buffer.bytes ref.patch_offset
      (length g.buffer.bytes) above (omega arith)
      (Ascending-le start g.buffer.forward_refs (length g.buffer.bytes) asc) near word

-- The decoder takes the entry of a GOTO_DEPENDING_ON at `patch`, whatever entries follow it, to lead to
-- the target.
abbrev pub EntryReaches : ℕ → List ℕ → ℕ → ℕ → Type 0
EntryReaches start bytes patch target =
    (instr_end : ℕ) (offsets : List ℕ) (instr : Instruction)
    → resolve_offsets instr_end (patch - start) (word_at bytes patch ∷ offsets) instr
      ≡ resolve_offsets instr_end (patch - start + 2) offsets
          (add_operand instr (some (operand_new OperandKind.literal_num (target - start))))

-- When a label is defined, the decoder takes each entry of a GOTO_DEPENDING_ON that waits for it to
-- exactly where it is defined: at each forward reference with the label's name (case aside) in the
-- current procedure, as long as the label is less than 32 KiB behind the entry, the procedure has fewer
-- than 256 labels, the references lie in the code and do not overlap, and the code so far is shorter
-- than 64 KiB.
pub define_label-EntryReaches :
    (name : Name) (g : Generator) (start i : ℕ) (ref : ForwardRef)
    → length g.labels < max_labels
    → Ascending start g.buffer.forward_refs (length g.buffer.bytes)
    → get_elem? g.buffer.forward_refs i ≡ some ref
    → refers name g.current_proc_name ref ≡ true
    → length g.buffer.bytes < start + 65536
    → length g.buffer.bytes < ref.patch_offset + 2 + 32768
    → EntryReaches start (define_label name g).buffer.bytes ref.patch_offset (length g.buffer.bytes)
unfolding resolve_offsets
define_label-EntryReaches name g start i ref room asc at hit near close instr_end offsets instr =
    let (word, len, above, inside) = define_label-word name g start i ref room asc at hit in
    let w = u16 (jump_offset_to (length g.buffer.bytes) ref.patch_offset) in
    let ahead : leb 0x8000 w ≡ false = ground arith in
    let target : u16 (u16 (ref.patch_offset - start + 2) + w) ≡ length g.buffer.bytes - start =
      ground arith in
    rw (word, ahead, target) refl
