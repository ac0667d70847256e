-- ===== src/RoundTrip/Target.antt =====
-- `emit_jump` of compiler/codegen/codegen.c: a jump to a label that is defined leads there, and one to
-- a label that is not yet becomes a forward reference.
use tbol_toolchain.Base.{
  List, ℕ, suc, ◌+◌, ◌≤◌, ◌<◌, ◌≡◌, refl, sym, ◌∙◌, Option, none, some, [], ◌∷◌, ◌++◌, length, take,
  length-append, take-length_append, arith,
}
use tbol_toolchain.Symtab.Names.{Name}
use tbol_toolchain.Codegen.Literal.{word_code}
use tbol_toolchain.Codegen.Labels.{
  Generator, jump_offset_to, find_label, lookup_label, link_at, emit_target, emit_jump,
}
use tbol_toolchain.Bytecode.Opcodes.Flow.{op_jump}
use tbol_toolchain.Emit.{
  Buffer, ForwardRef, emit_get_offset, emit_patch_word_be, emit_add_forward_ref,
}
use tbol_toolchain.Emit.Growth.{IsWellFormed, emit_byte-Appends, emit_word_be-Appends}
use tbol_toolchain.Emit.Patch.{emit_patch_word_be-read_offset}
use tbol_toolchain.RoundTrip.Word.{patch-length, patch-word_at_self, word_at-Reaches}
use tbol_toolchain.RoundTrip.Ready.{
  Ascending-mono, Ascending-append, get_elem?-last, AreWithin-mono, find_label-within, IsReady,
  IsLinked, IsLonger,
}

pub patch-IsWellFormed :
    (q v : ℕ) (buf : Buffer) → IsWellFormed buf → IsWellFormed (emit_patch_word_be q v buf)
patch-IsWellFormed q v buf wf = record {
  positive = unfold emit_patch_word_be in wf.positive;
  fits = rw (patch-length q v buf) (unfold emit_patch_word_be in wf.fits);
}

-- The placeholder of a jump has been written to `buf`.
module _ (start : ℕ) (target : Name) (g : Generator) (ready : IsReady start g) (buf : Buffer)
    (code : buf.bytes ≡ g.buffer.bytes ++ word_code 0)
    (same : buf.forward_refs ≡ g.buffer.forward_refs) (wf : IsWellFormed buf) where
  buf_length : length buf.bytes ≡ length g.buffer.bytes + 2
  buf_length = rw code (length-append g.buffer.bytes (word_code 0))

  buf_kept : take (length g.buffer.bytes) buf.bytes ≡ g.buffer.bytes
  buf_kept = rw code (take-length_append g.buffer.bytes (word_code 0))

  -- What one of the two ways to link the jump gives.
  abbrev Links : Option ℕ → Type 0
  Links o =
      let patch = length g.buffer.bytes in
      let g' = link_at o target patch (record g { buffer = buf }) in
      IsLonger 2 start g g' × IsLinked o target start patch g g'

  backward-Links :
      (o : ℕ)
      → lookup_label target g ≡ some o
      → length g.buffer.bytes < start + 65536
      → Links (some o)
  unfolding link_at lookup_label
  backward-Links o e near =
      let patch = length g.buffer.bytes in
      let v = jump_offset_to o patch in
      let inside : suc patch < length buf.bytes = omega (arith, buf_length) in
      let (from, to) = find_label-within start patch o target g.labels ready.placed e in
      let len : length (emit_patch_word_be patch v buf).bytes ≡ patch + 2 =
        patch-length patch v buf ∙ buf_length in
      (
        record {
          ready = record {
            well_formed = patch-IsWellFormed patch v buf wf;
            ordered =
                unfold emit_patch_word_be in
                rw (same, len)
                  (Ascending-mono start g.buffer.forward_refs patch (patch + 2) (omega arith)
                    ready.ordered);
            placed =
                rw len (AreWithin-mono start patch (patch + 2) g.labels (omega arith) ready.placed);
          };
          kept = (emit_patch_word_be-read_offset patch v buf inside).1 ∙ buf_kept;
          longer = len;
        },
        word_at-Reaches start (emit_patch_word_be patch v buf).bytes patch o (omega arith)
            (omega arith) from (omega arith) (patch-word_at_self patch v buf inside),
      )

  forward-Links : Links none
  unfolding link_at emit_add_forward_ref
  forward-Links =
      let patch = length g.buffer.bytes in
      let ref : ForwardRef = record {
        patch_offset = patch;
        label = some target;
        proc = g.current_proc_name;
      } in
      (
        record {
          ready = record {
            well_formed = record { positive = wf.positive; fits = wf.fits };
            ordered =
                rw (same, buf_length)
                  (Ascending-append start g.buffer.forward_refs patch ref (omega arith)
                    ready.ordered);
            placed =
                rw buf_length
                  (AreWithin-mono start patch (patch + 2) g.labels (omega arith) ready.placed);
          };
          kept = buf_kept;
          longer = buf_length;
        },
        rw same (get_elem?-last g.buffer.forward_refs ref),
      )

  link_at-Links :
      (o : Option ℕ) → lookup_label target g ≡ o → length g.buffer.bytes < start + 65536 → Links o
  link_at-Links (some o) e near = backward-Links o e near
  link_at-Links none e near = forward-Links

-- The placeholder of a jump and its link, in a state between instructions or inside one.
pub emit_target-IsLinked :
    (start : ℕ) (target : Name) (g : Generator)
    → IsReady start g
    → length g.buffer.bytes < start + 65536
    → (g' : Generator) × (emit_target target g ≡ some g')
      × IsLonger 2 start g g'
      × IsLinked (lookup_label target g) target start (length g.buffer.bytes) g g'
unfolding emit_target emit_get_offset
emit_target-IsLinked start target g ready near =
    let (buf, e, code, same, wf) = emit_word_be-Appends 0 g.buffer ready.well_formed in
    let (longer, linked) =
      link_at-Links start target g ready buf code same wf (lookup_label target g) refl near in
    (
      link_at (lookup_label target g) target (length g.buffer.bytes) (record g { buffer = buf }),
      rw e refl,
      longer,
      linked,
    )

pub IsLinked-before :
    (o : Option ℕ) (target : Name) (start patch : ℕ) (g h g' : Generator)
    → h.buffer.forward_refs ≡ g.buffer.forward_refs
    → h.current_proc_name ≡ g.current_proc_name
    → IsLinked o target start patch h g'
    → IsLinked o target start patch g g'
IsLinked-before (some o) target start patch g h g' refs current linked = linked
IsLinked-before none target start patch g h g' refs current linked =
    rw (sym refs, sym current) linked

-- The state after a part of an instruction.
pub after_code-IsReady :
    (start : ℕ) (g : Generator) (buf : Buffer) (code : List ℕ)
    → IsReady start g
    → buf.bytes ≡ g.buffer.bytes ++ code
    → buf.forward_refs ≡ g.buffer.forward_refs
    → IsWellFormed buf
    → IsReady start (record g { buffer = buf })
after_code-IsReady start g buf code ready added same wf =
    let len : length buf.bytes ≡ length g.buffer.bytes + length code =
      rw added (length-append g.buffer.bytes code) in
    let more : length g.buffer.bytes ≤ length g.buffer.bytes + length code = omega arith in
    record {
      well_formed = wf;
      ordered = rw (same, len) (Ascending-mono start g.buffer.forward_refs _ _ more ready.ordered);
      placed = rw len (AreWithin-mono start _ _ g.labels more ready.placed);
    }

-- Emitting a jump into code of less than 64 KiB always ends. It keeps the code before it, adds the
-- opcode of a jump and two bytes, and keeps the state ready for the next instruction. If the label
-- is defined, the decoder takes the jump to exactly where it is; if not, a forward reference to the
-- offset, with the label and the current procedure, is added behind the others.
pub emit_jump-IsLinked :
    (start : ℕ) (target : Name) (g : Generator)
    → IsReady start g
    → length g.buffer.bytes + 1 < start + 65536
    → (g' : Generator) × (emit_jump target g ≡ some g')
      × IsReady start g'
      × (take (length g.buffer.bytes + 1) g'.buffer.bytes ≡ g.buffer.bytes ++ (op_jump ∷ []))
      × (length g'.buffer.bytes ≡ length g.buffer.bytes + 3)
      × IsLinked (lookup_label target g) target start (length g.buffer.bytes + 1) g g'
unfolding emit_jump lookup_label
emit_jump-IsLinked start target g ready near =
    let (buf, e, code, same, wf) = emit_byte-Appends op_jump g.buffer ready.well_formed in
    let h : Generator = record g { buffer = buf } in
    let len : length buf.bytes ≡ length g.buffer.bytes + 1 =
      rw code (length-append g.buffer.bytes (op_jump ∷ [])) in
    let (g', e', longer, linked) =
      emit_target-IsLinked start target h
        (after_code-IsReady start g buf (op_jump ∷ []) ready code same wf) (omega arith) in
    (
      g',
      rw e e',
      longer.ready,
      rw len at longer.kept ∙ code,
      omega (arith, longer.longer),
      IsLinked-before (find_label target g.labels) target start (length g.buffer.bytes + 1) g h g'
          same refl (rw len at linked),
    )
