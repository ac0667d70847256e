-- ===== src/RoundTrip/Define.antt =====
-- `define_label` of compiler/codegen/codegen.c keeps the state ready for the next instruction.
use tbol_toolchain.Base.{
  ℕ, ◌+◌, ◌≤◌, ◌≡◌, Bool, true, false, Option, List, [], ◌∷◌, ◌++◌, length, arith, leb, inl, inr,
  Bool-cases,
}
use tbol_toolchain.Symtab.Names.{Name}
use tbol_toolchain.Codegen.Labels.{Generator, LabelDef, max_labels, refers, fix_refs, define_label}
use tbol_toolchain.Emit.{Buffer, ForwardRef, emit_get_offset}
use tbol_toolchain.Emit.Growth.{IsWellFormed}
use tbol_toolchain.RoundTrip.Jump.{Ascending, Ascending-le, patch_if, fix_refs-length}
use tbol_toolchain.RoundTrip.Target.{patch-IsWellFormed}
use tbol_toolchain.RoundTrip.Ready.{AreWithin, IsReady}

patch_if-IsWellFormed :
    (hit : Bool) (offset : ℕ) (ref : ForwardRef) (buf : Buffer)
    → IsWellFormed buf
    → IsWellFormed (patch_if hit offset ref buf)
patch_if-IsWellFormed true offset ref buf wf = patch-IsWellFormed ref.patch_offset _ buf wf
patch_if-IsWellFormed false offset ref buf wf = wf

module _ (offset : ℕ) (name : Name) (current : Option Name) where
  pub fix_refs-IsWellFormed :
      (refs : List ForwardRef) (buf : Buffer)
      → IsWellFormed buf
      → IsWellFormed (fix_refs offset name current refs buf).1
  unfolding fix_refs
  fix_refs-IsWellFormed [] buf wf = wf
  fix_refs-IsWellFormed (ref ∷ refs) buf wf =
      fix_refs-IsWellFormed refs (patch_if (refers name current ref) offset ref buf)
        (patch_if-IsWellFormed (refers name current ref) offset ref buf wf)

  -- Clearing a label leaves the place of its reference.
  fix_refs-Ascending :
      (refs : List ForwardRef) (buf : Buffer) (lo hi : ℕ)
      → Ascending lo refs hi
      → Ascending lo (fix_refs offset name current refs buf).0 hi
  unfolding fix_refs
  fix_refs-Ascending [] buf lo hi asc = asc
  fix_refs-Ascending (ref ∷ refs) buf lo hi (le, asc) =
      elim (Bool-cases (refers name current ref)) [
        | inl hit ↦ rw hit (
          le,
          fix_refs-Ascending refs (patch_if true offset ref buf) (ref.patch_offset + 2) hi asc,
        )
        | inr miss ↦ rw miss (le, fix_refs-Ascending refs buf (ref.patch_offset + 2) hi asc)
      ]

AreWithin-append :
    (lo hi : ℕ) (labels : List LabelDef) (l : LabelDef)
    → lo ≤ l.offset
    → l.offset ≤ hi
    → AreWithin lo hi labels
    → AreWithin lo hi (labels ++ (l ∷ []))
AreWithin-append lo hi [] l a b h = ((a, b), tt)
AreWithin-append lo hi (l' ∷ labels) l a b (h, hs) = (h, AreWithin-append lo hi labels l a b hs)

-- Defining a label, the first or one too many, keeps the buffer within its capacity, every label
-- within the code, and the references in order, apart and within the code.
pub define_label-IsReady :
    (name : Name) (start : ℕ) (g : Generator)
    → IsReady start g
    → IsReady start (define_label name g)
unfolding define_label emit_get_offset
define_label-IsReady name start g ready = elim (Bool-cases (leb max_labels (length g.labels))) [
  | inl full ↦ rw full ready
  | inr free ↦
      let offset = length g.buffer.bytes in
      let refs = g.buffer.forward_refs in
      let fixed = fix_refs offset name g.current_proc_name refs g.buffer in
      let len : length fixed.1.bytes ≡ offset =
        fix_refs-length offset name g.current_proc_name refs g.buffer in
      let wf =
        fix_refs-IsWellFormed offset name g.current_proc_name refs g.buffer ready.well_formed in
      rw free (record {
        well_formed = record { positive = wf.positive; fits = wf.fits };
        ordered = rw len (
            fix_refs-Ascending offset name g.current_proc_name refs g.buffer start offset
              ready.ordered);
        placed = rw len (
            AreWithin-append start offset g.labels (record { name = name; offset = offset })
              (Ascending-le start refs offset ready.ordered) (omega arith) ready.placed);
      })
]
