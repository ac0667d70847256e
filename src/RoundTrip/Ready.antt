-- ===== src/RoundTrip/Ready.antt =====
-- The state of the code generator between instructions: labels and forward references in the code.
use tbol_toolchain.Base.{
  ℕ, ◌+◌, ◌≤◌, ◌≡◌, refl, Option, none, some, List, [], ◌∷◌, ◌++◌, length, take, get_elem?, arith,
  inl, inr, Bool-cases, All,
}
use tbol_toolchain.Symtab.Names.{Name, same_name}
use tbol_toolchain.Codegen.Labels.{Generator, LabelDef, find_label}
use tbol_toolchain.Emit.{ForwardRef}
use tbol_toolchain.Emit.Growth.{IsWellFormed}
use tbol_toolchain.RoundTrip.Word.{Reaches}
use tbol_toolchain.RoundTrip.Jump.{Ascending}

pub Ascending-mono :
    (lo : ℕ) (refs : List ForwardRef) (hi hi' : ℕ)
    → hi ≤ hi'
    → Ascending lo refs hi
    → Ascending lo refs hi'
Ascending-mono lo [] hi hi' le asc = omega arith
Ascending-mono lo (ref ∷ refs) hi hi' le (at, asc) =
    (at, Ascending-mono (ref.patch_offset + 2) refs hi hi' le asc)

pub Ascending-append :
    (lo : ℕ) (refs : List ForwardRef) (hi : ℕ) (ref : ForwardRef)
    → hi ≤ ref.patch_offset
    → Ascending lo refs hi
    → Ascending lo (refs ++ (ref ∷ [])) (ref.patch_offset + 2)
Ascending-append lo [] hi ref le asc = (omega arith, omega arith)
Ascending-append lo (r ∷ refs) hi ref le (at, asc) =
    (at, Ascending-append (r.patch_offset + 2) refs hi ref le asc)

pub get_elem?-last :
    (refs : List ForwardRef) (ref : ForwardRef)
    → get_elem? (refs ++ (ref ∷ [])) (length refs) ≡ some ref
get_elem?-last [] ref = refl
get_elem?-last (r ∷ refs) ref = get_elem?-last refs ref

-- The labels lie between two places.
abbrev pub AreWithin : ℕ → ℕ → List LabelDef → Type 0
AreWithin lo hi = All (λ (l : LabelDef). (lo ≤ l.offset) × (l.offset ≤ hi))

pub AreWithin-mono :
    (lo hi hi' : ℕ) (labels : List LabelDef)
    → hi ≤ hi'
    → AreWithin lo hi labels
    → AreWithin lo hi' labels
AreWithin-mono lo hi hi' [] le h = tt
AreWithin-mono lo hi hi' (l ∷ labels) le ((a, b), h) =
    ((a, omega arith), AreWithin-mono lo hi hi' labels le h)

pub find_label-within :
    (lo hi o : ℕ) (name : Name) (labels : List LabelDef)
    → AreWithin lo hi labels
    → find_label name labels ≡ some o
    → (lo ≤ o) × (o ≤ hi)
unfolding find_label
find_label-within lo hi o name [] h e = cc
find_label-within lo hi o name (l ∷ labels) ((a, b), h) e =
    elim (Bool-cases (same_name l.name name)) [
      | inl same ↦ let at : some l.offset ≡ some o = rw same at e in (ground arith, ground arith)
      | inr other ↦ find_label-within lo hi o name labels h (rw other at e)
    ]

-- The state between instructions, where the code begins at `start`.
pub record IsReady (start : ℕ) (g : Generator) : Type 0 where
  pub well_formed : IsWellFormed g.buffer
  pub ordered : Ascending start g.buffer.forward_refs (length g.buffer.bytes)
  pub placed : AreWithin start (length g.buffer.bytes) g.labels

-- The jump whose offset is at `patch` leads to where its label is, or waits for it.
abbrev pub IsLinked : Option ℕ → Name → ℕ → ℕ → Generator → Generator → Type 0
IsLinked (some o) target start patch g g' = Reaches start g'.buffer.bytes patch o
IsLinked none target start patch g g' =
    get_elem? g'.buffer.forward_refs (length g.buffer.forward_refs)
    ≡ some (record { patch_offset = patch; label = some target; proc = g.current_proc_name })

-- `g'` is `g` with n more bytes of code.
pub record IsLonger (n : ℕ) (start : ℕ) (g g' : Generator) : Type 0 where
  pub ready : IsReady start g'
  pub kept : take (length g.buffer.bytes) g'.buffer.bytes ≡ g.buffer.bytes
  pub longer : length g'.buffer.bytes ≡ length g.buffer.bytes + n
