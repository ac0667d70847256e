-- ===== src/Statements/Waiting.antt =====
-- Which labels exist, and which are waited for, in the state of compiler/codegen/codegen.c: what
-- `define_label` and the ends of the jump emitters do to that, for one name.
use tbol_toolchain.Base.{
  ℕ, ◌≡◌, refl, sym, ap, ◌∙◌, Bool, true, false, not, ◌&&◌, ◌||◌, Option, none, some, List, [], ◌∷◌,
  ◌++◌, arith, inl, inr, Bool-cases,
}
use tbol_toolchain.Symtab.Names.{Name, same_name, same_name_iff}
use tbol_toolchain.Symtab.{is_some}
use tbol_toolchain.Codegen.Labels.{
  Generator, LabelDef, find_label, lookup_label, refers, same_scope, names_label, fix_refs,
}
use tbol_toolchain.Emit.{Buffer, ForwardRef}

pub same_name_refl : (a : Name) → same_name a a ≡ true
same_name_refl a = (same_name_iff a a).1 refl

pub same_name-right : (a b c : Name) → same_name b c ≡ true → same_name a b ≡ same_name a c
same_name-right a b c e =
    let bc = (same_name_iff b c).0 e in
    elim (Bool-cases (same_name a b)) [
      | inl ab ↦ ab ∙ sym ((same_name_iff a c).1 ((same_name_iff a b).0 ab ∙ bc))
      | inr unlike ↦ elim (Bool-cases (same_name a c)) [
        | inl ac ↦ absurd (cc (unlike, (same_name_iff a b).1 ((same_name_iff a c).0 ac ∙ sym bc)))
        | inr neither ↦ unlike ∙ sym neither
      ]
    ]

-- A reference of the current procedure waits for the name.
unfoldable pub waits : Name → Option Name → List ForwardRef → Bool
waits name current [] = false
waits name current (ref ∷ refs) = refers name current ref || waits name current refs

unfoldable pub waiting : Name → Generator → Bool
waiting name g = waits name g.current_proc_name g.buffer.forward_refs

unfoldable pub defined : Name → Generator → Bool
defined name g = is_some (lookup_label name g)

pub find_label-same_name :
    (a b : Name) (labels : List LabelDef)
    → same_name a b ≡ true
    → find_label a labels ≡ find_label b labels
unfolding find_label
find_label-same_name a b [] e = refl
find_label-same_name a b (l ∷ labels) e =
    rw (same_name-right l.name a b e, find_label-same_name a b labels e) refl

pub waits-append :
    (name : Name) (current : Option Name) (refs : List ForwardRef) (ref : ForwardRef)
    → waits name current (refs ++ (ref ∷ [])) ≡ (waits name current refs || refers name current ref)
unfolding waits
waits-append name current [] ref = ground arith
waits-append name current (r ∷ refs) ref = rw (waits-append name current refs ref) (ground arith)

pub same_scope_refl : (current : Option Name) → same_scope current current ≡ true
unfolding same_scope
same_scope_refl none = refl
same_scope_refl (some name) = same_name_refl name

-- Whether two names are waited for is one question if they are the same.
refers-same_name :
    (a b : Name) (current : Option Name) (ref : ForwardRef)
    → same_name a b ≡ true
    → refers a current ref ≡ refers b current ref
unfolding refers names_label
refers-same_name a b current ref e = label_case ref.label
  where
    label_case :
        (label : Option Name)
        → (names_label a label && same_scope ref.proc current)
          ≡ (names_label b label && same_scope ref.proc current)
    label_case none = refl
    label_case (some x) = rw (same_name-right x a b e) refl

-- A reference to one name is none to another.
refers-other :
    (a b : Name) (current : Option Name) (ref : ForwardRef)
    → same_name a b ≡ false
    → refers a current ref ≡ true
    → refers b current ref ≡ false
unfolding refers names_label
refers-other a b current ref e = label_case ref.label
  where
    label_case :
        (label : Option Name)
        → (names_label a label && same_scope ref.proc current) ≡ true
        → (names_label b label && same_scope ref.proc current) ≡ false
    label_case none h = absurd (cc)
    label_case (some x) h = elim (Bool-cases (same_name x b)) [
      | inr unlike ↦ rw unlike refl
      | inl xb ↦ elim (Bool-cases (same_name x a)) [
        | inr unlike ↦ absurd (cc (h, ap (λ (t : Bool). t && same_scope ref.proc current) unlike))
        | inl xa ↦ absurd (
            cc (
              e,
              (same_name_iff a b).1 (sym ((same_name_iff x a).0 xa) ∙ (same_name_iff x b).0 xb),
            ))
      ]
    ]

refers-cleared :
    (name : Name) (current : Option Name) (ref : ForwardRef)
    → refers name current (record ref { label = none }) ≡ false
unfolding refers names_label
refers-cleared name current ref = refl

-- After the references are fixed for a name, that name is not waited for, and others are as before.
pub waits-fix_refs :
    (offset : ℕ) (name other : Name) (current : Option Name) (refs : List ForwardRef) (buf : Buffer)
    → waits other current (fix_refs offset name current refs buf).0
      ≡ (waits other current refs && not (same_name name other))
unfolding waits fix_refs
waits-fix_refs offset name other current [] buf = refl
waits-fix_refs offset name other current (ref ∷ refs) buf =
    elim (Bool-cases (refers name current ref)) [
      | inl hit ↦ elim (Bool-cases (same_name name other)) [
        | inl same ↦
            rw
              (
                hit,
                refers-cleared other current ref,
                waits-fix_refs offset name other current refs _,
                same,
              )
              (ground arith)
        | inr diff ↦
            rw
              (
                hit,
                refers-cleared other current ref,
                waits-fix_refs offset name other current refs _,
                diff,
                refers-other name other current ref diff hit,
              )
              (ground arith)
      ]
      | inr miss ↦ elim (Bool-cases (same_name name other)) [
        | inl same ↦
            rw
              (
                miss,
                waits-fix_refs offset name other current refs buf,
                same,
                sym (refers-same_name name other current ref same),
                miss,
              )
              (ground arith)
        | inr diff ↦
            rw (miss, waits-fix_refs offset name other current refs buf, diff) (ground arith)
      ]
    ]
