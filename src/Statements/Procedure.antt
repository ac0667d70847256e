-- ===== src/Statements/Procedure.antt =====
-- `gen_proc` of compiler/codegen/codegen.c ends, resolves the jumps of the procedure, and its fixup
-- loop finds nothing to do.
use mathlib.Core.Option.{some-injective}
use tbol_toolchain.Base.{
  subst, ℕ, ◌<◌, ◌≡◌, refl, sym, ap, ◌∙◌, Bool, true, false, ◌&&◌, Option, none, some, List, [],
  ◌∷◌, length, arith, Bool-cases, Option-cases, inl, inr,
}
use tbol_toolchain.Symtab.Names.{Name, same_name}
use tbol_toolchain.Symtab.{Symtab, is_some}
use tbol_toolchain.Bytecode.Opcodes.System.{op_return}
use tbol_toolchain.Codegen.Labels.{
  LabelDef, max_labels, find_label, lookup_label, refers, names_label, same_scope, jump_offset_to,
}
use tbol_toolchain.Emit.{Buffer, ForwardRef, emit_byte, emit_patch_word_be}
use tbol_toolchain.Emit.Growth.{IsWellFormed, emit_byte-Appends}
use tbol_toolchain.RoundTrip.Target.{patch-IsWellFormed}
use tbol_toolchain.Statements.{ProcNode}
use tbol_toolchain.Statements.State.{CodeState, define_proc}
use tbol_toolchain.Statements.Generate.{gen_do_block}
use tbol_toolchain.Statements.Program.{
  label_target, local_target, fix_targets, enter_proc, leave_proc, gen_proc,
}
use tbol_toolchain.Statements.Waiting.{same_name_refl, waits, waiting, defined}
use tbol_toolchain.Statements.Follows.{Follows}
use tbol_toolchain.Statements.Ends.{IsInside}
use tbol_toolchain.Statements.Describe.{any_goes_to, any_has_label, AreSafe}
use tbol_toolchain.Statements.Ends.Statement.{gen_do_block-StateEnds}

pub fix_targets-refs :
    (target : ForwardRef → Option ℕ) (refs : List ForwardRef) (buf : Buffer)
    → ((fix_targets target refs buf).forward_refs ≡ buf.forward_refs)
      × (IsWellFormed buf → IsWellFormed (fix_targets target refs buf))
unfolding fix_targets
fix_targets-refs target [] buf = (refl, λ wf. wf)
fix_targets-refs target (ref ∷ refs) buf = elim (Option-cases (target ref)) [
  | inl e ↦ rw (e, fix_targets) (fix_targets-refs target refs buf)
  | inr (offset, e) ↦
      let v = jump_offset_to offset ref.patch_offset in
      let (same, wf) = fix_targets-refs target refs (emit_patch_word_be ref.patch_offset v buf) in
      rw (e, fix_targets)
        (
          same ∙ unfold emit_patch_word_be in refl,
          λ w. wf (patch-IsWellFormed ref.patch_offset v buf w),
        )
]

-- No reference waits for a label that is defined.
abbrev AreSettled : Name → List LabelDef → List ForwardRef → Type 0
AreSettled proc labels refs =
    (name : Name) → (waits name (some proc) refs && is_some (find_label name labels)) ≡ false

module _ (proc : Name) (labels : List LabelDef) where
  label_target-none :
      (label current : Option Name)
      → ((name : Name)
          → (names_label name label
              && same_scope current (some proc)
              && is_some (find_label name labels))
            ≡ false)
      → label_target proc labels label current ≡ none
  unfolding label_target names_label same_scope
  label_target-none none current settled = refl
  label_target-none (some l) none settled = refl
  label_target-none (some l) (some p) settled = elim (Bool-cases (same_name p proc)) [
    | inr other ↦ rw other refl
    | inl same ↦ elim (Option-cases (find_label l labels)) [
      | inl missing ↦ rw (same, missing) refl
      | inr (o, found) ↦
          absurd (ground (arith, settled l, same_name_refl l, same, ap is_some found))
    ]
  ]

  fix_targets-idle :
      (refs : List ForwardRef) (buf : Buffer)
      → AreSettled proc labels refs
      → fix_targets (local_target proc labels) refs buf ≡ buf
  unfolding fix_targets local_target waits refers
  fix_targets-idle [] buf settled = refl
  fix_targets-idle (ref ∷ refs) buf settled =
      let e : label_target proc labels ref.label ref.proc ≡ none =
        label_target-none ref.label ref.proc (λ name. ground (arith, settled name)) in
      rw (e, fix_targets) (fix_targets-idle refs buf (λ name. ground (arith, settled name)))

-- No jump of a procedure of that name is left over from before.
abbrev pub NoneWaits : Name → CodeState → Type 0
NoneWaits proc s = (name : Name) → waits name (some proc) s.generator.buffer.forward_refs ≡ false

pub enter_proc-IsInside :
    (proc : Name) (s : CodeState)
    → IsWellFormed s.generator.buffer
    → IsInside proc (enter_proc proc s).generator
unfolding enter_proc define_proc
enter_proc-IsInside proc s wf = record {
  well_formed = record { positive = wf.positive; fits = wf.fits };
  inside = refl;
}

module _ (st : Symtab) (if_goto_opt : Bool) (node : ProcNode) (s : CodeState)
    (wf : IsWellFormed s.generator.buffer) (safe : AreSafe st node.body) where
  body_ends :
      (name : Name)
      → (s₁ : CodeState) × (gen_do_block st if_goto_opt node.body (enter_proc node.name s)
          ≡ some s₁)
        × Follows name
            (any_goes_to name node.body)
            (any_has_label name node.body)
            (enter_proc node.name s).generator
            s₁.generator
  body_ends name =
      gen_do_block-StateEnds name node.name st if_goto_opt node.body (enter_proc node.name s)
        (enter_proc-IsInside node.name s wf) safe

  -- The state at the end of the body, whatever name is asked for.
  abbrev body_state : CodeState
  body_state = (body_ends node.name).0

  body-Follows :
      (name : Name)
      → Follows name
          (any_goes_to name node.body)
          (any_has_label name node.body)
          (enter_proc node.name s).generator
          body_state.generator
  body-Follows name =
      let (s₁, e₁, f) = body_ends name in
      let same : s₁ ≡ body_state = some-injective _ _ (sym e₁ ∙ (body_ends node.name).1) in
      subst
        (λ (x : CodeState).
          Follows name (any_goes_to name node.body) (any_has_label name node.body)
            (enter_proc node.name s).generator x.generator)
        same f

  body_settled :
      NoneWaits node.name s
      → AreSettled node.name body_state.generator.labels body_state.generator.buffer.forward_refs
  unfolding waiting defined lookup_label enter_proc define_proc
  body_settled none_waits name =
      let f = body-Follows name in rw f.current at (f.settled (rw (none_waits name) refl))

  -- The procedure with the loop left out.
  abbrev leave_without : Buffer → CodeState
  leave_without buf = record body_state {
    generator = record body_state.generator { buffer = buf; current_proc_name = none };
  }

  gen_proc_idle :
      NoneWaits node.name s
      → (buf : Buffer) × (emit_byte op_return body_state.generator.buffer ≡ some buf)
        × (gen_proc st if_goto_opt node s ≡ some (leave_without buf))
        × (buf.forward_refs ≡ body_state.generator.buffer.forward_refs)
        × IsWellFormed buf
  unfolding gen_proc leave_proc
  gen_proc_idle none_waits =
      let wf' = (body-Follows node.name).fits (enter_proc-IsInside node.name s wf).well_formed in
      let (buf, e, added, same, w) = emit_byte-Appends op_return body_state.generator.buffer wf' in
      let idle =
        fix_targets-idle node.name body_state.generator.labels buf.forward_refs buf
          (rw same (body_settled none_waits)) in
      (buf, e, rw ((body_ends node.name).1, e, idle) refl, same, w)

  body_resolved :
      NoneWaits node.name s
      → length body_state.generator.labels < max_labels
      → ((name : Name) → any_goes_to name node.body ≡ true → any_has_label name node.body ≡ true)
      → NoneWaits node.name body_state
  unfolding waiting defined lookup_label enter_proc define_proc
  body_resolved none_waits room targets name =
      let f = body-Follows name in
      elim (Bool-cases (waits name (some node.name) body_state.generator.buffer.forward_refs)) [
        | inr clear ↦ clear
        | inl w ↦
            let owed = f.owes room (rw f.current w) in
            let goes : any_goes_to name node.body ≡ true = rw (none_waits name) at owed in
            let made = f.makes room (targets name goes) in
            absurd (ground (arith, body_settled none_waits name, made, w))
      ]

pub gen_proc-NoneWaits :
    (st : Symtab) (if_goto_opt : Bool) (node : ProcNode) (s s₁ : CodeState)
    → IsWellFormed s.generator.buffer
    → AreSafe st node.body
    → NoneWaits node.name s
    → ((name : Name) → any_goes_to name node.body ≡ true → any_has_label name node.body ≡ true)
    → gen_do_block st if_goto_opt node.body (enter_proc node.name s) ≡ some s₁
    → length s₁.generator.labels < max_labels
    → (s' : CodeState) × (gen_proc st if_goto_opt node s ≡ some s') × NoneWaits node.name s'
gen_proc-NoneWaits st if_goto_opt node s s₁ wf safe none_waits targets run room =
    let (buf, e, run', same, w) = gen_proc_idle st if_goto_opt node s wf safe none_waits in
    let ends = (body_ends st if_goto_opt node s wf safe node.name).1 in
    let here : s₁ ≡ body_state st if_goto_opt node s wf safe =
      some-injective _ _ (sym run ∙ ends) in
    (
      leave_without st if_goto_opt node s wf safe buf,
      run',
      rw same (body_resolved st if_goto_opt node s wf safe none_waits (rw here at room) targets),
    )
