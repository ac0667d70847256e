-- ===== src/Statements/Ends/Statement.antt =====
-- `gen_statement` of compiler/codegen/codegen.c ends, and what it does to a name.
use tbol_toolchain.Base.{
  ◌+◌, ◌<◌, ◌≡◌, length, refl, Bool, true, false, not, ◌&&◌, ◌||◌, Option, some, Bool-cases,
  Option-cases, inl, inr, arith,
}
use tbol_toolchain.Symtab.Names.{Name, same_name}
use tbol_toolchain.Symtab.{Symtab}
use tbol_toolchain.Control.{
  Condition, compare, logic_and, logic_or, no_condition, get_direct_cmp_opcode,
}
use tbol_toolchain.Statements.Waiting.{defined}
use tbol_toolchain.Codegen.Labels.{Generator, max_labels, define_label, emit_cond_jump}
use tbol_toolchain.Emit.Growth.{IsWellFormed}
use tbol_toolchain.Verbs.{VerbStmt}
use tbol_toolchain.Verbs.Table.{lookup_verb}
use tbol_toolchain.Statements.{
  Statement, Statements, label, verb_stmt, proc_call, goto, goto_depending_on, if_stmt, if_else,
  while_stmt, if_only, while_only, do_block, no_code, done, next,
}
use tbol_toolchain.Statements.State.{CodeState, put_label}
use tbol_toolchain.Statements.Depending.{gen_goto_depending_on}
use tbol_toolchain.Statements.Generate.{
  emit_verb, gen_verb, is_depending, goto_target, get_simple_goto_target, goto_shortcut,
  gen_shortcut, shortcut_or, gen_statement, gen_do_block, else_label, endif_label, while_label,
  endwhile_label,
}
use tbol_toolchain.Statements.Describe.{
  goes_to, any_goes_to, has_label, any_has_label, IsCoded, IsSafe, AreSafe,
}
use tbol_toolchain.Statements.Follows.{
  Follows, Follows-refl, Follows-trans, Follows-weaken, label-Follows, define_label-longer,
}
use tbol_toolchain.Statements.Ends.{
  IsInside, Follows-IsInside, Ends, StateEnds, on_generator-StateEnds, jump_to-StateEnds,
  jump_to-jumps, emit_cond_jump-Ends, emit_code-Ends,
}
use tbol_toolchain.Statements.Ends.Conditions.{gen_condition_false_jump-StateEnds}
use tbol_toolchain.Statements.Ends.Links.{gen_goto_depending_on-Ends, gen_proc_call-StateEnds}

module _ (name : Name) where
  gen_verb-Ends :
      (st : Symtab) (node : VerbStmt) (g : Generator)
      → IsWellFormed g.buffer
      → IsCoded st node
      → Ends name (goes_to name (verb_stmt node)) false g (gen_verb st node g)
  unfolding gen_verb emit_verb goes_to
  gen_verb-Ends st node g wf (code, e) = elim (Bool-cases (is_depending (lookup_verb node.name))) [
    | inl d ↦ rw d (gen_goto_depending_on-Ends name st node.operands g wf)
    | inr d ↦ rw (d, e) (emit_code-Ends name code g wf)
  ]

  -- A statement that is no more than a GOTO to the target.
  abbrev IsGoto : Name → Statement → Type 0
  IsGoto t s = (same_name t name ≡ true → goes_to name s ≡ true) × (has_label name s ≡ false)

  goto_target-IsGoto : (s : Statement) (t : Name) → goto_target s ≡ some t → IsGoto t s
  unfolding goto_target goes_to has_label
  goto_target-IsGoto (label l) t e = absurd (cc)
  goto_target-IsGoto (verb_stmt node) t e = absurd (cc)
  goto_target-IsGoto (proc_call callee args) t e = absurd (cc)
  goto_target-IsGoto (goto target) t e = (λ h. cc, refl)
  goto_target-IsGoto (goto_depending_on nodes) t e = absurd (cc)
  goto_target-IsGoto (if_stmt cond a) t e = absurd (cc)
  goto_target-IsGoto (if_else cond a b) t e = absurd (cc)
  goto_target-IsGoto (while_stmt cond body) t e = absurd (cc)
  goto_target-IsGoto (if_only cond) t e = absurd (cc)
  goto_target-IsGoto (while_only cond) t e = absurd (cc)
  goto_target-IsGoto (do_block body) t e = absurd (cc)
  goto_target-IsGoto no_code t e = absurd (cc)

  get_simple_goto_target-IsGoto :
      (s : Statement) (t : Name) → get_simple_goto_target s ≡ some t → IsGoto t s
  unfolding get_simple_goto_target goes_to has_label
  get_simple_goto_target-IsGoto (label l) t e = absurd (cc)
  get_simple_goto_target-IsGoto (verb_stmt node) t e = absurd (cc)
  get_simple_goto_target-IsGoto (proc_call callee args) t e = absurd (cc)
  get_simple_goto_target-IsGoto (goto target) t e = (λ h. cc, refl)
  get_simple_goto_target-IsGoto (goto_depending_on nodes) t e = absurd (cc)
  get_simple_goto_target-IsGoto (if_stmt cond a) t e = absurd (cc)
  get_simple_goto_target-IsGoto (if_else cond a b) t e = absurd (cc)
  get_simple_goto_target-IsGoto (while_stmt cond body) t e = absurd (cc)
  get_simple_goto_target-IsGoto (if_only cond) t e = absurd (cc)
  get_simple_goto_target-IsGoto (while_only cond) t e = absurd (cc)
  get_simple_goto_target-IsGoto (do_block done) t e = absurd (cc)
  get_simple_goto_target-IsGoto (do_block (next child done)) t e =
      let (goes, plain) = goto_target-IsGoto child t e in (λ h. rw (goes h) refl, rw plain refl)
  get_simple_goto_target-IsGoto (do_block (next child (next a b))) t e = absurd (cc)
  get_simple_goto_target-IsGoto no_code t e = absurd (cc)

  goto_shortcut-IsGoto :
      (b : Bool) (cond : Condition) (s : Statement) (t : Name)
      → goto_shortcut b cond s ≡ some t
      → IsGoto t s
  unfolding goto_shortcut
  goto_shortcut-IsGoto false cond s t e = absurd (cc)
  goto_shortcut-IsGoto true (compare op l r) s t e = get_simple_goto_target-IsGoto s t e
  goto_shortcut-IsGoto true (logic_and a b) s t e = absurd (cc)
  goto_shortcut-IsGoto true (logic_or a b) s t e = absurd (cc)
  goto_shortcut-IsGoto true no_condition s t e = absurd (cc)

  still-StateEnds : {t : Bool} (s : CodeState) → StateEnds name t false s (some s)
  still-StateEnds s = (
    s,
    refl,
    Follows-weaken name s.generator s.generator (λ f. absurd (cc)) (λ m. m)
        (Follows-refl name s.generator),
  )

  gen_shortcut-StateEnds :
      (st : Symtab) (cond : Condition) (t : Name) (s : CodeState)
      → IsWellFormed s.generator.buffer
      → StateEnds name (same_name t name) false s (gen_shortcut st cond t s)
  unfolding gen_shortcut
  gen_shortcut-StateEnds st (compare op l r) t s wf =
      on_generator-StateEnds name (emit_cond_jump st (get_direct_cmp_opcode op) l r t) s
        (emit_cond_jump-Ends name st (get_direct_cmp_opcode op) l r t s.generator wf)
  gen_shortcut-StateEnds st (logic_and a b) t s wf = still-StateEnds s
  gen_shortcut-StateEnds st (logic_or a b) t s wf = still-StateEnds s
  gen_shortcut-StateEnds st no_condition t s wf = still-StateEnds s

  -- IF without ELSE, from what its standard code does.
  shortcut_or-StateEnds :
      (st : Symtab) (b : Bool) (cond : Condition) (then_stmt : Statement) (s : CodeState)
      (standard : Option CodeState)
      → IsWellFormed s.generator.buffer
      → StateEnds name (goes_to name then_stmt) (has_label name then_stmt) s standard
      → StateEnds name
          (goes_to name then_stmt)
          (has_label name then_stmt)
          s
          (shortcut_or st cond (goto_shortcut b cond then_stmt) s standard)
  unfolding shortcut_or
  shortcut_or-StateEnds st b cond then_stmt s standard wf ends =
      elim (Option-cases (goto_shortcut b cond then_stmt)) [
        | inl e ↦ rw e ends
        | inr (t, e) ↦
            let (goes, plain) = goto_shortcut-IsGoto b cond then_stmt t e in
            let (s', e', f) = gen_shortcut-StateEnds st cond t s wf in
            rw e (s', e', Follows-weaken name s.generator s'.generator goes (λ m. absurd (cc)) f)
      ]

  -- The end of a WHILE: the jump back finds its label defined.
  while-Follows :
      (top end : Name) {t m : Bool} (g h k : Generator)
      → Follows name (same_name end name || t) (same_name top name || m) g h
      → Follows name (same_name top name && not (defined name h)) false h k
      → Follows name t m g (define_label end k)
  while-Follows top end {t} {m} g h k a b =
      let f = label-Follows name end g k (Follows-trans name g h k a b) in
      record {
        fits = f.fits;
        current = f.current;
        longer = f.longer;
        kept = f.kept;
        makes = λ few e. f.makes few (ground arith);
        settled = f.settled;
        owes = λ few w.
            let room : length h.labels < max_labels =
              omega (arith, few, b.longer, define_label-longer name end k) in
            ground (arith, f.owes few w, a.makes room);
      }

mutual
  unfolding gen_statement goes_to has_label IsSafe

  -- The code of a statement ends.
  pub gen_statement-StateEnds :
      (name proc : Name) (st : Symtab) (b : Bool) (stmt : Statement) (s : CodeState)
      → IsInside proc s.generator
      → IsSafe st stmt
      → StateEnds name (goes_to name stmt) (has_label name stmt) s (gen_statement st b stmt s)
  gen_statement-StateEnds name proc st b (label l) s in_s safe = (
    put_label l s,
    refl,
    Follows-weaken name s.generator _ (λ t. ground arith) (λ m. rw m refl)
        (label-Follows name l s.generator s.generator (Follows-refl name s.generator)),
  )
  gen_statement-StateEnds name proc st b (verb_stmt node) s in_s safe =
      on_generator-StateEnds name (gen_verb st node) s
        (gen_verb-Ends name st node s.generator in_s.well_formed safe)
  gen_statement-StateEnds name proc st b (proc_call callee args) s in_s safe =
      gen_proc_call-StateEnds name st callee proc args s in_s
  gen_statement-StateEnds name proc st b (goto target) s in_s safe =
      jump_to-StateEnds name target s in_s.well_formed
  gen_statement-StateEnds name proc st b (goto_depending_on nodes) s in_s safe =
      on_generator-StateEnds name (gen_goto_depending_on st nodes) s
        (gen_goto_depending_on-Ends name st nodes s.generator in_s.well_formed)
  gen_statement-StateEnds name proc st b (if_stmt cond then_stmt) s in_s safe =
      let end = endif_label s.if_counter in
      let h = record s { if_counter = s.if_counter + 1 } in
      let (s₁, e₁, f₁) = gen_condition_false_jump-StateEnds name proc st cond end h in_s in
      let (s₂, e₂, f₂) =
        gen_statement-StateEnds name proc st b then_stmt s₁
          (Follows-IsInside name proc s.generator s₁.generator in_s f₁) safe in
      shortcut_or-StateEnds name st b cond then_stmt h _ in_s.well_formed (
        put_label end s₂,
        rw (e₁, e₂) refl,
        Follows-weaken name s.generator _ (λ t. ground arith) (λ m. ground arith)
            (label-Follows name end s.generator s₂.generator
              (Follows-trans name s.generator s₁.generator s₂.generator f₁ f₂)),
      )
  gen_statement-StateEnds name proc st b (if_else cond then_stmt else_stmt) s in_s (safe, safe') =
      let else_name = else_label s.if_counter in
      let end = endif_label s.if_counter in
      let h = record s { if_counter = s.if_counter + 1 } in
      let (s₁, e₁, f₁) = gen_condition_false_jump-StateEnds name proc st cond else_name h in_s in
      let (s₂, e₂, f₂) =
        gen_statement-StateEnds name proc st b then_stmt s₁
          (Follows-IsInside name proc s.generator s₁.generator in_s f₁) safe in
      let f₁₂ = Follows-trans name s.generator s₁.generator s₂.generator f₁ f₂ in
      let (s₃, e₃, f₃) = jump_to-StateEnds name end s₂ (f₁₂.fits in_s.well_formed) in
      let k = put_label else_name s₃ in
      let f₄ =
        label-Follows name else_name s.generator s₃.generator
          (Follows-trans name s.generator s₂.generator s₃.generator f₁₂ f₃) in
      let (s₅, e₅, f₅) =
        gen_statement-StateEnds name proc st b else_stmt k
          (Follows-IsInside name proc s.generator k.generator in_s f₄) safe' in
      (
        put_label end s₅,
        rw (e₁, e₂, e₃, e₅) refl,
        Follows-weaken name s.generator _ (λ t. ground arith) (λ m. ground arith)
            (label-Follows name end s.generator s₅.generator
              (Follows-trans name s.generator k.generator s₅.generator f₄ f₅)),
      )
  gen_statement-StateEnds name proc st b (while_stmt cond body) s in_s safe =
      let top = while_label s.while_counter in
      let end = endwhile_label s.while_counter in
      let h = put_label top (record s { while_counter = s.while_counter + 1 }) in
      let f₀ : Follows name false (same_name top name) s.generator h.generator =
        Follows-weaken name s.generator h.generator (λ t. t) (λ m. m)
          (label-Follows name top s.generator s.generator (Follows-refl name s.generator)) in
      let (s₁, e₁, f₁) =
        gen_condition_false_jump-StateEnds name proc st cond end h
          (Follows-IsInside name proc s.generator h.generator in_s f₀) in
      let g₁ = Follows-trans name s.generator h.generator s₁.generator f₀ f₁ in
      let (s₂, e₂, f₂) =
        gen_statement-StateEnds name proc st b body s₁
          (Follows-IsInside name proc s.generator s₁.generator in_s g₁) safe in
      let g₂ : Follows name (same_name end name || goes_to name body)
          (same_name top name || has_label name body) s.generator s₂.generator =
        Follows-weaken name s.generator s₂.generator (λ t. t) (λ m. ground arith)
          (Follows-trans name s.generator s₁.generator s₂.generator g₁ f₂) in
      let (s₃, e₃, f₃) = jump_to-jumps name top s₂ (g₂.fits in_s.well_formed) in
      (
        put_label end s₃,
        rw (e₁, e₂, e₃) refl,
        while-Follows name top end s.generator s₂.generator s₃.generator g₂ f₃,
      )
  gen_statement-StateEnds name proc st b (if_only cond) s in_s safe = absurd safe
  gen_statement-StateEnds name proc st b (while_only cond) s in_s safe = absurd safe
  gen_statement-StateEnds name proc st b (do_block body) s in_s safe =
      gen_do_block-StateEnds name proc st b body s in_s safe
  gen_statement-StateEnds name proc st b no_code s in_s safe = still-StateEnds name s

  pub gen_do_block-StateEnds :
      (name proc : Name) (st : Symtab) (b : Bool) (body : Statements) (s : CodeState)
      → IsInside proc s.generator
      → AreSafe st body
      → StateEnds name
          (any_goes_to name body)
          (any_has_label name body)
          s
          (gen_do_block st b body s)
  gen_do_block-StateEnds name proc st b done s in_s safe = still-StateEnds name s
  gen_do_block-StateEnds name proc st b (next first rest) s in_s (safe, safe') =
      let (s₁, e₁, f₁) = gen_statement-StateEnds name proc st b first s in_s safe in
      let (s₂, e₂, f₂) =
        gen_do_block-StateEnds name proc st b rest s₁
          (Follows-IsInside name proc s.generator s₁.generator in_s f₁) safe' in
      (s₂, rw e₁ e₂, Follows-trans name s.generator s₁.generator s₂.generator f₁ f₂)
