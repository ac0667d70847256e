-- ===== src/Statements/Ends/Conditions.antt =====
-- `gen_condition_false_jump` of compiler/codegen/codegen_control.c ends, and leaves no reference to the
-- labels that it makes up.
use tbol_toolchain.Base.{
  ℕ, zero, suc, ◌+◌, ◌-◌, ◌≤◌, ◌≡◌, refl, ap, Bool, true, false, not, ◌&&◌, ◌||◌, List, [], ◌∷◌,
  length, arith, All, All-append,
}
use tbol_toolchain.Symtab.Names.{Name, same_name}
use tbol_toolchain.Symtab.{Symtab}
use tbol_toolchain.Control.{
  Condition, compare, logic_and, logic_or, no_condition, get_inverse_cmp_opcode, collect_or_terms,
}
use tbol_toolchain.Codegen.Labels.{emit_cond_jump}
use tbol_toolchain.Statements.State.{CodeState, put_label}
use tbol_toolchain.Statements.Conditions.{
  GenTerm, or_body, or_check, or_cascade, max_or_terms, gen_or_rest, gen_or_terms, gen_condition,
  condition_size, gen_condition_false_jump,
}
use tbol_toolchain.Statements.Follows.{
  Follows, Follows-refl, Follows-trans, Follows-weaken, label-Follows,
}
use tbol_toolchain.Statements.Ends.{
  IsInside, Follows-IsInside, StateEnds, on_generator-StateEnds, jump_to-StateEnds,
  emit_cond_jump-Ends,
}

-- Every term that is collected is a part of the chain.
collect_or_terms-size :
    (node : Condition) (n bound : ℕ)
    → condition_size node ≤ bound
    → All (λ (t : Condition). condition_size t ≤ bound) (collect_or_terms node n)
unfolding collect_or_terms condition_size
collect_or_terms-size (logic_or a b) zero bound le = tt
collect_or_terms-size (compare op l r) zero bound le = tt
collect_or_terms-size (logic_and a b) zero bound le = tt
collect_or_terms-size no_condition zero bound le = tt
collect_or_terms-size (logic_or a b) (suc n) bound le =
    All-append _ (collect_or_terms a (suc n)) _
      (collect_or_terms-size a (suc n) bound (omega arith))
      (collect_or_terms-size b (suc n - length (collect_or_terms a (suc n))) bound (omega arith))
collect_or_terms-size (compare op l r) (suc n) bound le = (le, tt)
collect_or_terms-size (logic_and a b) (suc n) bound le = (le, tt)
collect_or_terms-size no_condition (suc n) bound le = (le, tt)

-- What is waited for once the label and the cascade of a middle term are put.
settled_middle :
    (check cascade false_label check' cascade' cascade'' : Bool)
    → cascade'' ≡ cascade'
    → ((((check || (cascade || false_label)) && not check || check') && not cascade) || cascade')
      ≡ true
    → (check' || (cascade'' || false_label)) ≡ true
settled_middle check cascade false_label check' cascade' cascade'' e h = ground arith

module _ (name proc : Name) where
  -- What a term's code does, from every state inside the procedure.
  abbrev TermEnds : GenTerm → Condition → Type 0
  TermEnds gen term =
      (label : Name) (s : CodeState)
      → IsInside proc s.generator
      → StateEnds name (same_name label name) false s (gen term label s)

  module _ (gen : GenTerm) (my_id : ℕ) (false_label : Name) where
    abbrev waits_for : Name → Bool
    waits_for label = same_name label name

    -- The last term, where its own label and that of the body are waited for.
    gen_or_last :
        (i : ℕ) (term : Condition) (g s : CodeState)
        → IsInside proc g.generator
        → TermEnds gen term
        → Follows name
            (waits_for (or_check my_id i) || (waits_for (or_body my_id) || waits_for false_label))
            false
            g.generator
            s.generator
        → StateEnds name
            (waits_for false_label)
            false
            g
            (gen_or_rest gen my_id false_label i term [] s)
    unfolding gen_or_rest
    gen_or_last i term g s in_g ends f =
        let h = put_label (or_check my_id i) s in
        let f₁ = label-Follows name (or_check my_id i) g.generator s.generator f in
        let (s₂, e₂, f₂) =
          ends false_label h (Follows-IsInside name proc g.generator h.generator in_g f₁) in
        (
          put_label (or_body my_id) s₂,
          rw e₂ refl,
          Follows-weaken name g.generator _ (λ t. ground arith) (λ m. absurd (cc))
              (label-Follows name (or_body my_id) g.generator s₂.generator
                (Follows-trans name g.generator h.generator s₂.generator f₁ f₂)),
        )

    -- A term and those after it, where its own label and the cascade before it are waited for.
    gen_or_middle :
        (i : ℕ) (term next : Condition) (terms : List Condition) (g s : CodeState)
        → IsInside proc g.generator
        → TermEnds gen term
        → TermEnds gen next
        → All (TermEnds gen) terms
        → Follows name
            (waits_for (or_check my_id i)
              || (waits_for (or_cascade my_id (i - 1)) || waits_for false_label))
            false
            g.generator
            s.generator
        → StateEnds name
            (waits_for false_label)
            false
            g
            (gen_or_rest gen my_id false_label i term (next ∷ terms) s)
    unfolding gen_or_rest
    gen_or_middle i term next [] g s in_g ends ends' all f =
        let h = put_label (or_check my_id i) s in
        let f₁ = label-Follows name (or_check my_id i) g.generator s.generator f in
        let (s₂, e₂, f₂) =
          ends (or_check my_id (i + 1)) h
            (Follows-IsInside name proc g.generator h.generator in_g f₁) in
        let k = put_label (or_cascade my_id (i - 1)) s₂ in
        let f₃ =
          label-Follows name (or_cascade my_id (i - 1)) g.generator s₂.generator
            (Follows-trans name g.generator h.generator s₂.generator f₁ f₂) in
        let (s₄, e₄, f₄) = jump_to-StateEnds name (or_body my_id) k (f₃.fits in_g.well_formed) in
        let (s₅, e₅, f₅) = gen_or_last (i + 1) next g s₄ in_g ends' (
          Follows-weaken name g.generator s₄.generator (λ t. ground arith) (λ m. absurd (cc))
            (Follows-trans name g.generator k.generator s₄.generator f₃ f₄)) in
        (s₅, rw (e₂, e₄) e₅, f₅)
    gen_or_middle i term next (last ∷ terms) g s in_g ends ends' (ends'', all) f =
        let h = put_label (or_check my_id i) s in
        let f₁ = label-Follows name (or_check my_id i) g.generator s.generator f in
        let (s₂, e₂, f₂) =
          ends (or_check my_id (i + 1)) h
            (Follows-IsInside name proc g.generator h.generator in_g f₁) in
        let k = put_label (or_cascade my_id (i - 1)) s₂ in
        let f₃ =
          label-Follows name (or_cascade my_id (i - 1)) g.generator s₂.generator
            (Follows-trans name g.generator h.generator s₂.generator f₁ f₂) in
        let (s₄, e₄, f₄) =
          jump_to-StateEnds name (or_cascade my_id i) k (f₃.fits in_g.well_formed) in
        let here : waits_for (or_cascade my_id (i + 1 - 1)) ≡ waits_for (or_cascade my_id i) =
          ap (λ (j : ℕ). waits_for (or_cascade my_id j)) (omega arith) in
        let (s₅, e₅, f₅) = gen_or_middle (i + 1) next last terms g s₄ in_g ends' ends'' all (
          Follows-weaken name g.generator s₄.generator
            (settled_middle (waits_for (or_check my_id i)) (waits_for (or_cascade my_id (i - 1)))
              (waits_for false_label) (waits_for (or_check my_id (i + 1)))
              (waits_for (or_cascade my_id i)) (waits_for (or_cascade my_id (i + 1 - 1))) here)
            (λ m. absurd (cc)) (Follows-trans name g.generator k.generator s₄.generator f₃ f₄)) in
        (s₅, rw (e₂, e₄) e₅, f₅)

    gen_or_terms-StateEnds :
        (terms : List Condition) (s : CodeState)
        → IsInside proc s.generator
        → All (TermEnds gen) terms
        → StateEnds name
            (waits_for false_label)
            false
            s
            (gen_or_terms gen my_id false_label terms s)
    unfolding gen_or_terms
    gen_or_terms-StateEnds [] s in_s all = (
      s,
      refl,
      Follows-weaken name s.generator s.generator (λ t. absurd (cc)) (λ m. m)
          (Follows-refl name s.generator),
    )
    gen_or_terms-StateEnds (term ∷ []) s in_s (ends, all) = ends false_label s in_s
    gen_or_terms-StateEnds (t ∷ u ∷ []) s in_s (ends, (ends', all)) =
        let (s₁, e₁, f₁) = ends (or_check my_id 1) s in_s in
        let (s₂, e₂, f₂) = jump_to-StateEnds name (or_body my_id) s₁ (f₁.fits in_s.well_formed) in
        let h = put_label (or_check my_id 1) s₂ in
        let f₃ =
          label-Follows name (or_check my_id 1) s.generator s₂.generator
            (Follows-trans name s.generator s₁.generator s₂.generator f₁ f₂) in
        let (s₄, e₄, f₄) =
          ends' false_label h (Follows-IsInside name proc s.generator h.generator in_s f₃) in
        (
          put_label (or_body my_id) s₄,
          rw (e₁, e₂, e₄) refl,
          Follows-weaken name s.generator _ (λ t. ground arith) (λ m. absurd (cc))
              (label-Follows name (or_body my_id) s.generator s₄.generator
                (Follows-trans name s.generator h.generator s₄.generator f₃ f₄)),
        )
    gen_or_terms-StateEnds (t ∷ u ∷ v ∷ terms) s in_s (ends, (ends', (ends'', all))) =
        let (s₁, e₁, f₁) = ends (or_check my_id 1) s in_s in
        let (s₂, e₂, f₂) =
          jump_to-StateEnds name (or_cascade my_id 0) s₁ (f₁.fits in_s.well_formed) in
        let (s₃, e₃, f₃) = gen_or_middle 1 u v terms s s₂ in_s ends' ends'' all (
          Follows-weaken name s.generator s₂.generator (λ t. ground arith) (λ m. absurd (cc))
            (Follows-trans name s.generator s₁.generator s₂.generator f₁ f₂)) in
        (s₃, rw (e₁, e₂) e₃, f₃)

  All-TermEnds :
      (gen : GenTerm) (fuel : ℕ)
      → ((term : Condition) → condition_size term ≤ fuel → TermEnds gen term)
      → (terms : List Condition) → All (λ (t : Condition). condition_size t ≤ fuel) terms
      → All (TermEnds gen) terms
  All-TermEnds gen fuel ends [] h = tt
  All-TermEnds gen fuel ends (t ∷ terms) (h, hs) = (ends t h, All-TermEnds gen fuel ends terms hs)

  -- The size of the condition is fuel enough.
  gen_condition-StateEnds :
      (st : Symtab) (fuel : ℕ) (cond : Condition)
      → condition_size cond ≤ fuel
      → TermEnds (gen_condition st fuel) cond
  unfolding gen_condition condition_size collect_or_terms
  gen_condition-StateEnds st zero (compare op l r) le label s in_s = absurd (omega arith)
  gen_condition-StateEnds st zero (logic_and a b) le label s in_s = absurd (omega arith)
  gen_condition-StateEnds st zero (logic_or a b) le label s in_s = absurd (omega arith)
  gen_condition-StateEnds st zero no_condition le label s in_s = absurd (omega arith)
  gen_condition-StateEnds st (suc fuel) (compare op l r) le label s in_s =
      on_generator-StateEnds name (emit_cond_jump st (get_inverse_cmp_opcode op) l r label) s (
        emit_cond_jump-Ends name st (get_inverse_cmp_opcode op) l r label s.generator
          in_s.well_formed)
  gen_condition-StateEnds st (suc fuel) (logic_and a b) le label s in_s =
      let (s₁, e₁, f₁) = gen_condition-StateEnds st fuel a (omega arith) label s in_s in
      let (s₂, e₂, f₂) =
        gen_condition-StateEnds st fuel b (omega arith) label s₁
          (Follows-IsInside name proc s.generator s₁.generator in_s f₁) in
      (
        s₂,
        rw e₁ e₂,
        Follows-weaken name s.generator s₂.generator (λ t. ground arith) (λ m. absurd (cc))
            (Follows-trans name s.generator s₁.generator s₂.generator f₁ f₂),
      )
  gen_condition-StateEnds st (suc fuel) (logic_or a b) le label s in_s =
      gen_or_terms-StateEnds (gen_condition st fuel) s.or_counter label
        (collect_or_terms (logic_or a b) max_or_terms) (record s { or_counter = s.or_counter + 1 })
        in_s
        (All-TermEnds (gen_condition st fuel) fuel (gen_condition-StateEnds st fuel) _ (
          All-append _ (collect_or_terms a max_or_terms) _
            (collect_or_terms-size a max_or_terms fuel (omega arith))
            (collect_or_terms-size b (max_or_terms - length (collect_or_terms a max_or_terms)) fuel
              (omega arith))))
  gen_condition-StateEnds st (suc fuel) no_condition le label s in_s = (
    s,
    refl,
    Follows-weaken name s.generator s.generator (λ t. absurd (cc)) (λ m. m)
        (Follows-refl name s.generator),
  )

  -- The code of a condition ends, and of labels that are not defined it waits for the one given.
  pub gen_condition_false_jump-StateEnds :
      (st : Symtab) (cond : Condition) (false_label : Name) (s : CodeState)
      → IsInside proc s.generator
      → StateEnds name
          (same_name false_label name)
          false
          s
          (gen_condition_false_jump st cond false_label s)
  unfolding gen_condition_false_jump
  gen_condition_false_jump-StateEnds st cond =
      gen_condition-StateEnds st (condition_size cond) cond (omega arith)
