-- ===== src/Statements/Conditions.antt =====
-- `gen_condition_false_jump` of compiler/codegen/codegen_control.c. It calls itself on terms that it
-- has collected from a chain of ORs, which are parts of the condition: the size of the condition is
-- fuel for it.
use tbol_toolchain.Base.{
  ℕ, zero, suc, ◌+◌, ◌-◌, Option, none, some, List, [], ◌∷◌, ◌++◌, ◌>>=◌, codes, decimal,
}
use tbol_toolchain.Symtab.Names.{Name}
use tbol_toolchain.Symtab.{Symtab}
use tbol_toolchain.Control.{
  Condition, compare, logic_and, logic_or, no_condition, get_inverse_cmp_opcode, collect_or_terms,
}
use tbol_toolchain.Codegen.Labels.{emit_cond_jump}
use tbol_toolchain.Statements.State.{CodeState, on_generator, jump_to, put_label}

-- "__or_body_%d", "__or_chk_%d_%d" and "__or_casc_%d_%d"
unfoldable pub or_body : ℕ → Name
or_body my_id = codes "__or_body_" ++ decimal my_id

unfoldable pub or_check : ℕ → ℕ → Name
or_check my_id i = codes "__or_chk_" ++ (decimal my_id ++ (b'_' ∷ decimal i))

unfoldable pub or_cascade : ℕ → ℕ → Name
or_cascade my_id i = codes "__or_casc_" ++ (decimal my_id ++ (b'_' ∷ decimal i))

abbrev pub max_or_terms : ℕ
max_or_terms = 32

-- The code of one term, which jumps to the label where the term is false.
abbrev pub GenTerm : Type 0
GenTerm = Condition → Name → CodeState → Option CodeState

-- From the term with index i on, of three terms or more; the last is the term given if no others
-- follow.
unfoldable pub gen_or_rest :
    GenTerm → ℕ → Name → ℕ → Condition → List Condition → CodeState → Option CodeState
unfolding or_body or_check or_cascade
gen_or_rest gen my_id false_label i term [] s = do
  s₁ ← gen term false_label (put_label (or_check my_id i) s)
  some (put_label (or_body my_id) s₁)
gen_or_rest gen my_id false_label i term (last ∷ []) s = do
  s₁ ← gen term (or_check my_id (i + 1)) (put_label (or_check my_id i) s)
  s₂ ← jump_to (or_body my_id) (put_label (or_cascade my_id (i - 1)) s₁)
  gen_or_rest gen my_id false_label (i + 1) last [] s₂
gen_or_rest gen my_id false_label i term (u ∷ v ∷ terms) s = do
  s₁ ← gen term (or_check my_id (i + 1)) (put_label (or_check my_id i) s)
  s₂ ← jump_to (or_cascade my_id i) (put_label (or_cascade my_id (i - 1)) s₁)
  gen_or_rest gen my_id false_label (i + 1) u (v ∷ terms) s₂

unfoldable pub gen_or_terms : GenTerm → ℕ → Name → List Condition → CodeState → Option CodeState
unfolding gen_or_rest or_body or_check or_cascade
gen_or_terms gen my_id false_label [] s = some s
gen_or_terms gen my_id false_label (term ∷ []) s = gen term false_label s
gen_or_terms gen my_id false_label (t ∷ u ∷ []) s = do
  s₁ ← gen t (or_check my_id 1) s
  s₂ ← jump_to (or_body my_id) s₁
  s₃ ← gen u false_label (put_label (or_check my_id 1) s₂)
  some (put_label (or_body my_id) s₃)
gen_or_terms gen my_id false_label (t ∷ u ∷ v ∷ terms) s = do
  s₁ ← gen t (or_check my_id 1) s
  s₂ ← jump_to (or_cascade my_id 0) s₁
  gen_or_rest gen my_id false_label 1 u (v ∷ terms) s₂

unfoldable pub gen_condition : Symtab → ℕ → Condition → Name → CodeState → Option CodeState
unfolding gen_or_terms
gen_condition st zero cond false_label s = none
gen_condition st (suc fuel) (compare op left right) false_label s =
    on_generator (emit_cond_jump st (get_inverse_cmp_opcode op) left right false_label) s
gen_condition st (suc fuel) (logic_and a b) false_label s = do
  s₁ ← gen_condition st fuel a false_label s
  gen_condition st fuel b false_label s₁
gen_condition st (suc fuel) (logic_or a b) false_label s =
    gen_or_terms (gen_condition st fuel) s.or_counter false_label
      (collect_or_terms (logic_or a b) max_or_terms) (record s { or_counter = s.or_counter + 1 })
gen_condition st (suc fuel) no_condition false_label s = some s

unfoldable pub condition_size : Condition → ℕ
condition_size (compare op left right) = 1
condition_size (logic_and a b) = suc (condition_size a + condition_size b)
condition_size (logic_or a b) = suc (condition_size a + condition_size b)
condition_size no_condition = 1

unfoldable pub gen_condition_false_jump : Symtab → Condition → Name → CodeState → Option CodeState
unfolding gen_condition condition_size
gen_condition_false_jump st cond = gen_condition st (condition_size cond) cond
