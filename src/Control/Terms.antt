-- ===== src/Control/Terms.antt =====
-- What compiler/codegen/codegen_control.c makes of comparisons and of chains of ORs, against
-- definitions that do not depend on it.
use tbol_toolchain.Base.{
  ℕ, zero, suc, ◌-◌, ◌≡◌, refl, sym, ap, ◌∙◌, Bool, not, List, [], ◌∷◌, ◌++◌, length, take, arith,
  ltb, leb, ◌==◌,
}
use tbol_toolchain.Ast.{CmpOp}
use tbol_toolchain.Control.{
  Condition, compare, logic_and, logic_or, no_condition, get_inverse_cmp_opcode,
  get_direct_cmp_opcode, collect_or_terms,
}

-- The comparison of two numbers.
abbrev pub holds : CmpOp → ℕ → ℕ → Bool
holds CmpOp.eq a b = a == b
holds CmpOp.ne a b = not (a == b)
holds CmpOp.lt a b = ltb a b
holds CmpOp.gt a b = ltb b a
holds CmpOp.le a b = leb a b
holds CmpOp.ge a b = leb b a

-- The opcode that jumps over a branch is the one that a comparison would have, taken directly, that
-- holds of two numbers exactly when the comparison of the source does not.
pub get_inverse_cmp_opcode-complement :
    (op : CmpOp)
    → (op' : CmpOp) × (get_inverse_cmp_opcode op ≡ get_direct_cmp_opcode op')
      × ((a b : ℕ) → holds op' a b ≡ not (holds op a b))
unfolding get_inverse_cmp_opcode get_direct_cmp_opcode
get_inverse_cmp_opcode-complement CmpOp.eq = (CmpOp.ne, refl, λ a b. refl)
get_inverse_cmp_opcode-complement CmpOp.ne = (CmpOp.eq, refl, λ a b. ground arith)
get_inverse_cmp_opcode-complement CmpOp.lt = (CmpOp.ge, refl, λ a b. ground arith)
get_inverse_cmp_opcode-complement CmpOp.gt = (CmpOp.le, refl, λ a b. ground arith)
get_inverse_cmp_opcode-complement CmpOp.le = (CmpOp.gt, refl, λ a b. ground arith)
get_inverse_cmp_opcode-complement CmpOp.ge = (CmpOp.lt, refl, λ a b. ground arith)

-- The terms of a chain of ORs, all of them, from left to right.
abbrev pub or_terms : Condition → List Condition
or_terms (logic_or a b) = or_terms a ++ or_terms b
or_terms (compare op l r) = compare op l r ∷ []
or_terms (logic_and a b) = logic_and a b ∷ []
or_terms no_condition = no_condition ∷ []

take-append :
    (n : ℕ) (xs ys : List Condition)
    → take n (xs ++ ys) ≡ take n xs ++ take (n - length (take n xs)) ys
take-append zero xs ys = refl
take-append (suc n) [] ys =
    let all : suc n ≡ suc n - 0 = omega arith in ap (λ (k : ℕ). take k ys) all
take-append (suc n) (x ∷ xs) ys =
    ap (λ (t : List Condition). x ∷ t)
      (take-append n xs ys ∙ ap (λ (k : ℕ). take n xs ++ take k ys) (omega arith))

-- The terms that are collected are the first `max_terms` of the chain, however it is nested: all of
-- a chain that has no more, and the others are dropped.
pub collect_or_terms-take :
    (node : Condition) (max_terms : ℕ)
    → collect_or_terms node max_terms ≡ take max_terms (or_terms node)
unfolding collect_or_terms
collect_or_terms-take (logic_or a b) zero = refl
collect_or_terms-take (compare op l r) zero = refl
collect_or_terms-take (logic_and a b) zero = refl
collect_or_terms-take no_condition zero = refl
collect_or_terms-take (logic_or a b) (suc n) =
    rw
      (
        collect_or_terms-take a (suc n),
        collect_or_terms-take b (suc n - length (take (suc n) (or_terms a))),
      )
      (sym (take-append (suc n) (or_terms a) (or_terms b)))
collect_or_terms-take (compare op l r) (suc zero) = refl
collect_or_terms-take (compare op l r) (suc (suc n)) = refl
collect_or_terms-take (logic_and a b) (suc zero) = refl
collect_or_terms-take (logic_and a b) (suc (suc n)) = refl
collect_or_terms-take no_condition (suc zero) = refl
collect_or_terms-take no_condition (suc (suc n)) = refl
