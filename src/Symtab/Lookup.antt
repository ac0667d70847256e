-- ===== src/Symtab/Lookup.antt =====
-- What `symtab_lookup_var`, `symtab_lookup_proc` and `symtab_lookup_structure` return after a
-- definition, at every name.
use tbol_toolchain.Base.{ℕ, ◌≡◌, refl, sym, ◌∙◌, true, some, List, [], ◌∷◌}
use tbol_toolchain.Base.{arith, if◌then◌else◌, inl, inr, Bool-cases}
use tbol_toolchain.Symtab.Names.{Name, same_name, same_name_iff, hash_name, hash_name-same_name}
use tbol_toolchain.Symtab.{
  Symtab, VarSymbol, new_var, define_var, find_var, lookup_var, new_proc, define_proc, find_proc,
  lookup_proc, var_hash_size, proc_hash_size,
}

-- After a definition, a variable is found under exactly the names that are its own up to the case of
-- letters: there it hides an older one, and the lookup of every other name is as before.
pub lookup_var-define_var :
    (name other : Name) (array_size : ℕ) (t : Symtab)
    → lookup_var other (define_var name array_size t)
      ≡ (if same_name name other then some (new_var name array_size t) else lookup_var other t)
unfolding lookup_var define_var find_var
lookup_var-define_var name other array_size t = elim (Bool-cases (same_name name other)) [
  | inl e ↦ ground (arith, hash_name-same_name name other var_hash_size e)
  | inr e ↦ ground arith
]

-- After a definition, a procedure is found under exactly the names that are its own up to the case of
-- letters: there it hides an older one, and the lookup of every other name is as before.
pub lookup_proc-define_proc :
    (name other : Name) (t : Symtab)
    → lookup_proc other (define_proc name t)
      ≡ (if same_name name other then some (new_proc name t) else lookup_proc other t)
unfolding lookup_proc define_proc find_proc
lookup_proc-define_proc name other t = elim (Bool-cases (same_name name other)) [
  | inl e ↦ ground (arith, hash_name-same_name name other proc_hash_size e)
  | inr e ↦ ground arith
]

find_var-name :
    (name : Name) (chain : List VarSymbol) (s : VarSymbol)
    → find_var name chain ≡ some s
    → same_name s.name name ≡ true
unfolding find_var
find_var-name name [] s e = cc
find_var-name name (x ∷ chain) s e = ground (arith, find_var-name name chain s)

pub lookup_var-name :
    (name : Name) (t : Symtab) (s : VarSymbol)
    → lookup_var name t ≡ some s
    → same_name s.name name ≡ true
unfolding lookup_var
lookup_var-name name t s e = find_var-name name (t.var_table (hash_name name var_hash_size)) s e

-- Which of two names that are the same is looked up makes no difference.
same_name-same_name : (a b c : Name) → same_name b c ≡ true → same_name a b ≡ same_name a c
same_name-same_name a b c e =
    let f = (same_name_iff b c).0 e in
    elim (Bool-cases (same_name a b)) [
      | inl x ↦ x ∙ sym ((same_name_iff a c).1 ((same_name_iff a b).0 x ∙ f))
      | inr x ↦ elim (Bool-cases (same_name a c)) [
        | inl y ↦ cc ((same_name_iff a b).1 ((same_name_iff a c).0 y ∙ sym f))
        | inr y ↦ x ∙ sym y
      ]
    ]

find_var-same_name :
    (b c : Name) (chain : List VarSymbol)
    → same_name b c ≡ true
    → find_var b chain ≡ find_var c chain
unfolding find_var
find_var-same_name b c [] e = refl
find_var-same_name b c (s ∷ chain) e =
    rw (same_name-same_name s.name b c e, find_var-same_name b c chain e)

pub lookup_var-same_name :
    (b c : Name) (t : Symtab) → same_name b c ≡ true → lookup_var b t ≡ lookup_var c t
unfolding lookup_var
lookup_var-same_name b c t e =
    rw (hash_name-same_name b c var_hash_size e) (find_var-same_name b c _ e)
