-- ===== src/Symtab/Layout.antt =====
-- How the declarations pass lays variables out in RDA slots.
use tbol_toolchain.Base.{
  ℕ, ◌+◌, ◌/◌, ◌%◌, ◌≤◌, ◌≡◌, Bool, true, false, Option, none, some, List, [], ◌∷◌, arith, ap, ◌∙◌,
  sym, if◌then◌else◌, ◌⊎◌, inl, inr, refl,
}
use tbol_toolchain.Symtab.Names.{Name, same_name, same_name_iff}
use tbol_toolchain.Symtab.{
  Symtab, VarSymbol, new_var, define_var, lookup_var, var_exists, var_slot, extent, init, find_var,
  define_structure,
}
use tbol_toolchain.Symtab.Lookup.{lookup_var-define_var}
use tbol_toolchain.Symtab.Collect.{
  VarDecl, DataSection, collect_var, collect_vars, register_at, register_group,
  collect_data_section, collect_data,
}

-- The slots of a variable end before those of another begin.
abbrev pub Disjoint : VarSymbol → VarSymbol → Type 0
Disjoint s s' =
    (var_slot s + extent s.array_size ≤ var_slot s')
    ⊎ (var_slot s' + extent s'.array_size ≤ var_slot s)

-- Slots handed out so far.
abbrev pub next_slot : Symtab → ℕ
next_slot t = t.data_offset / 256

pub record IsLaidOut (t : Symtab) : Type 0 where
  pub whole : t.data_offset % 256 ≡ 0
  pub within :
      (n : Name) (s : VarSymbol)
      → lookup_var n t ≡ some s
      → var_slot s + extent s.array_size ≤ next_slot t
  pub apart :
      (n m : Name) (s s' : VarSymbol)
      → lookup_var n t ≡ some s
      → lookup_var m t ≡ some s'
      → same_name n m ≡ false
      → Disjoint s s'

pub init-IsLaidOut : IsLaidOut init
unfolding init lookup_var find_var
init-IsLaidOut = record { whole = refl; within = λ n s e. cc; apart = λ n m s s' e e' d. cc }

-- Two names that are the same as a third are the same.
same_name_meet : (a b c : Name) → same_name a b ≡ true → same_name a c ≡ true → same_name b c ≡ true
same_name_meet a b c e e' =
    (same_name_iff b c).1 (sym ((same_name_iff a b).0 e) ∙ (same_name_iff a c).0 e')

pub next_slot-define_var :
    (name : Name) (k : ℕ) (t : Symtab)
    → t.data_offset % 256 ≡ 0
    → next_slot (define_var name k t) ≡ next_slot t + extent k
unfolding define_var
next_slot-define_var name k t h = omega arith

module _ (name : Name) (k : ℕ) (t : Symtab) (inv : IsLaidOut t) where
  -- A variable after the definition is the new one or an old one.
  origin :
      (n : Name) (s : VarSymbol)
      → lookup_var n (define_var name k t) ≡ some s
      → ((same_name name n ≡ true) × (new_var name k t ≡ s))
        ⊎ ((same_name name n ≡ false) × (lookup_var n t ≡ some s))
  origin n s e = ground (arith, lookup_var-define_var name n k t)

  new_slots :
      (s : VarSymbol)
      → new_var name k t ≡ s
      → (var_slot s ≡ next_slot t) × (extent s.array_size ≡ extent k)
  unfolding new_var var_slot
  new_slots s e = (ap var_slot (sym e), ap (λ (v : VarSymbol). extent v.array_size) (sym e))

  define_var-within :
      (n : Name) (s : VarSymbol)
      → lookup_var n (define_var name k t) ≡ some s
      → var_slot s + extent s.array_size ≤ next_slot (define_var name k t)
  define_var-within n s e = elim (origin n s e) [
    | inl (same, new) ↦ omega (arith, new_slots s new, next_slot-define_var name k t inv.whole)
    | inr (other, old) ↦ omega (arith, inv.within n s old, next_slot-define_var name k t inv.whole)
  ]

  define_var-apart :
      (n m : Name) (s s' : VarSymbol)
      → lookup_var n (define_var name k t) ≡ some s
      → lookup_var m (define_var name k t) ≡ some s'
      → same_name n m ≡ false
      → Disjoint s s'
  define_var-apart n m s s' e e' d = elim (origin n s e) [
    | inl (same, new) ↦ elim (origin m s' e') [
      | inl (same', new') ↦ cc (same_name_meet name n m same same')
      | inr (other', old') ↦ inr (omega (arith, new_slots s new, inv.within m s' old'))
    ]
    | inr (other, old) ↦ elim (origin m s' e') [
      | inl (same', new') ↦ inl (omega (arith, new_slots s' new', inv.within n s old))
      | inr (other', old') ↦ inv.apart n m s s' old old' d
    ]
  ]

  define_var-IsLaidOut : IsLaidOut (define_var name k t)
  define_var-IsLaidOut = record {
    whole = unfold define_var in omega (arith, inv.whole);
    within = define_var-within;
    apart = define_var-apart;
  }

if-IsLaidOut :
    (b : Bool) (t u : Symtab) → IsLaidOut t → IsLaidOut u → IsLaidOut (if b then t else u)
if-IsLaidOut true t u ht hu = ht
if-IsLaidOut false t u ht hu = hu

collect_vars-IsLaidOut :
    (ds : List VarDecl) (t : Symtab) → IsLaidOut t → IsLaidOut (collect_vars ds t)
unfolding collect_vars collect_var
collect_vars-IsLaidOut [] t inv = inv
collect_vars-IsLaidOut (d ∷ ds) t inv =
    collect_vars-IsLaidOut ds _
      (if-IsLaidOut (var_exists d.name t) t _ inv (define_var-IsLaidOut d.name d.array_size t inv))

-- A structure group does not touch the variables.
define_structure-IsLaidOut :
    (group : Name) (start count : ℕ) (t : Symtab)
    → IsLaidOut t
    → IsLaidOut (define_structure group start count t)
unfolding define_structure lookup_var
define_structure-IsLaidOut group start count t inv = record {
  whole = inv.whole;
  within = inv.within;
  apart = inv.apart;
}

register_at-IsLaidOut :
    (group : Name) (ds : List VarDecl) (o : Option VarSymbol) (t : Symtab)
    → IsLaidOut t
    → IsLaidOut (register_at group ds o t)
unfolding register_at
register_at-IsLaidOut group ds none t inv = inv
register_at-IsLaidOut group ds (some v) t inv = define_structure-IsLaidOut group _ _ t inv

register_group-IsLaidOut :
    (name : Option Name) (ds : List VarDecl) (t : Symtab)
    → IsLaidOut t
    → IsLaidOut (register_group name ds t)
unfolding register_group
register_group-IsLaidOut none ds t inv = inv
register_group-IsLaidOut (some group) [] t inv = inv
register_group-IsLaidOut (some group) (d ∷ ds) t inv =
    register_at-IsLaidOut group (d ∷ ds) (lookup_var d.name t) t inv

pub collect_data-IsLaidOut :
    (ss : List DataSection) (t : Symtab) → IsLaidOut t → IsLaidOut (collect_data ss t)
unfolding collect_data collect_data_section
collect_data-IsLaidOut [] t inv = inv
collect_data-IsLaidOut (s ∷ ss) t inv =
    collect_data-IsLaidOut ss _
      (register_group-IsLaidOut s.name s.vars _ (collect_vars-IsLaidOut s.vars t inv))

-- Whatever the data sections declare, two variables found under names that differ (case aside) share
-- no slot, and the slots of either are among those handed out so far.
pub collect_data-Disjoint :
    (ss : List DataSection) (n m : Name) (s s' : VarSymbol)
    → lookup_var n (collect_data ss init) ≡ some s
    → lookup_var m (collect_data ss init) ≡ some s'
    → same_name n m ≡ false
    → Disjoint s s' × (var_slot s + extent s.array_size ≤ next_slot (collect_data ss init))
collect_data-Disjoint ss n m s s' e e' d =
    let inv = collect_data-IsLaidOut ss init init-IsLaidOut in
    (inv.apart n m s s' e e' d, inv.within n s e)
