-- ===== src/Symtab/Groups.antt =====
-- The structure group that a named data section registers.
use tbol_toolchain.Base.{
  ℕ, ◌+◌, ◌/◌, ◌%◌, ◌≡◌, true, false, some, List, [], ◌∷◌, arith, sym, inl, inr, Bool-cases, refl,
}
use tbol_toolchain.Symtab.Names.{Name, same_name, same_name_iff}
use tbol_toolchain.Symtab.{
  Symtab, VarSymbol, new_var, define_var, lookup_var, var_exists, var_slot, define_structure,
  lookup_structure, find_structure, StructureGroup,
}
use tbol_toolchain.Symtab.Lookup.{lookup_var-define_var, lookup_var-same_name}
use tbol_toolchain.Symtab.Collect.{
  VarDecl, collect_var, collect_vars, register_at, register_group, collect_data_section,
  total_slots,
}
use tbol_toolchain.Symtab.Layout.{next_slot, next_slot-define_var}

-- Every declaration of the section is new when it is reached.
abbrev pub AllNew : List VarDecl → Symtab → Type 0
AllNew [] t = Unit
AllNew (d ∷ ds) t = (var_exists d.name t ≡ false) × AllNew ds (define_var d.name d.array_size t)

-- A declaration does not change what an earlier one means.
collect_var-keeps :
    (d : VarDecl) (n : Name) (t : Symtab) (s : VarSymbol)
    → lookup_var n t ≡ some s
    → lookup_var n (collect_var d t) ≡ some s
unfolding collect_var var_exists
collect_var-keeps d n t s e = elim (Bool-cases (same_name d.name n)) [
  | inl same ↦ ground (arith, lookup_var-same_name d.name n t same)
  | inr other ↦ ground (arith, lookup_var-define_var d.name n d.array_size t)
]

pub collect_vars-keeps :
    (ds : List VarDecl) (n : Name) (t : Symtab) (s : VarSymbol)
    → lookup_var n t ≡ some s
    → lookup_var n (collect_vars ds t) ≡ some s
unfolding collect_vars
collect_vars-keeps [] n t s e = e
collect_vars-keeps (d ∷ ds) n t s e =
    collect_vars-keeps ds n (collect_var d t) s (collect_var-keeps d n t s e)

collect_var-new :
    (d : VarDecl) (t : Symtab)
    → var_exists d.name t ≡ false
    → collect_var d t ≡ define_var d.name d.array_size t
unfolding collect_var
collect_var-new d t e = rw e

define_var-whole :
    (n : Name) (k : ℕ) (t : Symtab)
    → t.data_offset % 256 ≡ 0
    → (define_var n k t).data_offset % 256 ≡ 0
unfolding define_var
define_var-whole n k t h = omega arith

collect_vars-next_slot :
    (ds : List VarDecl) (t : Symtab)
    → t.data_offset % 256 ≡ 0
    → AllNew ds t
    → next_slot (collect_vars ds t) ≡ next_slot t + total_slots ds
unfolding collect_vars total_slots
collect_vars-next_slot [] t h new = omega arith
collect_vars-next_slot (d ∷ ds) t h (new, rest) =
    rw (collect_var-new d t new, collect_vars)
      (omega (
        arith,
        next_slot-define_var d.name d.array_size t h,
        collect_vars-next_slot ds _ (define_var-whole d.name d.array_size t h) rest,
      ))

same_name_refl : (n : Name) → same_name n n ≡ true
same_name_refl n = (same_name_iff n n).1 refl

-- The first variable of the section keeps the slot that was next before the section.
first_slot :
    (d : VarDecl) (ds : List VarDecl) (t : Symtab)
    → var_exists d.name t ≡ false
    → lookup_var d.name (collect_vars (d ∷ ds) t) ≡ some (new_var d.name d.array_size t)
unfolding collect_vars
first_slot d ds t new =
    collect_vars-keeps ds d.name (collect_var d t) _
      (rw (collect_var-new d t new, lookup_var-define_var, same_name_refl))

-- In a table whose data offset is a whole number of slots, the group of a named section that is not
-- empty and all of whose variables are new spans exactly the slots that the section takes: it starts
-- at the slot that was next, and ends at the slot that is next afterwards.
pub group_spans_section :
    (group : Name) (d : VarDecl) (ds : List VarDecl) (t : Symtab)
    → t.data_offset % 256 ≡ 0
    → AllNew (d ∷ ds) t
    → let t' = collect_data_section (record { name = some group; vars = d ∷ ds }) t in
      (sg : StructureGroup) × (lookup_structure group t' ≡ some sg)
      × (sg.start_slot ≡ next_slot t)
      × (sg.start_slot + sg.count ≡ next_slot t')
unfolding collect_data_section register_group define_structure lookup_structure find_structure
    new_var var_slot
group_spans_section group d ds t h (new, rest) =
    rw (first_slot d ds t new, register_at)
      (
        record { name = group; start_slot = t.data_offset / 256; count = total_slots (d ∷ ds) },
        rw same_name_refl,
        refl,
        sym (collect_vars-next_slot (d ∷ ds) t h (new, rest)),
      )
