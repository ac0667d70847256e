-- ===== src/Symtab/Collect.antt =====
-- The declarations pass of compiler/sema/sema.c, `collect_declarations`, on data sections: each
-- variable that is new gets the next slots, and a named section becomes a structure group.
use tbol_toolchain.Base.{ℕ, ◌+◌, Option, none, some, List, [], ◌∷◌}
use tbol_toolchain.Base.{if◌then◌else◌}
use tbol_toolchain.Symtab.Names.{Name}
use tbol_toolchain.Symtab.{
  Symtab, VarSymbol, define_var, var_exists, lookup_var, var_slot, extent, define_structure,
}

-- AST_VAR_DECL
pub record VarDecl : Type 0 where
  pub name : Name
  pub array_size : ℕ

-- AST_DATA_SECTION, whose children the parser makes of variable declarations only.
pub record DataSection : Type 0 where
  pub name : Option Name
  pub vars : List VarDecl

-- `case AST_VAR_DECL`: a duplicate gets a warning and no slots.
unfoldable pub collect_var : VarDecl → Symtab → Symtab
collect_var d t = if var_exists d.name t then t else define_var d.name d.array_size t

unfoldable pub collect_vars : List VarDecl → Symtab → Symtab
collect_vars [] t = t
collect_vars (d ∷ ds) t = collect_vars ds (collect_var d t)

-- `total_slots`: it counts the declarations, the duplicates too.
unfoldable pub total_slots : List VarDecl → ℕ
total_slots [] = 0
total_slots (d ∷ ds) = extent d.array_size + total_slots ds

-- `if (var_sym)`
unfoldable pub register_at : Name → List VarDecl → Option VarSymbol → Symtab → Symtab
register_at group ds none t = t
register_at group ds (some sym) t = define_structure group (var_slot sym) (total_slots ds) t

-- The group of a named section that is not empty begins at the slot of its first variable.
unfoldable pub register_group : Option Name → List VarDecl → Symtab → Symtab
unfolding register_at
register_group none ds t = t
register_group (some group) [] t = t
register_group (some group) (d ∷ ds) t = register_at group (d ∷ ds) (lookup_var d.name t) t

-- `case AST_DATA_SECTION`
unfoldable pub collect_data_section : DataSection → Symtab → Symtab
unfolding collect_vars register_group
collect_data_section s t = register_group s.name s.vars (collect_vars s.vars t)

-- The data sections of a program, in order.
unfoldable pub collect_data : List DataSection → Symtab → Symtab
collect_data [] t = t
collect_data (s ∷ ss) t = collect_data ss (collect_data_section s t)
