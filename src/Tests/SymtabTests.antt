-- ===== src/Tests/SymtabTests.antt =====
-- Tests of compiler/sema/symtab.c and of the declarations pass.
use tbol_toolchain.Base.{◌+◌, ◌%◌, ◌≤◌, ◌≡◌, refl, false, some, [], ◌∷◌, if◌then◌else◌}
use tbol_toolchain.Symtab.Names.{
  Name, same_name, hash_name, hash_name-same_name, to_lower, upper_case, hash_loop,
}
use tbol_toolchain.Symtab.{
  VarSymbol, StructureGroup, init, new_var, define_var, lookup_var, new_proc, define_proc,
  lookup_proc, find_var, var_exists, extent, var_slot, lookup_structure, define_structure,
}
use tbol_toolchain.Symtab.Lookup.{lookup_var-define_var, lookup_proc-define_proc}
use tbol_toolchain.Symtab.Collect.{
  DataSection, collect_data, collect_data_section, collect_vars, collect_var, register_group,
  register_at,
}
use tbol_toolchain.Symtab.Layout.{Disjoint, next_slot, collect_data-Disjoint}
use tbol_toolchain.Symtab.Groups.{group_spans_section}

-- COUNT and count
abbrev upper : Name
upper = 67 ∷ 79 ∷ 85 ∷ 78 ∷ 84 ∷ []

abbrev lower : Name
lower = 99 ∷ 111 ∷ 117 ∷ 110 ∷ 116 ∷ []

-- a and b
abbrev a_name : Name
a_name = 97 ∷ []

abbrev b_name : Name
b_name = 98 ∷ []

abbrev g_name : Name
g_name = 103 ∷ []

hash_name-same_name_example : hash_name upper 256 ≡ hash_name lower 256
unfolding same_name to_lower
hash_name-same_name_example = hash_name-same_name upper lower 256 refl

lookup_var-define_var_example :
    lookup_var lower (define_var upper 3 init)
    ≡ (if same_name upper lower then some (new_var upper 3 init) else lookup_var lower init)
lookup_var-define_var_example = lookup_var-define_var upper lower 3 init

lookup_proc-define_proc_example :
    lookup_proc b_name (define_proc a_name init)
    ≡ (if same_name a_name b_name then some (new_proc a_name init) else lookup_proc b_name init)
lookup_proc-define_proc_example = lookup_proc-define_proc a_name b_name init

-- a takes slots 0 and 1, b slot 2.
abbrev two_vars : DataSection
two_vars = record {
  name = some g_name;
  vars = record { name = a_name; array_size = 2 } ∷ record { name = b_name; array_size = 0 } ∷ [];
}

abbrev a_symbol : VarSymbol
a_symbol = record { name = a_name; array_size = 2; offset = 0 }

abbrev b_symbol : VarSymbol
b_symbol = record { name = b_name; array_size = 0; offset = 512 }

lookup_a : lookup_var a_name (collect_data (two_vars ∷ []) init) ≡ some a_symbol
unfolding collect_data collect_data_section collect_vars collect_var var_exists lookup_var find_var
    define_var init hash_name same_name register_group register_at define_structure hash_loop
    upper_case to_lower new_var extent
lookup_a = refl

lookup_b : lookup_var b_name (collect_data (two_vars ∷ []) init) ≡ some b_symbol
unfolding collect_data collect_data_section collect_vars collect_var var_exists lookup_var find_var
    define_var init hash_name same_name register_group register_at define_structure hash_loop
    upper_case to_lower new_var extent
lookup_b = refl

a_not_b : same_name a_name b_name ≡ false
unfolding same_name to_lower
a_not_b = refl

collect_data-Disjoint_example :
    Disjoint a_symbol b_symbol
    × (var_slot a_symbol + extent 2 ≤ next_slot (collect_data (two_vars ∷ []) init))
collect_data-Disjoint_example =
    collect_data-Disjoint (two_vars ∷ []) a_name b_name a_symbol b_symbol lookup_a lookup_b a_not_b

a_new : var_exists a_name init ≡ false
unfolding init var_exists lookup_var find_var
a_new = refl

b_new : var_exists b_name (define_var a_name 2 init) ≡ false
unfolding init var_exists lookup_var find_var define_var hash_name hash_loop upper_case same_name
    to_lower
b_new = refl

init-whole : init.data_offset % 256 ≡ 0
unfolding init
init-whole = refl

group_spans_section_example :
    (sg : StructureGroup) × (lookup_structure g_name (collect_data_section two_vars init) ≡ some sg)
    × (sg.start_slot ≡ next_slot init)
    × (sg.start_slot + sg.count ≡ next_slot (collect_data_section two_vars init))
group_spans_section_example =
    group_spans_section g_name (record { name = a_name; array_size = 2 })
      (record { name = b_name; array_size = 0 } ∷ []) init init-whole (a_new, (b_new, tt))
