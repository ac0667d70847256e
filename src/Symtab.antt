-- ===== src/Symtab.antt =====
-- compiler/sema/symtab.c and symtab.h: the compiler's symbol table, with the declarations pass of
-- compiler/sema/sema.c that fills it. A hash chain is a list, newest first; the table of chains is a
-- function from bucket numbers, updated in one place. A name is its bytes without the final NUL.
-- `defined_at` (only read in messages) and the AST pointer of a procedure are left out.
pub mod Names
pub mod Lookup
pub mod Layout
pub mod Collect
pub mod Groups
use tbol_toolchain.Base.{
  ℕ, ◌+◌, ◌*◌, ◌/◌, ◌≡◌, Bool, true, false, Option, none, some, List, [], ◌∷◌,
}
use tbol_toolchain.Base.{ltb, ◌==◌, if◌then◌else◌}
use Names.{Name, same_name, hash_name}

pub record VarSymbol : Type 0 where
  pub name : Name
  pub array_size : ℕ
  pub offset : ℕ

pub record ProcSymbol : Type 0 where
  pub name : Name
  pub order : ℕ

pub record StructureGroup : Type 0 where
  pub name : Name
  pub start_slot : ℕ
  pub count : ℕ

pub record Symtab : Type 0 where
  pub var_table : ℕ → List VarSymbol
  pub proc_table : ℕ → List ProcSymbol
  pub structure_list : List StructureGroup
  pub data_offset : ℕ
  pub proc_order_counter : ℕ

abbrev pub var_hash_size : ℕ
var_hash_size = 256

abbrev pub proc_hash_size : ℕ
proc_hash_size = 64

abbrev pub default_string_size : ℕ
default_string_size = 256

unfoldable pub init : Symtab
init = record {
  var_table = λ h. [];
  proc_table = λ h. [];
  structure_list = [];
  data_offset = 0;
  proc_order_counter = 0;
}

-- `count` of `symtab_define_var`: the elements that the variable takes.
unfoldable pub extent : ℕ → ℕ
extent array_size = if ltb 0 array_size then array_size else 1

-- `sym->next = table[h]; table[h] = sym`
abbrev pub push_chain {ℓ} : {A : Type ℓ} → ℕ → A → (ℕ → List A) → ℕ → List A
push_chain h sym table i = if i == h then sym ∷ table i else table i

unfoldable pub new_var : Name → ℕ → Symtab → VarSymbol
new_var name array_size t = record { name = name; array_size = array_size; offset = t.data_offset }

unfoldable pub define_var : Name → ℕ → Symtab → Symtab
unfolding new_var extent
define_var name array_size t = record t {
  var_table = push_chain (hash_name name var_hash_size) (new_var name array_size t) t.var_table;
  data_offset = t.data_offset + extent array_size * default_string_size;
}

unfoldable pub new_proc : Name → Symtab → ProcSymbol
new_proc name t = record { name = name; order = t.proc_order_counter }

unfoldable pub define_proc : Name → Symtab → Symtab
unfolding new_proc
define_proc name t = record t {
  proc_table = push_chain (hash_name name proc_hash_size) (new_proc name t) t.proc_table;
  proc_order_counter = t.proc_order_counter + 1;
}

unfoldable pub find_var : Name → List VarSymbol → Option VarSymbol
find_var name [] = none
find_var name (sym ∷ chain) = if same_name sym.name name then some sym else find_var name chain

unfoldable pub lookup_var : Name → Symtab → Option VarSymbol
lookup_var name t = find_var name (t.var_table (hash_name name var_hash_size))

unfoldable pub find_proc : Name → List ProcSymbol → Option ProcSymbol
find_proc name [] = none
find_proc name (sym ∷ chain) = if same_name sym.name name then some sym else find_proc name chain

unfoldable pub lookup_proc : Name → Symtab → Option ProcSymbol
lookup_proc name t = find_proc name (t.proc_table (hash_name name proc_hash_size))

abbrev pub is_some {ℓ} : {A : Type ℓ} → Option A → Bool
is_some none = false
is_some (some a) = true

unfoldable pub var_exists : Name → Symtab → Bool
var_exists name t = is_some (lookup_var name t)

unfoldable pub proc_exists : Name → Symtab → Bool
proc_exists name t = is_some (lookup_proc name t)

unfoldable pub define_structure : Name → ℕ → ℕ → Symtab → Symtab
define_structure name start_slot count t = record t {
  structure_list =
      record { name = name; start_slot = start_slot; count = count } ∷ t.structure_list;
}

unfoldable pub find_structure : Name → List StructureGroup → Option StructureGroup
find_structure name [] = none
find_structure name (sg ∷ rest) =
    if same_name sg.name name then some sg else find_structure name rest

unfoldable pub lookup_structure : Name → Symtab → Option StructureGroup
lookup_structure name t = find_structure name t.structure_list

-- VAR_SLOT
unfoldable pub var_slot : VarSymbol → ℕ
var_slot sym = sym.offset / 256
