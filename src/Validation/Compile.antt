-- ===== src/Validation/Compile.antt =====
-- `sema_analyze` of compiler/sema/sema.c in front of `codegen_generate` of compiler/codegen/codegen.c.
use tbol_toolchain.Base.{
  ℕ, ◌≡◌, refl, sym, ap, ◌∙◌, Bool, true, ◌||◌, Option, none, some, List, [], ◌∷◌, ◌++◌, All, arith,
  Bool-cases, inl, inr,
}
use tbol_toolchain.Symtab.Names.{Name, same_name, hash_name, hash_name-same_name}
use tbol_toolchain.Statements.Waiting.{same_name_refl, same_name-right}
use tbol_toolchain.Symtab.{
  Symtab, ProcSymbol, proc_hash_size, VarSymbol, is_some, define_var, define_proc, lookup_proc,
  lookup_var, proc_exists, define_structure, init, find_proc, var_exists,
}
use tbol_toolchain.Symtab.Collect.{
  VarDecl, DataSection, collect_var, collect_vars, register_at, register_group,
  collect_data_section,
}
use tbol_toolchain.Symtab.Lookup.{lookup_proc-define_proc}
use tbol_toolchain.Statements.{ProcNode}
use tbol_toolchain.Statements.Program.{codegen_generate}
use tbol_toolchain.Statements.Describe.{AreSafe}
use tbol_toolchain.Statements.Generation.{codegen_generate-ends}
use tbol_toolchain.Validation.Supported.{are_supported}
use tbol_toolchain.Validation.Targets.{statements-AreSafe}
use tbol_toolchain.Validation.Analyze.{
  Declaration, data_section, proc, ProgramNode, ProcScope, Analysis, collect_proc,
  collect_declaration, collect_declarations, collect_program, find_scope, validate_in,
  validate_references, sema_errors, procedures,
}

collect_var-procs : (d : VarDecl) (t : Symtab) → (collect_var d t).proc_table ≡ t.proc_table
unfolding collect_var define_var
collect_var-procs d t = elim (Bool-cases (var_exists d.name t)) [
  | inl e ↦ rw e refl
  | inr e ↦ rw e refl
]

collect_vars-procs :
    (ds : List VarDecl) (t : Symtab) → (collect_vars ds t).proc_table ≡ t.proc_table
unfolding collect_vars
collect_vars-procs [] t = refl
collect_vars-procs (d ∷ ds) t = collect_vars-procs ds (collect_var d t) ∙ collect_var-procs d t

register_group-procs :
    (group : Option Name) (ds : List VarDecl) (t : Symtab)
    → (register_group group ds t).proc_table ≡ t.proc_table
unfolding register_group
register_group-procs none ds t = refl
register_group-procs (some group) [] t = refl
register_group-procs (some group) (d ∷ ds) t = registered (lookup_var d.name t)
  where
    registered : (o : Option VarSymbol) → (register_at group (d ∷ ds) o t).proc_table ≡ t.proc_table
    registered none = unfold register_at in refl
    registered (some sym) = unfold register_at define_structure in refl

data_section-procs :
    (s : DataSection) (name : Name) (t : Symtab)
    → proc_exists name (collect_data_section s t) ≡ proc_exists name t
unfolding collect_data_section proc_exists lookup_proc
data_section-procs s name t =
    rw (register_group-procs s.name s.vars (collect_vars s.vars t), collect_vars-procs s.vars t)
      refl

find_proc-same_name :
    (a b : Name) (chain : List ProcSymbol)
    → same_name a b ≡ true
    → find_proc a chain ≡ find_proc b chain
unfolding find_proc
find_proc-same_name a b [] e = refl
find_proc-same_name a b (sym' ∷ chain) e =
    rw (same_name-right sym'.name a b e, find_proc-same_name a b chain e) refl

exists-define_proc :
    (name other : Name) (t : Symtab)
    → proc_exists other (define_proc name t) ≡ (same_name name other || proc_exists other t)
unfolding proc_exists
exists-define_proc name other t = elim (Bool-cases (same_name name other)) [
  | inl e ↦ rw (lookup_proc-define_proc name other t, e) refl
  | inr e ↦ rw (lookup_proc-define_proc name other t, e) refl
]

find_scope-append :
    (name : Name) (scopes : List ProcScope) (scope : ProcScope)
    → is_some (find_scope name (scopes ++ (scope ∷ [])))
      ≡ (is_some (find_scope name scopes) || same_name scope.name name)
unfolding find_scope
find_scope-append name [] scope = elim (Bool-cases (same_name scope.name name)) [
  | inl e ↦ rw e refl
  | inr e ↦ rw e refl
]
find_scope-append name (s ∷ scopes) scope = elim (Bool-cases (same_name s.name name)) [
  | inl e ↦ rw e refl
  | inr e ↦ rw e (find_scope-append name scopes scope)
]

proc_exists-same_name :
    (a b : Name) (t : Symtab) → same_name a b ≡ true → proc_exists a t ≡ proc_exists b t
unfolding proc_exists lookup_proc
proc_exists-same_name a b t e = ap is_some (
    ap (λ (h : ℕ). find_proc a (t.proc_table h)) (hash_name-same_name a b proc_hash_size e)
    ∙ find_proc-same_name a b (t.proc_table (hash_name b proc_hash_size)) e)

-- The procedures of the symbol table have their scopes.
abbrev HasScopes : Analysis → Type 0
HasScopes a = (name : Name) → proc_exists name a.symtab ≡ is_some (find_scope name a.scopes)

collect_proc-HasScopes :
    (node : ProcNode) (a : Analysis) → HasScopes a → HasScopes (collect_proc node a)
unfolding collect_proc
collect_proc-HasScopes node a h name = elim (Bool-cases (proc_exists node.name a.symtab)) [
  | inl e ↦ rw e (h name)
  | inr e ↦ rw e (
      exists-define_proc node.name name a.symtab
      ∙ rw (find_scope-append name a.scopes _, h name) (ground arith))
]

collect_declarations-HasScopes :
    (children : List Declaration) (a : Analysis)
    → HasScopes a
    → HasScopes (collect_declarations children a)
unfolding collect_declarations collect_declaration
collect_declarations-HasScopes [] a h = h
collect_declarations-HasScopes (data_section s ∷ children) a h =
    collect_declarations-HasScopes children (record a { symtab = collect_data_section s a.symtab })
      (λ name. data_section-procs s name a.symtab ∙ h name)
collect_declarations-HasScopes (proc node ∷ children) a h =
    collect_declarations-HasScopes children (collect_proc node a) (collect_proc-HasScopes node a h)

collect_proc_exists :
    (node : ProcNode) (name : Name) (a : Analysis)
    → (proc_exists name (collect_proc node a).symtab)
      ≡ (same_name node.name name || proc_exists name a.symtab)
unfolding collect_proc
collect_proc_exists node name a = elim (Bool-cases (proc_exists node.name a.symtab)) [
  | inr e ↦ rw e (exists-define_proc node.name name a.symtab)
  | inl e ↦ elim (Bool-cases (same_name node.name name)) [
    | inl same ↦ rw (e, same) (sym (proc_exists-same_name node.name name a.symtab same) ∙ e)
    | inr diff ↦ rw (e, diff) refl
  ]
]

collect_declarations_kept :
    (children : List Declaration) (name : Name) (a : Analysis)
    → proc_exists name a.symtab ≡ true
    → proc_exists name (collect_declarations children a).symtab ≡ true
unfolding collect_declarations collect_declaration
collect_declarations_kept [] name a h = h
collect_declarations_kept (data_section s ∷ children) name a h =
    collect_declarations_kept children name (record a { symtab = collect_data_section s a.symtab })
      (data_section-procs s name a.symtab ∙ h)
collect_declarations_kept (proc node ∷ children) name a h =
    collect_declarations_kept children name (collect_proc node a)
      (collect_proc_exists node name a ∙ rw h (ground arith))

collect_declarations_covered :
    (children : List Declaration) (a : Analysis)
    → All
        (λ (node : ProcNode). proc_exists node.name (collect_declarations children a).symtab ≡ true)
        (procedures children)
unfolding collect_declarations collect_declaration procedures
collect_declarations_covered [] a = tt
collect_declarations_covered (data_section s ∷ children) a =
    collect_declarations_covered children (record a { symtab = collect_data_section s a.symtab })
collect_declarations_covered (proc node ∷ children) a = (
  collect_declarations_kept children node.name (collect_proc node a)
      (collect_proc_exists node node.name a ∙ rw (same_name_refl node.name) refl),
  collect_declarations_covered children (collect_proc node a),
)

validate_in-AreSafe :
    (st : Symtab) (node : ProcNode) (scope : Option ProcScope)
    → validate_in st node scope ≡ 0
    → is_some scope ≡ true
    → are_supported node.body ≡ true
    → AreSafe st node.body
unfolding validate_in
validate_in-AreSafe st node none ok found supported = absurd (cc)
validate_in-AreSafe st node (some scope) ok found supported =
    statements-AreSafe st scope.labels scope.order node.body ok supported

references-AreSafe :
    (st : Symtab) (scopes : List ProcScope) (children : List Declaration)
    → validate_references st scopes children ≡ 0
    → All (λ (node : ProcNode). is_some (find_scope node.name scopes) ≡ true) (procedures children)
    → All (λ (node : ProcNode). are_supported node.body ≡ true) (procedures children)
    → All (λ (node : ProcNode). AreSafe st node.body) (procedures children)
unfolding validate_references procedures
references-AreSafe st scopes [] ok found supported = tt
references-AreSafe st scopes (data_section s ∷ children) ok found supported =
    references-AreSafe st scopes children ok found supported
references-AreSafe st scopes (proc node ∷ children) ok (f, fs) (p, ps) = (
  validate_in-AreSafe st node (find_scope node.name scopes) (omega arith) f p,
  references-AreSafe st scopes children (omega arith) fs ps,
)

All-found :
    (a : Analysis) (nodes : List ProcNode)
    → HasScopes a
    → All (λ (node : ProcNode). proc_exists node.name a.symtab ≡ true) nodes
    → All (λ (node : ProcNode). is_some (find_scope node.name a.scopes) ≡ true) nodes
All-found a [] h all = tt
All-found a (node ∷ nodes) h (e, all) = (sym (h node.name) ∙ e, All-found a nodes h all)

-- A program that validation accepts compiles, where each IF and WHILE of its procedures has a body, its
-- verbs have at most 259 operands, SOUND has not one, a verb without a specification has the operands
-- that it reads, and GOTO_DEPENDING_ON is no verb statement: if the analysis counts no error, code
-- generation with the symbol table that it has built ends with an object.
pub sema_errors-codegen_generate :
    (node : ProgramNode) (if_goto_opt : Bool) (date_str : List ℕ)
    → sema_errors node ≡ 0
    → All (λ (p : ProcNode). are_supported p.body ≡ true) (procedures node.children)
    → (object : List ℕ) × (codegen_generate
          (collect_program node).symtab
          if_goto_opt
          date_str
          node.name
          (procedures node.children)
        ≡ some object)
unfolding sema_errors collect_program proc_exists lookup_proc find_proc init find_scope
sema_errors-codegen_generate node if_goto_opt date_str ok supported =
    let a = collect_program node in
    codegen_generate-ends a.symtab if_goto_opt date_str node.name (procedures node.children) (
      references-AreSafe a.symtab a.scopes node.children (omega arith)
        (All-found a (procedures node.children)
          (collect_declarations-HasScopes node.children _ (λ name. refl))
          (collect_declarations_covered node.children _))
        supported)
