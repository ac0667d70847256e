-- ===== src/Procs/Entries.antt =====
-- What `find_procedures` of shared/bytecode/proc.c takes for the start of a procedure.
use tbol_toolchain.Base.{
  ℕ, suc, ◌<◌, ◌≡◌, ◌≢◌, refl, ◌⊎◌, inl, inr, true, false, not, ◌&&◌, List, [], ◌∷◌, length, ltb,
  ◌==◌, if◌then◌else◌, Bool-cases, All, All-append, All-map, either_holds, arith,
}
use tbol_toolchain.Bytecode.Mnemonic.{Mnemonic}
use tbol_toolchain.Bytecode.Instruction.{Instruction}
use tbol_toolchain.Procs.{
  ProcBoundary, is_call, addr_is_instruction, is_recorded, calls_entry, collect_entries,
  gdo_targets, remove_gdo_targets, find_main_end, find_end, find_called, proc_entries,
  first_called_proc, find_procedures,
}

-- Some instruction of the list is so.
abbrev pub Any : (Instruction → Type 0) → List Instruction → Type 0
Any P [] = ⊥
Any P (instr ∷ instrs) = P instr ⊎ Any P instrs

-- A CALL of the address, whose offset is not the 0 of a procedure that is not defined.
abbrev pub IsCallOf : ℕ → Instruction → Type 0
IsCallOf addr instr =
    (instr.mnemonic ≡ Mnemonic.call)
    × (instr.has_jump ≡ true)
    × (instr.jump_offset ≢ 0)
    × (instr.jump_target ≡ addr)

-- An instruction of the program calls the address, and one has it.
abbrev pub IsCalled : List Instruction → ℕ → Type 0
IsCalled prog addr =
    Any (IsCallOf addr) prog × Any (λ (instr : Instruction). instr.address ≡ addr) prog

-- A procedure with some code: the main one, or one that is called.
abbrev pub IsProcedure : List Instruction → ProcBoundary → Type 0
IsProcedure prog proc =
    (proc.start_addr < proc.end_addr)
    × (((proc.is_main ≡ true) × (proc.start_addr ≡ 0))
        ⊎ ((proc.is_main ≡ false) × IsCalled prog proc.start_addr))

is_call-call : (m : Mnemonic) → is_call m ≡ true → m ≡ Mnemonic.call
is_call-call Mnemonic.call e = refl
is_call-call _ e = absurd cc

calls_entry-IsCallOf :
    (prog : List Instruction) (instr : Instruction)
    → calls_entry prog instr ≡ true
    → IsCallOf instr.jump_target instr × (addr_is_instruction prog instr.jump_target ≡ true)
unfolding calls_entry
calls_entry-IsCallOf prog instr e = (
  (is_call-call instr.mnemonic (ground arith), ground arith, (λ zero. ground arith), refl),
  ground arith,
)

addr_is_instruction-Any :
    (instrs : List Instruction) (addr : ℕ)
    → addr_is_instruction instrs addr ≡ true
    → Any (λ (instr : Instruction). instr.address ≡ addr) instrs
unfolding addr_is_instruction
addr_is_instruction-Any [] addr e = absurd cc
addr_is_instruction-Any (instr ∷ instrs) addr e = elim (Bool-cases (instr.address == addr)) [
  | inl here ↦ inl (ground arith)
  | inr there ↦ inr (addr_is_instruction-Any instrs addr (rw there at e))
]

called_targets :
    (prog instrs : List Instruction)
    → All
        (λ (instr : Instruction).
          calls_entry prog instr ≡ true
          → Any (IsCallOf instr.jump_target) instrs
            × Any (λ (other : Instruction). other.address ≡ instr.jump_target) prog)
        instrs
called_targets prog [] = tt
called_targets prog (instr ∷ instrs) = (
  (λ calls.
      let (call, there) = calls_entry-IsCallOf prog instr calls in
      (inl call, addr_is_instruction-Any prog instr.jump_target there)),
  All-map (λ other h calls. let (called, there) = h calls in (inr called, there)) instrs
      (called_targets prog instrs),
)

module _ (P : ℕ → Type 0) where
  pub collect_entries-All :
      (prog instrs : List Instruction) (entries : List ℕ)
      → All (λ (instr : Instruction). calls_entry prog instr ≡ true → P instr.jump_target) instrs
      → All P entries
      → All P (collect_entries prog instrs entries)
  unfolding collect_entries
  collect_entries-All prog [] entries targets h = h
  collect_entries-All prog (instr ∷ instrs) entries (target, targets) h =
      let more = not (is_recorded instr.jump_target entries) && ltb (length entries) 256 in
      collect_entries-All prog instrs _ targets (
        either_holds (All P) (calls_entry prog instr && more) _ _
          (λ calls. All-append P entries (instr.jump_target ∷ []) h (target (ground arith), tt))
          (λ other. h))

  pub remove_gdo_targets-All :
      (targets entries : List ℕ) → All P entries → All P (remove_gdo_targets targets entries)
  unfolding remove_gdo_targets
  remove_gdo_targets-All targets [] h = h
  remove_gdo_targets-All targets (entry ∷ entries) (h, hs) =
      let rest = remove_gdo_targets-All targets entries hs in
      either_holds (All P) (is_recorded entry targets) _ _ (λ gdo. rest) (λ other. (h, rest))

find_called-All :
    (prog : List Instruction) (proc_num : ℕ) (entries : List ℕ) (pl : List ProcBoundary)
    → All (IsCalled prog) entries
    → All (IsProcedure prog) pl
    → All (IsProcedure prog) (find_called prog proc_num entries pl)
unfolding find_called
find_called-All prog proc_num [] pl called h = h
find_called-All prog proc_num (start ∷ entries) pl (called, others) h =
    find_called-All prog
      (if ltb start (find_end start entries prog 0) then suc proc_num else proc_num) entries _
      others
      (either_holds (All (IsProcedure prog)) (ltb start (find_end start entries prog 0)) _ _
        (λ some_code. All-append (IsProcedure prog) pl _ h ((ground arith, inr (refl, called)), tt))
        (λ empty. h))

-- Every boundary that find_procedures adds to its list delimits some code, and is the main procedure
-- from address 0 or starts at an address that some CALL of the program jumps to, with an offset other
-- than 0, and that some instruction of the program has. The sort of the C library is any function that keeps what holds of all elements.
pub find_procedures-IsProcedure :
    (qsort : List ℕ → List ℕ) (prog : List Instruction) (pl : List ProcBoundary)
    → ((P : ℕ → Type 0) (entries : List ℕ) → All P entries → All P (qsort entries))
    → All (IsProcedure prog) pl
    → All (IsProcedure prog) (find_procedures qsort prog pl)
unfolding find_procedures proc_entries
find_procedures-IsProcedure qsort prog pl keeps h =
    let collected = collect_entries prog prog [] in
    let sorted =
      keeps (IsCalled prog) collected
        (collect_entries-All (IsCalled prog) prog prog [] (called_targets prog prog) tt) in
    let targets = gdo_targets (qsort collected) prog [] in
    let main_end = find_main_end (first_called_proc (proc_entries qsort prog)) prog 0 in
    find_called-All prog 1 _ _
      (remove_gdo_targets-All (IsCalled prog) targets (qsort collected) sorted)
      (either_holds (All (IsProcedure prog)) (ltb 0 main_end) _ _
        (λ some_code. All-append (IsProcedure prog) pl _ h ((ground arith, inl (refl, refl)), tt))
        (λ empty. h))
