-- ===== src/Procs/Boundaries.antt =====
-- The boundaries that `find_procedures` of shared/bytecode/proc.c reports for a decoded program do not
-- overlap.
use mathlib.Core.Option.{some-injective}
use tbol_toolchain.Base.{
  sym, ◌∙◌, subst, ℕ, ◌+◌, ◌<◌, ◌≤◌, ◌≡◌, refl, true, false, some, List, [], ◌∷◌, length, ltb, leb,
  ◌==◌, All, either_holds, arith,
}
use tbol_toolchain.Bytecode.Instruction.{Instruction}
use tbol_toolchain.Bytecode.Decode.{decode_program}
use tbol_toolchain.Bytecode.Decode.Tiling.{Tiles, decode_program-Tiles}
use tbol_toolchain.Procs.{
  ProcBoundary, is_recorded, calls_entry, collect_entries, gdo_targets, remove_gdo_targets,
  find_main_end, proc_entries, first_called_proc, find_procedures, at_entry, is_return, or_last,
}
use tbol_toolchain.Procs.Entries.{collect_entries-All, remove_gdo_targets-All}
use tbol_toolchain.Procs.Order.{
  limit, IsStop, IsAddress, IsSorted, IsOrdered, before_limit, return_limit, stops,
  find_called-IsOrdered,
}

before_first :
    (addr : ℕ) (entries : List ℕ)
    → leb (first_called_proc entries) addr ≡ false
    → at_entry entries addr ≡ false
before_first addr [] h = refl
before_first addr (entry ∷ entries) h = h

last_limit :
    (instr : Instruction) (instrs : List Instruction) (main_end bound : ℕ)
    → instr.address + instr.length ≤ bound
    → main_end ≤ bound
    → or_last instr instrs main_end ≤ bound
last_limit instr [] main_end bound fits h =
    either_holds (λ (m : ℕ). m ≤ bound) (main_end == 0) _ _ (λ e. omega arith) (λ e. h)
last_limit instr (next ∷ instrs) main_end bound fits h = h

find_main_end-limit :
    (a b : ℕ) (entries : List ℕ) (instrs : List Instruction) (main_end : ℕ)
    → Tiles a instrs b
    → IsStop instrs entries
    → main_end ≤ limit entries b
    → find_main_end (first_called_proc entries) instrs main_end ≤ limit entries b
unfolding find_main_end
find_main_end-limit a b entries [] main_end tiles stop h = h
find_main_end-limit a b entries (instr ∷ instrs) main_end tiles stop h =
    either_holds (λ (m : ℕ). m ≤ limit entries b) (leb (first_called_proc entries) instr.address) _
      _ (λ at. h)
      (λ before.
        let (fits, stop') =
          before_limit a b instr instrs entries tiles stop
            (before_first instr.address entries before) in
        find_main_end-limit (a + instr.length) b entries instrs _ tiles.2 stop' (
          last_limit instr instrs _ (limit entries b) fits
            (return_limit (is_return instr.mnemonic) instr main_end (limit entries b) fits h)))

calls-IsAddress :
    (prog instrs : List Instruction)
    → All
        (λ (instr : Instruction). calls_entry prog instr ≡ true → IsAddress prog instr.jump_target)
        instrs
unfolding calls_entry
calls-IsAddress prog [] = tt
calls-IsAddress prog (instr ∷ instrs) = ((λ calls. ground arith), calls-IsAddress prog instrs)

remove_gdo_targets-IsSorted :
    (targets entries : List ℕ) → IsSorted entries → IsSorted (remove_gdo_targets targets entries)
unfolding remove_gdo_targets
remove_gdo_targets-IsSorted targets [] h = tt
remove_gdo_targets-IsSorted targets (entry ∷ entries) (least, h) =
    let rest = remove_gdo_targets-IsSorted targets entries h in
    either_holds IsSorted (is_recorded entry targets) _ _ (λ gdo. rest)
      (λ other. (remove_gdo_targets-All (λ (later : ℕ). entry ≤ later) targets entries least, rest))

-- The procedures that find_procedures reports for a decoded program of less than 64 KiB lie behind each other, in the
-- order of the list, inside the code and without overlapping; each has some code. The sort of the C
-- library is any function that sorts and keeps what holds of all elements.
pub find_procedures-IsOrdered :
    (qsort : List ℕ → List ℕ) (stale : ℕ → ℕ → ℕ) (code : List ℕ) (prog : List Instruction)
    → ((P : ℕ → Type 0) (entries : List ℕ) → All P entries → All P (qsort entries))
    → ((entries : List ℕ) → IsSorted (qsort entries))
    → length code < 65536
    → decode_program stale code ≡ some prog
    → IsOrdered 0 (find_procedures qsort prog []) (length code)
unfolding find_procedures proc_entries
find_procedures-IsOrdered qsort stale code prog keeps sorts small e =
    let collected = collect_entries prog prog [] in
    let targets = gdo_targets (qsort collected) prog [] in
    let entries = remove_gdo_targets targets (qsort collected) in
    let there = remove_gdo_targets-All (IsAddress prog) targets (qsort collected) (
      keeps (IsAddress prog) collected
        (collect_entries-All (IsAddress prog) prog prog [] (calls-IsAddress prog prog) tt)) in
    let (instrs, e', whole) = decode_program-Tiles stale code small in
    let same : instrs ≡ prog = some-injective _ _ (sym e' ∙ e) in
    let tiles = subst (λ (p : List Instruction). Tiles 0 p (length code)) same whole in
    let main_end = find_main_end (first_called_proc entries) prog 0 in
    let ends =
      find_main_end-limit 0 (length code) entries prog 0 tiles (stops prog entries there)
        (omega arith) in
    find_called-IsOrdered (length code) prog 1 entries _ tiles
      (remove_gdo_targets-IsSorted targets (qsort collected) (sorts collected)) there
      (either_holds (λ (l : List ProcBoundary). IsOrdered 0 l (limit entries (length code)))
        (ltb 0 main_end) _ _ (λ some_code. (omega arith, ground arith, ends))
        (λ empty. omega arith))
