-- ===== src/Procs/Order.antt =====
-- The boundaries that `find_procedures` of shared/bytecode/proc.c reports for a decoded program.
use tbol_toolchain.Base.{
  ℕ, suc, ◌+◌, ◌<◌, ◌≤◌, ◌≡◌, refl, inl, inr, Bool, true, false, List, [], ◌∷◌, ltb, ◌==◌,
  if◌then◌else◌, All, either_holds, arith, Bool-cases,
}
use tbol_toolchain.Bytecode.Instruction.{Instruction}
use tbol_toolchain.Bytecode.Decode.Tiling.{Tiles}
use tbol_toolchain.Procs.{
  ProcBoundary, addr_is_instruction, at_entry, is_return, end_of, find_end, find_called,
  proc_list_add,
}

-- An address from which on no entry is passed: that of the next one, or the end of the code.
abbrev pub limit : List ℕ → ℕ → ℕ
limit [] n = n
limit (entry ∷ entries) n = entry

abbrev pub IsStop : List Instruction → List ℕ → Type 0
IsStop instrs [] = Unit
IsStop instrs (entry ∷ entries) = addr_is_instruction instrs entry ≡ true

Tiles-grow : (a b : ℕ) (instrs : List Instruction) → Tiles a instrs b → a ≤ b
Tiles-grow a b [] e = omega arith
Tiles-grow a b (instr ∷ instrs) (at, some_bytes, tiles) =
    let further = Tiles-grow (a + instr.length) b instrs tiles in omega arith

Tiles-above :
    (a b addr : ℕ) (instrs : List Instruction)
    → Tiles a instrs b
    → addr_is_instruction instrs addr ≡ true
    → a ≤ addr
unfolding addr_is_instruction
Tiles-above a b addr [] tiles there = absurd cc
Tiles-above a b addr (instr ∷ instrs) (at, some_bytes, tiles) there =
    elim (Bool-cases (instr.address == addr)) [
      | inl e ↦ ground arith
      | inr e ↦
          let above = Tiles-above (a + instr.length) b addr instrs tiles (rw e at there) in
          omega arith
    ]

-- An instruction in front of the limit ends there at the latest, and the limit lies behind it.
pub before_limit :
    (a b : ℕ) (instr : Instruction) (instrs : List Instruction) (later : List ℕ)
    → Tiles a (instr ∷ instrs) b
    → IsStop (instr ∷ instrs) later
    → at_entry later instr.address ≡ false
    → (instr.address + instr.length ≤ limit later b) × IsStop instrs later
unfolding addr_is_instruction
before_limit a b instr instrs [] (at, some_bytes, tiles) stop before =
    let further = Tiles-grow (a + instr.length) b instrs tiles in (omega arith, tt)
before_limit a b instr instrs (entry ∷ later) (at, some_bytes, tiles) stop before =
    let other : (instr.address == entry) ≡ false = ground arith in
    let there : addr_is_instruction instrs entry ≡ true = rw other at stop in
    let above = Tiles-above (a + instr.length) b entry instrs tiles there in (omega arith, there)

before_entry : (addr b : ℕ) (later : List ℕ) → addr < limit later b → at_entry later addr ≡ false
before_entry addr b [] h = refl
before_entry addr b (entry ∷ later) h = ground arith

-- The end of an instruction, in code of less than 64 KiB, is no cut one.
pub return_limit :
    (c : Bool) (instr : Instruction) (end_addr bound : ℕ)
    → instr.address + instr.length ≤ bound
    → end_addr ≤ bound
    → (if c then end_of instr else end_addr) ≤ bound
return_limit true instr end_addr bound fits h = omega arith
return_limit false instr end_addr bound fits h = h

find_end-limit :
    (a b start : ℕ) (later : List ℕ) (instrs : List Instruction) (end_addr : ℕ)
    → Tiles a instrs b
    → IsStop instrs later
    → start ≤ limit later b
    → end_addr ≤ limit later b
    → find_end start later instrs end_addr ≤ limit later b
unfolding find_end
find_end-limit a b start later [] end_addr tiles stop sorted h = h
find_end-limit a b start later (instr ∷ instrs) end_addr tiles stop sorted h =
    either_holds (λ (m : ℕ). m ≤ limit later b) (ltb instr.address start) _ _
      (λ early.
        let (fits, stop') =
          before_limit a b instr instrs later tiles stop
            (before_entry instr.address b later (ground arith)) in
        find_end-limit (a + instr.length) b start later instrs end_addr tiles.2 stop' sorted h)
      (λ reached.
        either_holds (λ (m : ℕ). m ≤ limit later b) (at_entry later instr.address) _ _ (λ at. h)
          (λ before.
            let (fits, stop') = before_limit a b instr instrs later tiles stop before in
            find_end-limit (a + instr.length) b start later instrs _ tiles.2 stop' sorted
              (return_limit (is_return instr.mnemonic) instr end_addr (limit later b) fits h)))

-- The procedures lie behind each other from one address up to another.
abbrev pub IsOrdered : ℕ → List ProcBoundary → ℕ → Type 0
IsOrdered from [] to = from ≤ to
IsOrdered from (proc ∷ pl) to =
    (from ≤ proc.start_addr) × (proc.start_addr < proc.end_addr) × IsOrdered proc.end_addr pl to

IsOrdered-up :
    (from m to : ℕ) (pl : List ProcBoundary) → IsOrdered from pl m → m ≤ to → IsOrdered from pl to
IsOrdered-up from m to [] h le = omega arith
IsOrdered-up from m to (proc ∷ pl) (after, some_code, h) le =
    (after, some_code, IsOrdered-up proc.end_addr m to pl h le)

IsOrdered-add :
    (from to : ℕ) (pl : List ProcBoundary) (start_addr end_addr : ℕ) (is_main : Bool) (proc_num : ℕ)
    → IsOrdered from pl start_addr
    → start_addr < end_addr
    → IsOrdered from (proc_list_add start_addr end_addr is_main proc_num pl) end_addr
IsOrdered-add from to [] start_addr end_addr is_main proc_num h some_code =
    (h, some_code, omega arith)
IsOrdered-add from to (proc ∷ pl) start_addr end_addr is_main proc_num (after, some, h) some_code =
    (
      after,
      some,
      IsOrdered-add proc.end_addr to pl start_addr end_addr is_main proc_num h some_code,
    )

abbrev pub IsSorted : List ℕ → Type 0
IsSorted [] = Unit
IsSorted (entry ∷ entries) = All (λ (later : ℕ). entry ≤ later) entries × IsSorted entries

abbrev pub IsAddress : List Instruction → ℕ → Type 0
IsAddress prog addr = addr_is_instruction prog addr ≡ true

sorted_limit :
    (n entry : ℕ) (entries : List ℕ)
    → All (λ (later : ℕ). entry ≤ later) entries
    → entry ≤ n
    → entry ≤ limit entries n
sorted_limit n entry [] sorted le = le
sorted_limit n entry (later ∷ entries) (h, hs) le = h

pub stops :
    (prog : List Instruction) (entries : List ℕ)
    → All (IsAddress prog) entries
    → IsStop prog entries
stops prog [] h = tt
stops prog (entry ∷ entries) (h, hs) = h

addr_inside :
    (a b addr : ℕ) (instrs : List Instruction)
    → Tiles a instrs b
    → addr_is_instruction instrs addr ≡ true
    → addr ≤ b
unfolding addr_is_instruction
addr_inside a b addr [] tiles there = absurd cc
addr_inside a b addr (instr ∷ instrs) (at, some_bytes, tiles) there =
    elim (Bool-cases (instr.address == addr)) [
      | inl e ↦ let further = Tiles-grow (a + instr.length) b instrs tiles in ground arith
      | inr e ↦ addr_inside (a + instr.length) b addr instrs tiles (rw e at there)
    ]

pub find_called-IsOrdered :
    (n : ℕ) (prog : List Instruction) (proc_num : ℕ) (entries : List ℕ) (pl : List ProcBoundary)
    → Tiles 0 prog n
    → IsSorted entries
    → All (IsAddress prog) entries
    → IsOrdered 0 pl (limit entries n)
    → IsOrdered 0 (find_called prog proc_num entries pl) n
unfolding find_called
find_called-IsOrdered n prog proc_num [] pl tiles sorted there h = h
find_called-IsOrdered n prog proc_num (start ∷ entries) pl tiles (least, sorted) (here, there) h =
    let end_addr = find_end start entries prog 0 in
    let inside = sorted_limit n start entries least (addr_inside 0 n start prog tiles here) in
    let ends =
      find_end-limit 0 n start entries prog 0 tiles (stops prog entries there) inside
        (omega arith) in
    find_called-IsOrdered n prog (if ltb start end_addr then suc proc_num else proc_num) entries _
      tiles sorted there
      (either_holds (λ (l : List ProcBoundary). IsOrdered 0 l (limit entries n))
        (ltb start end_addr) _ _
        (λ some_code.
          IsOrdered-up 0 end_addr (limit entries n) _
            (IsOrdered-add 0 n pl start end_addr false proc_num h (ground arith)) ends)
        (λ empty. IsOrdered-up 0 start (limit entries n) pl h inside))
