-- ===== src/Procs.antt =====
-- shared/bytecode/proc.c: the boundaries of the procedures in decoded instructions. The qsort of the C
-- library, with cmp_uint16, is the parameter `qsort`; the list grows without a bound.
pub mod Entries
pub mod Order
pub mod Boundaries
use tbol_toolchain.Base.{
  ℕ, zero, suc, ◌+◌, ◌<◌, ◌≤◌, Bool, true, false, not, ◌&&◌, ◌||◌, List, [], ◌∷◌, ◌++◌, length,
  drop, ltb, leb, ◌==◌, if◌then◌else◌, u16,
}
use tbol_toolchain.Bytecode.Mnemonic.{Mnemonic, call, return, goto_depending_on}
use tbol_toolchain.Bytecode.Ir.{Operand}
use tbol_toolchain.Bytecode.Instruction.{Instruction}

pub record ProcBoundary : Type 0 where
  pub start_addr : ℕ
  pub end_addr : ℕ
  pub is_main : Bool
  pub proc_num : ℕ

abbrev pub is_call : Mnemonic → Bool
is_call call = true
is_call mnemonic = false

abbrev pub is_return : Mnemonic → Bool
is_return return = true
is_return mnemonic = false

abbrev pub is_goto_depending_on : Mnemonic → Bool
is_goto_depending_on goto_depending_on = true
is_goto_depending_on mnemonic = false

unfoldable pub addr_is_instruction : List Instruction → ℕ → Bool
addr_is_instruction [] addr = false
addr_is_instruction (instr ∷ instrs) addr = instr.address == addr || addr_is_instruction instrs addr

unfoldable pub is_recorded : ℕ → List ℕ → Bool
is_recorded target [] = false
is_recorded target (entry ∷ entries) = entry == target || is_recorded target entries

-- A call that is resolved, to the start of an instruction.
unfoldable pub calls_entry : List Instruction → Instruction → Bool
unfolding addr_is_instruction
calls_entry prog instr =
    is_call instr.mnemonic
    && (instr.has_jump
        && (not (instr.jump_offset == 0) && addr_is_instruction prog instr.jump_target))

-- The targets of the calls in `instrs`, without repetition and at most 256 of them.
unfoldable pub collect_entries : List Instruction → List Instruction → List ℕ → List ℕ
unfolding calls_entry is_recorded
collect_entries prog [] entries = entries
collect_entries prog (instr ∷ instrs) entries = collect_entries prog instrs (
    if calls_entry prog instr
      && (not (is_recorded instr.jump_target entries) && ltb (length entries) 256)
    then entries ++ (instr.jump_target ∷ [])
    else entries)

-- `entry_count > 0 && addr >= entries[0]`
abbrev pub at_entry : List ℕ → ℕ → Bool
at_entry [] addr = false
at_entry (entry ∷ entries) addr = leb entry addr

unfoldable pub add_gdo_targets : List Operand → List ℕ → List ℕ
add_gdo_targets [] targets = targets
add_gdo_targets (operand ∷ operands) targets =
    add_gdo_targets operands
      (if ltb (length targets) 256 then targets ++ (u16 operand.value ∷ []) else targets)

unfoldable pub gdo_targets : List ℕ → List Instruction → List ℕ → List ℕ
unfolding add_gdo_targets
gdo_targets entries [] targets = targets
gdo_targets entries (instr ∷ instrs) targets =
    let rest = gdo_targets entries instrs (
      if is_goto_depending_on instr.mnemonic
      then add_gdo_targets (drop 1 instr.operands) targets
      else targets) in
    if at_entry entries instr.address then targets else rest

unfoldable pub remove_gdo_targets : List ℕ → List ℕ → List ℕ
unfolding is_recorded
remove_gdo_targets targets [] = []
remove_gdo_targets targets (entry ∷ entries) =
    let rest = remove_gdo_targets targets entries in
    if is_recorded entry targets then rest else entry ∷ rest

abbrev pub end_of : Instruction → ℕ
end_of instr = u16 (instr.address + instr.length)

abbrev pub first_called_proc : List ℕ → ℕ
first_called_proc [] = 0xFFFF
first_called_proc (entry ∷ entries) = entry

-- `!instr->next && main_end == 0`
abbrev pub or_last : Instruction → List Instruction → ℕ → ℕ
or_last instr [] main_end = if main_end == 0 then end_of instr else main_end
or_last instr (next ∷ instrs) main_end = main_end

unfoldable pub find_main_end : ℕ → List Instruction → ℕ → ℕ
find_main_end first [] main_end = main_end
find_main_end first (instr ∷ instrs) main_end =
    let rest =
      find_main_end first instrs
        (or_last instr instrs (if is_return instr.mnemonic then end_of instr else main_end)) in
    if leb first instr.address then main_end else rest

-- The end of the last RETURN from `start` on and before the next entry.
unfoldable pub find_end : ℕ → List ℕ → List Instruction → ℕ → ℕ
find_end start later [] end_addr = end_addr
find_end start later (instr ∷ instrs) end_addr =
    let before = find_end start later instrs end_addr in
    let rest =
      find_end start later instrs (if is_return instr.mnemonic then end_of instr else end_addr) in
    if ltb instr.address start
    then before
    else if at_entry later instr.address
    then end_addr
    else rest

abbrev pub proc_list_add : ℕ → ℕ → Bool → ℕ → List ProcBoundary → List ProcBoundary
proc_list_add start_addr end_addr is_main proc_num pl =
    pl
    ++ (record {
      start_addr = start_addr;
      end_addr = end_addr;
      is_main = is_main;
      proc_num = proc_num;
    }
        ∷ [])

unfoldable pub find_called : List Instruction → ℕ → List ℕ → List ProcBoundary → List ProcBoundary
unfolding find_end
find_called prog proc_num [] pl = pl
find_called prog proc_num (start ∷ entries) pl =
    let end_addr = find_end start entries prog 0 in
    find_called prog (if ltb start end_addr then suc proc_num else proc_num) entries
      (if ltb start end_addr then proc_list_add start end_addr false proc_num pl else pl)

-- The entries that delimit procedures, in the order of their addresses.
unfoldable pub proc_entries : (List ℕ → List ℕ) → List Instruction → List ℕ
unfolding collect_entries gdo_targets remove_gdo_targets
proc_entries qsort prog =
    let entries = qsort (collect_entries prog prog []) in
    remove_gdo_targets (gdo_targets entries prog []) entries

unfoldable pub find_procedures :
    (List ℕ → List ℕ) → List Instruction → List ProcBoundary → List ProcBoundary
unfolding proc_entries find_main_end find_called
find_procedures qsort prog pl =
    let entries = proc_entries qsort prog in
    let main_end = find_main_end (first_called_proc entries) prog 0 in
    find_called prog 1 entries (if ltb 0 main_end then proc_list_add 0 main_end true 0 pl else pl)
