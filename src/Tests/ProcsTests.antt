-- ===== src/Tests/ProcsTests.antt =====
-- A main procedure that calls the one behind it, for the theorem about the boundaries of procedures.
use tbol_toolchain.Base.{
  ℕ, ◌≤◌, refl, true, Option, none, some, List, [], ◌∷◌, All, All-map, either_holds, if◌then◌else◌,
  ltb, arith,
}
use tbol_toolchain.Bytecode.Opcodes.System.{op_call, op_return}
use tbol_toolchain.Bytecode.Decode.{decode_program, decode_instruction, decode_operands}
use tbol_toolchain.Bytecode.Opcodes.{lookup_opcode}
use tbol_toolchain.Bytecode.Operand.{read_offset}
use tbol_toolchain.Procs.Order.{IsSorted, IsOrdered}
use tbol_toolchain.Procs.Boundaries.{find_procedures-IsOrdered}
use tbol_toolchain.Bytecode.Mnemonic.{call, return}
use tbol_toolchain.Bytecode.Instruction.{
  Instruction, instruction_new, read_operands, read_mode_bytes,
}
use tbol_toolchain.Procs.{find_procedures}
use tbol_toolchain.Procs.Entries.{IsProcedure, find_procedures-IsProcedure}

unfoldable insert : ℕ → List ℕ → List ℕ
insert x [] = x ∷ []
insert x (y ∷ ys) = let rest = insert x ys in if ltb y x then y ∷ rest else x ∷ y ∷ ys

unfoldable insertion_sort : List ℕ → List ℕ
unfolding insert
insertion_sort [] = []
insertion_sort (x ∷ xs) = insert x (insertion_sort xs)

insert-All : (P : ℕ → Type 0) (x : ℕ) (xs : List ℕ) → P x → All P xs → All P (insert x xs)
unfolding insert
insert-All P x [] h hs = (h, tt)
insert-All P x (y ∷ ys) h (hy, hs) =
    either_holds (All P) (ltb y x) _ _ (λ less. (hy, insert-All P x ys h hs))
      (λ other. (h, (hy, hs)))

insertion_sort-All : (P : ℕ → Type 0) (xs : List ℕ) → All P xs → All P (insertion_sort xs)
unfolding insertion_sort
insertion_sort-All P [] h = tt
insertion_sort-All P (x ∷ xs) (h, hs) =
    insert-All P x (insertion_sort xs) h (insertion_sort-All P xs hs)

insert-IsSorted : (x : ℕ) (xs : List ℕ) → IsSorted xs → IsSorted (insert x xs)
unfolding insert
insert-IsSorted x [] h = (tt, tt)
insert-IsSorted x (y ∷ ys) (least, h) =
    either_holds IsSorted (ltb y x) _ _
      (λ less. (insert-All (λ (z : ℕ). y ≤ z) x ys (ground arith) least, insert-IsSorted x ys h))
      (λ other.
        let before : x ≤ y = ground arith in
        ((before, All-map (λ z le. omega arith) ys least), (least, h)))

insertion_sort-IsSorted : (xs : List ℕ) → IsSorted (insertion_sort xs)
unfolding insertion_sort
insertion_sort-IsSorted [] = tt
insertion_sort-IsSorted (x ∷ xs) =
    insert-IsSorted x (insertion_sort xs) (insertion_sort-IsSorted xs)

abbrev call_next : Instruction
call_next = record (instruction_new 0) {
  length = 3;
  mnemonic = call;
  has_jump = true;
  jump_offset = 1;
  jump_target = 4;
}

abbrev returns : ℕ → Instruction
returns address = record (instruction_new address) { length = 1; mnemonic = return }

abbrev program : List Instruction
program = call_next ∷ returns 3 ∷ returns 4 ∷ []

find_procedures-IsProcedure_example :
    All (IsProcedure program) (find_procedures insertion_sort program [])
find_procedures-IsProcedure_example =
    find_procedures-IsProcedure insertion_sort program [] insertion_sort-All tt

-- A call of the second of two procedures, and their returns.
abbrev code : List ℕ
code = op_call ∷ 0 ∷ 1 ∷ op_return ∷ op_return ∷ []

abbrev decoded : Option (List Instruction) → List Instruction
decoded (some instrs) = instrs
decoded none = []

find_procedures-IsOrdered_example :
    IsOrdered 0
      (find_procedures insertion_sort (decoded (decode_program (λ (a b : ℕ). 0) code)) [])
      5
unfolding decode_program decode_instruction lookup_opcode decode_operands read_operands
    read_mode_bytes read_offset
find_procedures-IsOrdered_example =
    find_procedures-IsOrdered insertion_sort (λ (a b : ℕ). 0) code
      (decoded (decode_program (λ (a b : ℕ). 0) code)) insertion_sort-All insertion_sort-IsSorted
      (omega arith) refl
