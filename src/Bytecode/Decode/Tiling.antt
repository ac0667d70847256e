-- ===== src/Bytecode/Decode/Tiling.antt =====
-- `decode_program` of shared/bytecode/decode.c on any bytes: it ends, and the instructions tile the
-- code.
use tbol_toolchain.Base.{
  none, ℕ, zero, suc, ◌+◌, ◌-◌, ◌≤◌, ◌<◌, ◌≡◌, refl, some, List, [], ◌∷◌, length, take-all, u16,
  arith,
}
use tbol_toolchain.Bytecode.Instruction.{Instruction}
use tbol_toolchain.Bytecode.Decode.{
  decode_instruction, decode_loop, sized_code, decode_sized, decode_program,
}
use tbol_toolchain.Bytecode.Decode.Advance.{decode_instruction-advances}

-- The instructions lie end to end from a to b, and each takes at least a byte.
abbrev pub Tiles : ℕ → List Instruction → ℕ → Type 0
Tiles a [] b = a ≡ b
Tiles a (instr ∷ instrs) b =
    (instr.address ≡ a) × (1 ≤ instr.length) × Tiles (a + instr.length) instrs b

decode_instruction_nothing :
    (stale : ℕ → ℕ → ℕ) (size : ℕ) → decode_instruction stale size [] ≡ none
unfolding decode_instruction
decode_instruction_nothing stale size = refl

-- A round of the loop; where an instruction is decoded, code is left.
pub decode_loop_step :
    (stale : ℕ → ℕ → ℕ) (size fuel : ℕ) (bytes : List ℕ) {instr : Instruction} {rest' : List ℕ}
    {instrs : List Instruction}
    → decode_instruction stale size bytes ≡ some (instr, rest')
    → decode_loop stale size fuel rest' ≡ some instrs
    → decode_loop stale size (suc fuel) bytes ≡ some (instr ∷ instrs)
unfolding decode_loop
decode_loop_step stale size fuel [] e e' = cc (decode_instruction_nothing stale size)
decode_loop_step stale size fuel (b ∷ rest) e e' = rw (e, decode_loop) (rw e')

decode_loop-Tiles :
    (stale : ℕ → ℕ → ℕ) (size fuel : ℕ) (rest : List ℕ)
    → size < 65536
    → length rest ≤ size
    → length rest ≤ fuel
    → (instrs : List Instruction) × (decode_loop stale size fuel rest ≡ some instrs)
      × Tiles (size - length rest) instrs size
unfolding decode_loop
decode_loop-Tiles stale size fuel [] small fits enough = ([], refl, omega arith)
decode_loop-Tiles stale size zero (b ∷ rest) small fits enough = absurd (omega arith)
decode_loop-Tiles stale size (suc fuel) (b ∷ rest) small fits enough =
    let (instr, rest', e, at, len, one) =
      decode_instruction-advances stale size b rest small fits in
    let (instrs, e', tiles) =
      decode_loop-Tiles stale size fuel rest' small (omega arith) (omega arith) in
    let next : size - length (b ∷ rest) + instr.length ≡ size - length rest' = omega arith in
    (instr ∷ instrs, decode_loop_step stale size fuel (b ∷ rest) e e', (at, one, rw next tiles))

-- Less than 64 KiB of code are not cut.
pub sized_code-small : (code : List ℕ) → length code < 65536 → sized_code code ≡ code
unfolding sized_code
sized_code-small code small = take-all (u16 (length code)) code (omega arith)

-- Decoding a program of less than 64 KiB ends, whatever bytes it is made of, and its instructions
-- tile the code: the first is at 0, each next one begins where the one before it ends, no one is
-- empty, and the last ends where the code does.
pub decode_program-Tiles :
    (stale : ℕ → ℕ → ℕ) (code : List ℕ)
    → length code < 65536
    → (instrs : List Instruction) × (decode_program stale code ≡ some instrs)
      × Tiles 0 instrs (length code)
unfolding decode_program decode_sized
decode_program-Tiles stale code small = rw (sized_code-small code small) (
    let (instrs, e, tiles) =
      decode_loop-Tiles stale (length code) (length code) code small (omega arith) (omega arith) in
    let start : length code - length code ≡ 0 = omega arith in (instrs, e, rw start at tiles))
