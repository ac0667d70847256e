-- ===== src/Tests/DecodeTests.antt =====
-- Tests of the bytecode decoder.
use tbol_toolchain.Base.{ℕ, ◌+◌, ◌-◌, ◌≤◌, ◌≡◌, some, List, [], ◌∷◌, arith, length}
use tbol_toolchain.Bytecode.Instruction.{Instruction}
use tbol_toolchain.Bytecode.Decode.{decode_instruction, decode_program}
use tbol_toolchain.Bytecode.Decode.Advance.{decode_instruction-advances}
use tbol_toolchain.Bytecode.Decode.Tiling.{Tiles, decode_program-Tiles}

-- A jump whose offset is cut off.
abbrev cut : List ℕ
cut = 0x80 ∷ 0x12 ∷ 0x34 ∷ []

decode_instruction-advances_example :
    (instr : Instruction) × (rest' : List ℕ) × (decode_instruction (λ (a b : ℕ). 0) 3 cut
      ≡ some (instr, rest'))
    × (instr.address ≡ 3 - length cut)
    × (instr.length + length rest' ≡ length cut)
    × (1 ≤ instr.length)
decode_instruction-advances_example =
    decode_instruction-advances (λ (a b : ℕ). 0) 3 0x80 (0x12 ∷ 0x34 ∷ []) (omega arith)
      (omega arith)

decode_program-Tiles_example :
    (instrs : List Instruction) × (decode_program (λ (a b : ℕ). 0) cut ≡ some instrs)
    × Tiles 0 instrs (length cut)
decode_program-Tiles_example = decode_program-Tiles (λ (a b : ℕ). 0) cut (omega arith)
