-- ===== src/Bytecode/Instruction/Progress.antt =====
-- Each reader of shared/bytecode/decode.c moves forward in the code, and none of them changes the
-- address of the instruction that it fills.
use tbol_toolchain.Base.{
  ℕ, zero, suc, ◌+◌, ◌≤◌, ◌≡◌, refl, ◌∙◌, Bool, ◌&&◌, Option, none, some, List, [], ◌∷◌, length,
  length-drop, arith,
}
use tbol_toolchain.Bytecode.Ir.{Operand}
use tbol_toolchain.Bytecode.Operand.{read_operand}
use tbol_toolchain.Bytecode.Instruction.{
  Instruction, add_operand, read_into, read_mode_bytes, read_operands, read_count, mode_bit,
}

-- What a reader may do to an instruction and the bytes left.
pub record Advances (instr : Instruction) (rest : List ℕ) (r : Instruction × List ℕ) : Type 0 where
  pub address : r.0.address ≡ instr.address
  pub shorter : length r.1 ≤ length rest

pub stays : (instr : Instruction) (rest : List ℕ) → Advances instr rest (instr, rest)
stays instr rest = record { address = refl; shorter = omega arith }

pub Advances-trans :
    {instr : Instruction} {rest : List ℕ} {r s : Instruction × List ℕ}
    → Advances instr rest r
    → Advances r.0 r.1 s
    → Advances instr rest s
Advances-trans a b = record { address = b.address ∙ a.address; shorter = omega arith }

pub length-read_operand :
    (rest : List ℕ) (is_ext : Bool) → length (read_operand rest is_ext).1 ≤ length rest
unfolding read_operand
length-read_operand [] is_ext = omega arith
length-read_operand (b ∷ []) is_ext = ground arith
length-read_operand (b ∷ c ∷ []) is_ext = ground (arith, length-drop {A = ℕ} c [])
length-read_operand (b ∷ c ∷ d ∷ rest) is_ext = ground (arith, length-drop c (d ∷ rest))

pub address-add_operand :
    (instr : Instruction) (op : Option Operand) → (add_operand instr op).address ≡ instr.address
unfolding add_operand
address-add_operand instr none = refl
address-add_operand instr (some op) = refl

pub read_into-Advances :
    (instr : Instruction) (rest : List ℕ) (is_ext : Bool)
    → Advances instr rest (read_into instr rest is_ext)
unfolding read_into
read_into-Advances instr rest is_ext = record {
  address = address-add_operand instr _;
  shorter = length-read_operand rest is_ext;
}

pub length-read_mode_bytes :
    (n : ℕ) (rest : List ℕ) → length (read_mode_bytes n rest).1 ≤ length rest
unfolding read_mode_bytes
length-read_mode_bytes zero rest = omega arith
length-read_mode_bytes (suc n) [] = omega arith
length-read_mode_bytes (suc n) (b ∷ rest) = omega (arith, length-read_mode_bytes n rest)

pub read_operands-Advances :
    (n i : ℕ) (modes : List ℕ) (instr : Instruction) (rest : List ℕ)
    → Advances instr rest (read_operands n i modes instr rest)
unfolding read_operands
read_operands-Advances zero i modes instr rest = record { address = refl; shorter = omega arith }
read_operands-Advances (suc n) i modes instr [] = record { address = refl; shorter = omega arith }
read_operands-Advances (suc n) i modes instr (b ∷ rest) =
    Advances-trans (read_into-Advances instr (b ∷ rest) (instr.is_complex && mode_bit modes i))
      (read_operands-Advances n (i + 1) modes _ _)

pub read_count-Advances :
    (instr : Instruction) (rest : List ℕ) → Advances instr rest (read_count instr rest)
unfolding read_count
read_count-Advances instr [] = record { address = refl; shorter = omega arith }
read_count-Advances instr (c ∷ rest) = record { address = refl; shorter = omega arith }

-- A reader may begin with bytes that it skips.
pub Advances-skip :
    {instr : Instruction} {rest rest' : List ℕ} {r : Instruction × List ℕ}
    → length rest' ≤ length rest
    → Advances instr rest' r
    → Advances instr rest r
Advances-skip h a = record { address = a.address; shorter = omega arith }
