-- ===== src/Bytecode/Instruction.antt =====
-- The decoded instruction of shared/bytecode/ir.h, and the readers of shared/bytecode/decode.c that
-- several opcodes share. A reader takes an instruction and the bytes that are left, and returns both.
-- An `int16_t` is its bit pattern, below 65536.
pub mod Progress
use Prim.Native.String.{String}
use tbol_toolchain.Base.{
  ℕ, zero, suc, ◌+◌, ◌-◌, ◌*◌, ◌/◌, ◌%◌, ◌^◌, Bool, true, false, ◌&&◌, Option, none, some, List, [],
  ◌∷◌, ◌++◌, get_or, ◌==◌, u16,
}
use tbol_toolchain.Bytecode.Ir.{Operand}
use tbol_toolchain.Bytecode.Mnemonic.{Mnemonic}
use tbol_toolchain.Bytecode.Operand.{read_operand}

pub record Instruction : Type 0 where
  pub address : ℕ
  pub length : ℕ
  pub raw_opcode : ℕ
  pub opcode : ℕ
  pub is_complex : Bool
  pub mode_byte : ℕ
  pub mnemonic : Mnemonic
  pub mnem_str : String
  pub operands : List Operand
  pub has_jump : Bool
  pub jump_offset : ℕ
  pub jump_target : ℕ
  pub var_count : ℕ
  pub send_timeout : ℕ
  pub send_flags : ℕ

-- `calloc`, with the address cut to 16 bits.
unfoldable pub instruction_new : ℕ → Instruction
instruction_new address = record {
  address = u16 address;
  length = 0;
  raw_opcode = 0;
  opcode = 0;
  is_complex = false;
  mode_byte = 0;
  mnemonic = Mnemonic.unknown;
  mnem_str = "";
  operands = [];
  has_jump = false;
  jump_offset = 0;
  jump_target = 0;
  var_count = 0;
  send_timeout = 0;
  send_flags = 0;
}

-- `if (op) instruction_add_operand(instr, op)`
unfoldable pub add_operand : Instruction → Option Operand → Instruction
add_operand instr none = instr
add_operand instr (some op) = record instr { operands = instr.operands ++ (op ∷ []) }

-- `byte & (1 << k)`
abbrev pub test_bit : ℕ → ℕ → Bool
test_bit byte k = byte / 2 ^ k % 2 == 1

-- `read_operand` and the test of its result.
unfoldable pub read_into : Instruction → List ℕ → Bool → Instruction × List ℕ
unfolding add_operand
read_into instr rest is_ext =
    let (op, rest') = read_operand rest is_ext in (add_operand instr op, rest')

-- `for (m = 0; m < extra && *pos < size; m++) mode_bytes[m + 1] = code[(*pos)++];`
unfoldable pub read_mode_bytes : ℕ → List ℕ → List ℕ × List ℕ
read_mode_bytes zero rest = ([], rest)
read_mode_bytes (suc n) [] = ([], [])
read_mode_bytes (suc n) (b ∷ rest) =
    let (modes, rest') = read_mode_bytes n rest in (b ∷ modes, rest')

-- The mode bit of operand i: `mode_bytes[i / 8] & (1 << (7 - i % 8))`, where a byte that was not
-- read is 0.
abbrev pub mode_bit : List ℕ → ℕ → Bool
mode_bit modes i = test_bit (get_or modes (i / 8) 0) (7 - i % 8)

-- The operand loop with n rounds left, at operand i; it ends at the end of the code.
unfoldable pub read_operands : ℕ → ℕ → List ℕ → Instruction → List ℕ → Instruction × List ℕ
unfolding read_into
read_operands zero i modes instr rest = (instr, rest)
read_operands (suc n) i modes instr [] = (instr, [])
read_operands (suc n) i modes instr (b ∷ rest) =
    let (instr', rest') = read_into instr (b ∷ rest) (instr.is_complex && mode_bit modes i) in
    read_operands n (i + 1) modes instr' rest'

-- `decode_clear`, `decode_save` and `decode_move_block`: the count byte.
unfoldable pub read_count : Instruction → List ℕ → Instruction × List ℕ
read_count instr [] = (instr, [])
read_count instr (c ∷ rest) = (record instr { var_count = c }, rest)
