-- ===== src/Bytecode.antt =====
-- shared/bytecode/: the instruction decoder and what is built on it, in one child for each part.
pub mod Ir
pub mod Operand
pub mod Mnemonic
pub mod Opcodes
pub mod Instruction
pub mod Special
pub mod Decode
