-- ===== src/Codegen.antt =====
-- compiler/codegen/: the code generator, in one child for each part.
pub mod Literal
pub mod Operand
pub mod Instruction
pub mod Labels
