-- ===== src/RoundTrip.antt =====
-- What the compiler writes, the decoder of the other tools reads back: the two halves of the tool
-- chain meet here.
pub mod Meaning
pub mod Place
pub mod Literal
pub mod Element
pub mod Index
pub mod Modes
pub mod Operand
pub mod Operands
pub mod Instruction
pub mod Variable
pub mod Clear
pub mod Program
pub mod Word
pub mod Jump
pub mod Ready
pub mod Target
pub mod Define
pub mod Condition
