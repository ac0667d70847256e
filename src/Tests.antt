-- ===== src/Tests.antt =====
-- The properties at concrete inputs, part by part.
mod SymtabTests
mod RoundTripTests
mod ControlTests
mod DecodeTests
mod EmitTests
mod InstructionTests
mod JumpTests
mod StatementTests
mod ValidationTests
mod CodFileTests
mod ProcsTests
