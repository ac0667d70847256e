-- ===== src/Validation.antt =====
-- Pass 2 of compiler/sema/sema.c, and the labels that pass 1 collects: what validation finds wrong,
-- as the number that it adds to `error_count`. Messages and warnings are left out.
pub mod VerbSpecs
pub mod Operands
pub mod Labels
pub mod References
pub mod Reads
pub mod Counts
pub mod Analyze
pub mod Exists
pub mod Supported
pub mod Targets
pub mod Compile
