-- ===== src/Lib.antt =====
-- The TBOL toolchain: a compiler from TBOL source to Prodigy bytecode, and a decompiler back.
--
-- The compiler (compiler/) parses a program to the nodes of shared/ast.h, collects its declarations
-- into a symbol table (compiler/sema/), and walks the procedures emitting bytes (compiler/codegen/).
-- The decompiler and the disassembler read those bytes back through shared/bytecode/decode.c into the
-- operands and instructions of shared/bytecode/ir.h. The two sides share one encoding and no code, so
-- the library models both and proves them against each other.
--
-- Files:
--   Base       Boolean tests, lists, integers and bytes over the native natural numbers.
--   Symtab     compiler/sema/symtab.c: define_var, define_proc, lookup_var, ... are the functions
--              symtab_*; a Symtab is the file's static state, passed along. Symtab/Names is
--              hash_name and strcasecmp, Symtab/Collect the data sections in collect_declarations
--              of compiler/sema/sema.c; Lookup, Layout and Groups are proofs.
--   Ast        the operand nodes of shared/ast.h.
--   Bytecode   shared/bytecode: Ir and Instruction hold the structures of ir.h, Mnemonic and
--              Opcodes the tables of opcodes.h and decode.c, Operand read_operand and its parts,
--              Special the opcodes with a layout of their own, Decode decode_instruction and
--              decode_program. Opcodes/Table, Decode/Advance, Decode/Tiling and the modules named
--              Progress are proofs.
--   Codegen    compiler/codegen/codegen_operand.c (Literal, Operand), and of codegen.c the
--              instruction emitters (Instruction) and the labels and jumps (Labels). The emitters
--              of emit.c append to one buffer; a function that emits is here the function to the
--              bytes that it appends, but for jumps, which patch the buffer.
--   Verbs      compiler/codegen/codegen_verbs.c: verb_table (Table), the handlers that choose an
--              opcode (Simple), those that look up arrays and structures (Structure), and
--              SET_FUNCTION, SET_ATTRIBUTE, MAKE_FORMAT and DEFINE_FIELD. They return the bytes
--              they append; none stands for a read or write past the end of an array, here and for
--              the missing body of an IF or a WHILE in Statements.
--   Statements gen_statement, gen_proc and codegen_generate of codegen.c with the rest of
--              codegen_control.c: State is the generator's static state, Depending is
--              GOTO_DEPENDING_ON, Conditions the lowering of conditions, Generate that of
--              statements, Program procedures, the header and the object. Waiting, Follows, Ends
--              and its children, Procedure and Generation are proofs: Follows relates the states
--              before and after a part of the code, for one label name, and composes.
--   Validation compiler/sema/sema.c: VerbSpecs is verb_specs, Operands validate_expr and
--              validate_verb, Labels the labels of a procedure, References validate_statement and
--              its parts, Analyze both passes of sema_analyze. An error is counted, not reported.
--              Supported says what the code generator relies on and neither pass checks: a body for
--              each IF and WHILE, and the number of operands of some verbs. Reads, Counts, Exists,
--              Targets and Compile are proofs about what the code generator may rely on.
--   CodFile    shared/bytecode/cod_file.c: the loader of the object that Program writes, and in
--              Segments the search for it in an encapsulated object. A read past the end of the
--              image is a result of its own. RoundTrip, Bounds and Encapsulated are proofs.
--   Procs      shared/bytecode/proc.c: find_procedures and its loops, over decoded instructions.
--              The qsort of the C library is a parameter. Entries, Order and Boundaries are proofs.
--   Control    compiler/codegen/codegen_control.c: the opcodes of comparisons and the terms of OR
--              chains; Control/Terms is proofs.
--   Emit       compiler/codegen/emit.c, the buffer itself: its growth, patches and forward
--              references. Emit/Growth proves that each emitter appends the bytes that Codegen
--              gives it, Emit/Patch is about patches.
--   RoundTrip  the code generator against the decoder. RoundTrip/Meaning says, without the
--              encoding, what an operand of the source becomes once decoded, and which operands the
--              encoding is made for: the place that it names, but for a register with a constant
--              index, which the code generator takes for the register of that number; Operand, Instruction, Variable, Clear and Program
--              follow it from one operand to a sequence of instructions. Jump, Target, Condition
--              and Define are about labels: a jump reaches its label, whichever of the two is
--              emitted first.
--   Tests      the properties at concrete inputs.
--
-- Numbers: a byte is a natural number below 256; an argument cut to 8 or 16 bits is written with u8,
-- u16 or wrap_ℤ, the remainders. An int that can be negative (a constant index) is an integer; one
-- that cannot is a natural number, and no int is taken to overflow. A jump offset, an int16_t, is its
-- bit pattern. The code of a program counts as far as its length fits a uint16_t, prog->code_size, so
-- that theorems on whole programs ask for less than 64 KiB. A position in the code is the list of the bytes that are left, so that the tests of the
-- buffer's bounds are matches on that list.
--
-- Fuel: decode_loop, the loop of decode_program, takes one unit for each instruction, and is given as
-- many as there are bytes. Every instruction takes a byte at least, so the result none, which stands
-- for a lack of fuel, does not occur. The loop of ensure_capacity takes one unit for each doubling, and
-- is given as many as the bytes that the buffer has to hold; from a capacity of 1 on that is enough.
--
-- gen_condition_false_jump calls itself on terms that it has collected in an array. It takes the size of
-- the condition as fuel, and the terms are smaller conditions, so that none for a lack of fuel does not
-- occur either.
--
-- The array raw_offsets of decode_goto_dep is read beyond what was written when the code ends inside a
-- jump table; what C leaves there is the argument stale of the decoder.
--
-- Memory allocation, messages, files, line marks for the debugger and the parser are not modelled.
pub mod Base
pub mod Symtab
pub mod Ast
pub mod Bytecode
pub mod Codegen
pub mod Control
pub mod Emit
pub mod RoundTrip
pub mod Verbs
pub mod Statements
pub mod Validation
pub mod CodFile
pub mod Procs
pub mod Tests
