-- ===== src/RoundTrip/Program.antt =====
-- A sequence of calls of `emit_instruction` (compiler/codegen/codegen.c) against `decode_program`
-- (shared/bytecode/decode.c).
use tbol_toolchain.Base.{
  ℕ, zero, suc, ◌≤◌, ◌<◌, ◌≡◌, refl, false, some, List, [], ◌∷◌, ◌++◌, length, length-append, All,
  arith, Bool-cases, inl, inr,
}
use tbol_toolchain.Ast.{AstNode}
use tbol_toolchain.Symtab.{Symtab}
use tbol_toolchain.Codegen.Instruction.{emit_instruction, check_complex_mode}
use tbol_toolchain.Bytecode.Opcodes.{fixed, OpcodeInfo, lookup_opcode}
use tbol_toolchain.Bytecode.Instruction.{Instruction}
use tbol_toolchain.Bytecode.Decode.{decode_loop, decode_sized, decode_program}
use tbol_toolchain.Bytecode.Decode.Tiling.{decode_loop_step, sized_code-small}
use tbol_toolchain.RoundTrip.Meaning.{IsEncodable}
use tbol_toolchain.RoundTrip.Instruction.{IsInstruction, emit_instruction-IsInstruction}

-- An opcode and operands, as `emit_instruction` takes them.
pub record Call : Type 0 where
  pub opcode : ℕ
  pub info : OpcodeInfo
  pub operands : List AstNode

-- The calls that the decoder's table has a fixed layout for.
pub record IsPlain (st : Symtab) (call : Call) : Type 0 where
  pub listed : lookup_opcode call.opcode ≡ some call.info
  pub arity : call.info.operand_count ≡ fixed (length call.operands)
  pub no_jump : call.info.has_offset ≡ false
  pub few : length call.operands ≤ 8
  pub encodable : All (IsEncodable st) call.operands

abbrev pub emit_calls : Symtab → List Call → List ℕ
emit_calls st [] = []
emit_calls st (call ∷ calls) = emit_instruction st call.opcode call.operands ++ emit_calls st calls

abbrev pub AreInstructions : Symtab → List Call → List Instruction → Type 0
AreInstructions st [] [] = Unit
AreInstructions st [] (instr ∷ instrs) = ⊥
AreInstructions st (call ∷ calls) [] = ⊥
AreInstructions st (call ∷ calls) (instr ∷ instrs) =
    IsInstruction st call.opcode call.info call.operands instr × AreInstructions st calls instrs

length-emit_instruction :
    (st : Symtab) (opcode : ℕ) (ops : List AstNode) → 1 ≤ length (emit_instruction st opcode ops)
unfolding emit_instruction
length-emit_instruction st opcode ops = elim (Bool-cases (check_complex_mode st ops)) [
  | inl c ↦ rw c (omega arith)
  | inr c ↦ rw c (omega arith)
]

decode_loop-emit_calls :
    (st : Symtab) (calls : List Call) (stale : ℕ → ℕ → ℕ) (size fuel : ℕ)
    → length (emit_calls st calls) ≤ fuel
    → All (IsPlain st) calls
    → (instrs : List Instruction) × (decode_loop stale size fuel (emit_calls st calls)
        ≡ some instrs)
      × AreInstructions st calls instrs
decode_loop-emit_calls st [] stale size fuel enough plain = ([], unfold decode_loop in refl, tt)
decode_loop-emit_calls st (call ∷ calls) stale size zero enough plain = absurd (
    omega (
      arith,
      length-emit_instruction st call.opcode call.operands,
      length-append (emit_instruction st call.opcode call.operands) (emit_calls st calls),
    ))
decode_loop-emit_calls st (call ∷ calls) stale size (suc fuel) enough (p, plain) =
    let (instr, e, is) =
      emit_instruction-IsInstruction st call.opcode call.info call.operands (emit_calls st calls)
        stale size p.listed p.arity p.no_jump p.few p.encodable in
    let (instrs, e', are) =
      decode_loop-emit_calls st calls stale size fuel
        (omega (
          arith,
          length-emit_instruction st call.opcode call.operands,
          length-append (emit_instruction st call.opcode call.operands) (emit_calls st calls),
        ))
        plain in
    (instr ∷ instrs, decode_loop_step stale size fuel _ e e', (is, are))

-- The code of any number of instructions of less than 64 KiB together, emitted one after the other, is
-- decoded as exactly these instructions in this order, where each has an opcode that the decoder's table lists with its
-- number of operands and without a jump offset, and at most eight operands, all encodable.
pub decode_program-emit_calls :
    (st : Symtab) (calls : List Call) (stale : ℕ → ℕ → ℕ)
    → length (emit_calls st calls) < 65536
    → All (IsPlain st) calls
    → (instrs : List Instruction) × (decode_program stale (emit_calls st calls) ≡ some instrs)
      × AreInstructions st calls instrs
unfolding decode_program decode_sized
decode_program-emit_calls st calls stale small plain =
    rw (sized_code-small (emit_calls st calls) small)
      (decode_loop-emit_calls st calls stale _ _ (omega arith) plain)
