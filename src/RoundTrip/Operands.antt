-- ===== src/RoundTrip/Operands.antt =====
-- The operand loops of compiler/codegen/codegen.c and shared/bytecode/decode.c, against each other.
use tbol_toolchain.Base.{
  ℕ, suc, ◌+◌, ◌≤◌, ◌≡◌, refl, ap, ◌∙◌, Bool, false, ◌&&◌, none, some, List, [], ◌∷◌, ◌++◌, length,
  map, append-nil, append_assoc, All, arith, ltb,
}
use tbol_toolchain.Ast.{AstNode}
use tbol_toolchain.Symtab.{Symtab}
use tbol_toolchain.Codegen.Operand.{needs_extended_encoding, emit_operand}
use tbol_toolchain.Codegen.Instruction.{emit_operands}
use tbol_toolchain.Bytecode.Ir.{Operand}
use tbol_toolchain.Bytecode.Operand.{read_operand}
use tbol_toolchain.Bytecode.Instruction.{
  Instruction, add_operand, read_into, read_mode_bytes, read_operands, mode_bit,
}
use tbol_toolchain.Bytecode.Decode.{read_jump, decode_operands}
use tbol_toolchain.RoundTrip.Meaning.{meaning, IsEncodable}
use tbol_toolchain.RoundTrip.Modes.{ModesFit}
use tbol_toolchain.RoundTrip.Operand.{emit_operand-ReadsBack}

read_operand_nothing : (ext : Bool) → read_operand [] ext ≡ (none, [])
unfolding read_operand
read_operand_nothing ext = refl

read_operands_step :
    (n i : ℕ) (modes : List ℕ) (instr : Instruction) (bytes rest : List ℕ) (op : Operand)
    → read_operand bytes (instr.is_complex && mode_bit modes i) ≡ (some op, rest)
    → read_operands (suc n) i modes instr bytes
      ≡ read_operands n (i + 1) modes (add_operand instr (some op)) rest
unfolding read_operands read_into
read_operands_step n i modes instr [] rest op e =
    cc (read_operand_nothing (instr.is_complex && mode_bit modes i))
read_operands_step n i modes instr (b ∷ bytes) rest op e = rw e refl

abbrev pub add_operands : Instruction → List Operand → Instruction
add_operands instr ops = record instr { operands = instr.operands ++ ops }

-- The operand loop reads back what the operand loop of the code generator wrote.
pub read_operands-emit_operands :
    (st : Symtab) (ops : List AstNode) (i : ℕ) (modes : List ℕ) (instr : Instruction)
    (rest : List ℕ)
    → All (IsEncodable st) ops
    → ModesFit st instr.is_complex modes i ops
    → read_operands (length ops) i modes instr (emit_operands st ops ++ rest)
      ≡ (add_operands instr (map (meaning st) ops), rest)
unfolding emit_operands add_operand
read_operands-emit_operands st [] i modes instr rest enc fit =
    unfold read_operands in rw (append-nil instr.operands) refl
read_operands-emit_operands st (op ∷ ops) i modes instr rest (enc, encs) (fit, fits) =
    let tail = emit_operands st ops ++ rest in
    let e : read_operand (emit_operand st op (needs_extended_encoding st op) ++ tail)
          (instr.is_complex && mode_bit modes i)
        ≡ (some (meaning st op), tail) =
      rw fit (emit_operand-ReadsBack st op enc tail) in
    rw
      (append_assoc (emit_operand st op (needs_extended_encoding st op)) (emit_operands st ops)
        rest)
      (read_operands_step (length ops) i modes instr _ tail (meaning st op) e
        ∙ read_operands-emit_operands st ops (i + 1) modes
            (add_operand instr (some (meaning st op))) rest encs fits
        ∙ ap (λ (os : List Operand). (record instr { operands = os }, rest))
            (append_assoc instr.operands (meaning st op ∷ []) (map (meaning st) ops)))

-- The operands of an instruction with at most eight of them, and no jump offset behind.
pub decode_operands-emit_operands :
    (st : Symtab) (ops : List AstNode) (size mode_byte : ℕ) (has_offset : Bool)
    (instr : Instruction) (rest : List ℕ)
    → has_offset ≡ false
    → length ops ≤ 8
    → All (IsEncodable st) ops
    → ModesFit st instr.is_complex (mode_byte ∷ []) 0 ops
    → decode_operands size has_offset mode_byte (length ops) instr (emit_operands st ops ++ rest)
      ≡ (add_operands instr (map (meaning st) ops), rest)
unfolding decode_operands read_jump read_mode_bytes
decode_operands-emit_operands st ops size mode_byte has_offset instr rest no_jump few enc fit =
    let no_extra : (instr.is_complex && ltb 8 (length ops)) ≡ false = ground arith in
    rw (no_extra, no_jump)
      (rw (read_operands-emit_operands st ops 0 (mode_byte ∷ []) instr rest enc fit) refl)
