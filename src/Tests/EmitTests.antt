-- ===== src/Tests/EmitTests.antt =====
-- Tests of the output buffer.
use tbol_toolchain.Base.{ℕ, ◌≡◌, List, [], ◌∷◌, arith, length, take, drop, u16}
use tbol_toolchain.Codegen.Literal.{string_code}
use tbol_toolchain.Bytecode.Operand.{read_offset}
use tbol_toolchain.Emit.{Buffer, emit_init, emit_string_n, emit_patch_word_be}
use tbol_toolchain.Emit.Growth.{Appends, emit_init-IsWellFormed, emit_string_n-Appends}
use tbol_toolchain.Emit.Patch.{emit_patch_word_be-read_offset}

abbrev text : List ℕ
text = 72 ∷ 105 ∷ []

emit_string_n-Appends_example : Appends (string_code text) emit_init (emit_string_n text emit_init)
emit_string_n-Appends_example = emit_string_n-Appends text emit_init emit_init-IsWellFormed

abbrev jump_buffer : Buffer
jump_buffer = record { bytes = 7 ∷ 0 ∷ 0 ∷ 40 ∷ []; capacity = 4096; forward_refs = [] }

emit_patch_word_be-read_offset_example :
    (read_offset (drop 1 (emit_patch_word_be 1 0xfffd jump_buffer).bytes)
      ≡ (u16 0xfffd, drop {A = ℕ} 3 (7 ∷ 0 ∷ 0 ∷ 40 ∷ [])))
    × (take 1 (emit_patch_word_be 1 0xfffd jump_buffer).bytes
        ≡ take {A = ℕ} 1 (7 ∷ 0 ∷ 0 ∷ 40 ∷ []))
    × (length (emit_patch_word_be 1 0xfffd jump_buffer).bytes ≡ 4)
emit_patch_word_be-read_offset_example =
    emit_patch_word_be-read_offset 1 0xfffd jump_buffer (omega arith)
