-- ===== src/Emit/Patch.antt =====
-- Patching the buffer of compiler/codegen/emit.c.
use tbol_toolchain.Base.{
  ℕ, zero, suc, ◌/◌, ◌<◌, ◌≡◌, refl, ap, ◌∙◌, true, List, [], ◌∷◌, length, take, drop, set, arith,
  ltb, u8, u16, length-set,
}
use tbol_toolchain.Bytecode.Operand.{read_offset}
use tbol_toolchain.Emit.{Buffer, emit_patch_word_be}

-- Two adjacent writes, read at the place where they were made.
set_pair :
    (xs : List ℕ) (i a b : ℕ)
    → suc i < length xs
    → drop i (set (set xs i a) (suc i) b) ≡ a ∷ b ∷ drop (suc (suc i)) xs
set_pair [] i a b h = absurd (omega arith)
set_pair (x ∷ []) zero a b h = absurd (omega arith)
set_pair (x ∷ y ∷ xs) zero a b h = refl
set_pair (x ∷ xs) (suc i) a b h = set_pair xs i a b (omega arith)

set_pair_before : (xs : List ℕ) (i a b : ℕ) → take i (set (set xs i a) (suc i) b) ≡ take i xs
set_pair_before [] zero a b = refl
set_pair_before [] (suc i) a b = refl
set_pair_before (x ∷ xs) zero a b = refl
set_pair_before (x ∷ xs) (suc i) a b = ap (λ (t : List ℕ). x ∷ t) (set_pair_before xs i a b)

-- A word patched where two bytes are written is what the decoder's `read_offset` reads there, modulo
-- 2 ^ 16, and no byte before or behind the two changes.
pub emit_patch_word_be-read_offset :
    (offset value : ℕ) (buf : Buffer)
    → suc offset < length buf.bytes
    → let buf' = emit_patch_word_be offset value buf in
      (read_offset (drop offset buf'.bytes) ≡ (u16 value, drop (suc (suc offset)) buf.bytes))
      × (take offset buf'.bytes ≡ take offset buf.bytes)
      × (length buf'.bytes ≡ length buf.bytes)
unfolding emit_patch_word_be read_offset
emit_patch_word_be-read_offset offset value buf h =
    let in_bounds : ltb (suc offset) (length buf.bytes) ≡ true = ground arith in
    rw in_bounds (
      rw (set_pair buf.bytes offset (u8 (value / 256)) (u8 value) h)
          (ap (λ (w : ℕ). (w, drop (suc (suc offset)) buf.bytes)) (omega arith)),
      set_pair_before buf.bytes offset (u8 (value / 256)) (u8 value),
      length-set (set buf.bytes offset (u8 (value / 256))) (suc offset) (u8 value)
          ∙ length-set buf.bytes offset (u8 (value / 256)),
    )
