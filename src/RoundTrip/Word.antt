-- ===== src/RoundTrip/Word.antt =====
-- The word that the decoder's `read_offset` finds at a place in the buffer of
-- compiler/codegen/emit.c, and what patches elsewhere do to it.
use tbol_toolchain.Base.{
  ℕ, zero, suc, ◌+◌, ◌-◌, ◌*◌, ◌/◌, ◌≤◌, ◌<◌, ◌≡◌, ◌≢◌, refl, sym, ap, ap₂, ◌∙◌, true, Option, none,
  some, List, [], ◌∷◌, length, drop, set, get_elem?, get_elem?-set_ne, length-set, length-drop,
  arith, ltb, u8, u16, ◌⊎◌, inl, inr, Bool-cases,
}
use tbol_toolchain.Bytecode.Operand.{read_offset}
use tbol_toolchain.Bytecode.Instruction.{Instruction}
use tbol_toolchain.Bytecode.Decode.{read_jump}
use tbol_toolchain.Codegen.Labels.{jump_offset_to}
use tbol_toolchain.Emit.{Buffer, emit_patch_word_be}
use tbol_toolchain.Emit.Patch.{emit_patch_word_be-read_offset}

abbrev pub word_at : List ℕ → ℕ → ℕ
word_at bytes p = (read_offset (drop p bytes)).0

abbrev two : Option ℕ → Option ℕ → ℕ
two (some a) (some b) = a * 256 + b
two (some a) none = 0
two none b = 0

word_at-get_elem? :
    (bytes : List ℕ) (p : ℕ) → word_at bytes p ≡ two (get_elem? bytes p) (get_elem? bytes (suc p))
unfolding read_offset
word_at-get_elem? [] zero = refl
word_at-get_elem? [] (suc p) = refl
word_at-get_elem? (a ∷ []) zero = refl
word_at-get_elem? (a ∷ b ∷ bytes) zero = refl
word_at-get_elem? (a ∷ bytes) (suc p) = word_at-get_elem? bytes p

-- The words at two places have no byte in common.
abbrev pub Apart : ℕ → ℕ → Type 0
Apart p q = (p + 2 ≤ q) ⊎ (q + 2 ≤ p)

set-word_at :
    (bytes : List ℕ) (p q v : ℕ) → p ≢ q → suc p ≢ q → word_at (set bytes q v) p ≡ word_at bytes p
set-word_at bytes p q v n n' =
    word_at-get_elem? (set bytes q v) p
    ∙ ap₂ two (get_elem?-set_ne bytes q p v (λ e. n (sym e)))
        (get_elem?-set_ne bytes q (suc p) v (λ e. n' (sym e)))
    ∙ sym (word_at-get_elem? bytes p)

pub patch-word_at :
    (p q v : ℕ) (buf : Buffer)
    → Apart p q
    → word_at (emit_patch_word_be q v buf).bytes p ≡ word_at buf.bytes p
unfolding emit_patch_word_be
patch-word_at p q v buf apart = elim (Bool-cases (ltb (suc q) (length buf.bytes))) [
  | inl e ↦ rw e (
      set-word_at (set buf.bytes q (u8 (v / 256))) p (suc q) (u8 v) (λ n. omega arith)
        (λ n. omega arith)
      ∙ set-word_at buf.bytes p q (u8 (v / 256)) (λ n. omega arith) (λ n. omega arith))
  | inr e ↦ rw e refl
]

pub patch-length :
    (q v : ℕ) (buf : Buffer) → length (emit_patch_word_be q v buf).bytes ≡ length buf.bytes
unfolding emit_patch_word_be
patch-length q v buf = elim (Bool-cases (ltb (suc q) (length buf.bytes))) [
  | inl e ↦ rw e (
      length-set (set buf.bytes q (u8 (v / 256))) (suc q) (u8 v)
      ∙ length-set buf.bytes q (u8 (v / 256)))
  | inr e ↦ rw e refl
]

pub patch-word_at_self :
    (q v : ℕ) (buf : Buffer)
    → suc q < length buf.bytes
    → word_at (emit_patch_word_be q v buf).bytes q ≡ u16 v
patch-word_at_self q v buf h =
    ap (λ (r : ℕ × List ℕ). r.0) (emit_patch_word_be-read_offset q v buf h).0

length-read_offset :
    (bytes : List ℕ) → 2 ≤ length bytes → length (read_offset bytes).1 + 2 ≡ length bytes
unfolding read_offset
length-read_offset [] h = absurd (omega arith)
length-read_offset (a ∷ []) h = absurd (omega arith)
length-read_offset (a ∷ b ∷ bytes) h = omega arith

-- The decoder, on the code from `start` to the end of the buffer, takes the jump whose offset is
-- written at `patch` to lead to `target`.
abbrev pub Reaches : ℕ → List ℕ → ℕ → ℕ → Type 0
Reaches start bytes patch target =
    (instr : Instruction)
    → (read_jump (length bytes - start) true instr (drop patch bytes)).0.jump_target
      ≡ target - start

pub word_at-Reaches :
    (start : ℕ) (bytes : List ℕ) (patch target : ℕ)
    → start ≤ patch
    → suc patch < length bytes
    → start ≤ target
    → target < start + 65536
    → word_at bytes patch ≡ u16 (jump_offset_to target patch)
    → Reaches start bytes patch target
unfolding read_jump
word_at-Reaches start bytes patch target above inside from near e instr =
    let long : ltb 1 (length (drop patch bytes)) ≡ true = ground (arith, length-drop patch bytes) in
    rw long (
      rw e (
        ground (
          arith,
          length-drop patch bytes,
          length-read_offset (drop patch bytes) (omega (arith, length-drop patch bytes)),
        )))
