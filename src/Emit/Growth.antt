-- ===== src/Emit/Growth.antt =====
-- The growing buffer of compiler/codegen/emit.c: the loop ends, and each emitter appends.
use tbol_toolchain.Base.{
  ℕ, zero, suc, ◌+◌, ◌*◌, ◌≤◌, ◌≡◌, refl, ◌∙◌, Option, some, List, ◌++◌, length, take,
  length-append, append_assoc, arith, Bool-cases, inl, inr, ltb, u8,
}
use Prim.Native.Nat.{min}
use tbol_toolchain.Codegen.Literal.{byte_code, word_code, string_code}
use tbol_toolchain.Emit.{
  Buffer, emit_init, grow, ensure_capacity, append, emit_byte, emit_word_be, emit_bytes,
  emit_string_n,
}

-- The buffer holds what was written to it.
pub record IsWellFormed (buf : Buffer) : Type 0 where
  pub positive : 1 ≤ buf.capacity
  pub fits : length buf.bytes ≤ buf.capacity

pub emit_init-IsWellFormed : IsWellFormed emit_init
unfolding emit_init
emit_init-IsWellFormed = record { positive = omega arith; fits = omega arith }

grow_enough :
    (fuel total capacity : ℕ)
    → 1 ≤ capacity
    → total ≤ fuel + capacity
    → (c : ℕ) × (grow fuel total capacity ≡ some c) × (total ≤ c) × (capacity ≤ c)
unfolding grow
grow_enough zero total capacity one enough = (capacity, ground arith, omega arith, omega arith)
grow_enough (suc fuel) total capacity one enough = elim (Bool-cases (ltb capacity total)) [
  | inl e ↦
      let (c, e', above, more) =
        grow_enough fuel total (capacity * 2) (omega arith) (omega arith) in
      (c, rw (e, e'), above, omega arith)
  | inr e ↦ (capacity, rw e, ground arith, omega arith)
]

-- An emitter that appends `code` and nothing else.
abbrev pub Appends : List ℕ → Buffer → Option Buffer → Type 0
Appends code buf r =
    (buf' : Buffer) × (r ≡ some buf')
    × (buf'.bytes ≡ buf.bytes ++ code)
    × (buf'.forward_refs ≡ buf.forward_refs)
    × IsWellFormed buf'

ensure_capacity-append :
    (code : List ℕ) (buf : Buffer)
    → IsWellFormed buf
    → (c : ℕ) × (ensure_capacity (length code) buf ≡ some (record buf { capacity = c }))
      × IsWellFormed (append code (record buf { capacity = c }))
unfolding ensure_capacity
ensure_capacity-append code buf wf =
    let total = length buf.bytes + length code in
    let (c, e, above, more) = grow_enough total total buf.capacity wf.positive (omega arith) in
    (
      c,
      rw e,
      record {
        positive = omega (arith, wf.positive);
        fits = omega (arith, length-append buf.bytes code);
      },
    )

pub emit_bytes-Appends :
    (code : List ℕ) (buf : Buffer) → IsWellFormed buf → Appends code buf (emit_bytes code buf)
unfolding emit_bytes
emit_bytes-Appends code buf wf =
    let (c, e, wf') = ensure_capacity-append code buf wf in
    (append code (record buf { capacity = c }), rw e, refl, refl, wf')

pub emit_byte-Appends :
    (b : ℕ) (buf : Buffer) → IsWellFormed buf → Appends (byte_code b) buf (emit_byte b buf)
unfolding emit_byte
emit_byte-Appends b buf wf =
    let (c, e, wf') = ensure_capacity-append (byte_code b) buf wf in
    (append (byte_code b) (record buf { capacity = c }), rw e, refl, refl, wf')

pub emit_word_be-Appends :
    (w : ℕ) (buf : Buffer) → IsWellFormed buf → Appends (word_code w) buf (emit_word_be w buf)
unfolding emit_word_be
emit_word_be-Appends w buf wf =
    let (c, e, wf') = ensure_capacity-append (word_code w) buf wf in
    (append (word_code w) (record buf { capacity = c }), rw e, refl, refl, wf')

-- Emitting a text into a buffer whose size is within its capacity ends, whatever the length of the
-- text: it appends the two bytes of prefix and the first 255 bytes of the text, leaves what was
-- written before and the forward references alone, and the size is within the capacity again.
pub emit_string_n-Appends :
    (str : List ℕ) (buf : Buffer)
    → IsWellFormed buf
    → Appends (string_code str) buf (emit_string_n str buf)
unfolding emit_string_n string_code
emit_string_n-Appends str buf wf =
    let (b₁, e₁, s₁, r₁, wf₁) = emit_byte-Appends 0 buf wf in
    let (b₂, e₂, s₂, r₂, wf₂) = emit_byte-Appends (min (length str) 255) b₁ wf₁ in
    let (b₃, e₃, s₃, r₃, wf₃) = emit_bytes-Appends (take (min (length str) 255) str) b₂ wf₂ in
    let len : u8 (min (length str) 255) ≡ min (length str) 255 = omega arith in
    (b₃, rw (e₁, e₂) e₃, rw (s₃, s₂, s₁, len) simp append_assoc, r₃ ∙ r₂ ∙ r₁, wf₃)
