-- ===== src/RoundTrip/Modes.antt =====
-- The mode bits of compiler/codegen/codegen.c, read back one by one as shared/bytecode/decode.c does.
use tbol_toolchain.Base.{
  ℕ, zero, suc, ◌+◌, ◌-◌, ◌*◌, ◌/◌, ◌%◌, ◌^◌, ◌≤◌, ◌<◌, ◌≡◌, sym, ap, ◌∙◌, Bool, true, false, ◌&&◌,
  List, [], ◌∷◌, length, arith, if◌then◌else◌, Bool-cases, inl, inr,
}
use native.Mathlib.Nat.{two-pow-succ}
use tbol_toolchain.Ast.{AstNode}
use tbol_toolchain.Symtab.{Symtab}
use tbol_toolchain.Codegen.Operand.{needs_extended_encoding}
use tbol_toolchain.Codegen.Instruction.{check_complex_mode, mode_group}
use tbol_toolchain.Bytecode.Instruction.{mode_bit, test_bit}

-- The decoder, in the complex form or not, takes each operand from the i-th on for what it is.
abbrev pub ModesFit : Symtab → Bool → List ℕ → ℕ → List AstNode → Type 0
ModesFit st complex modes i [] = Unit
ModesFit st complex modes i (op ∷ ops) =
    ((complex && mode_bit modes i) ≡ needs_extended_encoding st op)
    × ModesFit st complex modes (i + 1) ops

pub simple-ModesFit :
    (st : Symtab) (ops : List AstNode) (modes : List ℕ) (i : ℕ)
    → check_complex_mode st ops ≡ false
    → ModesFit st false modes i ops
unfolding check_complex_mode
simple-ModesFit st [] modes i e = tt
simple-ModesFit st (op ∷ ops) modes i e = elim (Bool-cases (needs_extended_encoding st op)) [
  | inl n ↦ cc (rw n at e)
  | inr n ↦ (sym n, simple-ModesFit st ops modes (i + 1) (rw n at e))
]

top_bit :
    (k h r : ℕ) (b : Bool)
    → k ≤ 7
    → r < 2 ^ k
    → test_bit (h * 2 ^ suc k + ((if b then 2 ^ k else 0) + r)) k ≡ b
top_bit zero h r b le lt = ground arith
top_bit (suc zero) h r b le lt = ground arith
top_bit (suc (suc zero)) h r b le lt = ground arith
top_bit (suc (suc (suc zero))) h r b le lt = ground arith
top_bit (suc (suc (suc (suc zero)))) h r b le lt = ground arith
top_bit (suc (suc (suc (suc (suc zero))))) h r b le lt = ground arith
top_bit (suc (suc (suc (suc (suc (suc zero)))))) h r b le lt = ground arith
top_bit (suc (suc (suc (suc (suc (suc (suc zero))))))) h r b le lt = ground arith
top_bit (suc (suc (suc (suc (suc (suc (suc (suc k)))))))) h r b le lt = absurd (omega arith)

mode_group-lt : (st : Symtab) (k : ℕ) (ops : List AstNode) → mode_group st k ops < 2 ^ k
unfolding mode_group
mode_group-lt st zero ops = omega arith
mode_group-lt st (suc k) [] = omega (arith, two-pow-succ k, mode_group-lt st k [])
mode_group-lt st (suc k) (op ∷ ops) = ground (arith, two-pow-succ k, mode_group-lt st k ops)

next_group :
    (h q r m : ℕ) (b : Bool)
    → h * (q + q) + ((if b then q else 0) + r) ≡ m
    → (h * 2 + (if b then 1 else 0)) * q + r ≡ m
next_group h q r m true e = omega arith
next_group h q r m false e = omega arith

-- A group of k bits below h fits the operands from 8 - k on.
group-ModesFit :
    (st : Symtab) (ops : List AstNode) (k h m : ℕ) (modes : List ℕ)
    → k ≤ 8
    → length ops ≤ k
    → h * 2 ^ k + mode_group st k ops ≡ m
    → ModesFit st true (m ∷ modes) (8 - k) ops
unfolding mode_group
group-ModesFit st [] k h m modes le fits e = tt
group-ModesFit st (op ∷ ops) zero h m modes le fits e = absurd (omega arith)
group-ModesFit st (op ∷ ops) (suc k) h m modes le fits e =
    let byte : (8 - suc k) / 8 ≡ 0 = omega arith in
    let bit : 7 - (8 - suc k) % 8 ≡ k = omega arith in
    let next : 8 - suc k + 1 ≡ 8 - k = omega arith in
    let b = needs_extended_encoding st op in
    let r = mode_group st k ops in
    (
      rw (byte, bit)
          (ap (λ (t : ℕ). test_bit t k) (sym e)
            ∙ top_bit k h r b (omega arith) (mode_group-lt st k ops)),
      rw next (
          group-ModesFit st ops k (h * 2 + (if b then 1 else 0)) m modes (omega arith) (omega arith)
            (next_group h (2 ^ k) r m b (rw (two-pow-succ k) at e))),
    )

pub complex-ModesFit :
    (st : Symtab) (ops : List AstNode) (modes : List ℕ)
    → length ops ≤ 8
    → ModesFit st true (mode_group st 8 ops ∷ modes) 0 ops
complex-ModesFit st ops modes fits =
    group-ModesFit st ops 8 0 (mode_group st 8 ops) modes (omega arith) fits (omega arith)
