-- ===== src/RoundTrip/Literal.antt =====
-- String, numeric and hexadecimal literals: `emit_string_n` and the hex case of `emit_operand`
-- against the string case of `read_operand`.
use tbol_toolchain.Base.{
  ℕ, ◌+◌, ◌*◌, ◌/◌, ◌%◌, ◌≤◌, ◌≡◌, refl, ap, ◌∙◌, All, Bool, false, some, ◌⊎◌, leb, if◌then◌else◌,
  ◌-◌, List, [], ◌∷◌, ◌++◌, length, take-length_append, drop-length_append, length-append, take-all,
  ◌==◌, u8, arith, Bool-cases, inl, inr,
}
use Prim.Native.Nat.{min}
use tbol_toolchain.Bytecode.Ir.{operand_new_str}
use tbol_toolchain.Bytecode.Operand.{read_operand}
use tbol_toolchain.Codegen.Literal.{
  string_code, hex_code, hex_bytes, hex_pairs, hex_digit, nibbles, skip_0x,
}

-- A literal that was not cut is a string operand, in either mode.
pub read_operand-string :
    (str rest : List ℕ) (ext : Bool)
    → read_operand ((0x00 ∷ length str ∷ str) ++ rest) ext ≡ (some (operand_new_str str), rest)
unfolding read_operand
read_operand-string str rest ext =
    rw (take-length_append str rest, drop-length_append str rest)
      (ground (arith, length-append str rest))

pub string_code_short :
    (str : List ℕ) → length str ≤ 255 → string_code str ≡ 0x00 ∷ length str ∷ str
unfolding string_code
string_code_short str h =
    let e : min (length str) 255 ≡ length str = omega arith in
    rw (e, take-all (length str) str (omega arith))

length-hex_pairs : (text : List ℕ) → length (hex_pairs text) ≡ (length text + 1) / 2
unfolding hex_pairs
length-hex_pairs [] = omega arith
length-hex_pairs (a ∷ []) = omega arith
length-hex_pairs (a ∷ b ∷ text) = omega (arith, length-hex_pairs text)

odd_of_test : (m : ℕ) → ((m + 1) % 2 == 0) ≡ false → (m + 1) % 2 ≡ 1
odd_of_test m e = ground arith

-- Two digits are a byte, and a single one is another.
length-hex_bytes : (text : List ℕ) → length (hex_bytes text) ≡ (length text + 1) / 2
unfolding hex_bytes
length-hex_bytes [] = omega arith
length-hex_bytes (a ∷ text) = elim (Bool-cases ((length text + 1) % 2 == 0)) [
  | inl e ↦ rw e (omega (arith, length-hex_pairs (a ∷ text)))
  | inr e ↦ rw e (omega (arith, length-hex_pairs text, odd_of_test (length text) e))
]

pub hex_code_short :
    (text : List ℕ)
    → length (skip_0x text) ≤ 510
    → hex_code text ≡ 0x00 ∷ length (hex_bytes (skip_0x text)) ∷ hex_bytes (skip_0x text)
unfolding hex_code
hex_code_short text h =
    let e : u8 ((length (skip_0x text) + 1) / 2) ≡ length (hex_bytes (skip_0x text)) =
      omega (arith, length-hex_bytes (skip_0x text)) in
    rw e

-- 0 to 9, A to F and a to f.
abbrev pub IsHexDigit : ℕ → Type 0
IsHexDigit c = ((48 ≤ c) × (c ≤ 57)) ⊎ (((65 ≤ c) × (c ≤ 70)) ⊎ ((97 ≤ c) × (c ≤ 102)))

abbrev pub digit_value : ℕ → ℕ
digit_value c = if leb c 57 then c - 48 else if leb c 70 then c - 55 else c - 87

-- What the digits write, and the bytes, most significant first, behind a number so far.
abbrev pub hex_value : ℕ → List ℕ → ℕ
hex_value n [] = n
hex_value n (c ∷ text) = hex_value (n * 16 + digit_value c) text

abbrev pub bytes_value : ℕ → List ℕ → ℕ
bytes_value n [] = n
bytes_value n (b ∷ bytes) = bytes_value (n * 256 + b) bytes

hex_digit_value : (c : ℕ) → IsHexDigit c → hex_digit c ≡ some (digit_value c)
unfolding hex_digit
hex_digit_value c (inl h) = ground arith
hex_digit_value c (inr (inl h)) = ground arith
hex_digit_value c (inr (inr h)) = ground arith

hex_pairs_value :
    (text : List ℕ) (n : ℕ)
    → length text % 2 ≡ 0
    → All IsHexDigit text
    → bytes_value n (hex_pairs text) ≡ hex_value n text
unfolding hex_pairs
hex_pairs_value [] n even digits = refl
hex_pairs_value (a ∷ []) n even digits = absurd (omega arith)
hex_pairs_value (a ∷ b ∷ text) n even (ha, (hb, digits)) =
    let pair : nibbles (hex_digit a) (hex_digit b) ≡ digit_value a * 16 + digit_value b =
      rw (hex_digit_value a ha, hex_digit_value b hb) refl in
    let same : n * 256 + nibbles (hex_digit a) (hex_digit b)
        ≡ (n * 16 + digit_value a) * 16 + digit_value b =
      omega (arith, pair) in
    ap (λ (m : ℕ). bytes_value m (hex_pairs text)) same
    ∙ hex_pairs_value text _ (omega arith) digits

hex_bytes_value :
    (text : List ℕ) → All IsHexDigit text → bytes_value 0 (hex_bytes text) ≡ hex_value 0 text
unfolding hex_bytes
hex_bytes_value [] digits = refl
hex_bytes_value (a ∷ text) (h, digits) = elim (Bool-cases ((length text + 1) % 2 == 0)) [
  | inl e ↦ rw e (hex_pairs_value (a ∷ text) 0 (ground arith) (h, digits))
  | inr e ↦
      rw (e, hex_digit_value a h)
        (hex_pairs_value text _ (omega (arith, odd_of_test (length text) e)) digits)
]

-- A hexadecimal literal of at most 510 digits, besides the 0x in front, is decoded as a string of
-- bytes in either mode, and exactly the bytes that follow are left: there is a byte for two digits,
-- and one more if their number is odd, and the bytes, most significant first, are the number that the
-- digits write.
pub read_operand-hex_code :
    (text rest : List ℕ) (ext : Bool)
    → length (skip_0x text) ≤ 510
    → All IsHexDigit (skip_0x text)
    → (bytes : List ℕ) × (read_operand (hex_code text ++ rest) ext
        ≡ (some (operand_new_str bytes), rest))
      × (length bytes ≡ (length (skip_0x text) + 1) / 2)
      × (bytes_value 0 bytes ≡ hex_value 0 (skip_0x text))
read_operand-hex_code text rest ext few digits = (
  hex_bytes (skip_0x text),
  rw (hex_code_short text few) (read_operand-string (hex_bytes (skip_0x text)) rest ext),
  length-hex_bytes (skip_0x text),
  hex_bytes_value (skip_0x text) digits,
)
