-- ===== src/Codegen/Literal.antt =====
-- The literals of compiler/codegen/codegen_operand.c and the bytes of the emitters of
-- compiler/codegen/emit.c. The emitters append to one buffer; here a function that emits returns the
-- bytes that it appends, in order.
use tbol_toolchain.Base.{
  ℕ, ◌+◌, ◌-◌, ◌*◌, ◌/◌, ◌%◌, Option, none, some, List, [], ◌∷◌, length, take, leb, ◌==◌, ◌&&◌,
  ◌||◌, if◌then◌else◌, u8, ℤ, pos, ◌-ℤ◌,
}
use Prim.Native.Nat.{min}

-- The bytes that `emit_byte` and `emit_word_be` append for an `int` argument.
abbrev pub byte_code : ℕ → List ℕ
byte_code b = u8 b ∷ []

abbrev pub word_code : ℕ → List ℕ
word_code w = u8 (w / 256) ∷ u8 w ∷ []

-- The bytes of `emit_string_n`, and of `emit_string` on a text without NUL: cut at 255.
unfoldable pub string_code : List ℕ → List ℕ
string_code str = let len = min (length str) 255 in 0x00 ∷ len ∷ take len str

-- `atoi` of a literal's text, which is digits with perhaps a sign in front and a fraction behind.
unfoldable pub digits_value : ℕ → List ℕ → ℕ
digits_value acc [] = acc
digits_value acc (c ∷ text) =
    let rest = digits_value (acc * 10 + (c - 48)) text in if leb 48 c && leb c 57 then rest else acc

unfoldable pub atoi : List ℕ → ℤ
unfolding digits_value
atoi [] = pos 0
atoi (c ∷ text) =
    if c == b'-' then pos 0 -ℤ pos (digits_value 0 text) else pos (digits_value 0 (c ∷ text))

-- The value of a hexadecimal digit.
unfoldable pub hex_digit : ℕ → Option ℕ
hex_digit c =
    if leb 48 c && leb c 57
    then some (c - 48)
    else if leb 65 c && leb c 70
    then some (c - 55)
    else if leb 97 c && leb c 102
    then some (c - 87)
    else none

-- `strtol(pair, NULL, 16)` on at most two characters: it stops at what is no digit.
abbrev pub nibbles : Option ℕ → Option ℕ → ℕ
nibbles (some hi) (some lo) = hi * 16 + lo
nibbles (some hi) none = hi
nibbles none lo = 0

unfoldable pub hex_pairs : List ℕ → List ℕ
unfolding hex_digit
hex_pairs [] = []
hex_pairs (a ∷ []) = nibbles (hex_digit a) none ∷ []
hex_pairs (a ∷ b ∷ text) = nibbles (hex_digit a) (hex_digit b) ∷ hex_pairs text

-- The bytes of a digit string: where their number is odd, the first stands alone.
unfoldable pub hex_bytes : List ℕ → List ℕ
unfolding hex_pairs hex_digit
hex_bytes [] = []
hex_bytes (a ∷ text) =
    if (length text + 1) % 2 == 0
    then hex_pairs (a ∷ text)
    else nibbles (hex_digit a) none ∷ hex_pairs text

unfoldable pub skip_0x : List ℕ → List ℕ
skip_0x (z ∷ x ∷ text) = if z == b'0' && (x == b'x' || x == b'X') then text else z ∷ x ∷ text
skip_0x text = text

-- `case AST_LITERAL_HEX` of `emit_operand`; the count is cut to a byte, the digits are not.
unfoldable pub hex_code : List ℕ → List ℕ
unfolding hex_bytes skip_0x
hex_code text = let digits = skip_0x text in 0x00 ∷ u8 ((length digits + 1) / 2) ∷ hex_bytes digits
