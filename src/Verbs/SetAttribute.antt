-- ===== src/Verbs/SetAttribute.antt =====
-- SET_ATTRIBUTE of compiler/codegen/codegen_verbs.c. The text of a literal has no NUL. The values
-- that `sscanf` reads are taken to fit an `int`.
use tbol_toolchain.Base.{
  ℕ, suc, ◌+◌, ◌-◌, ◌*◌, Bool, ◌&&◌, ◌||◌, Option, none, some, List, [], ◌∷◌, ◌++◌, length, drop,
  leb, ◌==◌, if◌then◌else◌, u8, ◌>>=◌, ℤ, pos, ◌-ℤ◌, wrap_ℤ, codes, starts_with, find_text,
}
use tbol_toolchain.Symtab.{is_some}
use tbol_toolchain.Ast.{AstNode, literal_str}
use tbol_toolchain.Symtab.{Symtab}
use tbol_toolchain.Codegen.Instruction.{emit_instruction}
use tbol_toolchain.Bytecode.Opcodes.Flow.{op_set_att}

-- `strstr(attr_str, part)` as a test.
abbrev has : List ℕ → List ℕ → Bool
has part attr = is_some (find_text part attr)

unfoldable pub context_byte : List ℕ → ℕ
unfolding find_text
context_byte attr =
    if has (codes "PP_NOT_FIRED") attr
    then 0x08
    else if has (codes "ACTION") attr
    then 0x80
    else if has (codes "DISPLAY") attr
    then 0x40
    else if has (codes "INPUT") attr
    then 0x20
    else 0

-- The type without the flag of FORM.
unfoldable pub plain_type : List ℕ → ℕ
unfolding find_text starts_with
plain_type attr =
    if has (codes "ALPHABETIC") attr
    then 0x80
    else if has (codes "PASSWORD") attr
    then 0x10
    else if has (codes " NUMERIC") attr || starts_with (codes "NUMERIC") attr
    then 0x40
    else 0

-- `isspace`
is_space : ℕ → Bool
is_space c = c == 32 || leb 9 c && leb c 13

skip_spaces : List ℕ → List ℕ
unfolding is_space
skip_spaces [] = []
skip_spaces (c ∷ text) = let rest = skip_spaces text in if is_space c then rest else c ∷ text

is_digit : ℕ → Bool
is_digit c = leb 48 c && leb c 57

-- The digits at the front, as a number, and what follows them.
scan_digits : ℕ → List ℕ → ℕ × List ℕ
unfolding is_digit
scan_digits acc [] = (acc, [])
scan_digits acc (c ∷ text) =
    let rest = scan_digits (acc * 10 + (c - 48)) text in
    if is_digit c then rest else (acc, c ∷ text)

-- One digit at least.
scan_number : List ℕ → Option (ℕ × List ℕ)
unfolding scan_digits is_digit
scan_number [] = none
scan_number (c ∷ text) = if is_digit c then some (scan_digits 0 (c ∷ text)) else none

negated : ℕ × List ℕ → ℤ × List ℕ
negated scanned = (pos 0 -ℤ pos scanned.0, scanned.1)

positive : ℕ × List ℕ → ℤ × List ℕ
positive scanned = (pos scanned.0, scanned.1)

scan_sign : List ℕ → Option (ℤ × List ℕ)
unfolding scan_number negated positive
scan_sign [] = none
scan_sign (c ∷ text) =
    if c == b'-'
    then (do n ← scan_number text; some (negated n))
    else (do n ← scan_number (if c == b'+' then text else c ∷ text); some (positive n))

-- `%d` of `sscanf`: white space, a sign perhaps, and digits.
scan_int : List ℕ → Option (ℤ × List ℕ)
unfolding scan_sign skip_spaces
scan_int text = scan_sign (skip_spaces text)

scan_comma : List ℕ → Option (List ℕ)
scan_comma [] = none
scan_comma (c ∷ text) = if c == b',' then some text else none

-- `sscanf(color, "COLOR(%d,%d)", &fg, &bg) == 2`
unfoldable pub scan_colors : List ℕ → Option (ℕ × ℕ)
unfolding scan_int scan_comma find_text
scan_colors attr = do
  color ← find_text (codes "COLOR(") attr
  fg ← scan_int (drop 6 color)
  rest ← scan_comma fg.1
  bg ← scan_int rest
  some (wrap_ℤ 256 fg.0, wrap_ℤ 256 bg.0)

unfoldable pub colors : List ℕ → List ℕ
unfolding scan_colors
colors attr = elim (scan_colors attr) [
  | some found ↦ found.0 ∷ found.1 ∷ []
  | none ↦ 0x80 ∷ 0x80 ∷ []
]

-- The text up to the parenthesis that closes the `depth` open ones.
unfoldable pub closed_text : ℕ → List ℕ → Option (List ℕ)
closed_text depth [] = none
closed_text depth (c ∷ text) =
    let depth' = if c == b'(' then suc depth else if c == b')' then depth - 1 else depth in
    let rest = closed_text depth' text in
    if depth' == 0 then some [] else (do inner ← rest; some (c ∷ inner))

-- The form string with its length, where FORM( is closed.
unfoldable pub form_code : Option (List ℕ) → List ℕ
unfolding closed_text
form_code none = []
form_code (some form) = elim (closed_text 1 (drop 5 form)) [
  | some content ↦ u8 (length content) ∷ content
  | none ↦ []
]

-- What follows the field.
unfoldable pub attribute_code : List ℕ → List ℕ
unfolding context_byte plain_type colors form_code find_text
attribute_code attr =
    let form = find_text (codes "FORM(") attr in
    let type_byte = plain_type attr + (if is_some form then 0x20 else 0) in
    (context_byte attr ∷ type_byte ∷ colors attr) ++ form_code form

-- An attribute that is no string literal leaves the defaults.
unfoldable pub attribute_operand_code : AstNode → List ℕ
unfolding attribute_code
attribute_operand_code (literal_str value) = attribute_code value
attribute_operand_code _ = 0 ∷ 0 ∷ 0x80 ∷ 0x80 ∷ []

unfoldable pub gen_set_attribute : Symtab → List AstNode → List ℕ
unfolding attribute_operand_code
gen_set_attribute st (field ∷ attr ∷ ops) =
    emit_instruction st op_set_att (field ∷ []) ++ attribute_operand_code attr
gen_set_attribute st ops = []
