-- ===== src/Verbs/MakeFormat.antt =====
-- MAKE_FORMAT of compiler/codegen/codegen_verbs.c.
use tbol_toolchain.Base.{
  ℕ, zero, suc, ◌+◌, ◌-◌, ◌*◌, ◌/◌, ◌%◌, ◌^◌, Bool, false, ◌&&◌, ◌||◌, Option, none, some, List, [],
  ◌∷◌, ◌++◌, length, ltb, leb, ◌==◌, if◌then◌else◌, u8, ℤ, pos, negsuc, decimal,
}
use tbol_toolchain.Ast.{AstNode, format_spec}
use tbol_toolchain.Symtab.{Symtab}
use tbol_toolchain.Codegen.Literal.{string_code}
use tbol_toolchain.Codegen.Operand.{needs_extended_encoding, emit_operand}
use tbol_toolchain.Codegen.Instruction.{opcode_code}
use tbol_toolchain.Bytecode.Opcodes.Values.{op_make_format}

-- An AST_FORMAT_SPEC.
pub record FormatSpec : Type 0 where
  pub field : AstNode
  pub fix_len : ℤ
  pub imbed_len : ℤ

unfoldable pub as_spec : AstNode → Option FormatSpec
as_spec (format_spec field fix_len imbed_len) =
    some (record { field = field; fix_len = fix_len; imbed_len = imbed_len })
as_spec _ = none

unfoldable pub with_spec : Option FormatSpec → List FormatSpec → List FormatSpec
with_spec none specs = specs
with_spec (some spec) specs = spec ∷ specs

-- The children that are format specifications: all loops skip the others.
unfoldable pub format_specs : List AstNode → List FormatSpec
unfolding as_spec with_spec
format_specs [] = []
format_specs (op ∷ ops) = with_spec (as_spec op) (format_specs ops)

unfoldable pub specs_complex : Symtab → List FormatSpec → Bool
specs_complex st [] = false
specs_complex st (spec ∷ specs) = needs_extended_encoding st spec.field || specs_complex st specs

-- Of each three bits from the highest of k on, the first is that of a field.
unfoldable pub spec_bits : Symtab → ℕ → List FormatSpec → ℕ
spec_bits st zero specs = 0
spec_bits st (suc k) [] = 0
spec_bits st (suc k) (spec ∷ specs) =
    (if needs_extended_encoding st spec.field then 2 ^ k else 0) + spec_bits st (k - 2) specs

unfoldable pub first_mode : Symtab → AstNode → List FormatSpec → ℕ
unfolding spec_bits
first_mode st fmt specs =
    (if needs_extended_encoding st fmt then 2 ^ 7 else 0) + spec_bits st 7 specs

-- `extra_modes[m]`, from the field with index `field_idx` on.
unfoldable pub extra_mode : Symtab → ℕ → ℕ → List FormatSpec → ℕ
extra_mode st m field_idx [] = 0
extra_mode st m field_idx (spec ∷ specs) =
    let op_idx = 1 + field_idx * 3 in
    (if leb 8 op_idx && needs_extended_encoding st spec.field && (op_idx - 8) / 8 == m
      then 2 ^ (7 - (op_idx - 8) % 8)
      else 0)
    + extra_mode st m (suc field_idx) specs

-- The n extra mode bytes from m on.
unfoldable pub extra_modes : Symtab → ℕ → ℕ → List FormatSpec → List ℕ
unfolding extra_mode
extra_modes st zero m specs = []
extra_modes st (suc n) m specs = extra_mode st m 0 specs ∷ extra_modes st n (suc m) specs

-- A length as a string, empty if it is not given.
unfoldable pub length_code : ℤ → List ℕ
unfolding decimal
length_code (pos n) = string_code (decimal n)
length_code (negsuc n) = 0 ∷ 0 ∷ []

unfoldable pub specs_code : Symtab → List FormatSpec → List ℕ
unfolding length_code
specs_code st [] = []
specs_code st (spec ∷ specs) =
    emit_operand st spec.field (needs_extended_encoding st spec.field)
    ++ (length_code spec.fix_len ++ (length_code spec.imbed_len ++ specs_code st specs))

unfoldable pub extra_mode_bytes : Bool → ℕ → ℕ
extra_mode_bytes complex total_operands =
    if complex && ltb 8 total_operands then (total_operands - 8 + 7) / 8 else 0

unfoldable pub make_format : Symtab → AstNode → List FormatSpec → Option (List ℕ)
unfolding specs_complex first_mode extra_modes specs_code extra_mode_bytes
make_format st fmt specs =
    let complex = needs_extended_encoding st fmt || specs_complex st specs in
    let extra = extra_mode_bytes complex (length specs * 3 + 1) in
    if ltb 96 extra
    then none
    else some (
        opcode_code op_make_format complex (first_mode st fmt specs ∷ [])
        ++ (u8 (length specs)
            ∷ (extra_modes st extra 0 specs
                ++ (emit_operand st fmt (needs_extended_encoding st fmt) ++ specs_code st specs))))

-- More than 96 extra mode bytes are written and read past the end of `extra_modes`.
unfoldable pub gen_make_format : Symtab → List AstNode → Option (List ℕ)
unfolding make_format format_specs
gen_make_format st (fmt ∷ op ∷ ops) = make_format st fmt (format_specs (op ∷ ops))
gen_make_format st ops = some []
