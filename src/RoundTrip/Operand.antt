-- ===== src/RoundTrip/Operand.antt =====
-- `emit_operand` of compiler/codegen/codegen_operand.c against `read_operand` of
-- shared/bytecode/decode.c, for every operand.
use tbol_toolchain.Base.{◌≡◌, refl, Option, none, some, ℤ, pos, negsuc}
use tbol_toolchain.Ast.{
  AstNode, literal_str, literal_num, literal_hex, ident, reg_i, reg_d, reg_p, pev, gev, rda_slot,
  indexed, format_spec, other,
}
use tbol_toolchain.Symtab.{Symtab}
use tbol_toolchain.Codegen.Literal.{hex_bytes, skip_0x}
use tbol_toolchain.Codegen.Operand.{constant_index, needs_extended_encoding, emit_operand}
use tbol_toolchain.RoundTrip.Meaning.{
  encoded_element, meaning, indexed_meaning, IndexedFits, IsEncodable,
}
use tbol_toolchain.RoundTrip.Place.{ReadsBack, place-ReadsBack}
use tbol_toolchain.RoundTrip.Literal.{read_operand-string, string_code_short, hex_code_short}
use tbol_toolchain.RoundTrip.Element.{emit_operand-encoded_element}
use tbol_toolchain.RoundTrip.Index.{dynamic-ReadsBack}

indexed-ReadsBack :
    (st : Symtab) (base index : AstNode) (o : Option ℤ)
    → constant_index index ≡ o
    → IndexedFits st base index o
    → ReadsBack st (indexed base index) (indexed_meaning st base index o)
indexed-ReadsBack st base index none e (hb, hi) rest =
    unfold needs_extended_encoding emit_operand in rw e (dynamic-ReadsBack st base index rest hb hi)
indexed-ReadsBack st base index (some (negsuc i)) e h rest = absurd h
indexed-ReadsBack st base index (some (pos i)) e (lo, h) rest =
    let (needs, code) =
      emit_operand-encoded_element st base index i (needs_extended_encoding st (indexed base index))
        e lo h in
    rw (code, needs) (place-ReadsBack st (encoded_element st base i) h rest)

-- The decoder reads an encodable operand back as what it means, in the mode that the code generator
-- announces for it, and consumes exactly the bytes that were emitted, whatever follows them. What a
-- register with a constant index means is here the register of that number, whichever is indexed.
pub emit_operand-ReadsBack :
    (st : Symtab) (node : AstNode) → IsEncodable st node → ReadsBack st node (meaning st node)
unfolding emit_operand needs_extended_encoding
emit_operand-ReadsBack st (literal_str str) h rest =
    rw (string_code_short str h) (read_operand-string str rest _)
emit_operand-ReadsBack st (literal_num text) h rest =
    rw (string_code_short text h) (read_operand-string text rest _)
emit_operand-ReadsBack st (literal_hex text) h rest =
    rw (hex_code_short text h) (read_operand-string (hex_bytes (skip_0x text)) rest _)
emit_operand-ReadsBack st (indexed base index) h rest =
    indexed-ReadsBack st base index (constant_index index) refl h rest
emit_operand-ReadsBack st (reg_i n) h rest = place-ReadsBack st (reg_i n) h rest
emit_operand-ReadsBack st (reg_d n) h rest = place-ReadsBack st (reg_d n) h rest
emit_operand-ReadsBack st (reg_p n) h rest = place-ReadsBack st (reg_p n) h rest
emit_operand-ReadsBack st (pev n) h rest = place-ReadsBack st (pev n) h rest
emit_operand-ReadsBack st (gev n) h rest = place-ReadsBack st (gev n) h rest
emit_operand-ReadsBack st (rda_slot n) h rest = place-ReadsBack st (rda_slot n) h rest
emit_operand-ReadsBack st (ident name) h rest = place-ReadsBack st (ident name) h rest
emit_operand-ReadsBack st (format_spec f n m) h rest = absurd h
emit_operand-ReadsBack st other h rest = absurd h
