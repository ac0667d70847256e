-- ===== src/Validation/Reads.antt =====
-- The operands that the verbs of compiler/codegen/codegen_verbs.c read, against those that the verb
-- specifications of compiler/sema/sema.c admit.
use tbol_toolchain.Base.{
  ℕ, zero, suc, ◌+◌, ◌*◌, ◌≤◌, ◌≡◌, refl, Bool, true, false, not, ◌||◌, Option, none, some, List,
  [], ◌∷◌, length, ltb, leb, ◌==◌, if◌then◌else◌, arith, Option-cases, inl, inr,
}
use tbol_toolchain.Ast.{AstNode}
use tbol_toolchain.Symtab.{Symtab}
use tbol_toolchain.Codegen.Instruction.{emit_instruction}
use tbol_toolchain.Codegen.Operand.{needs_extended_encoding}
use tbol_toolchain.Verbs.{VerbStmt, first_operands, emit_fixed}
use tbol_toolchain.Verbs.Simple.{
  handle_divide, handle_exit, handle_return, handle_fetch, handle_close, handle_close_window,
  handle_open_error_window, handle_sound, handle_set_key, handle_send,
}
use tbol_toolchain.Verbs.SetFunction.{gen_set_function}
use tbol_toolchain.Verbs.MakeFormat.{
  as_spec, with_spec, format_specs, specs_complex, extra_mode_bytes, make_format, gen_make_format,
}
use tbol_toolchain.Verbs.Table.{
  Dispatch, Handler, opcode_only, fixed_operands, counted_operands, all_operands, handled_by,
  lookup_verb, handler_code, dispatch_code, found_code, verb_code,
}
use tbol_toolchain.Statements.Describe.{IsCoded}

-- With n operands a handler reads no others.
abbrev pub handler_reads : Handler → ℕ → Bool
handler_reads Handler.divide n = n == 2 || leb 3 n
handler_reads Handler.send n = leb 1 n
handler_reads Handler.fetch n = leb 1 n
handler_reads Handler.sound n = not (n == 1)
handler_reads Handler.set_key n = n == 3 || leb 5 n
handler_reads Handler.set_function n = leb n 4
handler_reads Handler.make_format n = leb n 259
handler_reads _ n = true

-- With n operands a row of the table reads no others.
abbrev pub dispatch_reads : Dispatch → ℕ → Bool
dispatch_reads (fixed_operands opcode count) n = leb count n
dispatch_reads (handled_by handler) n = handler_reads handler n
dispatch_reads _ n = true

abbrev pub verb_reads : Option Dispatch → ℕ → Bool
verb_reads none n = true
verb_reads (some dispatch) n = dispatch_reads dispatch n

-- The reads of a fixed number end where there are as many.
abbrev Exists : Option (List ℕ) → Type 0
Exists r = (code : List ℕ) × (r ≡ some code)

-- A test between two ways that both end.
either-Exists :
    (c : Bool) (a b : Option (List ℕ))
    → (c ≡ true → Exists a)
    → (c ≡ false → Exists b)
    → Exists (if c then a else b)
either-Exists true a b ea eb = ea refl
either-Exists false a b ea eb = eb refl

first_operands_enough :
    (n : ℕ) (ops : List AstNode)
    → n ≤ length ops
    → (few : List AstNode) × (first_operands n ops ≡ some few)
unfolding first_operands
first_operands_enough zero ops le = ([], refl)
first_operands_enough (suc n) [] le = absurd (omega arith)
first_operands_enough (suc n) (op ∷ ops) le =
    let (few, e) = first_operands_enough n ops (omega arith) in (op ∷ few, rw e refl)

emit_fixed-Exists :
    (st : Symtab) (opcode n : ℕ) (ops : List AstNode)
    → n ≤ length ops
    → Exists (emit_fixed st opcode n ops)
unfolding emit_fixed
emit_fixed-Exists st opcode n ops le =
    let (few, e) = first_operands_enough n ops le in (emit_instruction st opcode few, rw e refl)

length-format_specs : (ops : List AstNode) → length (format_specs ops) ≤ length ops
unfolding format_specs with_spec
length-format_specs [] = omega arith
length-format_specs (op ∷ ops) = elim (Option-cases (as_spec op)) [
  | inl e ↦ rw e (omega (arith, length-format_specs ops))
  | inr (spec, e) ↦ rw e (omega (arith, length-format_specs ops))
]

gen_make_format-Exists :
    (st : Symtab) (ops : List AstNode) → length ops ≤ 259 → Exists (gen_make_format st ops)
unfolding gen_make_format make_format extra_mode_bytes
gen_make_format-Exists st [] le = ([], refl)
gen_make_format-Exists st (fmt ∷ []) le = ([], refl)
gen_make_format-Exists st (fmt ∷ op ∷ ops) le =
    let specs = format_specs (op ∷ ops) in
    let complex = needs_extended_encoding st fmt || specs_complex st specs in
    let few : length specs ≤ 258 = omega (arith, length-format_specs (op ∷ ops)) in
    let small : ltb 96 (extra_mode_bytes complex (length specs * 3 + 1)) ≡ false = ground arith in
    either-Exists (ltb 96 (extra_mode_bytes complex (length specs * 3 + 1))) _ _
      (λ t. absurd (cc (small, t))) (λ f. (_, refl))

gen_set_function-Exists :
    (st : Symtab) (ops : List AstNode) → length ops ≤ 4 → Exists (gen_set_function st ops)
unfolding gen_set_function
gen_set_function-Exists st ops le = elim (Option-cases (gen_set_function st ops)) [
  | inl e ↦ absurd (ground arith)
  | inr (code, e) ↦ (code, e)
]

handle_send-Exists :
    (st : Symtab) (node : VerbStmt) → 1 ≤ length node.operands → Exists (handle_send st node)
unfolding handle_send
handle_send-Exists st node le =
    let n : ℕ = if length node.operands == 1 then 1 else 2 in
    let (few, e) = first_operands_enough n node.operands (ground arith) in
    elim (Option-cases (handle_send st node)) [
      | inl e' ↦ absurd (cc (rw e at e'))
      | inr (code, e') ↦ (code, e')
    ]

handler-Exists :
    (st : Symtab) (handler : Handler) (node : VerbStmt)
    → handler_reads handler (length node.operands) ≡ true
    → Exists (handler_code st handler node)
unfolding handler_code handle_divide handle_exit handle_return handle_fetch handle_close
    handle_close_window handle_open_error_window handle_sound handle_set_key
handler-Exists st Handler.move node h = (_, refl)
handler-Exists st Handler.divide node h =
    either-Exists (length node.operands == 2) _ _
      (λ e. emit_fixed-Exists st _ 2 node.operands (ground arith))
      (λ e. emit_fixed-Exists st _ 3 node.operands (ground arith))
handler-Exists st Handler.clear node h = (_, refl)
handler-Exists st Handler.save node h = (_, refl)
handler-Exists st Handler.send node h = handle_send-Exists st node (ground arith)
handler-Exists st Handler.exit node h =
    either-Exists (length node.operands == 0) _ _ (λ e. (_, refl))
      (λ e. emit_fixed-Exists st _ 1 node.operands (ground arith))
handler-Exists st Handler.return node h =
    either-Exists (length node.operands == 0) _ _ (λ e. (_, refl))
      (λ e. emit_fixed-Exists st _ 1 node.operands (ground arith))
handler-Exists st Handler.close node h =
    either-Exists (length node.operands == 0) _ _ (λ e. (_, refl))
      (λ e. emit_fixed-Exists st _ 1 node.operands (ground arith))
handler-Exists st Handler.close_window node h =
    either-Exists (length node.operands == 0) _ _ (λ e. (_, refl))
      (λ e. emit_fixed-Exists st _ 1 node.operands (ground arith))
handler-Exists st Handler.fetch node h =
    either-Exists (length node.operands == 1) _ _
      (λ e. emit_fixed-Exists st _ 1 node.operands (ground arith))
      (λ e. emit_fixed-Exists st _ 2 node.operands (ground arith))
handler-Exists st Handler.open_error_window node h =
    either-Exists (length node.operands == 0) _ _ (λ e. (_, refl))
      (λ e.
        either-Exists (length node.operands == 1) _ _
          (λ e'. emit_fixed-Exists st _ 1 node.operands (ground arith))
          (λ e'. emit_fixed-Exists st _ 2 node.operands (ground arith)))
handler-Exists st Handler.sound node h =
    either-Exists (length node.operands == 0) _ _ (λ e. (_, refl))
      (λ e. emit_fixed-Exists st _ 2 node.operands (ground arith))
handler-Exists st Handler.set_key node h =
    either-Exists (length node.operands == 3) _ _
      (λ e. emit_fixed-Exists st _ 3 node.operands (ground arith))
      (λ e. emit_fixed-Exists st _ 5 node.operands (ground arith))
handler-Exists st Handler.set_function node h =
    gen_set_function-Exists st node.operands (ground arith)
handler-Exists st Handler.set_attribute node h = (_, refl)
handler-Exists st Handler.make_format node h =
    gen_make_format-Exists st node.operands (ground arith)
handler-Exists st Handler.define_field node h = (_, refl)
handler-Exists st Handler.goto_depending_on node h = (_, refl)
handler-Exists st Handler.read node h = (_, refl)
handler-Exists st Handler.write node h = (_, refl)

dispatch-Exists :
    (st : Symtab) (dispatch : Dispatch) (node : VerbStmt)
    → dispatch_reads dispatch (length node.operands) ≡ true
    → Exists (dispatch_code st dispatch node)
unfolding dispatch_code
dispatch-Exists st (opcode_only opcode) node h = (_, refl)
dispatch-Exists st (fixed_operands opcode count) node h =
    emit_fixed-Exists st opcode count node.operands (ground arith)
dispatch-Exists st (counted_operands opcode) node h = (_, refl)
dispatch-Exists st (all_operands opcode) node h = (_, refl)
dispatch-Exists st (handled_by handler) node h = handler-Exists st handler node h

-- A verb with operands for what it reads has its code.
pub verb_code_exists :
    (st : Symtab) (node : VerbStmt)
    → verb_reads (lookup_verb node.name) (length node.operands) ≡ true
    → IsCoded st node
unfolding verb_code found_code
verb_code_exists st node h = found (lookup_verb node.name) h
  where
    found :
        (d : Option Dispatch)
        → verb_reads d (length node.operands) ≡ true
        → Exists (found_code st d node)
    found none h' = (_, refl)
    found (some dispatch) h' = dispatch-Exists st dispatch node h'
