-- ===== src/Tests/JumpTests.antt =====
-- Tests of labels and jumps.
use tbol_toolchain.Base.{◌+◌, ◌≡◌, refl, true, none, some, [], ◌∷◌, ◌++◌, arith, length, take}
use tbol_toolchain.Symtab.Names.{Name, same_name, to_lower}
use tbol_toolchain.Bytecode.Opcodes.Flow.{op_jump}
use tbol_toolchain.Codegen.Labels.{Generator, define_label, lookup_label, emit_jump, refers}
use tbol_toolchain.Ast.{reg_i}
use tbol_toolchain.Symtab.{init}
use tbol_toolchain.Bytecode.Opcodes.Flow.{op_cjne}
use tbol_toolchain.Codegen.Labels.{emit_cond_jump}
use tbol_toolchain.Codegen.Operand.{needs_extended_encoding, emit_operand, compute_operand_value}
use tbol_toolchain.Codegen.Instruction.{check_complex_mode, compute_mode_byte}
use tbol_toolchain.RoundTrip.Condition.{comparison_code, emit_cond_jump-IsLinked}
use tbol_toolchain.Emit.{ForwardRef}
use tbol_toolchain.Bytecode.Opcodes.System.{op_go_dep}
use tbol_toolchain.RoundTrip.Word.{Reaches}
use tbol_toolchain.RoundTrip.Jump.{EntryReaches, define_label-Reaches, define_label-EntryReaches}
use tbol_toolchain.RoundTrip.Ready.{IsReady, IsLinked}
use tbol_toolchain.RoundTrip.Target.{emit_jump-IsLinked}
use tbol_toolchain.RoundTrip.Define.{define_label-IsReady}

abbrev done_label : Name
done_label = 68 ∷ 79 ∷ []

abbrev done_lower : Name
done_lower = 100 ∷ 111 ∷ []

-- A jump to `do` that waits for its label, and another instruction.
abbrev waiting_ref : ForwardRef
waiting_ref = record { patch_offset = 1; label = some done_lower; proc = none }

abbrev waiting : Generator
waiting = record {
  buffer = record {
    bytes = op_jump ∷ 0 ∷ 0 ∷ 0 ∷ [];
    capacity = 4096;
    forward_refs = waiting_ref ∷ [];
  };
  labels = [];
  current_proc_name = none;
}

waiting-refers : refers done_label none waiting_ref ≡ true
unfolding refers same_name to_lower
waiting-refers = refl

waiting-IsReady : IsReady 0 waiting
waiting-IsReady = record {
  well_formed = record { positive = omega arith; fits = omega arith };
  ordered = (omega arith, omega arith);
  placed = tt;
}

define_label-Reaches_example : Reaches 0 (define_label done_label waiting).buffer.bytes 1 4
define_label-Reaches_example =
    define_label-Reaches done_label waiting 0 0 waiting_ref (omega arith) (omega arith, omega arith)
      refl waiting-refers (omega arith)

-- A GOTO_DEPENDING_ON of I1 with the label as its one entry, and a byte behind it.
abbrev entry_ref : ForwardRef
entry_ref = record waiting_ref { patch_offset = 3 }

abbrev depending : Generator
depending = record waiting {
  buffer = record {
    bytes = op_go_dep ∷ 9 ∷ 1 ∷ 0 ∷ 0 ∷ 0 ∷ [];
    capacity = 4096;
    forward_refs = entry_ref ∷ [];
  };
}

entry-refers : refers done_label none entry_ref ≡ true
unfolding refers same_name to_lower
entry-refers = refl

define_label-EntryReaches_example :
    EntryReaches 0 (define_label done_label depending).buffer.bytes 3 6
define_label-EntryReaches_example =
    define_label-EntryReaches done_label depending 0 0 entry_ref (omega arith)
      (omega arith, omega arith) refl entry-refers (omega arith) (omega arith)

define_label-IsReady_example : IsReady 0 (define_label done_label waiting)
define_label-IsReady_example = define_label-IsReady done_label 0 waiting waiting-IsReady

-- The label `do` at the start of the code.
abbrev looping : Generator
looping = record {
  buffer = record { bytes = 0 ∷ []; capacity = 4096; forward_refs = [] };
  labels = record { name = done_label; offset = 0 } ∷ [];
  current_proc_name = none;
}

looping-IsReady : IsReady 0 looping
looping-IsReady = record {
  well_formed = record { positive = omega arith; fits = omega arith };
  ordered = omega arith;
  placed = ((omega arith, omega arith), tt);
}

emit_jump-IsLinked_example :
    (g' : Generator) × (emit_jump done_lower looping ≡ some g')
    × IsReady 0 g'
    × (take 2 g'.buffer.bytes ≡ looping.buffer.bytes ++ (op_jump ∷ []))
    × (length g'.buffer.bytes ≡ 4)
    × IsLinked (lookup_label done_lower looping) done_lower 0 2 looping g'
emit_jump-IsLinked_example = emit_jump-IsLinked 0 done_lower looping looping-IsReady (omega arith)

-- IF I1 = I2 with the label at the start.
emit_cond_jump-IsLinked_example :
    let n = length (comparison_code init op_cjne (reg_i 1) (reg_i 2)) in
    (g' : Generator) × (emit_cond_jump init op_cjne (reg_i 1) (reg_i 2) done_lower looping
      ≡ some g')
    × IsReady 0 g'
    × (take (1 + n) g'.buffer.bytes
        ≡ looping.buffer.bytes ++ comparison_code init op_cjne (reg_i 1) (reg_i 2))
    × (length g'.buffer.bytes ≡ 1 + n + 2)
    × IsLinked (lookup_label done_lower looping) done_lower 0 (1 + n) looping g'
unfolding check_complex_mode compute_mode_byte needs_extended_encoding emit_operand
    compute_operand_value
emit_cond_jump-IsLinked_example =
    emit_cond_jump-IsLinked 0 init op_cjne (reg_i 1) (reg_i 2) done_lower looping looping-IsReady
      (omega arith)
