-- ===== src/Validation/VerbSpecs.antt =====
-- `verb_specs` and `find_verb_spec` of compiler/sema/sema.c.
use Prim.Native.String.{String}
use tbol_toolchain.Base.{ℕ, zero, suc, Option, none, some, List, [], ◌∷◌, if◌then◌else◌, codes}
use tbol_toolchain.Symtab.Names.{Name, same_name}

-- OpFlags; `unset` is a position that the table leaves at 0.
pub data OpFlags : Type 0 where
  unset literal_ok must_be_var : OpFlags

-- `max_ops` is absent where it is -1.
pub record VerbSpec : Type 0 where
  pub name : Name
  pub min_ops : ℕ
  pub max_ops : Option ℕ
  pub flags : List OpFlags

abbrev spec : String → ℕ → ℕ → List OpFlags → VerbSpec
spec name min_ops max_ops flags = record {
  name = codes name;
  min_ops = min_ops;
  max_ops = some max_ops;
  flags = flags;
}

abbrev open_spec : String → ℕ → List OpFlags → VerbSpec
open_spec name min_ops flags = record {
  name = codes name;
  min_ops = min_ops;
  max_ops = none;
  flags = flags;
}

-- n literals, in front of what follows.
abbrev literals : ℕ → List OpFlags → List OpFlags
literals zero flags = flags
literals (suc n) flags = OpFlags.literal_ok ∷ literals n flags

abbrev var : List OpFlags
var = OpFlags.must_be_var ∷ []

abbrev pub verb_specs : List VerbSpec
verb_specs =
    spec "ADD" 2 2 (literals 1 var)
    ∷ spec "SUBTRACT" 2 2 (literals 1 var)
    ∷ spec "MULTIPLY" 2 2 (literals 1 var)
    ∷ spec "DIVIDE" 2 3 (literals 1 (OpFlags.must_be_var ∷ var))
    ∷ spec "AND" 2 2 (literals 2 [])
    ∷ spec "OR" 2 2 (literals 2 [])
    ∷ spec "XOR" 2 2 (literals 2 [])
    ∷ spec "TEST" 2 2 (literals 2 [])
    ∷ spec "MOVE" 2 2 (literals 1 var)
    ∷ spec "SWAP" 2 2 (OpFlags.must_be_var ∷ var)
    ∷ spec "FILL" 3 3 (OpFlags.must_be_var ∷ literals 2 [])
    ∷ spec "CLEAR" 1 2 (OpFlags.must_be_var ∷ var)
    ∷ spec "PUSH" 1 1 (literals 1 [])
    ∷ spec "POP" 1 1 var
    ∷ open_spec "STRING" 2 var
    ∷ spec "SUBSTR" 4 4 (OpFlags.literal_ok ∷ OpFlags.must_be_var ∷ literals 2 [])
    ∷ spec "INSTR" 3 3 (literals 2 var)
    ∷ spec "UPPERCASE" 1 1 var
    ∷ spec "LENGTH" 2 2 (literals 1 var)
    ∷ spec "EDIT" 3 8 (OpFlags.must_be_var ∷ literals 7 [])
    ∷ spec "FORMAT" 3 3 (literals 2 var)
    ∷ open_spec "MAKE_FORMAT" 2 var
    ∷ spec "EXIT" 0 1 (literals 1 [])
    ∷ spec "RETURN" 0 1 (literals 1 [])
    ∷ spec "ERROR" 1 1 (literals 1 [])
    ∷ spec "TRIGGER_FUNCTION" 1 1 (literals 1 [])
    ∷ spec "NAVIGATE" 1 2 (literals 2 [])
    ∷ spec "FETCH" 1 2 (literals 1 var)
    ∷ open_spec "LINK" 1 (literals 1 [])
    ∷ open_spec "TRANSFER" 1 (literals 1 [])
    ∷ spec "OPEN_WINDOW" 1 1 (literals 1 [])
    ∷ spec "CLOSE_WINDOW" 0 1 (literals 1 [])
    ∷ spec "OPEN_ERROR_WINDOW" 1 2 (literals 2 [])
    ∷ spec "KILL" 0 1 (literals 1 [])
    ∷ spec "PURGE_CACHE" 0 0 []
    ∷ spec "OPEN" 2 2 (literals 2 [])
    ∷ spec "CLOSE" 1 1 (literals 1 [])
    ∷ spec "READ" 2 3 (OpFlags.literal_ok ∷ OpFlags.must_be_var ∷ literals 1 [])
    ∷ spec "WRITE" 2 3 (literals 3 [])
    ∷ spec "NOTE" 2 2 (literals 1 var)
    ∷ spec "POINT" 2 2 (literals 2 [])
    ∷ spec "DELETE" 1 1 (literals 1 [])
    ∷ spec "CONNECT" 1 1 (literals 1 [])
    ∷ spec "DISCONNECT" 0 0 []
    ∷ spec "SEND" 1 2 (literals 2 [])
    ∷ spec "RECEIVE" 2 2 (literals 1 var)
    ∷ spec "CANCEL" 0 1 (literals 1 [])
    ∷ spec "SAVE" 2 3 (literals 3 [])
    ∷ spec "RESTORE" 2 2 (literals 2 [])
    ∷ spec "RELEASE" 1 1 (literals 1 [])
    ∷ spec "REFRESH" 0 0 []
    ∷ spec "ERASE" 0 1 (literals 1 [])
    ∷ spec "SET_CURSOR" 0 1 (literals 1 [])
    ∷ spec "SET_ATTRIBUTE" 2 2 (literals 2 [])
    ∷ spec "SET_FUNCTION" 2 4 (literals 4 [])
    ∷ spec "SET_KEY" 3 3 (literals 3 [])
    ∷ spec "DEFINE_FIELD" 6 7 (literals 7 [])
    ∷ spec "SOUND" 0 2 (literals 2 [])
    ∷ spec "LOOKUP" 5 5 (literals 4 var)
    ∷ spec "SORT" 3 3 (literals 3 [])
    ∷ spec "WAIT" 0 0 []
    ∷ spec "START" 0 4 (literals 4 [])
    ∷ spec "STOP" 0 1 (literals 1 [])
    ∷ []

unfoldable pub find_spec : Name → List VerbSpec → Option VerbSpec
find_spec name [] = none
find_spec name (s ∷ specs) = if same_name s.name name then some s else find_spec name specs

unfoldable pub find_verb_spec : Name → Option VerbSpec
unfolding find_spec
find_verb_spec name = find_spec name verb_specs
