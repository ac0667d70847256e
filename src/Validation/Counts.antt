-- ===== src/Validation/Counts.antt =====
-- `validate_verb` of compiler/sema/sema.c against `gen_verb` of compiler/codegen/codegen_verbs.c: the
-- numbers of operands that the first admits are enough for the second.
use mathlib.Core.Option.{some-injective}
use tbol_toolchain.Base.{
  ℕ, zero, suc, ◌≤◌, ◌≡◌, refl, sym, ◌∙◌, Bool, true, false, not, ◌&&◌, ◌||◌, Option, none, some,
  List, [], ◌∷◌, length, ltb, leb, ◌==◌, codes, arith, Bool-cases, inl, inr,
}
use tbol_toolchain.Symtab.Names.{Name, same_name, same_name_iff, to_lower}
use tbol_toolchain.Symtab.{Symtab}
use tbol_toolchain.Verbs.{VerbStmt}
use tbol_toolchain.Verbs.Table.{
  Dispatch, Handler, VerbEntry, handled_by, counted_operands, verb_table, find_verb, lookup_verb,
}
use tbol_toolchain.Statements.Waiting.{same_name-right}
use tbol_toolchain.Statements.Describe.{IsCoded}
use tbol_toolchain.Validation.VerbSpecs.{VerbSpec, verb_specs, find_spec, find_verb_spec}
use tbol_toolchain.Validation.Operands.{too_many, validate_spec, validate_found, validate_verb}
use tbol_toolchain.Validation.Reads.{verb_reads, verb_code_exists}

pub same_name_sym : (a b : Name) → same_name a b ≡ same_name b a
same_name_sym a b = elim (Bool-cases (same_name a b)) [
  | inl e ↦ e ∙ sym ((same_name_iff b a).1 (sym ((same_name_iff a b).0 e)))
  | inr e ↦ elim (Bool-cases (same_name b a)) [
    | inl e' ↦ absurd (cc (e, (same_name_iff a b).1 (sym ((same_name_iff b a).0 e'))))
    | inr e' ↦ e ∙ sym e'
  ]
]

-- Of two names that are the same the table gives the same row.
find_verb-same_name :
    (a b : Name) (table : List VerbEntry)
    → same_name a b ≡ true
    → find_verb a table ≡ find_verb b table
unfolding find_verb
find_verb-same_name a b [] e = refl
find_verb-same_name a b (entry ∷ table) e =
    let same : same_name a entry.name ≡ same_name b entry.name =
      same_name_sym a entry.name ∙ same_name-right entry.name a b e ∙ same_name_sym entry.name b in
    rw (same, find_verb-same_name a b table e) refl

pub lookup_verb-same_name : (a b : Name) → same_name a b ≡ true → lookup_verb a ≡ lookup_verb b
unfolding lookup_verb
lookup_verb-same_name a b e = find_verb-same_name a b verb_table e

-- SOUND is the verb that is admitted with one operand and reads two.
abbrev is_sound : Name → ℕ → Bool
is_sound name n = n == 1 && same_name (codes "SOUND") name

-- All numbers up to m pass the test.
abbrev all_upto : ℕ → (ℕ → Bool) → Bool
all_upto zero test = test 0
all_upto (suc m) test = test (suc m) && all_upto m test

all_upto_test : (m n : ℕ) (test : ℕ → Bool) → all_upto m test ≡ true → n ≤ m → test n ≡ true
all_upto_test zero zero test h le = h
all_upto_test zero (suc n) test h le = absurd (omega arith)
all_upto_test (suc m) n test h le = elim (Bool-cases (n == suc m)) [
  | inl e ↦
      let here : n ≡ suc m = ground arith in
      let last : test (suc m) ≡ true = ground arith in rw here last
  | inr e ↦ all_upto_test m n test (ground arith) (ground arith)
]

-- The verb reads no more, whatever the number: nothing to check but MAKE_FORMAT's bound.
abbrev is_open : Option Dispatch → Bool
is_open (some (counted_operands opcode)) = true
is_open (some (handled_by Handler.make_format)) = true
is_open _ = false

abbrev count_fits : VerbSpec → ℕ → Bool
count_fits spec n =
    not (leb spec.min_ops n) || (is_sound spec.name n || verb_reads (lookup_verb spec.name) n)

abbrev spec_fits : VerbSpec → Option ℕ → Bool
spec_fits spec (some m) = all_upto m (count_fits spec)
spec_fits spec none = is_open (lookup_verb spec.name)

abbrev all_fit : List VerbSpec → Bool
all_fit [] = true
all_fit (spec ∷ specs) = spec_fits spec spec.max_ops && all_fit specs

verb_specs_fit : all_fit verb_specs ≡ true
unfolding lookup_verb same_name to_lower
verb_specs_fit = refl

find_spec-fits :
    (name : Name) (specs : List VerbSpec) (spec : VerbSpec)
    → all_fit specs ≡ true
    → find_spec name specs ≡ some spec
    → (spec_fits spec spec.max_ops ≡ true) × (same_name spec.name name ≡ true)
unfolding find_spec
find_spec-fits name [] spec fit e = absurd (cc)
find_spec-fits name (s ∷ specs) spec fit e = elim (Bool-cases (same_name s.name name)) [
  | inl same ↦
      let here : s ≡ spec = some-injective _ _ (rw same at e) in
      let first : spec_fits s s.max_ops ≡ true = ground arith in (rw here at first, rw here at same)
  | inr other ↦ find_spec-fits name specs spec (ground arith) (rw other at e)
]

-- The number that validation lets through.
admitted :
    (st : Symtab) (node : VerbStmt) (spec : VerbSpec)
    → validate_spec st node spec ≡ 0
    → (leb spec.min_ops (length node.operands) ≡ true)
      × (too_many spec.max_ops (length node.operands) ≡ false)
unfolding validate_spec
admitted st node spec e = elim (Bool-cases (ltb (length node.operands) spec.min_ops)) [
  | inl few ↦ absurd (cc (rw few at e))
  | inr enough ↦ elim (Bool-cases (too_many spec.max_ops (length node.operands))) [
    | inl many ↦ absurd (cc (rw (enough, many) at e))
    | inr right ↦ (ground arith, right)
  ]
]

open_reads : (d : Option Dispatch) (n : ℕ) → is_open d ≡ true → n ≤ 259 → verb_reads d n ≡ true
open_reads none n o le = absurd (cc)
open_reads (some (counted_operands opcode)) n o le = refl
open_reads (some (handled_by Handler.make_format)) n o le = ground arith
open_reads (some d) n o le = absurd (cc)

fits_count :
    (spec : VerbSpec) (max_ops : Option ℕ) (n : ℕ)
    → spec_fits spec max_ops ≡ true
    → leb spec.min_ops n ≡ true
    → too_many max_ops n ≡ false
    → is_sound spec.name n ≡ false
    → n ≤ 259
    → verb_reads (lookup_verb spec.name) n ≡ true
unfolding too_many
fits_count spec (some m) n fit least most quiet bound =
    let here : count_fits spec n ≡ true = all_upto_test m n (count_fits spec) fit (ground arith) in
    ground (arith, here, least, quiet)
fits_count spec none n fit least most quiet bound = open_reads (lookup_verb spec.name) n fit bound

-- A verb with a specification that validation accepts never reads past its operands: its code is
-- there. Left out are SOUND with one operand, which validation accepts, and more than 259 operands.
pub validate_verb-IsCoded :
    (st : Symtab) (node : VerbStmt) (spec : VerbSpec)
    → find_verb_spec node.name ≡ some spec
    → validate_verb st node ≡ 0
    → (length node.operands == 1 && same_name (codes "SOUND") node.name) ≡ false
    → length node.operands ≤ 259
    → IsCoded st node
unfolding validate_verb validate_found find_verb_spec
validate_verb-IsCoded st node spec found ok quiet bound =
    let (fit, same) = find_spec-fits node.name verb_specs spec verb_specs_fit found in
    let (least, most) = admitted st node spec (rw found at ok) in
    let quiet' : is_sound spec.name (length node.operands) ≡ false =
      rw (same_name-right (codes "SOUND") spec.name node.name same) quiet in
    let row : lookup_verb spec.name ≡ lookup_verb node.name =
      lookup_verb-same_name spec.name node.name same in
    verb_code_exists st node
      (rw row at (fits_count spec spec.max_ops (length node.operands) fit least most quiet' bound))
