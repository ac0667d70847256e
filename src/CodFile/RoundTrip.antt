-- ===== src/CodFile/RoundTrip.antt =====
-- The header of `emit_header` in compiler/codegen/codegen.c, read back by `cod_file_load_buf` of
-- shared/bytecode/cod_file.c.
use mathlib.Core.Option.{some-injective}
use tbol_toolchain.Base.{
  ℕ, zero, suc, ◌+◌, ◌*◌, ◌/◌, ◌<◌, ◌≤◌, ◌≡◌, refl, sym, ap, ◌∙◌, false, Option, some, List, [],
  ◌∷◌, ◌++◌, length, take, drop, get_or, All, arith, Bool-cases, inl, inr, u8, ltb, ◌==◌, codes,
  length-append, take-length_append, drop-length_append, append_assoc, append-nil,
}
use tbol_toolchain.Symtab.Names.{Name}
use tbol_toolchain.Emit.{Buffer, emit_init, append, emit_patch_byte}
use tbol_toolchain.Emit.Growth.{emit_init-IsWellFormed}
use tbol_toolchain.Statements.Program.{version, emit_header, fixup_header_file_size}
use tbol_toolchain.Statements.Generation.{emit_header-Appends}
use tbol_toolchain.CodFile.{
  Program, loaded, slice, code_size, load_code, long_program, load_long, load_header, load_scanned,
  cod_file_load_buf,
}
use tbol_toolchain.CodFile.Segments.{not_found, detect_pgm_offset}

-- The object, with its size in front.
abbrev object_code : ℕ → List ℕ → Name → List ℕ → List ℕ
object_code size date_str name code =
    u8 (size / 256)
    ∷ u8 size
    ∷ u8 ((6 + length name + length date_str + 5 + 1) / 256)
    ∷ u8 (6 + length name + length date_str + 5 + 1)
    ∷ u8 (length name / 256)
    ∷ u8 (length name)
    ∷ (name ++ (date_str ++ (version ++ (0x30 ∷ code))))

fixup_header_file_size_lem :
    (size a b : ℕ) (rest : List ℕ) (buf : Buffer)
    → buf.bytes ≡ a ∷ b ∷ rest
    → (fixup_header_file_size size buf).bytes ≡ u8 (size / 256) ∷ u8 size ∷ rest
unfolding fixup_header_file_size emit_patch_byte
fixup_header_file_size_lem size a b rest buf e = rw e (ground arith)

-- What is printable is at no place the mark of an encapsulated object.
get_or-append :
    (xs ys : List ℕ) (i : ℕ)
    → i < length xs
    → All (λ (c : ℕ). 32 ≤ c) xs
    → 32 ≤ get_or (xs ++ ys) i 0
get_or-append [] ys i lt h = absurd (omega arith)
get_or-append (x ∷ xs) ys zero lt (h, hs) = h
get_or-append (x ∷ xs) ys (suc i) lt (h, hs) = get_or-append xs ys i (omega arith) hs

slice-append :
    (before xs after : List ℕ) → slice (length before) (length xs) (before ++ (xs ++ after)) ≡ xs
slice-append before xs after =
    rw (drop-length_append before (xs ++ after)) (take-length_append xs after)

detect_not_found :
    (size : ℕ) (date_str name code : List ℕ)
    → length date_str ≡ 14
    → All (λ (c : ℕ). 32 ≤ c) (name ++ date_str)
    → detect_pgm_offset (object_code size date_str name code) ≡ not_found
unfolding detect_pgm_offset
detect_not_found size date_str name code date printable =
    let mark : 32 ≤ get_or (name ++ (date_str ++ (version ++ (0x30 ∷ code)))) 6 0 =
      rw (append_assoc name date_str (version ++ (0x30 ∷ code))) at (
        get_or-append (name ++ date_str) (version ++ (0x30 ∷ code)) 6
          (omega (arith, length-append name date_str)) printable) in
    let no_mark : (get_or (object_code size date_str name code) 12 0 == 0x0C) ≡ false =
      ground arith in
    elim (Bool-cases (ltb (length (object_code size date_str name code)) 22)) [
      | inl e ↦ rw e refl
      | inr e ↦ rw (e, no_mark) refl
    ]

load_header_long :
    (cod_size a b c d e f : ℕ) (more : List ℕ) (hint : Option (List ℕ))
    → e < 255
    → 6 ≤ cod_size
    → load_header cod_size (a ∷ b ∷ c ∷ d ∷ e ∷ f ∷ more) hint
      ≡ load_long (a * 256 + b) (c * 256 + d) (e * 256 + f) cod_size (a ∷ b ∷ c ∷ d ∷ e ∷ f ∷ more)
unfolding load_header
load_header_long cod_size a b c d e f more hint long six =
    let five : ltb cod_size 5 ≡ false = ground arith in
    let no_short : (e == 0xFF) ≡ false = ground arith in
    let enough : ltb cod_size 6 ≡ false = ground arith in rw (five, no_short, enough) refl

abbrev written : List ℕ → Name → List ℕ → Program
written date_str name code = record {
  program_name = name;
  date_time = date_str;
  version = version;
  code_start = length name + 26;
  code = code;
}

module _ (date_str name code : List ℕ) (date : length date_str ≡ 14) (short : length name ≤ 8)
    (fits : length name + 26 + length code < 65536) where
  abbrev size : ℕ
  size = length name + 26 + length code

  abbrev object : List ℕ
  object = object_code size date_str name code

  -- The name and what follows it.
  abbrev behind : List ℕ
  behind = name ++ (date_str ++ (version ++ (0x30 ∷ code)))

  length-behind : length behind ≡ length name + 20 + length code
  length-behind = omega (
    arith,
    length-append name (date_str ++ (version ++ (0x30 ∷ code))),
    length-append date_str (version ++ (0x30 ∷ code)),
  )

  header_part :
      (hint : Option (List ℕ))
      → load_header (length object) object hint
        ≡ load_long size (length name + 26) (length name) (length object) object
  unfolding load_header
  header_part hint =
      let start : u8 ((6 + length name + length date_str + 5 + 1) / 256) * 256
            + u8 (6 + length name + length date_str + 5 + 1)
          ≡ length name + 26 =
        omega arith in
      let total : u8 (size / 256) * 256 + u8 size ≡ size = omega arith in
      let named : u8 (length name / 256) * 256 + u8 (length name) ≡ length name = omega arith in
      load_header_long (length object) _ _ _ _ _ _ behind hint (omega arith)
        (omega (arith, length-behind))
      ∙ cc (start, total, named)

  -- Each part of the object is where the loader looks for it.
  part :
      (before xs after : List ℕ) (n : ℕ)
      → object ≡ before ++ (xs ++ after)
      → n ≡ length before
      → slice n (length xs) object ≡ xs
  part before xs after n e len = rw (e, len) (slice-append before xs after)

  -- The fields and the bytes of the header.
  abbrev fields : List ℕ
  fields = take 6 object

  name_part : slice 6 (length name) object ≡ name
  name_part = part fields name (date_str ++ (version ++ (0x30 ∷ code))) 6 refl refl

  upto_date : object ≡ (fields ++ name) ++ (date_str ++ (version ++ (0x30 ∷ code)))
  upto_date = sym (append_assoc fields name (date_str ++ (version ++ (0x30 ∷ code))))

  upto_version : object ≡ ((fields ++ name) ++ date_str) ++ (version ++ (0x30 ∷ code))
  upto_version = upto_date ∙ sym (append_assoc (fields ++ name) date_str (version ++ (0x30 ∷ code)))

  date_part : slice (6 + length name) 14 object ≡ date_str
  date_part =
      ap (λ (k : ℕ). slice (6 + length name) k object) (sym date)
      ∙ part (fields ++ name) date_str (version ++ (0x30 ∷ code)) (6 + length name) upto_date
          (sym (length-append fields name))

  version_part : slice (6 + length name + 14) 5 object ≡ version
  version_part =
      part ((fields ++ name) ++ date_str) version (0x30 ∷ code) (6 + length name + 14) upto_version
        (omega (arith, length-append (fields ++ name) date_str, length-append fields name))

  code_part : slice (length name + 26) (length code) object ≡ code
  code_part =
      let before = ((fields ++ name) ++ date_str) ++ (version ++ (0x30 ∷ [])) in
      part before code [] (length name + 26)
        (upto_version
          ∙ sym (
              append_assoc ((fields ++ name) ++ date_str) (version ++ (0x30 ∷ [])) (code ++ [])
              ∙ ap (λ (t : List ℕ). ((fields ++ name) ++ date_str) ++ (version ++ (0x30 ∷ t)))
                  (append-nil code)))
        (omega (
          arith,
          length-append ((fields ++ name) ++ date_str) (version ++ (0x30 ∷ [])),
          length-append (fields ++ name) date_str,
          length-append fields name,
        ))

  long_part :
      load_long size (length name + 26) (length name) (length object) object
      ≡ loaded (written date_str name code)
  unfolding load_long load_code code_size long_program
  long_part =
      let len : length object ≡ size = omega (arith, length-behind) in
      let in_file : ltb (length object) (length name + 26) ≡ false = ground (arith, len) in
      let parts : ltb (length name + 26) (6 + length name + 20) ≡ false = ground arith in
      let there : ltb (length object) (6 + length name + 14 + 5) ≡ false = ground (arith, len) in
      let n : code_size size (length name + 26) (length object) ≡ length code =
        ground (arith, len) in
      let all : ltb (length object) (length name + 26 + length code) ≡ false =
        ground (arith, len) in
      rw (in_file, parts, there, n, all, name_part, date_part, version_part, code_part) refl

-- The object of a program with a name of at most 8 characters is loaded as itself, where name and date
-- are printable, the date has 14 characters and the object is of less than 64 KiB: the header that the
-- code generator emits into an empty buffer, with any code behind it and the file size fixed up, gives
-- the loader the name, the date, the version and exactly the code.
pub cod_file_load_buf-emit_header :
    (date_str name code : List ℕ) (buf : Buffer) (name_hint : Option (List ℕ))
    → length date_str ≡ 14
    → length name ≤ 8
    → length name + 26 + length code < 65536
    → All (λ (c : ℕ). 32 ≤ c) (name ++ date_str)
    → emit_header date_str name emit_init ≡ some buf
    → cod_file_load_buf
        (fixup_header_file_size (length name + 26 + length code) (append code buf)).bytes
        name_hint
      ≡ loaded (record {
        program_name = name;
        date_time = date_str;
        version = codes "04.21";
        code_start = length name + 26;
        code = code;
      })
unfolding cod_file_load_buf load_scanned emit_init
cod_file_load_buf-emit_header date_str name code buf name_hint date short fits printable e =
    let (buf', e', added, same, wf) =
      emit_header-Appends date_str name emit_init emit_init-IsWellFormed in
    let here : buf ≡ buf' = some-injective _ _ (sym e ∙ e') in
    let bytes : (append code buf).bytes ≡ 0 ∷ 0 ∷ drop 2 (object_code 0 date_str name code) =
      rw (here, added) simp append_assoc in
    let object' =
      fixup_header_file_size_lem (length name + 26 + length code) _ _ _ (append code buf) bytes in
    rw
      (object', detect_not_found (length name + 26 + length code) date_str name code date printable)
      (header_part date_str name code date short fits name_hint
        ∙ long_part date_str name code date short fits)
