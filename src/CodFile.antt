-- ===== src/CodFile.antt =====
-- shared/bytecode/cod_file.c: the loader of .cod and .pgm images. The image is the list of its bytes;
-- a read past its end, which C does not check, is `overread`. Opening the file is left out.
pub mod Segments
pub mod RoundTrip
pub mod Bounds
pub mod Encapsulated
use tbol_toolchain.Base.{
  ℕ, ◌+◌, ◌-◌, ◌*◌, ◌<◌, ◌≤◌, Option, none, some, List, [], ◌∷◌, ◌++◌, length, take, drop, ltb, leb,
  ◌==◌, if◌then◌else◌, codes, u16,
}
use Segments.{Scan, not_found, found_at, past_end, detect_pgm_offset}

-- The fields of Program of ir.h that the loader sets; `code_size` is the length of `code`.
pub record Program : Type 0 where
  pub program_name : List ℕ
  pub date_time : List ℕ
  pub version : List ℕ
  pub code_start : ℕ
  pub code : List ℕ

pub data LoadResult : Type 0 where
  rejected overread : LoadResult
  loaded : Program → LoadResult

-- `memcpy` of n bytes from an offset of the data.
abbrev pub slice : ℕ → ℕ → List ℕ → List ℕ
slice offset n bytes = take n (drop offset bytes)

-- `strrchr(hint, '/') + 1`, or the hint itself; then up to the last dot.
unfoldable pub after_slash : List ℕ → List ℕ → List ℕ
after_slash base [] = base
after_slash base (c ∷ text) = after_slash (if c == b'/' then text else base) text

unfoldable pub before_dot : List ℕ → Option (List ℕ)
before_dot [] = none
before_dot (c ∷ text) = elim (before_dot text) [
  | some stem ↦ some (c ∷ stem)
  | none ↦ if c == b'.' then some [] else none
]

unfoldable pub stem : List ℕ → List ℕ
unfolding before_dot
stem name = elim (before_dot name) [ some s ↦ s | none ↦ name ]

unfoldable pub hint_name : Option (List ℕ) → List ℕ
unfolding after_slash stem
hint_name none = codes "program"
hint_name (some hint) = stem (after_slash hint hint)

-- The size of the code, a `uint16_t`: by the header, or all of the image if that is too small.
unfoldable pub code_size : ℕ → ℕ → ℕ → ℕ
code_size file_size code_start cod_size =
    u16 (if ltb code_start file_size then file_size - code_start else cod_size - code_start)

-- The code is read from the image, whatever the header says of its size.
unfoldable pub load_code : ℕ → ℕ → ℕ → List ℕ → (List ℕ → Program) → LoadResult
unfolding code_size
load_code file_size code_start cod_size bytes program =
    let n = code_size file_size code_start cod_size in
    if ltb (length bytes) (code_start + n)
    then overread
    else loaded (program (slice code_start n bytes))

unfoldable pub short_program : Option (List ℕ) → ℕ → List ℕ → Program
short_program name_hint code_start code = record {
  program_name = hint_name name_hint;
  date_time = codes "unknown";
  version = codes "unknown";
  code_start = code_start;
  code = code;
}

unfoldable pub long_program : List ℕ → ℕ → ℕ → List ℕ → Program
long_program bytes name_len code_start code = record {
  program_name = slice 6 name_len bytes;
  date_time = slice (6 + name_len) 14 bytes;
  version = slice (6 + name_len + 14) 5 bytes;
  code_start = code_start;
  code = code;
}

-- Name, date and version are read behind each other, and end before `code_start`.
unfoldable pub load_long : ℕ → ℕ → ℕ → ℕ → List ℕ → LoadResult
unfolding load_code long_program
load_long file_size code_start name_len cod_size bytes =
    if ltb cod_size code_start
    then rejected
    else if ltb code_start (6 + name_len + 20)
    then rejected
    else if ltb (length bytes) (6 + name_len + 14 + 5)
    then overread
    else load_code file_size code_start cod_size bytes (long_program bytes name_len code_start)

-- The header, of an image whose size is given and need not be that of the bytes.
unfoldable pub load_header : ℕ → List ℕ → Option (List ℕ) → LoadResult
unfolding load_long load_code short_program
load_header cod_size (a ∷ b ∷ c ∷ d ∷ e ∷ rest) name_hint =
    let bytes = a ∷ b ∷ c ∷ d ∷ e ∷ rest in
    let file_size = a * 256 + b in
    let code_start = c * 256 + d in
    if ltb cod_size 5
    then rejected
    else if e == 0xFF
    then (if ltb cod_size code_start
        then rejected
        else load_code file_size code_start cod_size bytes (short_program name_hint code_start))
    else if ltb cod_size 6
    then rejected
    else elim rest [
      | [] ↦ overread
      | f ∷ more ↦ load_long file_size code_start (e * 256 + f) cod_size bytes
    ]
load_header cod_size bytes name_hint = if ltb cod_size 5 then rejected else overread

-- The part of the image that a scan found, or all of it.
unfoldable pub load_scanned : Scan → List ℕ → Option (List ℕ) → LoadResult
unfolding load_header
load_scanned not_found bytes name_hint = load_header (length bytes) bytes name_hint
load_scanned (found_at pgm_offset cod_size) bytes name_hint =
    load_header cod_size (drop pgm_offset bytes) name_hint
load_scanned past_end bytes name_hint = overread

unfoldable pub cod_file_load_buf : List ℕ → Option (List ℕ) → LoadResult
unfolding load_scanned detect_pgm_offset
cod_file_load_buf bytes name_hint = load_scanned (detect_pgm_offset bytes) bytes name_hint
