-- ===== src/Tests/CodFileTests.antt =====
-- An object with two bytes of code, for the theorems about the loader.
use tbol_toolchain.Base.{ℕ, ◌≡◌, ◌≢◌, refl, none, List, [], ◌∷◌, ◌++◌, codes, arith}
use tbol_toolchain.Emit.{
  Buffer, emit_init, append, emit_word_be, emit_byte, emit_bytes, ensure_capacity, grow,
}
use tbol_toolchain.Statements.Program.{emit_header, fixup_header_file_size}
use tbol_toolchain.CodFile.{overread, loaded, load_header, cod_file_load_buf}
use tbol_toolchain.CodFile.Segments.{detect_pgm_offset, has_printable}
use tbol_toolchain.CodFile.Encapsulated.{
  Segment, segments_code, program_code, cod_file_load_buf-segments_code,
}
use tbol_toolchain.CodFile.RoundTrip.{cod_file_load_buf-emit_header}
use tbol_toolchain.CodFile.Bounds.{cod_file_load_buf_inside}

-- The header of the object, before its size is known.
abbrev header : Buffer
header = append (0 ∷ 0 ∷ 0 ∷ 30 ∷ 0 ∷ 4 ∷ codes "demo01/02/90 03:0404.210") emit_init

cod_file_load_buf-emit_header_example :
    cod_file_load_buf (fixup_header_file_size 32 (append (0x10 ∷ 0x07 ∷ []) header)).bytes none
    ≡ loaded (record {
      program_name = codes "demo";
      date_time = codes "01/02/90 03:04";
      version = codes "04.21";
      code_start = 30;
      code = 0x10 ∷ 0x07 ∷ [];
    })
unfolding emit_header emit_word_be emit_byte emit_bytes ensure_capacity grow emit_init
cod_file_load_buf-emit_header_example =
    cod_file_load_buf-emit_header (codes "01/02/90 03:04") (codes "demo") (0x10 ∷ 0x07 ∷ []) header
      none refl (omega arith) (omega arith) (ground arith) refl

-- A short header with one byte of code and one of padding.
cod_file_load_buf_inside_example :
    cod_file_load_buf (0 ∷ 6 ∷ 0 ∷ 5 ∷ 0xFF ∷ 0x07 ∷ 0 ∷ []) none ≢ overread
unfolding detect_pgm_offset
cod_file_load_buf_inside_example =
    cod_file_load_buf_inside 0 6 (0 ∷ 5 ∷ 0xFF ∷ 0x07 ∷ 0 ∷ []) none refl (omega arith)

-- Application data in front of the program.
abbrev segments : List Segment
segments = record { seg_type = 0x61; payload = 0x02 ∷ 0x01 ∷ [] } ∷ []

abbrev cod : List ℕ
cod = 0 ∷ 6 ∷ 0 ∷ 5 ∷ 0xFF ∷ 0x07 ∷ []

cod_file_load_buf-segments_code_example :
    cod_file_load_buf
      ((codes "3COPCHO1" ++ (codes "PGM0" ++ (0x0C ∷ 0 ∷ 0 ∷ 0 ∷ 0 ∷ 0 ∷ [])))
        ++ (segments_code segments ++ (program_code cod ++ (0 ∷ []))))
      none
    ≡ load_header 6 (cod ++ (0 ∷ [])) none
unfolding has_printable
cod_file_load_buf-segments_code_example =
    cod_file_load_buf-segments_code (codes "3COPCHO1") (codes "PGM0") (0 ∷ 0 ∷ 0 ∷ 0 ∷ 0 ∷ [])
      segments cod (0 ∷ []) refl refl refl refl ((omega arith, refl), tt) (omega arith) none
