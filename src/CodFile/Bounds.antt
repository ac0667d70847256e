-- ===== src/CodFile/Bounds.antt =====
-- The reads of `cod_file_load_buf` in shared/bytecode/cod_file.c stay inside the image, unless the
-- header says otherwise.
use tbol_toolchain.Base.{
  ℕ, ◌+◌, ◌*◌, ◌≤◌, ◌≡◌, ◌≢◌, Bool, true, false, Option, List, [], ◌∷◌, length, ltb, ◌==◌,
  if◌then◌else◌, arith, either_holds,
}
use tbol_toolchain.CodFile.{
  Program, LoadResult, overread, code_size, load_code, short_program, long_program, load_long,
  load_header, load_scanned, cod_file_load_buf,
}
use tbol_toolchain.CodFile.Segments.{Scan, not_found, found_at, past_end, detect_pgm_offset}

-- A test between results that are no read past the end.
either_inside :
    (c : Bool) (a b : LoadResult)
    → (c ≡ true → a ≢ overread)
    → (c ≡ false → b ≢ overread)
    → (if c then a else b) ≢ overread
either_inside = either_holds (λ (r : LoadResult). r ≢ overread)

load_code_inside :
    (file_size code_start : ℕ) (bytes : List ℕ) (program : List ℕ → Program)
    → file_size ≤ length bytes
    → code_start ≤ length bytes
    → load_code file_size code_start (length bytes) bytes program ≢ overread
unfolding load_code code_size
load_code_inside file_size code_start bytes program fits starts =
    either_inside (ltb (length bytes) (code_start + code_size file_size code_start (length bytes)))
      _ _ (λ past. absurd (ground arith)) (λ inside e. cc)

load_long_inside :
    (file_size code_start name_len : ℕ) (bytes : List ℕ)
    → file_size ≤ length bytes
    → load_long file_size code_start name_len (length bytes) bytes ≢ overread
unfolding load_long
load_long_inside file_size code_start name_len bytes fits =
    either_inside (ltb (length bytes) code_start) _ _ (λ t q. cc)
      (λ starts.
        either_inside (ltb code_start (6 + name_len + 20)) _ _ (λ t q. cc)
          (λ parts.
            either_inside (ltb (length bytes) (6 + name_len + 14 + 5)) _ _
              (λ past. absurd (ground arith))
              (λ there.
                load_code_inside file_size code_start bytes (long_program bytes name_len code_start)
                  fits (ground arith))))

load_header_inside :
    (a b : ℕ) (rest : List ℕ) (name_hint : Option (List ℕ))
    → a * 256 + b ≤ length (a ∷ b ∷ rest)
    → load_header (length (a ∷ b ∷ rest)) (a ∷ b ∷ rest) name_hint ≢ overread
unfolding load_header
load_header_inside a b [] hint fits = λ q. cc
load_header_inside a b (c ∷ []) hint fits = λ q. cc
load_header_inside a b (c ∷ d ∷ []) hint fits = λ q. cc
load_header_inside a b (c ∷ d ∷ e ∷ []) hint fits =
    either_inside (e == 0xFF) _ _
      (λ short.
        either_inside (ltb 5 (c * 256 + d)) _ _ (λ t q. cc)
          (λ starts.
            load_code_inside (a * 256 + b) (c * 256 + d) (a ∷ b ∷ c ∷ d ∷ e ∷ [])
              (short_program hint (c * 256 + d)) fits (ground arith)))
      (λ long q. cc)
load_header_inside a b (c ∷ d ∷ e ∷ f ∷ more) hint fits =
    let bytes = a ∷ b ∷ c ∷ d ∷ e ∷ f ∷ more in
    either_inside (ltb (length bytes) 5) _ _ (λ t q. cc)
      (λ five.
        either_inside (e == 0xFF) _ _
          (λ short.
            either_inside (ltb (length bytes) (c * 256 + d)) _ _ (λ t q. cc)
              (λ starts.
                load_code_inside (a * 256 + b) (c * 256 + d) bytes
                  (short_program hint (c * 256 + d)) fits (ground arith)))
          (λ long.
            either_inside (ltb (length bytes) 6) _ _ (λ t q. cc)
              (λ six. load_long_inside (a * 256 + b) (c * 256 + d) (e * 256 + f) bytes fits)))

unscanned :
    (scan : Scan) (bytes : List ℕ) (name_hint : Option (List ℕ))
    → scan ≡ not_found
    → load_header (length bytes) bytes name_hint ≢ overread
    → load_scanned scan bytes name_hint ≢ overread
unfolding load_scanned
unscanned not_found bytes hint plain h = h
unscanned (found_at pgm_offset cod_size) bytes hint plain h = absurd cc
unscanned past_end bytes hint plain h = absurd cc

-- An image that is no encapsulated object and whose header gives a file size that is not above its
-- own is never read past its end, whatever its bytes are: the loader rejects it or loads it.
pub cod_file_load_buf_inside :
    (a b : ℕ) (rest : List ℕ) (name_hint : Option (List ℕ))
    → detect_pgm_offset (a ∷ b ∷ rest) ≡ not_found
    → a * 256 + b ≤ length (a ∷ b ∷ rest)
    → cod_file_load_buf (a ∷ b ∷ rest) name_hint ≢ overread
unfolding cod_file_load_buf
cod_file_load_buf_inside a b rest hint plain fits =
    unscanned (detect_pgm_offset (a ∷ b ∷ rest)) _ hint plain
      (load_header_inside a b rest hint fits)
