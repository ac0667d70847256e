-- ===== src/CodFile/Encapsulated.antt =====
-- An encapsulated object through `detect_pgm_offset` and `cod_file_load_buf` of
-- shared/bytecode/cod_file.c, against a description of its segments.
use tbol_toolchain.Base.{
  ℕ, zero, suc, ◌+◌, ◌-◌, ◌*◌, ◌/◌, ◌<◌, ◌≤◌, ◌≡◌, refl, sym, ap, ◌∙◌, Bool, true, false, ◌&&◌,
  Option, List, [], ◌∷◌, ◌++◌, length, take, drop, get_or, All, Bool-cases, inl, inr, arith, u8,
  ltb, leb, ◌==◌, if◌then◌else◌, length-append, take-length_append, drop-length_append,
  append_assoc,
}
use tbol_toolchain.CodFile.{load_header, load_scanned, cod_file_load_buf}
use tbol_toolchain.CodFile.Segments.{
  Scan, found_at, has_printable, program_segment, walk_segments, detect_pgm_offset,
}

-- A segment in front of the program: its type and its payload.
pub record Segment : Type 0 where
  pub seg_type : ℕ
  pub payload : List ℕ

-- It is no program: of another type, or without a payload, or with another subtype.
abbrev pub holds_program : Segment → Bool
holds_program segment =
    segment.seg_type == 0x61
    && (leb 1 (length segment.payload) && get_or segment.payload 0 0 == 0x01)

abbrev pub IsOther : Segment → Type 0
IsOther segment = (length segment.payload < 65536) × (holds_program segment ≡ false)

abbrev pub segment_code : Segment → List ℕ
segment_code segment =
    segment.seg_type
    ∷ u8 (length segment.payload)
    ∷ u8 (length segment.payload / 256)
    ∷ segment.payload

abbrev pub segments_code : List Segment → List ℕ
segments_code [] = []
segments_code (segment ∷ segments) = segment_code segment ++ segments_code segments

abbrev pub program_code : List ℕ → List ℕ
program_code cod = 0x61 ∷ u8 (1 + length cod) ∷ u8 ((1 + length cod) / 256) ∷ 0x01 ∷ cod

-- What is no program of a segment is not looked at.
unlike :
    (pos seg_type : ℕ) (payload rest : List ℕ) (walk_on : Scan)
    → (seg_type == 0x61 && (leb 1 (length payload) && get_or payload 0 0 == 0x01)) ≡ false
    → (if seg_type == 0x61 && leb 1 (length payload)
        then program_segment pos (length payload) (payload ++ rest) walk_on
        else walk_on)
      ≡ walk_on
unfolding program_segment
unlike pos seg_type [] rest walk_on other = elim (Bool-cases (seg_type == 0x61)) [
  | inl e ↦ rw e refl
  | inr e ↦ rw e refl
]
unlike pos seg_type (subtype ∷ payload) rest walk_on other =
    let some_bytes : leb 1 (suc (length payload)) ≡ true = ground arith in
    elim (Bool-cases (seg_type == 0x61)) [
      | inl e ↦
          let no_code : (subtype == 0x01) ≡ false = rw some_bytes at rw e at other in
          rw (e, some_bytes, no_code) refl
      | inr e ↦ rw e refl
    ]

-- A segment that is no program is walked over.
walk_over :
    (fuel pos : ℕ) (segment : Segment) (rest : List ℕ)
    → IsOther segment
    → walk_segments (suc fuel) pos (segment_code segment ++ rest)
      ≡ walk_segments fuel (pos + 3 + length segment.payload) rest
unfolding walk_segments
walk_over fuel pos segment rest (short, other) =
    let n = length segment.payload in
    let len : u8 n + u8 (n / 256) * 256 ≡ n = omega arith in
    let behind : drop n (segment.payload ++ rest) ≡ rest =
      drop-length_append segment.payload rest in
    rw (len, behind) (unlike pos segment.seg_type segment.payload rest _ other)

-- The program is found behind the segments.
walk_segments-segments_code :
    (fuel pos : ℕ) (segments : List Segment) (cod rest : List ℕ)
    → length segments < fuel
    → All IsOther segments
    → 1 + length cod < 65536
    → walk_segments fuel pos (segments_code segments ++ (program_code cod ++ rest))
      ≡ found_at (pos + length (segments_code segments) + 4) (length cod)
unfolding walk_segments program_segment
walk_segments-segments_code zero pos segments cod rest enough others short = absurd (omega arith)
walk_segments-segments_code (suc fuel) pos [] cod rest enough others short =
    let len : u8 (1 + length cod) + u8 ((1 + length cod) / 256) * 256 ≡ 1 + length cod =
      omega arith in
    let some_bytes : leb 1 (1 + length cod) ≡ true = ground arith in
    let size : 1 + length cod - 1 ≡ length cod = omega arith in
    rw (len, some_bytes, size) (ap (λ (p : ℕ). found_at p (length cod)) (omega arith))
walk_segments-segments_code (suc fuel) pos (segment ∷ segments) cod rest enough (other, others)
      short =
    ap (λ (bytes : List ℕ). walk_segments (suc fuel) pos bytes)
      (append_assoc (segment_code segment) (segments_code segments) (program_code cod ++ rest))
    ∙ walk_over fuel pos segment _ other
    ∙ walk_segments-segments_code fuel (pos + 3 + length segment.payload) segments cod rest
        (omega arith) others short
    ∙ ap (λ (p : ℕ). found_at p (length cod))
        (omega (arith, length-append (segment_code segment) (segments_code segments)))

length-segments_code : (segments : List Segment) → length segments ≤ length (segments_code segments)
length-segments_code [] = omega arith
length-segments_code (segment ∷ segments) = omega (
  arith,
  length-append (segment_code segment) (segments_code segments),
  length-segments_code segments,
)

get_or-length_append : (xs ys : List ℕ) (y i : ℕ) → i ≡ length xs → get_or (xs ++ (y ∷ ys)) i 0 ≡ y
get_or-length_append [] ys y i e = rw e refl
get_or-length_append (x ∷ xs) ys y zero e = absurd (omega arith)
get_or-length_append (x ∷ xs) ys y (suc i) e = get_or-length_append xs ys y i (omega arith)

module _ (name extension control : List ℕ) (segments : List Segment) (cod padding : List ℕ)
    (named : length name ≡ 8) (extended : length extension ≡ 4)
    (controlled : length control ≡ 5) where
  -- The header of the object, of 18 bytes.
  abbrev header : List ℕ
  header = name ++ (extension ++ (0x0C ∷ control))

  abbrev object : List ℕ
  object = header ++ (segments_code segments ++ (program_code cod ++ padding))

  length-header : length header ≡ 18
  length-header = omega (
    arith,
    length-append name (extension ++ (0x0C ∷ control)),
    length-append extension (0x0C ∷ control),
  )

  object_mark : get_or object 12 0 ≡ 0x0C
  object_mark =
      let body = segments_code segments ++ (program_code cod ++ padding) in
      let split : object ≡ (name ++ extension) ++ (0x0C ∷ (control ++ body)) =
        append_assoc name (extension ++ (0x0C ∷ control)) body
        ∙ ap (λ (t : List ℕ). name ++ t) (append_assoc extension (0x0C ∷ control) body)
        ∙ sym (append_assoc name extension (0x0C ∷ (control ++ body))) in
      ap (λ (t : List ℕ). get_or t 12 0) split
      ∙ get_or-length_append (name ++ extension) (control ++ body) 0x0C 12
          (omega (arith, length-append name extension))

  object_name : take 8 object ≡ name
  object_name =
      let body = segments_code segments ++ (program_code cod ++ padding) in
      ap (λ (n : ℕ). take n object) (sym named)
      ∙ ap (λ (t : List ℕ). take (length name) t)
          (append_assoc name (extension ++ (0x0C ∷ control)) body)
      ∙ take-length_append name ((extension ++ (0x0C ∷ control)) ++ body)

  object_body : drop 18 object ≡ segments_code segments ++ (program_code cod ++ padding)
  object_body =
      ap (λ (n : ℕ). drop n object) (sym length-header)
      ∙ drop-length_append header (segments_code segments ++ (program_code cod ++ padding))

  program_part : drop (18 + length (segments_code segments) + 4) object ≡ cod ++ padding
  program_part =
      let before = header ++ (segments_code segments ++ take 4 (program_code cod)) in
      let count : 18 + length (segments_code segments) + 4 ≡ length before = omega (
        arith,
        length-header,
        length-append header (segments_code segments ++ take 4 (program_code cod)),
        length-append (segments_code segments) (take 4 (program_code cod)),
      ) in
      let split : before ++ (cod ++ padding) ≡ object =
        append_assoc header (segments_code segments ++ take 4 (program_code cod)) (cod ++ padding)
        ∙ ap (λ (t : List ℕ). header ++ t)
            (append_assoc (segments_code segments) (take 4 (program_code cod)) (cod ++ padding)) in
      ap (λ (n : ℕ). drop n object) count
      ∙ ap (λ (t : List ℕ). drop (length before) t) (sym split)
      ∙ drop-length_append before (cod ++ padding)

  length-object : 22 + length segments ≤ length object
  length-object = omega (
    arith,
    length-header,
    length-segments_code segments,
    length-append header (segments_code segments ++ (program_code cod ++ padding)),
    length-append (segments_code segments) (program_code cod ++ padding),
  )

  detect_found :
      has_printable name ≡ true
      → All IsOther segments
      → 1 + length cod < 65536
      → detect_pgm_offset object ≡ found_at (18 + length (segments_code segments) + 4) (length cod)
  unfolding detect_pgm_offset
  detect_found printable others short =
      let large : ltb (length object) 22 ≡ false = ground (arith, length-object) in
      rw (large, object_mark, object_name, printable, object_body)
        (walk_segments-segments_code (length object) 18 segments cod padding
          (omega (arith, length-object)) others short)

-- An encapsulated object is loaded as the object inside it: when its name of 8 bytes has a visible
-- character, its type is the program data object, and the segments in front of the first compiled
-- program are of other types or subtypes, cod_file_load_buf reads the header of the program of the
-- size that the segment gives, whatever follows in the image.
pub cod_file_load_buf-segments_code :
    (name extension control : List ℕ) (segments : List Segment) (cod padding : List ℕ)
    → length name ≡ 8
    → length extension ≡ 4
    → length control ≡ 5
    → has_printable name ≡ true
    → All IsOther segments
    → 1 + length cod < 65536
    → (hint : Option (List ℕ))
    → cod_file_load_buf
        ((name ++ (extension ++ (0x0C ∷ control)))
          ++ (segments_code segments ++ (program_code cod ++ padding)))
        hint
      ≡ load_header (length cod) (cod ++ padding) hint
unfolding cod_file_load_buf load_scanned
cod_file_load_buf-segments_code name extension control segments cod padding named extended
      controlled printable others short hint =
    rw
      (
        detect_found name extension control segments cod padding named extended controlled printable
            others short,
        program_part name extension control segments cod padding named extended controlled,
      )
      refl
