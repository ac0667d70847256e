-- ===== src/CodFile/Segments.antt =====
-- `detect_pgm_offset` of shared/bytecode/cod_file.c: the walk over the segments of an encapsulated
-- object. `rest` is the image from `pos` on.
use tbol_toolchain.Base.{
  ℕ, zero, suc, ◌+◌, ◌-◌, ◌*◌, Bool, false, ◌&&◌, ◌||◌, not, List, [], ◌∷◌, length, take, drop,
  get_or, ltb, leb, ◌==◌, if◌then◌else◌,
}

-- What the walk ends with: nothing, the offset and size of the program, or a read past the end.
pub data Scan : Type 0 where
  not_found past_end : Scan
  found_at : ℕ → ℕ → Scan

-- `isprint(c) && c != ' '`
abbrev is_visible : ℕ → Bool
is_visible c = leb 33 c && leb c 126

unfoldable pub has_printable : List ℕ → Bool
has_printable [] = false
has_printable (c ∷ bytes) = is_visible c || has_printable bytes

-- The subtype of a program data segment, which is read without a look at the end of the image.
unfoldable pub program_segment : ℕ → ℕ → List ℕ → Scan → Scan
program_segment pos seg_len [] walk_on = past_end
program_segment pos seg_len (subtype ∷ payload) walk_on =
    if subtype == 0x01 then found_at (pos + 3 + 1) (seg_len - 1) else walk_on

-- A segment takes three bytes at least, so that a round for each byte is enough.
unfoldable pub walk_segments : ℕ → ℕ → List ℕ → Scan
unfolding program_segment
walk_segments zero pos rest = not_found
walk_segments (suc fuel) pos (seg_type ∷ lo ∷ hi ∷ payload) =
    let seg_len = lo + hi * 256 in
    let walk_on = walk_segments fuel (pos + 3 + seg_len) (drop seg_len payload) in
    if seg_type == 0x61 && leb 1 seg_len
    then program_segment pos seg_len payload walk_on
    else walk_on
walk_segments (suc fuel) pos rest = not_found

unfoldable pub detect_pgm_offset : List ℕ → Scan
unfolding walk_segments has_printable
detect_pgm_offset bytes =
    if ltb (length bytes) 22
    then not_found
    else if not (get_or bytes 12 0 == 0x0C)
    then not_found
    else if not (has_printable (take 8 bytes))
    then not_found
    else walk_segments (length bytes) 18 (drop 18 bytes)
