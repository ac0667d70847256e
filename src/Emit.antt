-- ===== src/Emit.antt =====
-- compiler/codegen/emit.c: the output buffer and the forward references, as one state that is passed
-- along. The bytes of the buffer are those written, `buffer_size` of them; `realloc` gives the memory
-- asked for. `none` is that the fuel of the growing loop ran out. Negative offsets do not occur.
pub mod Growth
pub mod Patch
use tbol_toolchain.Base.{
  ℕ, zero, suc, ◌+◌, ◌*◌, ◌/◌, Bool, true, false, Option, none, some, List, [], ◌∷◌, ◌++◌, length,
  take, set, ltb, leb, if◌then◌else◌, u8, ◌>>=◌,
}
use Prim.Native.Nat.{min}
use tbol_toolchain.Symtab.Names.{Name}

-- A label that is cleared (resolved) is `none`, and so is the procedure outside procedures.
pub record ForwardRef : Type 0 where
  pub patch_offset : ℕ
  pub label : Option Name
  pub proc : Option Name

pub record Buffer : Type 0 where
  pub bytes : List ℕ
  pub capacity : ℕ
  pub forward_refs : List ForwardRef

abbrev pub initial_buffer_size : ℕ
initial_buffer_size = 4096

unfoldable pub emit_init : Buffer
emit_init = record { bytes = []; capacity = initial_buffer_size; forward_refs = [] }

-- `while (buffer_size + need > buffer_capacity) buffer_capacity *= 2;`
unfoldable pub grow : ℕ → ℕ → ℕ → Option ℕ
grow zero total capacity = if ltb capacity total then none else some capacity
grow (suc fuel) total capacity =
    let rest = grow fuel total (capacity * 2) in if ltb capacity total then rest else some capacity

-- The capacity doubles from 1 at least, so that a round for each byte that is needed is enough.
unfoldable pub ensure_capacity : ℕ → Buffer → Option Buffer
unfolding grow
ensure_capacity need buf = do
  capacity ← grow (length buf.bytes + need) (length buf.bytes + need) buf.capacity
  some (record buf { capacity = capacity })

-- `emit_get_offset`
unfoldable pub emit_get_offset : Buffer → ℕ
emit_get_offset buf = length buf.bytes

-- The write that follows `ensure_capacity` in each emitter.
abbrev pub append : List ℕ → Buffer → Buffer
append code buf = record buf { bytes = buf.bytes ++ code }

unfoldable pub emit_byte : ℕ → Buffer → Option Buffer
emit_byte b buf = do buf' ← ensure_capacity 1 buf; some (append (u8 b ∷ []) buf')

unfoldable pub emit_word_be : ℕ → Buffer → Option Buffer
emit_word_be w buf = do buf' ← ensure_capacity 2 buf; some (append (u8 (w / 256) ∷ u8 w ∷ []) buf')

unfoldable pub emit_bytes : List ℕ → Buffer → Option Buffer
emit_bytes data_bytes buf = do
  buf' ← ensure_capacity (length data_bytes) buf
  some (append data_bytes buf')

-- `emit_string_n` with its length, and `emit_string` with `strlen`.
unfoldable pub emit_string_n : List ℕ → Buffer → Option Buffer
emit_string_n str buf = do
  let len = min (length str) 255
  buf₁ ← emit_byte 0x00 buf
  buf₂ ← emit_byte len buf₁
  emit_bytes (take len str) buf₂

unfoldable pub emit_add_forward_ref : ℕ → Option Name → Option Name → Buffer → Buffer
emit_add_forward_ref offset label proc buf = record buf {
  forward_refs =
      buf.forward_refs ++ (record { patch_offset = offset; label = label; proc = proc } ∷ []);
}

unfoldable pub emit_clear_forward_refs : Buffer → Buffer
emit_clear_forward_refs buf = record buf { forward_refs = [] }

unfoldable pub emit_patch_byte : ℕ → ℕ → Buffer → Buffer
emit_patch_byte offset value buf = record buf {
  bytes = if ltb offset (length buf.bytes) then set buf.bytes offset (u8 value) else buf.bytes;
}

-- `value` is the bit pattern of an `int16_t`.
unfoldable pub emit_patch_word_be : ℕ → ℕ → Buffer → Buffer
emit_patch_word_be offset value buf = record buf {
  bytes =
      if ltb (suc offset) (length buf.bytes)
      then set (set buf.bytes offset (u8 (value / 256))) (suc offset) (u8 value)
      else buf.bytes;
}
