-- ===== src/Base/Bytes.antt =====
-- Bytes and 16-bit words: what a `uint8_t` or `uint16_t` conversion keeps, and the predicates that
-- say of a number or a list that it needs no conversion.
use Prim.Native.Nat.{ℕ, ◌+◌, ◌*◌, ◌/◌, ◌%◌, ◌<◌}
use mathlib.Core.Path.{◌≡◌}
use mathlib.Core.List.{List}
use native.Mathlib.Omega.{arith}
use tbol_toolchain.Base.Lists.{All}

abbrev pub u8 : ℕ → ℕ
u8 n = n % 256

abbrev pub u16 : ℕ → ℕ
u16 n = n % 65536

abbrev pub IsByte : ℕ → Type 0
IsByte b = b < 256

abbrev pub AreBytes : List ℕ → Type 0
AreBytes = All IsByte

pub word_of_halves : (w : ℕ) → w < 65536 → (w / 256 % 256) * 256 + w % 256 ≡ w
word_of_halves w h = omega arith
