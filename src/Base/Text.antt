-- ===== src/Base/Text.antt =====
-- C strings: the bytes of a string literal, and `strncmp`, `strstr` and `"%d"` of the C library.
use Prim.Native.Char.{code}
use Prim.Native.String.{String}
use Prim.Native.Nat.{ℕ, zero, suc, ◌+◌, ◌/◌, ◌%◌}
use mathlib.Core.Bool.{Bool, true, false, ◌&&◌}
use mathlib.Core.Option.{Option, none, some}
use mathlib.Core.List.{List, [], ◌∷◌}
use tbol_toolchain.Base.Tests.{ltb, ◌==◌, if◌then◌else◌}

abbrev pub codes : String → List ℕ
codes String.[] = []
codes (String.◌∷◌ c s) = code c ∷ codes s

-- `strncmp(text, prefix, strlen(prefix)) == 0`
unfoldable pub starts_with : List ℕ → List ℕ → Bool
starts_with [] text = true
starts_with (p ∷ prefix) [] = false
starts_with (p ∷ prefix) (c ∷ text) = p == c && starts_with prefix text

-- `strstr(text, part)`: the text from the first place of the part on.
unfoldable pub find_text : List ℕ → List ℕ → Option (List ℕ)
unfolding starts_with
find_text part [] = if starts_with part [] then some [] else none
find_text part (c ∷ text) =
    let later = find_text part text in
    if starts_with part (c ∷ text) then some (c ∷ text) else later

-- The decimal digits of a number in front of others, with a round for each digit at most.
decimal_loop : ℕ → ℕ → List ℕ → List ℕ
decimal_loop zero n digits = digits
decimal_loop (suc fuel) n digits =
    let rest = decimal_loop fuel (n / 10) ((48 + n % 10) ∷ digits) in
    if ltb n 10 then (48 + n) ∷ digits else rest

-- `snprintf(buf, sizeof(buf), "%d", n)` for an `int` that is not negative.
unfoldable pub decimal : ℕ → List ℕ
unfolding decimal_loop
decimal n = decimal_loop 10 n []
