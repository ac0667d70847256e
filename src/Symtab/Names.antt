-- ===== src/Symtab/Names.antt =====
-- `hash_name` of compiler/sema/symtab.c, and `strcasecmp` of the C library (in the C locale), by
-- which all tables of the compiler compare names. Bytes from 128 on are negative as a `char` and
-- letters to neither function.
use tbol_toolchain.Base.{ℕ, ◌+◌, ◌-◌, ◌*◌, ◌%◌, ◌^◌, ◌≡◌, refl, ap, ◌↔◌, Bool, true, false, ◌&&◌}
use tbol_toolchain.Base.{List, [], ◌∷◌, map, arith, leb, ◌==◌, if◌then◌else◌}

abbrev pub Name : Type 0
Name = List ℕ

unfoldable pub to_lower : ℕ → ℕ
to_lower c = if leb 65 c && leb c 90 then c + 32 else c

-- `if (c >= 'a' && c <= 'z') c -= 32;`
unfoldable pub upper_case : ℕ → ℕ
upper_case c = if leb 97 c && leb c 122 then c - 32 else c

-- `strcasecmp(a, b) == 0`
unfoldable pub same_name : Name → Name → Bool
same_name [] [] = true
same_name [] (d ∷ b) = false
same_name (c ∷ a) [] = false
same_name (c ∷ a) (d ∷ b) = to_lower c == to_lower d && same_name a b

-- The loop of `hash_name`, on `unsigned int`.
unfoldable pub hash_loop : ℕ → Name → ℕ
hash_loop hash [] = hash
hash_loop hash (c ∷ name) = hash_loop ((hash * 31 + upper_case c) % 2 ^ 32) name

unfoldable pub hash_name : Name → ℕ → ℕ
hash_name name table_size = hash_loop 0 name % table_size

-- A name with its letters in lower case.
abbrev pub folded : Name → Name
folded = map to_lower

same_name→folded : (a b : Name) → same_name a b ≡ true → folded a ≡ folded b
unfolding same_name
same_name→folded [] [] e = refl
same_name→folded [] (d ∷ b) e = cc
same_name→folded (c ∷ a) [] e = cc
same_name→folded (c ∷ a) (d ∷ b) e = ground (arith, same_name→folded a b)

folded→same_name : (a b : Name) → folded a ≡ folded b → same_name a b ≡ true
unfolding same_name
folded→same_name [] [] e = refl
folded→same_name [] (d ∷ b) e = cc
folded→same_name (c ∷ a) [] e = cc
folded→same_name (c ∷ a) (d ∷ b) e = ground (arith, folded→same_name a b)

-- Two names are the same exactly when they agree once in lower case: an equivalence relation.
pub same_name_iff : (a b : Name) → (same_name a b ≡ true) ↔ (folded a ≡ folded b)
same_name_iff a b = (same_name→folded a b, folded→same_name a b)

upper_case-to_lower : (c d : ℕ) → to_lower c ≡ to_lower d → upper_case c ≡ upper_case d
unfolding to_lower upper_case
upper_case-to_lower c d e = ground arith

hash_loop-same_name :
    (hash : ℕ) (a b : Name) → folded a ≡ folded b → hash_loop hash a ≡ hash_loop hash b
unfolding hash_loop
hash_loop-same_name hash [] [] e = refl
hash_loop-same_name hash [] (d ∷ b) e = cc
hash_loop-same_name hash (c ∷ a) [] e = cc
hash_loop-same_name hash (c ∷ a) (d ∷ b) e =
    rw (upper_case-to_lower c d (cc))
      (hash_loop-same_name ((hash * 31 + upper_case d) % 2 ^ 32) a b (cc))

-- Names that `strcasecmp` takes for the same fall into the same bucket.
pub hash_name-same_name :
    (a b : Name) (table_size : ℕ)
    → same_name a b ≡ true
    → hash_name a table_size ≡ hash_name b table_size
unfolding hash_name
hash_name-same_name a b table_size e =
    ap (λ (h : ℕ). h % table_size) (hash_loop-same_name 0 a b (same_name→folded a b e))
