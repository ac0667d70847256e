-- ===== src/Bytecode/Opcodes/Table.antt =====
-- `opcode_table` of shared/bytecode/decode.c as a whole.
use tbol_toolchain.Base.{
  ℕ, ◌<◌, ◌≡◌, Bool, true, some, List, [], ◌∷◌, All, arith, ◌==◌, Bool-cases, inl, inr, ==_iff, ap,
  sym, ◌∙◌, refl, ltb, ◌&&◌,
}
use tbol_toolchain.Bytecode.Opcodes.{OpcodeInfo, opcode_table, find_opcode, lookup_opcode}

find_opcode-small :
    (opcode : ℕ) (table : List OpcodeInfo) (info : OpcodeInfo)
    → All (λ (i : OpcodeInfo). i.opcode < 128) table
    → find_opcode opcode table ≡ some info
    → (info.opcode ≡ opcode) × (opcode < 128)
unfolding find_opcode
find_opcode-small opcode [] info small e = cc
find_opcode-small opcode (i ∷ table) info (s, small) e = elim (Bool-cases (i.opcode == opcode)) [
  | inl same ↦
      let found : some i ≡ some info = rw same at e in
      let it : i ≡ info = cc in
      let at : i.opcode ≡ opcode = (==_iff i.opcode opcode).0 same in
      (ap (λ (x : OpcodeInfo). x.opcode) (sym it) ∙ at, omega arith)
  | inr other ↦ find_opcode-small opcode table info small (rw other at e)
]

are_small : List OpcodeInfo → Bool
are_small [] = true
are_small (i ∷ table) = ltb i.opcode 128 && are_small table

are_small-All :
    (table : List OpcodeInfo)
    → are_small table ≡ true
    → All (λ (i : OpcodeInfo). i.opcode < 128) table
unfolding are_small
are_small-All [] e = tt
are_small-All (i ∷ table) e = elim (Bool-cases (ltb i.opcode 128)) [
  | inl small ↦ (ground arith, are_small-All table (rw small at e))
  | inr big ↦ cc (rw big at e)
]

table_small : are_small opcode_table ≡ true
unfolding are_small
table_small = refl

-- What the decoder's table returns for an opcode is an entry of that opcode, and no opcode from 128
-- on has one, so that bit 7 is free for the complex form.
pub lookup_opcode-small :
    (opcode : ℕ) (info : OpcodeInfo)
    → lookup_opcode opcode ≡ some info
    → (info.opcode ≡ opcode) × (opcode < 128)
unfolding lookup_opcode
lookup_opcode-small opcode info e =
    find_opcode-small opcode opcode_table info (are_small-All opcode_table table_small) e

-- Every entry of the decoder's table is the one that is found under its opcode: no entry hides
-- another.
pub lookup_opcode-table : All (λ (i : OpcodeInfo). lookup_opcode i.opcode ≡ some i) opcode_table
unfolding lookup_opcode find_opcode
lookup_opcode-table = (
  refl,
  (
    refl,
    (
      refl,
      (
        refl,
        (
          refl,
          (
            refl,
            (
              refl,
              (
                refl,
                (
                  refl,
                  (
                    refl,
                    (
                      refl,
                      (
                        refl,
                        (
                          refl,
                          (
                            refl,
                            (
                              refl,
                              (
                                refl,
                                (
                                  refl,
                                  (
                                    refl,
                                    (
                                      refl,
                                      (
                                        refl,
                                        (
                                          refl,
                                          (
                                            refl,
                                            (
                                              refl,
                                              (
                                                refl,
                                                (
                                                  refl,
                                                  (
                                                    refl,
                                                    (
                                                      refl,
                                                      (
                                                        refl,
                                                        (
                                                          refl,
                                                          (
                                                            refl,
                                                            (
                                                            refl,
                                                            (
                                                            refl,
                                                            (
                                                            refl,
                                                            (
                                                            refl,
                                                            (
                                                            refl,
                                                            (
                                                            refl,
                                                            (
                                                            refl,
                                                            (
                                                            refl,
                                                            (
                                                            refl,
                                                            (
                                                            refl,
                                                            (
                                                            refl,
                                                            (
                                                            refl,
                                                            (
                                                            refl,
                                                            (
                                                            refl,
                                                            (
                                                            refl,
                                                            (
                                                            refl,
                                                            (
                                                            refl,
                                                            (
                                                            refl,
                                                            (
                                                            refl,
                                                            (
                                                            refl,
                                                            (
                                                            refl,
                                                            (
                                                            refl,
                                                            (
                                                            refl,
                                                            (
                                                            refl,
                                                            (
                                                            refl,
                                                            (
                                                            refl,
                                                            (
                                                            refl,
                                                            (
                                                            refl,
                                                            (
                                                            refl,
                                                            (
                                                            refl,
                                                            (
                                                            refl,
                                                            (
                                                            refl,
                                                            (
                                                            refl,
                                                            (
                                                            refl,
                                                            (
                                                            refl,
                                                            (
                                                            refl,
                                                            (
                                                            refl,
                                                            (
                                                            refl,
                                                            (
                                                            refl,
                                                            (
                                                            refl,
                                                            (
                                                            refl,
                                                            (
                                                            refl,
                                                            (
                                                            refl,
                                                            (
                                                            refl,
                                                            (
                                                            refl,
                                                            (
                                                            refl,
                                                            (
                                                            refl,
                                                            (
                                                            refl,
                                                            (
                                                            refl,
                                                            (
                                                            refl,
                                                            (
                                                            refl,
                                                            (
                                                            refl,
                                                            (
                                                            refl,
                                                            (
                                                            refl,
                                                            (
                                                            refl,
                                                            (
                                                            refl,
                                                            (
                                                            refl,
                                                            (
                                                            refl,
                                                            (
                                                            refl,
                                                            (
                                                            refl,
                                                            (
                                                            refl,
                                                            (
                                                            refl,
                                                            (
                                                            refl,
                                                            (refl, (refl, (refl, (refl, tt)))),
                                                            ),
                                                            ),
                                                            ),
                                                            ),
                                                            ),
                                                            ),
                                                            ),
                                                            ),
                                                            ),
                                                            ),
                                                            ),
                                                            ),
                                                            ),
                                                            ),
                                                            ),
                                                            ),
                                                            ),
                                                            ),
                                                            ),
                                                            ),
                                                            ),
                                                            ),
                                                            ),
                                                            ),
                                                            ),
                                                            ),
                                                            ),
                                                            ),
                                                            ),
                                                            ),
                                                            ),
                                                            ),
                                                            ),
                                                            ),
                                                            ),
                                                            ),
                                                            ),
                                                            ),
                                                            ),
                                                            ),
                                                            ),
                                                            ),
                                                            ),
                                                            ),
                                                            ),
                                                            ),
                                                            ),
                                                            ),
                                                            ),
                                                            ),
                                                            ),
                                                            ),
                                                            ),
                                                            ),
                                                            ),
                                                            ),
                                                            ),
                                                            ),
                                                            ),
                                                            ),
                                                            ),
                                                            ),
                                                            ),
                                                          ),
                                                        ),
                                                      ),
                                                    ),
                                                  ),
                                                ),
                                              ),
                                            ),
                                          ),
                                        ),
                                      ),
                                    ),
                                  ),
                                ),
                              ),
                            ),
                          ),
                        ),
                      ),
                    ),
                  ),
                ),
              ),
            ),
          ),
        ),
      ),
    ),
  ),
)
