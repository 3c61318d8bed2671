-- ===== src/Crc/Tests.antt =====
-- The check values of the two checksums: those of the bytes of "123456789".
use nanortc.Prelude.{List, [], arith, refl, ℕ, ◌++◌, ◌∷◌, ◌≡◌}
use Prim.Native.Nat.{bit_xor}
use nanortc.Crc.Bitwise.{bit_update, checksums_lem, crc32_poly, crc32c_poly}
use nanortc.Crc.{crc32, crc32c, crc32c_table, final, initial, round, update}

abbrev digits : List ℕ
digits = 0x31 ∷ 0x32 ∷ 0x33 ∷ 0x34 ∷ 0x35 ∷ 0x36 ∷ 0x37 ∷ 0x38 ∷ 0x39 ∷ []

crc32c_check : crc32c digits ≡ 0xe3069283
unfolding crc32c final update round
crc32c_check = refl

crc32_check : crc32 digits ≡ 0xcbf43926
unfolding crc32 final update round
crc32_check = refl

checksums_lem_example :
    (crc32 digits ≡ bit_xor (bit_update crc32_poly 0xffffffff digits) 0xffffffff)
    × (crc32c digits ≡ bit_xor (bit_update crc32c_poly 0xffffffff digits) 0xffffffff)
    × (update crc32c_table initial (digits ++ digits)
        ≡ update crc32c_table (update crc32c_table initial digits) digits)
checksums_lem_example = checksums_lem initial digits digits (omega arith)
