-- ===== src/Crc/Range.antt =====
-- The checksum of src/nano_crc32c.c stays within 32 bits.
use nanortc.Prelude.{
  List, [], arith, get_or, ltb, ltb→lt, refl, true, ℕ, ◌%◌, ◌/◌, ◌<◌, ◌^◌, ◌∷◌, ◌≡◌,
}
use Prim.Native.Nat.{bit_xor}
use nanortc.Prelude.Xor.{all_below, all_below-apply, xor-lt}
use nanortc.Crc.{crc32c, crc32c_table, final, initial, round, update}

entries_fit : all_below 256 (λ i. ltb (get_or crc32c_table i 0) (2 ^ 32)) ≡ true
unfolding all_below
entries_fit = refl

entry_fits : (i : ℕ) → i < 256 → get_or crc32c_table i 0 < 2 ^ 32
entry_fits i h =
    ltb→lt (get_or crc32c_table i 0) (2 ^ 32)
      (all_below-apply 256 (λ j. ltb (get_or crc32c_table j 0) (2 ^ 32)) i entries_fit h)

round_fits : (crc byte : ℕ) → crc < 2 ^ 32 → round crc32c_table crc byte < 2 ^ 32
unfolding round
round_fits crc byte h =
    let i = bit_xor crc byte % 256 in
    xor-lt 32 (crc / 2 ^ 8) (get_or crc32c_table i 0) (omega arith) (entry_fits i (omega arith))

update_fits : (crc : ℕ) (bytes : List ℕ) → crc < 2 ^ 32 → update crc32c_table crc bytes < 2 ^ 32
unfolding update
update_fits crc [] h = h
update_fits crc (b ∷ bytes) h = update_fits (round crc32c_table crc b) bytes (round_fits crc b h)

pub crc32c_fits : (bytes : List ℕ) → crc32c bytes < 2 ^ 32
unfolding crc32c final
crc32c_fits bytes =
    xor-lt 32 (update crc32c_table initial bytes) 0xffffffff
      (update_fits initial bytes (omega arith)) (omega arith)
