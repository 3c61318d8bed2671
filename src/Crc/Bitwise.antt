-- ===== src/Crc/Bitwise.antt =====
-- The tables against the definition of a CRC, one bit at a time.
use nanortc.Prelude.{
  ==_iff, IsBytes, List, [], ap, ap₂, arith, get_or, if◌then◌else◌, inl, inr, refl, suc, sym, true,
  zero, ℕ, ◌%◌, ◌*◌, ◌++◌, ◌+◌, ◌/◌, ◌<◌, ◌==◌, ◌∙◌, ◌∷◌, ◌≡◌,
}
use nanortc.Prelude.Xor.{
  all_below, all_below-apply, bit-xor, bit_of, half-xor, pow2, xor-lt, xor-zero, xor_assoc,
  xor_comm, xor_disjoint, xor_self, zero-xor,
}
use Prim.Native.Nat.{bit_xor}
use nanortc.Crc.{crc32, crc32_table, crc32c, crc32c_table, final, round, update}

-- The polynomials, lowest bit last: ISO 3309 and Castagnoli.
abbrev pub crc32_poly : ℕ
crc32_poly = 0xedb88320

abbrev pub crc32c_poly : ℕ
crc32c_poly = 0x82f63b78

-- One bit: a shift, and the polynomial if a one falls out.
unfoldable pub bit_round : ℕ → ℕ → ℕ
bit_round poly crc = bit_xor (crc / 2) (if crc % 2 == 0 then 0 else poly)

unfoldable pub bit_rounds : ℕ → ℕ → ℕ → ℕ
bit_rounds poly zero crc = crc
bit_rounds poly (suc k) crc = bit_rounds poly k (bit_round poly crc)

-- The checksum by definition: each byte goes in, and eight bits go through.
unfoldable pub bit_update : ℕ → ℕ → List ℕ → ℕ
bit_update poly crc [] = crc
bit_update poly crc (b ∷ bytes) = bit_update poly (bit_rounds poly 8 (bit_xor crc b)) bytes

xor_swap : (a b c d : ℕ) → bit_xor (bit_xor a b) (bit_xor c d) ≡ bit_xor (bit_xor a c) (bit_xor b d)
xor_swap a b c d =
    xor_assoc a b (bit_xor c d)
    ∙ ap (λ x. bit_xor a x)
        (sym (xor_assoc b c d) ∙ ap (λ x. bit_xor x d) (xor_comm b c) ∙ xor_assoc c b d)
    ∙ sym (xor_assoc a c (bit_xor b d))

-- What falls out of an exclusive or falls out of one of the two, or of both.
carry-xor :
    (poly a b : ℕ)
    → (if bit_xor a b % 2 == 0 then 0 else poly)
      ≡ bit_xor (if a % 2 == 0 then 0 else poly) (if b % 2 == 0 then 0 else poly)
carry-xor poly a b = elim (bit_of a) [
  | inl e ↦ elim (bit_of b) [
    | inl f ↦
        (let s : bit_xor a b % 2 ≡ 0 = omega (arith, bit-xor a b, e, f) in
          rw (s, e, f) (sym (zero-xor 0)))
    | inr f ↦
        (let s : bit_xor a b % 2 ≡ 1 = omega (arith, bit-xor a b, e, f) in
          rw (s, e, f) (sym (zero-xor poly)))
  ]
  | inr e ↦ elim (bit_of b) [
    | inl f ↦
        (let s : bit_xor a b % 2 ≡ 1 = omega (arith, bit-xor a b, e, f) in
          rw (s, e, f) (sym (xor-zero poly)))
    | inr f ↦
        (let s : bit_xor a b % 2 ≡ 0 = omega (arith, bit-xor a b, e, f) in
          rw (s, e, f) (sym (xor_self poly)))
  ]
]

bit_round-xor :
    (poly a b : ℕ) → bit_round poly (bit_xor a b) ≡ bit_xor (bit_round poly a) (bit_round poly b)
unfolding bit_round
bit_round-xor poly a b =
    ap₂ bit_xor (half-xor a b) (carry-xor poly a b)
    ∙ xor_swap (a / 2) (b / 2) (if a % 2 == 0 then 0 else poly) (if b % 2 == 0 then 0 else poly)

bit_rounds-xor :
    (poly k a b : ℕ)
    → bit_rounds poly k (bit_xor a b) ≡ bit_xor (bit_rounds poly k a) (bit_rounds poly k b)
unfolding bit_rounds
bit_rounds-xor poly zero a b = refl
bit_rounds-xor poly (suc k) a b =
    ap (bit_rounds poly k) (bit_round-xor poly a b)
    ∙ bit_rounds-xor poly k (bit_round poly a) (bit_round poly b)

-- Zeros that fall out leave a shift.
bit_rounds-shift : (poly k h : ℕ) → bit_rounds poly k (h * pow2 k) ≡ h
unfolding bit_rounds bit_round
bit_rounds-shift poly zero h = omega arith
bit_rounds-shift poly (suc k) h =
    let even : h * (2 * pow2 k) % 2 ≡ 0 = grind arith in
    let half : h * (2 * pow2 k) / 2 ≡ h * pow2 k = grind arith in
    rw (even, half, xor-zero (h * pow2 k)) (bit_rounds-shift poly k h)

-- The entries of a table: eight bits of each byte.
abbrev pub IsTable : ℕ → List ℕ → Type 0
IsTable poly table = all_below 256 (λ i. get_or table i 0 == bit_rounds poly 8 i) ≡ true

pub crc32_table-IsTable : IsTable crc32_poly crc32_table
unfolding all_below bit_rounds bit_round
crc32_table-IsTable = refl

pub crc32c_table-IsTable : IsTable crc32c_poly crc32c_table
unfolding all_below bit_rounds bit_round
crc32c_table-IsTable = refl

-- A byte leaves the upper bits alone.
high_part : (crc byte : ℕ) → byte < 256 → bit_xor crc byte / 256 ≡ crc / 256
high_part crc byte b =
    let l = crc % 256 in
    let low : l < 256 = omega arith in
    let split : crc ≡ bit_xor (crc / 256 * 256) l =
      omega (arith, xor_disjoint 8 (crc / 256) l low) in
    let mixed : bit_xor l byte < 256 = xor-lt 8 l byte low b in
    let joined : bit_xor crc byte ≡ crc / 256 * 256 + bit_xor l byte =
      ap (λ c. bit_xor c byte) split
      ∙ xor_assoc (crc / 256 * 256) l byte
      ∙ xor_disjoint 8 (crc / 256) (bit_xor l byte) mixed in
    omega (arith, joined, mixed)

round-bit_rounds :
    (poly : ℕ) (table : List ℕ) (crc byte : ℕ)
    → IsTable poly table
    → byte < 256
    → round table crc byte ≡ bit_rounds poly 8 (bit_xor crc byte)
unfolding round
round-bit_rounds poly table crc byte t b =
    let x = bit_xor crc byte in
    let low : x % 256 < 256 = omega arith in
    let split : x ≡ bit_xor (x / 256 * 256) (x % 256) =
      omega (arith, xor_disjoint 8 (x / 256) (x % 256) low) in
    let entry : get_or table (x % 256) 0 ≡ bit_rounds poly 8 (x % 256) =
      (==_iff (get_or table (x % 256) 0) (bit_rounds poly 8 (x % 256))).0
        (all_below-apply 256 (λ i. get_or table i 0 == bit_rounds poly 8 i) (x % 256) t low) in
    ap₂ bit_xor (sym (high_part crc byte b)) entry
    ∙ ap (λ h. bit_xor h (bit_rounds poly 8 (x % 256))) (sym (bit_rounds-shift poly 8 (x / 256)))
    ∙ sym (bit_rounds-xor poly 8 (x / 256 * 256) (x % 256))
    ∙ sym (ap (bit_rounds poly 8) split)

-- The loop over the table computes the checksum that is defined bit by bit, for any bytes from any
-- start, when the table holds the eight-bit rounds of the polynomial.
pub update-bit_update :
    (poly : ℕ) (table : List ℕ) (crc : ℕ) (bytes : List ℕ)
    → IsTable poly table
    → IsBytes bytes
    → update table crc bytes ≡ bit_update poly crc bytes
unfolding update bit_update
update-bit_update poly table crc [] t v = refl
update-bit_update poly table crc (b ∷ bytes) t v =
    ap (λ c. update table c bytes) (round-bit_rounds poly table crc b t v.0)
    ∙ update-bit_update poly table (bit_rounds poly 8 (bit_xor crc b)) bytes t v.1

pub update-append :
    (table : List ℕ) (crc : ℕ) (xs ys : List ℕ)
    → update table crc (xs ++ ys) ≡ update table (update table crc xs) ys
unfolding update
update-append table crc [] ys = refl
update-append table crc (x ∷ xs) ys = update-append table (round table crc x) xs ys

-- nano_crc32 and nano_crc32c compute, for any bytes, the CRC of their polynomial as it is defined
-- bit by bit; and a checksum that is updated by parts is that of the whole.
pub checksums_lem :
    (crc : ℕ) (xs ys : List ℕ)
    → IsBytes xs
    → (crc32 xs ≡ bit_xor (bit_update crc32_poly 0xffffffff xs) 0xffffffff)
      × (crc32c xs ≡ bit_xor (bit_update crc32c_poly 0xffffffff xs) 0xffffffff)
      × (update crc32c_table crc (xs ++ ys) ≡ update crc32c_table (update crc32c_table crc xs) ys)
unfolding crc32 crc32c final
checksums_lem crc xs ys v = (
  ap (λ c. bit_xor c 0xffffffff)
      (update-bit_update crc32_poly crc32_table 0xffffffff xs crc32_table-IsTable v),
  ap (λ c. bit_xor c 0xffffffff)
      (update-bit_update crc32c_poly crc32c_table 0xffffffff xs crc32c_table-IsTable v),
  update-append crc32c_table crc xs ys,
)
